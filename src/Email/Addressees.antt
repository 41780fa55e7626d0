-- ===== src/Email/Addressees.antt =====
-- Everyone a message of backend/src/email/email.service.ts goes to, and which of the addresses are of the
-- workspace's or the agent's own domains.
use email_ops_community.Prelude.{
  ◌≡◌, ◌∙◌, refl, ap, inl, inr, Bool, true, false, not, ◌&&◌, ◌||◌, List, [], ◌∷◌, ◌++◌, map, keep,
  any, length, ltb, arith, Bool-cases, if◌then◌else◌,
}
use email_ops_community.Prelude.Text.{
  Text, text_eq, text_eq_iff, trim, to_lower_case, strip_at, has_text, is_empty,
}
use email_ops_community.Autonomy.{parse_recipient_policy, recipient_domain, is_external_recipient}
use mathlib.Core.List.{append_assoc}
use email_ops_community.Email.{MailDomain, Directory, Agent}
use email_ops_community.Email.Address.{normalize_address}
use email_ops_community.Email.Context.{
  ComposeInput, unique, normalized_recipients, workspace_domains,
}

-- The addresses of a list in their normal form, without the blank ones.
clean : List Text → List Text
clean [] = []
clean (raw ∷ raws) =
    let rest = clean raws in
    if is_empty (normalize_address raw) then rest else normalize_address raw ∷ rest

abbrev first_line : Text → List Text → List Text
first_line to [] = to ∷ []
first_line to (a ∷ more) = a ∷ more

-- Everyone the message goes to: to, or the list of the to addresses, then cc, then bcc.
unfoldable pub addressees : ComposeInput → List Text
unfolding clean
addressees input =
    clean (first_line input.to_address input.to_addresses) ++ (clean input.cc ++ clean input.bcc)

clean-append : (xs ys : List Text) → clean (xs ++ ys) ≡ clean xs ++ clean ys
unfolding clean
clean-append [] ys = refl
clean-append (x ∷ xs) ys = ground (arith, clean-append xs ys)

clean-keep : (xs : List Text) → keep (λ a. not (is_empty a)) (map normalize_address xs) ≡ clean xs
unfolding clean
clean-keep [] = refl
clean-keep (x ∷ xs) = ground (arith, clean-keep xs)

pub normalized_recipients-addressees :
    (input : ComposeInput) → normalized_recipients input ≡ addressees input
unfolding normalized_recipients addressees
normalized_recipients-addressees input =
    let to = first_line input.to_address input.to_addresses in
    clean-keep (to ++ input.cc ++ input.bcc)
    ∙ clean-append (to ++ input.cc) input.bcc
    ∙ ap (λ z. z ++ clean input.bcc) (clean-append to input.cc)
    ∙ append_assoc (clean to) (clean input.cc) (clean input.bcc)

-- The recipient's domain is one of the workspace's mail domains or of the agent's policy.
unfoldable pub is_internal : Directory → Text → Agent → Text → Bool
is_internal dir w a r =
    not (is_empty (recipient_domain r))
    && (any
          (λ d.
            text_eq d.workspace_id w
            && text_eq (recipient_domain r) (strip_at (to_lower_case (trim d.domain))))
          dir.mail_domains
        || has_text (parse_recipient_policy a.dial.recipient_policy).internal_domains
            (recipient_domain r))

has_text-append :
    (xs ys : List Text) (s : Text) → has_text (xs ++ ys) s ≡ (has_text xs s || has_text ys s)
has_text-append [] ys s = refl
has_text-append (x ∷ xs) ys s = ground (arith, has_text-append xs ys s)

has_text-keep_other :
    (x s : Text) (xs : List Text)
    → text_eq s x ≡ false
    → has_text (keep (λ y. not (text_eq y x)) xs) s ≡ has_text xs s
has_text-keep_other x s [] h = refl
has_text-keep_other x s (y ∷ ys) h =
    let rest = has_text-keep_other x s ys h in
    elim (Bool-cases (text_eq y x)) [
      | inl e ↦
          let differs : text_eq s y ≡ false = ap (text_eq s) ((text_eq_iff y x).0 e) ∙ h in
          ground (arith, e, differs, rest)
      | inr e ↦ ground (arith, e, rest)
    ]

has_text-unique : (xs : List Text) (s : Text) → has_text (unique xs) s ≡ has_text xs s
unfolding unique
has_text-unique [] s = refl
has_text-unique (x ∷ xs) s = elim (Bool-cases (text_eq s x)) [
  | inl e ↦ ground (arith, e)
  | inr e ↦ rw e (has_text-keep_other x s (unique xs) e ∙ has_text-unique xs s)
]

-- The domains that the context has.
abbrev pub domains_of : Directory → Text → Agent → List Text
domains_of dir w a =
    unique
      (workspace_domains dir w ++ (parse_recipient_policy a.dial.recipient_policy).internal_domains)

blank-differs : (d c : Text) → is_empty d ≡ false → is_empty c ≡ true → text_eq d c ≡ false
unfolding text_eq
blank-differs [] c h e = ground (arith, h)
blank-differs (x ∷ d) [] h e = refl
blank-differs (x ∷ d) (y ∷ c) h e = ground (arith, e)

module _ (w d : Text) where
  has_text-domains :
      (rows : List MailDomain)
      → is_empty d ≡ false
      → has_text
          (keep
            (λ x. not (is_empty x))
            (map
              (λ r. strip_at (to_lower_case (trim r.domain)))
              (keep (λ r. text_eq r.workspace_id w) rows)))
          d
        ≡ any
            (λ r. text_eq r.workspace_id w && text_eq d (strip_at (to_lower_case (trim r.domain))))
            rows
  has_text-domains [] h = refl
  has_text-domains (r ∷ rows) h =
      let rest = has_text-domains rows h in
      let c = strip_at (to_lower_case (trim r.domain)) in
      elim (Bool-cases (text_eq r.workspace_id w)) [
        | inl e ↦ elim (Bool-cases (is_empty c)) [
          | inl f ↦
              let differs : text_eq d c ≡ false = blank-differs d c h f in
              rw (e, keep) (rw (f, keep, differs) rest)
          | inr f ↦ rw (e, keep) (rw (f, keep) (ap (λ z. text_eq d c || z) rest))
        ]
        | inr e ↦ rw (e, keep) rest
      ]

any_domain : (ds : List Text) (d : Text) → has_text ds d ≡ true → ltb 0 (length ds) ≡ true
any_domain [] d h = ground (arith, h)
any_domain (x ∷ ds) d h = ground arith

is_external_recipient-has_text :
    (ds : List Text) (r : Text)
    → is_external_recipient r ds
      ≡ not (not (is_empty (recipient_domain r)) && has_text ds (recipient_domain r))
unfolding is_external_recipient
is_external_recipient-has_text [] r = ground arith
is_external_recipient-has_text (d ∷ ds) r = ground arith

-- The test of the matrix is the test on the directory and the policy.
pub is_external_recipient-is_internal :
    (dir : Directory) (w : Text) (a : Agent) (r : Text)
    → is_external_recipient r (domains_of dir w a) ≡ not (is_internal dir w a r)
unfolding is_internal workspace_domains
is_external_recipient-is_internal dir w a r =
    let d = recipient_domain r in
    let own = (parse_recipient_policy a.dial.recipient_policy).internal_domains in
    elim (Bool-cases (is_empty d)) [
      | inl e ↦ is_external_recipient-has_text (domains_of dir w a) r ∙ rw e refl
      | inr e ↦
          is_external_recipient-has_text (domains_of dir w a) r
          ∙ ap (λ z. not (not (is_empty d) && z))
              (has_text-unique (workspace_domains dir w ++ own) d
                ∙ has_text-append (workspace_domains dir w) own d
                ∙ ap (λ z. z || has_text own d) (has_text-domains w d dir.mail_domains e))
    ]
