-- ===== src/Email/Released.antt =====
-- What `composeEmail` of backend/src/email/email.service.ts asks of a registered agent's message before
-- it leaves without a human, said of the request, the directory and the tables.
use email_ops_community.Prelude.{
  ◌≡◌, ◌≢◌, ◌↔◌, ◌⊎◌, ◌∙◌, ◌≤◌, refl, sym, ap, inl, inr, Bool, true, false, not, ◌&&◌, ◌||◌, Option,
  none, some, List, [], ◌∷◌, map, keep, any, take, length, All, All-weaken, ℕ, arith, Bool-cases,
  Option-cases,
}
use email_ops_community.Prelude.Text.{
  Text, text_eq, text_eq_iff, text_eq_refl, to_lower_case, has_text, is_empty,
}
use email_ops_community.Autonomy.{
  parse_recipient_policy, is_external_recipient, split_recipients, AgentComposeContext,
  l0_draft_only, l2_autonomous_audit,
}
use mathlib.Core.Path.{subst}
use email_ops_community.Email.{
  TrustedCorrespondent, received_mail, Store, Directory, Agent, EmailMessage,
}
use email_ops_community.Autonomy.Split.{split_recipients-external}
use email_ops_community.Autonomy.Matrix.{MayRelease, externals}
use email_ops_community.Mailboxes.{MailboxAccount}
use email_ops_community.Email.Engine.{is_none}
use email_ops_community.Email.Address.{normalize_address}
use email_ops_community.Email.Context.{
  ComposeInput, trusted_recipients, domain_part, in_thread_reply, is_address, mailbox_class_of,
  build_agent_compose_context,
}
use email_ops_community.Email.Addressees.{
  addressees, normalized_recipients-addressees, is_internal, domains_of,
  is_external_recipient-is_internal,
}

-- The recipient is trusted: the table has it as an address, or its domain as a domain.
unfoldable pub is_trusted : Text → List Text → List TrustedCorrespondent → Text → Bool
is_trusted w everyone rows r =
    any
      (λ t.
        text_eq t.workspace_id w
        && is_address t.scope
        && has_text everyone t.address
        && text_eq r (to_lower_case t.address))
      rows
    || not (is_empty (domain_part r))
      && any
          (λ t.
            text_eq t.workspace_id w
            && not (is_address t.scope)
            && has_text (keep (λ d. not (is_empty d)) (map domain_part everyone)) t.address
            && text_eq (domain_part r) (to_lower_case t.address))
          rows

has_text-map-keep :
    (p : TrustedCorrespondent → Bool) (rows : List TrustedCorrespondent) (r : Text)
    → has_text (map (λ t. to_lower_case t.address) (keep p rows)) r
      ≡ any (λ t. p t && text_eq r (to_lower_case t.address)) rows
has_text-map-keep p [] r = refl
has_text-map-keep p (t ∷ rows) r = ground (arith, has_text-map-keep p rows r)

has_text-keep_and :
    (p : Text → Bool) (xs : List Text) (r : Text) → has_text (keep p xs) r ≡ (has_text xs r && p r)
has_text-keep_and p [] r = refl
has_text-keep_and p (x ∷ xs) r =
    let rest = has_text-keep_and p xs r in
    elim (Bool-cases (text_eq r x)) [
      | inl e ↦ let same : p r ≡ p x = ap p ((text_eq_iff r x).0 e) in ground (arith, e, same, rest)
      | inr e ↦ ground (arith, e, rest)
    ]

has_text-keep :
    (p : Text → Bool) (xs : List Text) (r : Text)
    → has_text xs r ≡ true
    → has_text (keep p xs) r ≡ p r
has_text-keep p xs r h = has_text-keep_and p xs r ∙ rw h refl

-- For a recipient of the message the list of the trusted ones says what the table says.
trusted_recipients-is_trusted :
    (w : Text) (everyone : List Text) (rows : List TrustedCorrespondent) (r : Text)
    → has_text everyone r ≡ true
    → has_text (trusted_recipients w everyone rows) r ≡ is_trusted w everyone rows r
unfolding trusted_recipients is_trusted
trusted_recipients-is_trusted w everyone rows r h =
    has_text-keep _ everyone r h
    ∙ rw (has_text-map-keep _ rows r, has_text-map-keep _ rows (domain_part r)) refl

-- The message answers, in its thread, an inbound one from a recipient outside: the request attests the
-- sender, or one of the first 200 received messages of the thread is from such a recipient.
unfoldable pub answers_inbound : Text → ComposeInput → List Text → List EmailMessage → Bool
answers_inbound w input outside messages = elim input.in_reply_to_thread_id [
  | none ↦ false
  | some thread ↦
      not (is_empty thread)
      && not (is_none outside)
      && ((elim input.inbound_reply_attestation [
        | none ↦ false
        | some a ↦ not (is_empty a) && has_text outside (normalize_address a)
      ])
          || any
              (λ m. elim m.from_address [
                | none ↦ false
                | some a ↦ not (is_empty a) && has_text outside (normalize_address a)
              ])
              (take 200 (
                keep
                  (λ m.
                    text_eq m.workspace_id w
                    && (elim m.thread_id [ none ↦ false | some t ↦ text_eq t thread ])
                    && (elim m.direction [ received_mail ↦ true | _ ↦ false ]))
                  messages)))
]

in_thread_reply-answers_inbound :
    (w : Text) (input : ComposeInput) (outside : List Text) (messages : List EmailMessage)
    → in_thread_reply w input outside messages ≡ answers_inbound w input outside messages
unfolding in_thread_reply answers_inbound
in_thread_reply-answers_inbound w input outside messages =
    elim (Option-cases input.in_reply_to_thread_id) [
      | inl e ↦ rw (e, in_thread_reply, answers_inbound) refl
      | inr (thread, e) ↦ rw (e, in_thread_reply, answers_inbound) refl
    ]

not-true : (b : Bool) → not b ≡ true → b ≡ false
not-true false h = refl
not-true true h = ground (arith, h)

All-has_text-more :
    (x : Text) (xs rs : List Text)
    → All (λ r. has_text xs r ≡ true) rs
    → All (λ r. has_text (x ∷ xs) r ≡ true) rs
All-has_text-more x xs rs h =
    All-weaken _ _ (λ r (e : has_text xs r ≡ true). ground (arith, e)) rs h

All-self : (xs : List Text) → All (λ r. has_text xs r ≡ true) xs
All-self [] = tt
All-self (x ∷ xs) = (rw (text_eq_refl x) refl, All-has_text-more x xs xs (All-self xs))

module _ (dir : Directory) (w : Text) (a : Agent) (mailbox : Option MailboxAccount)
    (input : ComposeInput) (s : Store) where
  abbrev outsiders : List Text → List Text
  outsiders everyone = keep (λ r. not (is_internal dir w a r)) everyone

  abbrev pub ReleasedTo : List Text → Type 0
  ReleasedTo everyone =
      (a.dial.autonomy_level ≢ l0_draft_only)
      × (All (λ r. is_internal dir w a r ≡ true) everyone
          ⊎ ((a.dial.autonomy_level ≡ l2_autonomous_audit)
              × ((parse_recipient_policy a.dial.recipient_policy).require_approval_for_external
                  ≡ false)
              × (dir.autonomous_send_enabled ≡ true)
              × (answers_inbound w input (outsiders everyone) s.messages ≡ true)
              × (length input.attachments ≡ 0)
              × (length (outsiders everyone) ≤ 5)
              × All (λ r. is_internal dir w a r ≡ false → is_trusted w everyone s.trusted r ≡ true)
                  everyone))

  abbrev context_to : List Text → AgentComposeContext
  context_to everyone = record {
    mailbox_class = mailbox_class_of dir w mailbox;
    internal_domains = domains_of dir w a;
    recipients = everyone;
    is_in_thread_reply_to_inbound =
        in_thread_reply w input (split_recipients everyone (domains_of dir w a)).1 s.messages;
    attachment_count = length input.attachments;
    trusted_addresses = trusted_recipients w everyone s.trusted;
    autonomous_send_enabled = dir.autonomous_send_enabled;
  }

  externals-outsiders :
      (everyone : List Text) → externals (context_to everyone) ≡ outsiders everyone
  externals-outsiders [] = refl
  externals-outsiders (r ∷ rs) =
      ground (arith, is_external_recipient-is_internal dir w a r, externals-outsiders rs)

  is_internal-external :
      (r : Text)
      → (is_external_recipient r (domains_of dir w a) ≡ false) ↔ (is_internal dir w a r ≡ true)
  is_internal-external r = ground (arith, is_external_recipient-is_internal dir w a r)

  AllInternal-is_internal :
      (everyone rs : List Text)
      → All (λ r. is_external_recipient r (domains_of dir w a) ≡ false) rs
        ↔ All (λ r. is_internal dir w a r ≡ true) rs
  AllInternal-is_internal everyone rs = (
    All-weaken _ _ (λ r h. (is_internal-external r).0 h) rs,
    All-weaken _ _ (λ r h. (is_internal-external r).1 h) rs,
  )

  -- For members of the list, the lists of the context say what the tables say.
  trusted-both :
      (everyone rs : List Text)
      → All (λ r. has_text everyone r ≡ true) rs
      → All
          (λ r.
            is_external_recipient r (domains_of dir w a) ≡ true
            → has_text (trusted_recipients w everyone s.trusted) r ≡ true)
          rs
        ↔ All (λ r. is_internal dir w a r ≡ false → is_trusted w everyone s.trusted r ≡ true) rs
  trusted-both everyone [] among = ((λ h. tt), (λ h. tt))
  trusted-both everyone (r ∷ rs) among =
      let (to, from) = trusted-both everyone rs among.1 in
      let e = is_external_recipient-is_internal dir w a r in
      let t = trusted_recipients-is_trusted w everyone s.trusted r among.0 in
      (
        (λ h. ((λ inside. sym t ∙ h.0 (e ∙ ap not inside)), to h.1)),
        (λ h.
            ((λ outside. t ∙ h.0 (not-true (is_internal dir w a r) (sym e ∙ outside))), from h.1)),
      )

  answers-both :
      (everyone : List Text)
      → in_thread_reply w input (split_recipients everyone (domains_of dir w a)).1 s.messages
        ≡ answers_inbound w input (outsiders everyone) s.messages
  answers-both everyone =
      ap (λ z. in_thread_reply w input z s.messages)
        (split_recipients-external everyone (domains_of dir w a) ∙ externals-outsiders everyone)
      ∙ in_thread_reply-answers_inbound w input (outsiders everyone) s.messages

  MayRelease-context_to :
      (everyone : List Text) → MayRelease a.dial (context_to everyone) ↔ ReleasedTo everyone
  MayRelease-context_to everyone =
      let (all_in, in_all) = AllInternal-is_internal everyone everyone in
      let (all_trusted, trusted_all) = trusted-both everyone everyone (All-self everyone) in
      let answers = answers-both everyone in
      let count = ap {B = ℕ} length (externals-outsiders everyone) in
      (
        (λ h. elim h.1 [
          | inl i ↦ (h.0, inl (all_in i))
          | inr (l, p, sw, r, n, c, t) ↦
              (h.0, inr (l, p, sw, sym answers ∙ r, n, omega (arith, c, count), all_trusted t))
        ]),
        (λ h. elim h.1 [
          | inl i ↦ (h.0, inl (in_all i))
          | inr (l, p, sw, r, n, c, t) ↦
              (h.0, inr (l, p, sw, answers ∙ r, n, omega (arith, c, count), trusted_all t))
        ]),
      )

  -- The conditions of the matrix on the context of the message, and those on the request itself.
  pub MayRelease-ReleasedTo :
      MayRelease a.dial (build_agent_compose_context dir w a mailbox input s)
      ↔ ReleasedTo (addressees input)
  unfolding build_agent_compose_context
  MayRelease-ReleasedTo =
      subst (λ z. MayRelease a.dial (context_to z) ↔ ReleasedTo (addressees input))
        (sym (normalized_recipients-addressees input)) (MayRelease-context_to (addressees input))
