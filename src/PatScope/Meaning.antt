-- ===== src/PatScope/Meaning.antt =====
-- What a token may do, by backend/src/auth/pat-scope.ts, told without its string tests.
use email_ops_community.Prelude.{
  ℕ, ◌&&◌, ◌||◌, ◌+◌, ◌<◌, ◌≡◌, ◌≢◌, ◌↔◌, ◌⊎◌, inl, inr, refl, sym, ap, ◌∙◌, Bool, true, false, not,
  Option, none, some, List, [], ◌∷◌, ◌++◌, arith, any, Any, length, length-append, Bool-cases, ltb,
  if◌then◌else◌,
}
use mathlib.Core.List.{reverse, reverse-append, reverse-reverse}
use email_ops_community.Prelude.Text.{
  Text, txt, text_eq, text_eq_iff, ends_with, starts_with, is_empty,
}
use email_ops_community.PatScope.{
  PatScope, mail_read, mail_write, agent_inbox_read, agent_inbox_approve, cleaner_run,
  admin_provision, ui_control, PatRecord, drop_last, grants, scope_satisfies, is_expired, check_pat,
  scope_text, McpToolName, mcp_tool_scopes, returned, enforce_mcp_tool_scope,
}

pub starts_with_iff : (s t : Text) → (starts_with s t ≡ true) ↔ ((r : Text) × (s ≡ t ++ r))
unfolding starts_with
starts_with_iff s [] = ((λ h. (s, refl)), (λ h. refl))
starts_with_iff [] (d ∷ t) = ((λ h. ground (arith, h)), (λ h. ground (arith, h.1)))
starts_with_iff (c ∷ s) (d ∷ t) =
    let (to, from) = starts_with_iff s t in
    (
      (λ h. let (r, e) = to (ground (arith, h)) in (r, ground (arith, e, h))),
      (λ h. ground (arith, h.1, from (h.0, ground (arith, h.1)))),
    )

drop_last-snoc : (p : Text) (c d : ℕ) → drop_last (p ++ c ∷ d ∷ []) ≡ p ++ c ∷ []
unfolding drop_last
drop_last-snoc [] c d = refl
drop_last-snoc (x ∷ []) c d = refl
drop_last-snoc (x ∷ y ∷ p) c d = ap (λ s. x ∷ s) (drop_last-snoc (y ∷ p) c d)

ends_with-wildcard :
    (raw : Text) → (ends_with raw (txt ":*") ≡ true) ↔ ((p : Text) × (raw ≡ p ++ txt ":*"))
unfolding ends_with
ends_with-wildcard raw =
    let (to, from) = starts_with_iff (reverse raw) (reverse (txt ":*")) in
    (
      (λ h.
          let (r, e) = to h in
          (
            reverse r,
            sym (reverse-reverse raw) ∙ ap reverse e ∙ reverse-append (reverse (txt ":*")) r,
          )),
      (λ h. from (reverse h.0, ap reverse h.1 ∙ reverse-append h.0 (txt ":*"))),
    )

-- A scope that a token holds, and the scope that is required: all, the same, or a family
-- `prefix:*` with a member of the family.
abbrev pub Grants : Text → Text → Type 0
Grants required raw =
    (raw ≡ txt "*")
    ⊎ (raw ≡ required)
    ⊎ ((p : Text) × (s : Text) × (raw ≡ p ++ txt ":*") × (required ≡ p ++ txt ":" ++ s) × (s ≢ []))

-- The wildcard branch.
abbrev wild : Text → Text → Bool
wild required raw =
    starts_with required (drop_last raw) && ltb (length (drop_last raw)) (length required)

length-suffix : (p s : Text) → (ltb (length p) (length (p ++ s)) ≡ true) ↔ (s ≢ [])
length-suffix p [] = ((λ h. ground (arith, h, length-append p [])), (λ h. absurd (h refl)))
length-suffix p (c ∷ s) =
    ((λ h. (λ e. ground (arith, e))), (λ h. ground (arith, length-append p (c ∷ s))))

drop_last-wildcard : (p : Text) → drop_last (p ++ txt ":*") ≡ p ++ txt ":"
drop_last-wildcard p = drop_last-snoc p b':' b'*'

wild_iff :
    (required p : Text)
    → (wild required (p ++ txt ":*") ≡ true)
      ↔ ((s : Text) × (required ≡ p ++ txt ":" ++ s) × (s ≢ []))
wild_iff required p =
    let stem = p ++ txt ":" in
    let (to, from) = starts_with_iff required stem in
    (
      (λ h.
          let h' : (starts_with required stem && ltb (length stem) (length required)) ≡ true =
            rw (← drop_last-wildcard p) h in
          let (s, e) = to (ground (arith, h')) in
          let longer : ltb (length stem) (length (stem ++ s)) ≡ true =
            rw (← e) (ground (arith, h')) in
          (s, e, (length-suffix stem s).0 longer)),
      (λ h.
          let e : required ≡ stem ++ h.0 = h.1 in
          let longer : ltb (length stem) (length required) ≡ true =
            rw e ((length-suffix stem h.0).1 h.2) in
          rw (drop_last-wildcard p) (ground (arith, from (h.0, e), longer))),
    )

full-text : (s : Text) → s ≢ [] → is_empty s ≡ false
full-text [] h = absurd (h refl)
full-text (c ∷ s) h = refl

wildcard-full : (p : Text) → is_empty (p ++ txt ":*") ≡ false
wildcard-full [] = refl
wildcard-full (c ∷ p) = refl

to-grants : (required raw : Text) → required ≢ [] → Grants required raw → grants required raw ≡ true
unfolding grants
to-grants required raw full (inl e) =
    let star : text_eq raw (txt "*") ≡ true = (text_eq_iff raw (txt "*")).1 e in rw e (ground arith)
to-grants required raw full (inr (inl e)) =
    let raw_full : is_empty raw ≡ false = full-text raw (λ n. full (sym e ∙ n)) in
    ground (arith, raw_full, (text_eq_iff raw required).1 e)
to-grants required raw full (inr (inr (p, s, e, r, more))) =
    let raw_full : is_empty raw ≡ false = rw e (wildcard-full p) in
    let ends : ends_with raw (txt ":*") ≡ true = (ends_with-wildcard raw).1 (p, e) in
    let family : wild required raw ≡ true = rw e ((wild_iff required p).1 (s, r, more)) in
    ground (arith, raw_full, ends, family)

from-grants : (required raw : Text) → grants required raw ≡ true → Grants required raw
unfolding grants
from-grants required raw h = elim (Bool-cases (text_eq raw (txt "*"))) [
  | inl star ↦ inl ((text_eq_iff raw (txt "*")).0 star)
  | inr other ↦ elim (Bool-cases (text_eq raw required)) [
    | inl same ↦ inr (inl ((text_eq_iff raw required).0 same))
    | inr apart ↦ elim (Bool-cases (ends_with raw (txt ":*"))) [
      | inl w ↦
          let (p, e) = (ends_with-wildcard raw).0 w in
          let h' : wild required raw ≡ true = ground (arith, h, other, apart, w) in
          let (s, r, more) = (wild_iff required p).0 (rw (← e) h') in inr (inr (p, s, e, r, more))
      | inr plain ↦ ground (arith, h, other, apart, plain)
    ]
  ]
]

any-Grants :
    (required : Text) (held : List Text)
    → required ≢ []
    → (any (grants required) held ≡ true) ↔ Any (Grants required) held
any-Grants required [] full = ground arith
any-Grants required (raw ∷ held) full =
    let (to, from) = any-Grants required held full in
    (
      (λ h. elim (Bool-cases (grants required raw)) [
        | inl e ↦ inl (from-grants required raw e)
        | inr e ↦ inr (to (ground (arith, h, e)))
      ]),
      (λ h. elim h [
        | inl g ↦ ground (arith, to-grants required raw full g)
        | inr gs ↦ ground (arith, from gs)
      ]),
    )

-- For a scope that is not the empty text: the loop answers true exactly when the token holds `*`,
-- the scope itself, or a family `prefix:*` of which the scope is a proper member.
pub scope_satisfies-Grants :
    (held : List Text) (required : Text)
    → required ≢ []
    → (scope_satisfies held required ≡ true) ↔ Any (Grants required) held
unfolding scope_satisfies
scope_satisfies-Grants held required full =
    rw (full-text required full) (any-Grants required held full)

-- A token that is neither revoked nor expired and that holds a grant of the scope.
abbrev pub Permits : PatRecord → Text → Text → Type 0
Permits pat required now_iso =
    (pat.revoked_at ≡ none)
    × (is_expired pat.expires_at now_iso ≡ false)
    × Any (Grants required) pat.scopes

abbrev Satisfied : PatRecord → Text → Text → Type 0
Satisfied pat required now_iso =
    (pat.revoked_at ≡ none)
    × (is_expired pat.expires_at now_iso ≡ false)
    × (scope_satisfies pat.scopes required ≡ true)

enforce-Satisfied :
    (pat : PatRecord) (tool_name : McpToolName) (now_iso : Text)
    → (enforce_mcp_tool_scope (some pat) tool_name now_iso ≡ returned)
      ↔ Satisfied pat (scope_text (mcp_tool_scopes tool_name)) now_iso
unfolding enforce_mcp_tool_scope check_pat
enforce-Satisfied pat tool_name now_iso = ground arith

scope_text-full : (scope : PatScope) → is_empty (scope_text scope) ≡ false
scope_text-full mail_read = refl
scope_text-full mail_write = refl
scope_text-full agent_inbox_read = refl
scope_text-full agent_inbox_approve = refl
scope_text-full cleaner_run = refl
scope_text-full admin_provision = refl
scope_text-full ui_control = refl

full-not-nil : (s : Text) → is_empty s ≡ false → s ≢ []
full-not-nil s h e = ground (arith, h, ap is_empty e)

-- A call with a token is let through exactly when the token is neither revoked nor expired and
-- grants the scope of the tool; a call without one (a JWT caller) always is.
pub enforce_mcp_tool_scope-Permits :
    (pat : PatRecord) (tool_name : McpToolName) (now_iso : Text)
    → ((enforce_mcp_tool_scope (some pat) tool_name now_iso ≡ returned)
        ↔ Permits pat (scope_text (mcp_tool_scopes tool_name)) now_iso)
      × (enforce_mcp_tool_scope none tool_name now_iso ≡ returned)
unfolding enforce_mcp_tool_scope
enforce_mcp_tool_scope-Permits pat tool_name now_iso =
    let scope = mcp_tool_scopes tool_name in
    let (to, from) = enforce-Satisfied pat tool_name now_iso in
    let (means, meant) =
      scope_satisfies-Grants pat.scopes (scope_text scope)
        (full-not-nil (scope_text scope) (scope_text-full scope)) in
    (
      (
        (λ h. let (live, fresh, held) = to h in (live, fresh, means held)),
        (λ h. from (h.0, h.1, meant h.2)),
      ),
      refl,
    )

-- None of the seven known scopes satisfies another one.
scope_apart :
    (scope required : PatScope)
    → scope_satisfies (scope_text scope ∷ []) (scope_text required) ≡ true
    → scope ≡ required
unfolding scope_satisfies grants drop_last email_ops_community.Prelude.Text.text_eq
    email_ops_community.Prelude.Text.starts_with email_ops_community.Prelude.Text.ends_with
scope_apart mail_read mail_read h = refl
scope_apart mail_read mail_write h = ground (arith, h)
scope_apart mail_read agent_inbox_read h = ground (arith, h)
scope_apart mail_read agent_inbox_approve h = ground (arith, h)
scope_apart mail_read cleaner_run h = ground (arith, h)
scope_apart mail_read admin_provision h = ground (arith, h)
scope_apart mail_read ui_control h = ground (arith, h)
scope_apart mail_write mail_read h = ground (arith, h)
scope_apart mail_write mail_write h = refl
scope_apart mail_write agent_inbox_read h = ground (arith, h)
scope_apart mail_write agent_inbox_approve h = ground (arith, h)
scope_apart mail_write cleaner_run h = ground (arith, h)
scope_apart mail_write admin_provision h = ground (arith, h)
scope_apart mail_write ui_control h = ground (arith, h)
scope_apart agent_inbox_read mail_read h = ground (arith, h)
scope_apart agent_inbox_read mail_write h = ground (arith, h)
scope_apart agent_inbox_read agent_inbox_read h = refl
scope_apart agent_inbox_read agent_inbox_approve h = ground (arith, h)
scope_apart agent_inbox_read cleaner_run h = ground (arith, h)
scope_apart agent_inbox_read admin_provision h = ground (arith, h)
scope_apart agent_inbox_read ui_control h = ground (arith, h)
scope_apart agent_inbox_approve mail_read h = ground (arith, h)
scope_apart agent_inbox_approve mail_write h = ground (arith, h)
scope_apart agent_inbox_approve agent_inbox_read h = ground (arith, h)
scope_apart agent_inbox_approve agent_inbox_approve h = refl
scope_apart agent_inbox_approve cleaner_run h = ground (arith, h)
scope_apart agent_inbox_approve admin_provision h = ground (arith, h)
scope_apart agent_inbox_approve ui_control h = ground (arith, h)
scope_apart cleaner_run mail_read h = ground (arith, h)
scope_apart cleaner_run mail_write h = ground (arith, h)
scope_apart cleaner_run agent_inbox_read h = ground (arith, h)
scope_apart cleaner_run agent_inbox_approve h = ground (arith, h)
scope_apart cleaner_run cleaner_run h = refl
scope_apart cleaner_run admin_provision h = ground (arith, h)
scope_apart cleaner_run ui_control h = ground (arith, h)
scope_apart admin_provision mail_read h = ground (arith, h)
scope_apart admin_provision mail_write h = ground (arith, h)
scope_apart admin_provision agent_inbox_read h = ground (arith, h)
scope_apart admin_provision agent_inbox_approve h = ground (arith, h)
scope_apart admin_provision cleaner_run h = ground (arith, h)
scope_apart admin_provision admin_provision h = refl
scope_apart admin_provision ui_control h = ground (arith, h)
scope_apart ui_control mail_read h = ground (arith, h)
scope_apart ui_control mail_write h = ground (arith, h)
scope_apart ui_control agent_inbox_read h = ground (arith, h)
scope_apart ui_control agent_inbox_approve h = ground (arith, h)
scope_apart ui_control cleaner_run h = ground (arith, h)
scope_apart ui_control admin_provision h = ground (arith, h)
scope_apart ui_control ui_control h = refl

-- Least privilege: a token that holds one known scope calls only the tools that the table lists
-- under that scope.
pub enforce_mcp_tool_scope-least :
    (pat : PatRecord) (scope : PatScope) (tool_name : McpToolName) (now_iso : Text)
    → pat.scopes ≡ scope_text scope ∷ []
    → enforce_mcp_tool_scope (some pat) tool_name now_iso ≡ returned
    → scope ≡ mcp_tool_scopes tool_name
enforce_mcp_tool_scope-least pat scope tool_name now_iso e h =
    let (live, fresh, held) = (enforce-Satisfied pat tool_name now_iso).0 h in
    scope_apart scope (mcp_tool_scopes tool_name)
      (ap (λ l. scope_satisfies l (scope_text (mcp_tool_scopes tool_name))) (sym e) ∙ held)
