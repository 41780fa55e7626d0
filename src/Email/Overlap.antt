-- ===== src/Email/Overlap.antt =====
-- What the phases of `composeEmail` and `approveAgentInboxItem` of
-- backend/src/email/email.service.ts do when one run stops between them or two runs interleave.
use email_ops_community.Prelude.{
  ℕ, ◌≡◌, refl, sym, Bool, true, false, not, Option, none, some, arith, inl, inr, Option-cases,
  if◌then◌else◌,
}
use mathlib.Core.Path.{subst}
use email_ops_community.Prelude.Text.{Text}
use email_ops_community.Autonomy.{Mode, send, draft, AgentComposeDecision}
use email_ops_community.Delivery.{queued}
use email_ops_community.Email.{EmailMessage, Engine, Store, Directory}
use email_ops_community.Mailboxes.{MailboxAccount}
use email_ops_community.Email.Contacts.{remember_contacts}
use email_ops_community.Email.Context.{ComposeInput}
use email_ops_community.Email.Compose.{
  find_ref, remember, agent_of, is_paused, explicit_from, may_send_as, compose_decision,
  ComposePrep, refused,
}
use email_ops_community.Email.Phases.{
  record_send, by_mode, prepare_new, compose_prepare, unchanged, compose_email,
}
use email_ops_community.Email.Once.{
  find_ref-add_message, remember-messages, compose_prepare-find_ref, compose_prepare-fresh,
  compose_email-find_ref,
}
use email_ops_community.Email.Gate.{Sends}

-- A message on record that is still queued, and no call of the engine since.
abbrev pub IsLeft : Text → Text → Text → Store → Store → Type 0
IsLeft w source ref s s' =
    (m : EmailMessage) × (find_ref w source ref s' ≡ some m)
    × (m.status ≡ queued)
    × (s'.calls ≡ s.calls)

-- A send that phase 1 has planned.
IsQueued : Text → ComposeInput → Store → ComposePrep × Store → Type 0
IsQueued w input s p = Sends p → IsLeft w input.external_source input.external_ref s p.1

remember-calls :
    (w : Text) (mailbox : Option MailboxAccount) (input : ComposeInput) (s : Store)
    → (remember w mailbox input s).calls ≡ s.calls
unfolding remember_contacts
remember-calls w none input s = refl
remember-calls w (some m) input s = refl

by_mode-IsQueued :
    (dir : Directory) (id item w : Text) (u : Option Text) (input : ComposeInput)
    (d : AgentComposeDecision) (s : Store) (mode : Mode)
    → find_ref w input.external_source input.external_ref s ≡ none
    → IsQueued w input s (by_mode dir id item w u input d s mode)
unfolding IsQueued Sends record_send
by_mode-IsQueued dir id item w u input d s draft h = λ x. ground arith
by_mode-IsQueued dir id item w u input d s send h = λ x.
    rw (remember-messages, remember-calls)
      (_, find_ref-add_message w _ _ _ s.messages refl refl refl h, refl, refl)

guard-IsQueued :
    (b : Bool) (why w : Text) (input : ComposeInput) (s : Store) (p : ComposePrep × Store)
    → IsQueued w input s p
    → IsQueued w input s (if b then (refused why, s) else p)
unfolding IsQueued Sends
guard-IsQueued true why w input s p h = λ x. ground arith
guard-IsQueued false why w input s p h = h

prepare_new-IsQueued :
    (dir : Directory) (id item w : Text) (u : Option Text) (input : ComposeInput) (s : Store)
    → find_ref w input.external_source input.external_ref s ≡ none
    → IsQueued w input s (prepare_new dir id item w u input s)
unfolding prepare_new
prepare_new-IsQueued dir id item w u input s h =
    let d = compose_decision dir w input s in
    guard-IsQueued (dir.agents_paused w) _ w input s _ (
      guard-IsQueued (is_paused (agent_of dir w input)) _ w input s _ (
        guard-IsQueued (not (may_send_as dir u (explicit_from dir w input))) _ w input s _
          (by_mode-IsQueued dir id item w u input d s d.mode h)))

compose_prepare-IsQueued :
    (dir : Directory) (id item w : Text) (u : Option Text) (input : ComposeInput) (s : Store)
    → IsQueued w input s (compose_prepare dir id item w u input s)
unfolding IsQueued Sends
compose_prepare-IsQueued dir id item w u input s =
    let P = IsQueued w input s in
    elim (Option-cases (find_ref w input.external_source input.external_ref s)) [
      | inl e ↦
          subst (λ p. P p) (sym (compose_prepare-fresh dir id item w u input s e))
            (prepare_new-IsQueued dir id item w u input s e)
      | inr (m, e) ↦
          subst (λ p. P p) (sym (compose_prepare-find_ref dir id item w u input s m e))
            (λ x. ground arith)
    ]

-- A run that ends after phase 1 of a send leaves its message queued, without a call of the engine; a
-- later run of the same key is given that message as it is, and makes no call either.
pub compose_email-interrupted :
    (now : ℕ) (dir dir' : Directory) (engine : Engine) (id id' item item' w : Text)
    (u u' : Option Text) (input : ComposeInput) (s : Store)
    → let prep = compose_prepare dir id item w u input s in
      Sends prep
      → (m : EmailMessage) × (m.status ≡ queued)
        × (prep.1.calls ≡ s.calls)
        × (compose_email now dir' engine id' item' w u' input prep.1 ≡ (unchanged m, prep.1))
unfolding IsQueued
compose_email-interrupted now dir dir' engine id id' item item' w u u' input s h =
    let (m, found, waits, same) = compose_prepare-IsQueued dir id item w u input s h in
    (m, waits, same, compose_email-find_ref now dir' engine id' item' w u' input _ m found)
