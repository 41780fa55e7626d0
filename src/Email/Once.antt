-- ===== src/Email/Once.antt =====
-- A second request with the same key, in backend/src/email/email.service.ts.
use email_ops_community.Prelude.{
  ℕ, ◌≡◌, ◌⊎◌, refl, sym, ap, inl, inr, Bool, true, false, Option, none, some, List, [], ◌∷◌, ◌++◌,
  arith, find, Bool-cases, if_both, Option-cases, if◌then◌else◌,
}
use mathlib.Core.Path.{subst}
use email_ops_community.Prelude.Text.{Text, text_eq, text_eq_refl, is_empty}
use email_ops_community.Mailboxes.{MailboxAccount}
use email_ops_community.Autonomy.{Mode, send, draft, AgentComposeDecision}
use email_ops_community.Email.{EmailMessage, SendReq, EngineSendResult, Engine, Store, Directory}
use email_ops_community.Email.Contacts.{remember_contacts}
use email_ops_community.Email.Engine.{call_engine, update_message, stamped}
use email_ops_community.Email.Context.{ComposeInput}
use email_ops_community.Email.Compose.{
  has_ref, find_ref, agent_of, is_paused, explicit_from, may_send_as, compose_decision, remember,
  SendPlan, ComposePrep, done, refused, to_send,
}
use email_ops_community.Email.Phases.{
  stage_draft, record_send, by_mode, prepare_new, compose_prepare, with_reply_headers, drop_draft,
  delete_saved, resolve_mailbox_for_caller, audit_send, compose_finish, unchanged, forbidden,
  finish_prep, compose_email,
}

find-last {ℓ} :
    {A : Type ℓ} (p : A → Bool) (xs : List A) (x : A)
    → find p xs ≡ none
    → p x ≡ true
    → find p (xs ++ x ∷ []) ≡ some x
find-last p [] x h e = rw (e, find) refl
find-last p (y ∷ xs) x h e = elim (Bool-cases (p y)) [
  | inl f ↦ ground (arith, f, h)
  | inr f ↦ let h' : find p xs ≡ none = ground (arith, f, h) in rw (f, find) (find-last p xs x h' e)
]

pub remember-messages :
    (w : Text) (mailbox : Option MailboxAccount) (input : ComposeInput) (s : Store)
    → (remember w mailbox input s).messages ≡ s.messages
unfolding remember_contacts
remember-messages w none input s = refl
remember-messages w (some m) input s = refl

pub call_engine-messages :
    (dir : Directory) (engine : Engine) (mailbox : Option MailboxAccount) (req : SendReq)
    (s : Store)
    → (call_engine dir engine mailbox req s).1.messages ≡ s.messages
unfolding call_engine
call_engine-messages dir engine none req s = refl
call_engine-messages dir engine (some m) req s = ground arith

delete_saved-messages :
    (dir : Directory) (w : Text) (u : Option Text) (mailbox id : Text) (s : Store)
    → (delete_saved dir w u mailbox id s).messages ≡ s.messages
unfolding delete_saved
delete_saved-messages dir w u mailbox id s =
    elim (Option-cases (resolve_mailbox_for_caller dir w u mailbox)) [
      | inl e ↦ rw (delete_saved, e) refl
      | inr (m, e) ↦ rw (delete_saved, e) (ground arith)
    ]

drop_draft-messages :
    (dir : Directory) (w : Text) (u : Option Text) (b : Bool) (mailbox : Option MailboxAccount)
    (id : Option Text) (s : Store)
    → (drop_draft dir w u b mailbox id s).messages ≡ s.messages
drop_draft-messages dir w u true (some m) (some id) s =
    if_both (λ (x : Store). x.messages ≡ s.messages) (is_empty id) _ _ refl
      (delete_saved-messages dir w u m.id id s)
drop_draft-messages dir w u true (some m) none s = refl
drop_draft-messages dir w u true none id s = refl
drop_draft-messages dir w u false mailbox id s = refl

audit_send-messages :
    (w : Text) (u : Option Text) (plan : SendPlan) (r : EngineSendResult) (s : Store)
    → (audit_send w u plan r s).messages ≡ s.messages
audit_send-messages w u plan r s = ground arith

find-update_message :
    (p : EmailMessage → Bool) (id : Text) (change : EmailMessage → EmailMessage)
    (ms : List EmailMessage) (m : EmailMessage)
    → ((x : EmailMessage) → p (change x) ≡ p x)
    → find p ms ≡ some m
    → (m' : EmailMessage) × (find p (update_message id change ms) ≡ some m')
unfolding update_message
find-update_message p id change [] m same h = ground (arith, h)
find-update_message p id change (x ∷ ms) m same h =
    let head = (if text_eq x.id id then change x else x) in
    let same_head : p head ≡ p x = elim (Bool-cases (text_eq x.id id)) [
      | inl e ↦ rw e (same x)
      | inr e ↦ rw e refl
    ] in
    elim (Bool-cases (p x)) [
      | inl e ↦ (head, rw (same_head, e) refl)
      | inr e ↦
          let h' : find p ms ≡ some m = ground (arith, e, h) in
          rw (same_head, e) (find-update_message p id change ms m same h')
    ]

-- A message of that key is in the store.
abbrev pub IsRecorded : Text → Text → Text → Store → Type 0
IsRecorded w source ref s = (m : EmailMessage) × (find_ref w source ref s ≡ some m)

pub find_ref-add_message :
    (w source ref : Text) (m : EmailMessage) (ms : List EmailMessage)
    → m.workspace_id ≡ w
    → m.external_source ≡ source
    → m.external_ref ≡ ref
    → find (has_ref w source ref) ms ≡ none
    → find (has_ref w source ref) (ms ++ m ∷ []) ≡ some m
find_ref-add_message w source ref m ms ew es er h =
    let self : has_ref w source ref m ≡ true =
      rw (ew, es, er, text_eq_refl w, text_eq_refl source, text_eq_refl ref) refl in
    find-last (has_ref w source ref) ms m h self

record_send-IsRecorded :
    (dir : Directory) (id w : Text) (u : Option Text) (input : ComposeInput) (s : Store)
    → find_ref w input.external_source input.external_ref s ≡ none
    → IsRecorded w input.external_source input.external_ref (record_send dir id w u input s).1
unfolding record_send
record_send-IsRecorded dir id w u input s h =
    rw remember-messages (_, find_ref-add_message w _ _ _ s.messages refl refl refl h)

-- Phase 1 throws, or leaves a message of its key.
IsSettled : Text → ComposeInput → ComposePrep × Store → Type 0
IsSettled w input (refused why, s) = Unit
IsSettled w input (done m, s) = find_ref w input.external_source input.external_ref s ≡ some m
IsSettled w input (to_send plan, s) = IsRecorded w input.external_source input.external_ref s

by_mode-IsSettled :
    (dir : Directory) (id item w : Text) (u : Option Text) (input : ComposeInput)
    (d : AgentComposeDecision) (s : Store) (mode : Mode)
    → find_ref w input.external_source input.external_ref s ≡ none
    → IsSettled w input (by_mode dir id item w u input d s mode)
unfolding stage_draft IsSettled
by_mode-IsSettled dir id item w u input d s send h = record_send-IsRecorded dir id w u input s h
by_mode-IsSettled dir id item w u input d s draft h =
    rw remember-messages (find_ref-add_message w _ _ _ s.messages refl refl refl h)

prepare_new-IsSettled :
    (dir : Directory) (id item w : Text) (u : Option Text) (input : ComposeInput) (s : Store)
    → find_ref w input.external_source input.external_ref s ≡ none
    → IsSettled w input (prepare_new dir id item w u input s)
unfolding prepare_new IsSettled
prepare_new-IsSettled dir id item w u input s h = elim (Bool-cases (dir.agents_paused w)) [
  | inl e ↦ rw e tt
  | inr e ↦ elim (Bool-cases (is_paused (agent_of dir w input))) [
    | inl f ↦ rw (e, f) tt
    | inr f ↦ elim (Bool-cases (may_send_as dir u (explicit_from dir w input))) [
      | inr g ↦ rw (e, f, g) tt
      | inl g ↦
          let d = compose_decision dir w input s in
          rw (e, f, g) (by_mode-IsSettled dir id item w u input d s d.mode h)
    ]
  ]
]

pub compose_prepare-find_ref :
    (dir : Directory) (id item w : Text) (u : Option Text) (input : ComposeInput) (s : Store)
    (m : EmailMessage)
    → find_ref w input.external_source input.external_ref s ≡ some m
    → compose_prepare dir id item w u input s ≡ (done m, s)
unfolding compose_prepare
compose_prepare-find_ref dir id item w u input s m e = rw (compose_prepare, e) refl

pub compose_prepare-fresh :
    (dir : Directory) (id item w : Text) (u : Option Text) (input : ComposeInput) (s : Store)
    → find_ref w input.external_source input.external_ref s ≡ none
    → compose_prepare dir id item w u input s ≡ prepare_new dir id item w u input s
unfolding compose_prepare
compose_prepare-fresh dir id item w u input s e = rw (compose_prepare, e) refl

compose_prepare-IsSettled :
    (dir : Directory) (id item w : Text) (u : Option Text) (input : ComposeInput) (s : Store)
    → IsSettled w input (compose_prepare dir id item w u input s)
unfolding IsSettled
compose_prepare-IsSettled dir id item w u input s =
    let P = IsSettled w input in
    elim (Option-cases (find_ref w input.external_source input.external_ref s)) [
      | inl e ↦
          subst (λ p. P p) (sym (compose_prepare-fresh dir id item w u input s e))
            (prepare_new-IsSettled dir id item w u input s e)
      | inr (m, e) ↦ subst (λ p. P p) (sym (compose_prepare-find_ref dir id item w u input s m e)) e
    ]

compose_finish-IsRecorded :
    (now : ℕ) (dir : Directory) (engine : Engine) (w : Text) (u : Option Text)
    (input : ComposeInput) (plan : SendPlan) (s : Store) (source ref : Text)
    → IsRecorded w source ref s
    → IsRecorded w source ref (compose_finish now dir engine w u input plan s).1
unfolding compose_finish
compose_finish-IsRecorded now dir engine w u input plan s source ref (m, e) =
    let sent = call_engine dir engine plan.mailbox (with_reply_headers dir w input plan s) s in
    let s' = drop_draft dir w u sent.0.accepted plan.mailbox input.draft_id sent.1 in
    let kept : find (has_ref w source ref) s'.messages ≡ some m =
      rw (drop_draft-messages, call_engine-messages) e in
    rw audit_send-messages (
      find-update_message (has_ref w source ref) plan.message_id (stamped now sent.0) s'.messages m
        (λ x. refl) kept)

finish_prep-IsRecorded :
    (now : ℕ) (dir : Directory) (engine : Engine) (w : Text) (u : Option Text)
    (input : ComposeInput) (p : ComposePrep × Store)
    → IsSettled w input p
    → ((why : Text) × ((finish_prep now dir engine w u input p).0 ≡ forbidden why))
      ⊎ IsRecorded w input.external_source input.external_ref
          (finish_prep now dir engine w u input p).1
unfolding IsSettled
finish_prep-IsRecorded now dir engine w u input (refused why, s) h = inl (why, refl)
finish_prep-IsRecorded now dir engine w u input (done m, s) h = inr (m, h)
finish_prep-IsRecorded now dir engine w u input (to_send plan, s) h =
    inr (compose_finish-IsRecorded now dir engine w u input plan s _ _ h)

compose_email-IsRecorded :
    (now : ℕ) (dir : Directory) (engine : Engine) (id item w : Text) (u : Option Text)
    (input : ComposeInput) (s : Store)
    → let r = compose_email now dir engine id item w u input s in
      ((why : Text) × (r.0 ≡ forbidden why))
      ⊎ IsRecorded w input.external_source input.external_ref r.1
unfolding compose_email
compose_email-IsRecorded now dir engine id item w u input s =
    finish_prep-IsRecorded now dir engine w u input (compose_prepare dir id item w u input s)
      (compose_prepare-IsSettled dir id item w u input s)

pub compose_email-find_ref :
    (now : ℕ) (dir : Directory) (engine : Engine) (id item w : Text) (u : Option Text)
    (input : ComposeInput) (s : Store) (m : EmailMessage)
    → find_ref w input.external_source input.external_ref s ≡ some m
    → compose_email now dir engine id item w u input s ≡ (unchanged m, s)
unfolding compose_email
compose_email-find_ref now dir engine id item w u input s m e =
    ap (finish_prep now dir engine w u input) (compose_prepare-find_ref dir id item w u input s m e)

-- After a compose, the key is taken: a second one, whatever else it asks, is given the message of
-- the key and leaves everything, the calls of the engine included, as it is; unless the first was
-- refused.
pub compose_email-once :
    (now now' : ℕ) (dir dir' : Directory) (engine engine' : Engine) (id id' item item' w : Text)
    (u u' : Option Text) (input input' : ComposeInput) (s : Store)
    → input'.external_source ≡ input.external_source
    → input'.external_ref ≡ input.external_ref
    → let once = compose_email now dir engine id item w u input s in
      ((why : Text) × (once.0 ≡ forbidden why))
      ⊎ ((m : EmailMessage) × (find_ref w input.external_source input.external_ref once.1 ≡ some m)
          × (compose_email now' dir' engine' id' item' w u' input' once.1 ≡ (unchanged m, once.1)))
compose_email-once now now' dir dir' engine engine' id id' item item' w u u' input input' s es er =
    elim (compose_email-IsRecorded now dir engine id item w u input s) [
      | inl refusal ↦ inl refusal
      | inr (m, e) ↦
          inr (
            m,
            e,
            compose_email-find_ref now' dir' engine' id' item' w u' input' _ m (rw (es, er) e),
          )
    ]
