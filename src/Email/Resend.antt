-- ===== src/Email/Resend.antt =====
-- Two reviewers of one item of the queue, of `approveAgentInboxItem` in
-- backend/src/email/email.service.ts: the phases of the two approvals may interleave.
use email_ops_community.Prelude.{ℕ, ◌≡◌, refl, ap, ◌∙◌, Bool, true, Option, some, [], ◌∷◌, ◌++◌}
use email_ops_community.Prelude.Text.{Text}
use email_ops_community.Email.{
  EmailMessage, pending, email, AgentInboxItem, Engine, Store, Directory,
}
use email_ops_community.Email.Engine.{call_engine}
use email_ops_community.Email.Inbox.{
  Cleaner, find_item, message_of, stored_mailbox, may_push, plan_of, ApprovePlan, to_send,
  approve_prepare, went_out, approve_finish,
}
use email_ops_community.Email.Confirm.{
  call_of, call_for, call_engine-IsAnswered, learn-frame, approve_finish-accepted,
  approve_prepare-find_item,
}

-- An approval whose call the engine accepts: the reviewer is told that the message went out, and the
-- engine has had the call.
approve_finish-sends :
    (now : ℕ) (dir : Directory) (engine : Engine) (w : Text) (u remark : Option Text) (trust : Bool)
    (plan : ApprovePlan) (s : Store)
    → (call_engine dir engine plan.mailbox plan.req s).0.accepted ≡ true
    → let r = approve_finish now dir engine w u remark trust plan s in
      (r.0 ≡ went_out) × (r.1.calls ≡ s.calls ++ call_of dir plan.mailbox plan.req ∷ [])
approve_finish-sends now dir engine w u remark trust plan s e =
    let sent = call_engine dir engine plan.mailbox plan.req s in
    let (answered, call) = call_engine-IsAnswered dir engine plan.mailbox plan.req s e in
    rw (approve_finish-accepted now dir engine w u remark trust plan s true e)
      (refl, (learn-frame trust dir w plan sent.1).0 ∙ ap (λ x. x.calls) call)

approve_prepare-plan_of :
    (dir : Directory) (cleaner : Cleaner) (w : Text) (u : Option Text) (id : Text) (now : ℕ)
    (remark : Option Text) (it : AgentInboxItem) (m : EmailMessage) (s : Store)
    → find_item w id s ≡ some it
    → it.state ≡ pending
    → it.kind ≡ email
    → message_of it s ≡ some m
    → may_push dir u (stored_mailbox dir w m) ≡ true
    → approve_prepare dir cleaner w u id now remark s ≡ (to_send (plan_of dir w it m), s)
approve_prepare-plan_of dir cleaner w u id now remark it m s found waits mail own may =
    approve_prepare-find_item dir cleaner w u id now remark s it found
    ∙ rw (waits, mail, own, may) refl

-- Two reviewers of a pending email item, who may both send from its mailbox, and whose first phases
-- both come before the end of either approval, are both given the plan to send. If the engine accepts the message the first time and the second time, then both
-- reviewers are told that the message went out, and the engine has had the same call twice.
pub overlapping_approvals-resend :
    (dir : Directory) (engine : Engine) (cleaner : Cleaner) (w : Text) (u u' : Option Text)
    (id : Text) (now now' : ℕ) (remark remark' : Option Text) (trust trust' : Bool)
    (it : AgentInboxItem) (m : EmailMessage) (s : Store)
    → let plan = plan_of dir w it m in
      let first = approve_finish now dir engine w u remark trust plan s in
      let second = approve_finish now' dir engine w u' remark' trust' plan first.1 in
      find_item w id s ≡ some it
      → it.state ≡ pending
      → it.kind ≡ email
      → message_of it s ≡ some m
      → may_push dir u (stored_mailbox dir w m) ≡ true
      → may_push dir u' (stored_mailbox dir w m) ≡ true
      → (call_engine dir engine plan.mailbox plan.req s).0.accepted ≡ true
      → (call_engine dir engine plan.mailbox plan.req first.1).0.accepted ≡ true
      → (approve_prepare dir cleaner w u id now remark s ≡ (to_send plan, s))
        × (approve_prepare dir cleaner w u' id now' remark' s ≡ (to_send plan, s))
        × (first.0 ≡ went_out)
        × (second.0 ≡ went_out)
        × (second.1.calls ≡ s.calls ++ call_for dir w m ∷ [] ++ call_for dir w m ∷ [])
overlapping_approvals-resend dir engine cleaner w u u' id now now' remark remark' trust trust' it m
      s found waits mail own may may' one two =
    let plan = plan_of dir w it m in
    let first = approve_finish now dir engine w u remark trust plan s in
    let (told, call) = approve_finish-sends now dir engine w u remark trust plan s one in
    let (told', call') =
      approve_finish-sends now' dir engine w u' remark' trust' plan first.1 two in
    (
      approve_prepare-plan_of dir cleaner w u id now remark it m s found waits mail own may,
      approve_prepare-plan_of dir cleaner w u' id now' remark' it m s found waits mail own may',
      told,
      told',
      call' ∙ ap (λ cs. cs ++ call_for dir w m ∷ []) call,
    )
