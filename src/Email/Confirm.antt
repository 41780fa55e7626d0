-- ===== src/Email/Confirm.antt =====
-- What an approval leaves behind, of `approveAgentInboxItem` in backend/src/email/email.service.ts.
use email_ops_community.Prelude.{
  ℕ, ◌≡◌, ◌≢◌, refl, sym, Bool, true, false, Option, none, some, [], ◌∷◌, ◌++◌, arith,
  if◌then◌else◌,
}
use email_ops_community.Prelude.Text.{Text}
use email_ops_community.Mailboxes.{MailboxAccount}
use email_ops_community.Email.{
  EmailMessage, pending, approved, AgentInboxItem, SendReq, EngineCall, stalwart_send,
  EngineSendResult, Engine, Store, Directory, called,
}
use email_ops_community.Email.Engine.{
  call_engine, is_none, provider_call, call_provider, call_stalwart, no_attachments, update_message,
  stamped,
}
use email_ops_community.Email.Learn.{learn_trusted_correspondents}
use email_ops_community.Email.Inbox.{
  Cleaner, find_item, message_of, is_open, update_item, reviewed, ApprovePlan, ApprovePrep, nothing,
  as_is, cleaned, thrown, to_send, stored_req, by_kind, stored_mailbox, plan_of, approve_prepare,
  ApproveResult, cleaned_up, went_out, learn, conclude, approve_finish,
}

-- The call that hands a message over.
abbrev pub call_if : Bool → MailboxAccount → SendReq → EngineCall
call_if b m req = if b then provider_call m req else stalwart_send req

abbrev pub call_of : Directory → Option MailboxAccount → SendReq → EngineCall
call_of dir none req = stalwart_send req
call_of dir (some m) req = call_if (dir.handles m) m req

-- An answer that accepts comes from that call, and from it alone.
abbrev pub IsAnswered : Engine → Store → EngineCall → EngineSendResult × Store → Type 0
IsAnswered engine s c p =
    p.0.accepted ≡ true → ((engine s.calls c).accepted ≡ true) × (p.1 ≡ called c s)

call_some-IsAnswered :
    (b none_attached : Bool) (engine : Engine) (m : MailboxAccount) (req : SendReq) (s : Store)
    → IsAnswered engine s (call_if b m req) (
        if b
        then if none_attached then call_provider engine m req s else (no_attachments m req, s)
        else call_stalwart engine req s)
call_some-IsAnswered false b engine m req s = λ h. (h, refl)
call_some-IsAnswered true true engine m req s = λ h. (h, refl)
call_some-IsAnswered true false engine m req s = λ h. ground (arith, h)

pub call_engine-IsAnswered :
    (dir : Directory) (engine : Engine) (mailbox : Option MailboxAccount) (req : SendReq)
    (s : Store)
    → IsAnswered engine s (call_of dir mailbox req) (call_engine dir engine mailbox req s)
unfolding call_engine
call_engine-IsAnswered dir engine none req s = λ h. (h, refl)
call_engine-IsAnswered dir engine (some m) req s =
    call_some-IsAnswered (dir.handles m) (is_none req.attachments) engine m req s

-- The item is one that waits for a review, and the message is its own.
abbrev IsUnderReview : Text → Text → Store → AgentInboxItem → EmailMessage → Type 0
IsUnderReview w id s it m =
    (find_item w id s ≡ some it) × (it.state ≡ pending) × (message_of it s ≡ some m)

-- Phase 1 writes nothing but a cleanup, and plans the send of the message under review.
IsPlanned : Directory → Text → Text → Store → ApprovePrep × Store → Type 0
IsPlanned dir w id s (to_send plan, s') =
    (it : AgentInboxItem) × (m : EmailMessage) × IsUnderReview w id s it m
    × (plan ≡ plan_of dir w it m)
    × (s' ≡ s)
IsPlanned dir w id s (cleaned, s') = Unit
IsPlanned dir w id s (nothing, s') = s' ≡ s
IsPlanned dir w id s (as_is it, s') = s' ≡ s
IsPlanned dir w id s (thrown why, s') = s' ≡ s

pub approve_prepare-find_item :
    (dir : Directory) (cleaner : Cleaner) (w : Text) (u : Option Text) (id : Text) (now : ℕ)
    (remark : Option Text) (s : Store) (it : AgentInboxItem)
    → find_item w id s ≡ some it
    → approve_prepare dir cleaner w u id now remark s ≡ (
        if is_open it.state then by_kind dir cleaner w u now remark it s it.kind else (as_is it, s))
unfolding approve_prepare
approve_prepare-find_item dir cleaner w u id now remark s it e = rw (approve_prepare, e) refl

-- The call that sends a message as it is on record.
abbrev pub call_for : Directory → Text → EmailMessage → EngineCall
call_for dir w m =
    let mailbox = stored_mailbox dir w m in call_of dir mailbox (stored_req m mailbox)

-- The approval that went out: one call that the engine has accepted, the stamp of its message and
-- the review of its item.
abbrev pub HasGoneOut :
    Directory → Text → Text → ℕ → Option Text → Option Text → Engine → Store → Store → Type 0
HasGoneOut dir w id now u remark engine s s' =
    (it : AgentInboxItem) × (m : EmailMessage) × (r : EngineSendResult) × (find_item w id s
      ≡ some it)
    × (it.state ≡ pending)
    × (message_of it s ≡ some m)
    × ((engine s.calls (call_for dir w m)).accepted ≡ true)
    × (r.accepted ≡ true)
    × (s'.calls ≡ s.calls ++ call_for dir w m ∷ [])
    × (s'.messages ≡ update_message m.id (stamped now r) s.messages)
    × (s'.items ≡ update_item it.id (reviewed approved now u remark) s.items)

-- What the caller is told is what happened.
abbrev pub Tells :
    Directory
    → Text
    → Text
    → ℕ
    → Option Text
    → Option Text
    → Engine
    → Store
    → ApproveResult × Store
    → Type 0
Tells dir w id now u remark engine s r =
    ((r.0 ≡ went_out) → HasGoneOut dir w id now u remark engine s r.1)
    × ((r.0 ≢ went_out) → (r.0 ≢ cleaned_up) → (r.1.items ≡ s.items) × (r.1.actions ≡ s.actions))

pub learn-frame :
    (trust : Bool) (dir : Directory) (w : Text) (plan : ApprovePlan) (s : Store)
    → ((learn trust dir w plan s).calls ≡ s.calls)
      × ((learn trust dir w plan s).messages ≡ s.messages)
      × ((learn trust dir w plan s).items ≡ s.items)
      × ((learn trust dir w plan s).actions ≡ s.actions)
unfolding learn_trusted_correspondents
learn-frame true dir w plan s = (refl, refl, refl, refl)
learn-frame false dir w plan s = (refl, refl, refl, refl)

pub approve_finish-accepted :
    (now : ℕ) (dir : Directory) (engine : Engine) (w : Text) (u remark : Option Text) (trust : Bool)
    (plan : ApprovePlan) (s : Store) (b : Bool)
    → (call_engine dir engine plan.mailbox plan.req s).0.accepted ≡ b
    → let sent = call_engine dir engine plan.mailbox plan.req s in
      approve_finish now dir engine w u remark trust plan s
      ≡ conclude b now w u remark plan sent.0 (learn trust dir w plan sent.1)
unfolding approve_finish
approve_finish-accepted now dir engine w u remark trust plan s b e = rw (sym e) refl
