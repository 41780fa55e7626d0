-- ===== src/Email/Inbox.antt =====
-- The approval queue of backend/src/email/email.service.ts: `approveAgentInboxItem`, in its phases,
-- and `rejectAgentInboxItem`. What a cleanup item does elsewhere is a parameter.
use email_ops_community.Prelude.{
  ℕ, Bool, true, false, not, ◌&&◌, Option, none, some, List, [], ◌∷◌, ◌++◌, keep, find,
  if◌then◌else◌,
}
use email_ops_community.Prelude.Text.{Text, txt, text_eq, is_empty}
use email_ops_community.Mailboxes.{MailboxAccount, may_act_through_mailbox}
use email_ops_community.Delivery.{rejected}
use email_ops_community.Email.{
  EmailMessage, AgentInboxState, AgentInboxKind, pending, approved, email, cleanup, AgentInboxItem,
  AgentActionEvent, approved_action, rejected_action, SendReq, EngineSendResult, Engine, Store,
  Directory,
}
use email_ops_community.Email.Engine.{
  default_mailbox, mailbox_by_id, call_engine, update_message, stamp_send_result, record_action,
}
use email_ops_community.Email.Context.{to_list}
use email_ops_community.Email.Compose.{agent_reply_runtime_source}
use email_ops_community.Email.Learn.{learn_trusted_correspondents}

-- A cleanup batch: it cannot be run, it was not executed, or it was, with its audit event if any.
pub data CleanupOutcome : Type 0 where
  no_batch : CleanupOutcome
  not_executed : Text → CleanupOutcome
  executed : Option AgentActionEvent → CleanupOutcome

abbrev pub Cleaner : Type 0
Cleaner = AgentInboxItem → CleanupOutcome

abbrev pub has_id : Text → Text → AgentInboxItem → Bool
has_id workspace_id id it = text_eq it.id id && text_eq it.workspace_id workspace_id

abbrev pub find_item : Text → Text → Store → Option AgentInboxItem
find_item workspace_id id s = find (has_id workspace_id id) s.items

abbrev pub message_of : AgentInboxItem → Store → Option EmailMessage
message_of it s = elim it.message_id [
  | none ↦ none
  | some id ↦ find (λ m. text_eq m.id id) s.messages
]

abbrev pub is_open : AgentInboxState → Bool
is_open pending = true
is_open _ = false

unfoldable pub update_item :
    Text → (AgentInboxItem → AgentInboxItem) → List AgentInboxItem → List AgentInboxItem
update_item id change [] = []
update_item id change (it ∷ items) =
    (if text_eq it.id id then change it else it) ∷ update_item id change items

abbrev pub reviewed :
    AgentInboxState → ℕ → Option Text → Option Text → AgentInboxItem → AgentInboxItem
reviewed state now uc_uid review_note it = record it {
  state = state;
  reviewed_by_uc_uid = uc_uid;
  reviewed_at = some now;
  review_note = review_note;
}

abbrev pub set_item : Text → AgentInboxState → ℕ → Option Text → Option Text → Store → Store
set_item id state now uc_uid review_note s = record s {
  items = update_item id (reviewed state now uc_uid review_note) s.items;
}

abbrev pub stored_mailbox : Directory → Text → EmailMessage → Option MailboxAccount
stored_mailbox dir workspace_id m = elim m.mailbox_account_id [
  | none ↦ default_mailbox dir workspace_id
  | some id ↦
      if is_empty id then default_mailbox dir workspace_id else mailbox_by_id dir workspace_id id
]

abbrev pub may_push : Directory → Option Text → Option MailboxAccount → Bool
may_push dir uc_uid none = true
may_push dir uc_uid (some m) = may_act_through_mailbox dir.users m uc_uid

abbrev or_text : Option Text → Text → Text
or_text none d = d
or_text (some t) d = t

abbrev from_of : EmailMessage → Option MailboxAccount → Text
from_of m none = or_text m.from_address m.to_address
from_of m (some mb) = or_text m.from_address mb.email_address

abbrev name_of : Option MailboxAccount → Option Text
name_of none = none
name_of (some m) = m.display_name

abbrev lane_of : Option MailboxAccount → Bool
lane_of none = true
lane_of (some m) = m.postmark_lane

-- The send that was reviewed, rebuilt from the row; a stored attachment without a blob is dropped.
abbrev pub stored_req : EmailMessage → Option MailboxAccount → SendReq
stored_req m mailbox = record {
  from_address = from_of m mailbox;
  from_name = name_of mailbox;
  to_address = m.to_address;
  to_addresses = m.to_addresses;
  cc = m.cc_addresses;
  bcc = m.bcc_addresses;
  subject = or_text m.subject [];
  body = or_text m.body [];
  body_html = m.body_html;
  attachments = keep (λ a. not (is_empty a.blob_id)) m.attachments;
  in_reply_to_thread_id = m.in_reply_to_thread_id;
  in_reply_to = none;
  references = [];
  autoreply_header = text_eq m.external_source agent_reply_runtime_source;
  transactional = lane_of mailbox;
}

pub record ApprovePlan : Type 0 where
  pub item_id : Text
  pub message_id : Text
  pub drafted_by : Option Text
  pub subject : Option Text
  pub mailbox : Option MailboxAccount
  pub req : SendReq

-- Phase 1 ends the handler, or leaves a send to do.
pub data ApprovePrep : Type 0 where
  nothing : ApprovePrep
  as_is : AgentInboxItem → ApprovePrep
  cleaned : ApprovePrep
  thrown : Text → ApprovePrep
  to_send : ApprovePlan → ApprovePrep

abbrev audit : Option AgentActionEvent → Store → Store
audit none s = s
audit (some e) s = record_action e s

abbrev pub after_cleanup :
    CleanupOutcome → Text → ℕ → Option Text → Option Text → Store → ApprovePrep × Store
after_cleanup no_batch id now uc_uid review_note s = (nothing, s)
after_cleanup (not_executed why) id now uc_uid review_note s = (thrown why, s)
after_cleanup (executed e) id now uc_uid review_note s =
    (cleaned, audit e (set_item id approved now uc_uid review_note s))

abbrev pub plan_of : Directory → Text → AgentInboxItem → EmailMessage → ApprovePlan
plan_of dir workspace_id it m =
    let mailbox = stored_mailbox dir workspace_id m in
    record {
      item_id = it.id;
      message_id = m.id;
      drafted_by = it.drafted_by;
      subject = m.subject;
      mailbox = mailbox;
      req = stored_req m mailbox;
    }

abbrev pub plan_send :
    Directory → Text → Option Text → AgentInboxItem → Option EmailMessage → ApprovePrep
plan_send dir workspace_id uc_uid it none = nothing
plan_send dir workspace_id uc_uid it (some m) =
    if may_push dir uc_uid (stored_mailbox dir workspace_id m)
    then to_send (plan_of dir workspace_id it m)
    else thrown (txt "Only the owner of that mailbox can approve a send from it.")

abbrev pub by_kind :
    Directory
    → Cleaner
    → Text
    → Option Text
    → ℕ
    → Option Text
    → AgentInboxItem
    → Store
    → AgentInboxKind
    → ApprovePrep × Store
by_kind dir cleaner workspace_id uc_uid now review_note it s cleanup =
    after_cleanup (cleaner it) it.id now uc_uid review_note s
by_kind dir cleaner workspace_id uc_uid now review_note it s email =
    (plan_send dir workspace_id uc_uid it (message_of it s), s)

-- Phase 1 of `approveAgentInboxItem`.
unfoldable pub approve_prepare :
    Directory → Cleaner → Text → Option Text → Text → ℕ → Option Text → Store → ApprovePrep × Store
approve_prepare dir cleaner workspace_id uc_uid id now review_note s =
    elim (find_item workspace_id id s) [
      | none ↦ (nothing, s)
      | some it ↦
          if is_open it.state
          then by_kind dir cleaner workspace_id uc_uid now review_note it s it.kind
          else (as_is it, s)
    ]

-- What the caller gets once the engine was asked.
pub data ApproveResult : Type 0 where
  none_found : ApproveResult
  already : AgentInboxItem → ApproveResult
  cleaned_up : ApproveResult
  failed : Text → ApproveResult
  went_out : ApproveResult

abbrev pub learn : Bool → Directory → Text → ApprovePlan → Store → Store
learn false dir workspace_id plan s = s
learn true dir workspace_id plan s =
    learn_trusted_correspondents dir workspace_id
      (to_list plan.req.to_address plan.req.to_addresses ++ plan.req.cc ++ plan.req.bcc) s

abbrev pub approved_event : Text → Option Text → ApprovePlan → AgentActionEvent
approved_event workspace_id uc_uid plan = record {
  workspace_id = workspace_id;
  kind = approved_action;
  agent_key = plan.drafted_by;
  message_id = some plan.message_id;
  actor_uc_uid = uc_uid;
  detail = plan.subject;
}

-- Phase 3, by whether the engine has accepted the message.
abbrev pub conclude :
    Bool
    → ℕ
    → Text
    → Option Text
    → Option Text
    → ApprovePlan
    → EngineSendResult
    → Store
    → ApproveResult × Store
conclude true now workspace_id uc_uid review_note plan r s = (
  went_out,
  record_action (approved_event workspace_id uc_uid plan) (
      set_item plan.item_id approved now uc_uid review_note
        (stamp_send_result now plan.message_id r s)),
)
conclude false now workspace_id uc_uid review_note plan r s = (
  failed (
      or_text r.reason
        (txt "The message could not be sent — nothing was approved. Try again or reject.")),
  stamp_send_result now plan.message_id r s,
)

-- Phases 2 and 3.
unfoldable pub approve_finish :
    ℕ
    → Directory
    → Engine
    → Text
    → Option Text
    → Option Text
    → Bool
    → ApprovePlan
    → Store
    → ApproveResult × Store
approve_finish now dir engine workspace_id uc_uid review_note trust plan s =
    let (r, s') = call_engine dir engine plan.mailbox plan.req s in
    conclude r.accepted now workspace_id uc_uid review_note plan r
      (learn trust dir workspace_id plan s')

abbrev pub finish_approval :
    ℕ
    → Directory
    → Engine
    → Text
    → Option Text
    → Option Text
    → Bool
    → ApprovePrep × Store
    → ApproveResult × Store
finish_approval now dir engine workspace_id uc_uid review_note trust (nothing, s) = (none_found, s)
finish_approval now dir engine workspace_id uc_uid review_note trust (as_is it, s) = (already it, s)
finish_approval now dir engine workspace_id uc_uid review_note trust (cleaned, s) = (cleaned_up, s)
finish_approval now dir engine workspace_id uc_uid review_note trust (thrown why, s) =
    (failed why, s)
finish_approval now dir engine workspace_id uc_uid review_note trust (to_send plan, s) =
    approve_finish now dir engine workspace_id uc_uid review_note trust plan s

unfoldable pub approve_agent_inbox_item :
    Directory
    → Engine
    → Cleaner
    → Text
    → Option Text
    → Text
    → ℕ
    → Option Text
    → Bool
    → Store
    → ApproveResult × Store
unfolding approve_prepare
approve_agent_inbox_item dir engine cleaner workspace_id uc_uid id now review_note trust s =
    finish_approval now dir engine workspace_id uc_uid review_note trust
      (approve_prepare dir cleaner workspace_id uc_uid id now review_note s)

abbrev rejected_event : Text → Option Text → AgentInboxItem → EmailMessage → AgentActionEvent
rejected_event workspace_id uc_uid it m = record {
  workspace_id = workspace_id;
  kind = rejected_action;
  agent_key = it.drafted_by;
  message_id = some m.id;
  actor_uc_uid = uc_uid;
  detail = m.subject;
}

abbrev pub reject_message :
    ℕ → Text → Option Text → Option Text → AgentInboxItem → Option EmailMessage → Store → Store
reject_message now workspace_id uc_uid review_note it none s = s
reject_message now workspace_id uc_uid review_note it (some m) s =
    record_action (rejected_event workspace_id uc_uid it m) (
      set_item it.id AgentInboxState.rejected now uc_uid review_note (record s {
        messages = update_message m.id (λ x. record x { status = rejected }) s.messages;
      }))

abbrev reject_by_kind :
    ℕ → Text → Option Text → Option Text → AgentInboxItem → Store → AgentInboxKind → Store
reject_by_kind now workspace_id uc_uid review_note it s cleanup =
    set_item it.id AgentInboxState.rejected now uc_uid review_note s
reject_by_kind now workspace_id uc_uid review_note it s email =
    reject_message now workspace_id uc_uid review_note it (message_of it s) s

-- `rejectAgentInboxItem`, one transaction.
unfoldable pub reject_agent_inbox_item : Text → Option Text → Text → ℕ → Option Text → Store → Store
reject_agent_inbox_item workspace_id uc_uid id now review_note s =
    elim (find_item workspace_id id s) [
      | none ↦ s
      | some it ↦
          if is_open it.state
          then reject_by_kind now workspace_id uc_uid review_note it s it.kind
          else s
    ]
