-- ===== src/Email/Phases.antt =====
-- The phases of `composeEmail` of backend/src/email/email.service.ts, and their composition. The
-- notice of a held draft to another service is left out.
use email_ops_community.Prelude.{
  ℕ, Bool, true, not, Option, none, some, List, [], ◌∷◌, ◌++◌, if◌then◌else◌,
}
use email_ops_community.Prelude.Text.{Text, txt, is_empty}
use email_ops_community.Json.{null}
use email_ops_community.Mailboxes.{MailboxAccount, may_act_through_mailbox}
use email_ops_community.Autonomy.{
  Mode, send, draft, PolicyReason, AgentComposeContext, AgentComposeDecision, split_recipients,
}
use email_ops_community.Delivery.{pending_approval, queued}
use email_ops_community.Email.{
  sent_mail, draft_mail, EmailMessage, pending, email, AgentInboxItem, staged_for_approval,
  autonomous_send, SendReq, delete_draft, EngineSendResult, Engine, Store, Agent, MessageHeaders,
  Directory, called,
}
use email_ops_community.Email.Engine.{
  mailbox_by_id, is_none, resolve_reply_headers, call_engine, stamp_send_result, record_action,
}
use email_ops_community.Email.Context.{ComposeInput, Footer}
use email_ops_community.Email.Compose.{
  find_ref, key_of, agent_of, is_paused, explicit_from, may_send_as, mailbox_of, compose_decision,
  agent_initiated, held_reasons, summary, address_of, new_message, remember, add_message,
  context_of, SendPlan, ComposePrep, done, refused, to_send,
}

abbrev held_suffix : List PolicyReason → Text
held_suffix [] = []
held_suffix (r ∷ rs) = txt " — held: " ++ r.code

abbrev staged_detail : AgentComposeDecision → ComposeInput → Text
staged_detail d input =
    if d.coerced then txt "staged by dial (" ++ d.reason ++ txt ")" else input.subject

-- The draft branch: the row, its item in the approval queue, the contacts and the audit event.
unfoldable pub stage_draft :
    Directory
    → Text
    → Text
    → Text
    → Option Text
    → ComposeInput
    → AgentComposeDecision
    → Store
    → EmailMessage × Store
stage_draft dir new_id new_item_id workspace_id uc_uid input d s =
    let mailbox = mailbox_of dir workspace_id input in
    let initiated = agent_initiated dir workspace_id input in
    let reasons = if initiated then held_reasons initiated input d else [] in
    let m =
      new_message new_id workspace_id uc_uid mailbox input draft pending_approval draft_mail
        input.body input.body_html in
    let item : AgentInboxItem = record {
      id = new_item_id;
      workspace_id = workspace_id;
      message_id = some new_id;
      kind = email;
      state = pending;
      drafted_by = some (key_of input);
      summary = summary input.subject input.to_address ++ held_suffix reasons;
      policy = reasons;
      payload = null;
      reviewed_by_uc_uid = none;
      reviewed_at = none;
      review_note = none;
    } in
    let with_rows = record (add_message m s) { items = s.items ++ item ∷ [] } in
    (
      m,
      record_action
          (record {
            workspace_id = workspace_id;
            kind = staged_for_approval;
            agent_key = some (key_of input);
            message_id = some new_id;
            actor_uc_uid = uc_uid;
            detail = some (staged_detail d input);
          })
          (remember workspace_id mailbox input with_rows),
    )

abbrev footer_for : Option AgentComposeContext → Option Footer → Option Footer
footer_for (some ctx) (some f) =
    if is_none (split_recipients ctx.recipients ctx.internal_domains).1 then none else some f
footer_for _ _ = none

abbrev footed_body : Option Footer → Text → Text
footed_body none body = body
footed_body (some f) body = body ++ f.text

abbrev footed_html : Option Footer → Option Text → Option Text
footed_html _ none = none
footed_html none (some h) = some h
footed_html (some f) (some h) = if is_empty h then some h else some (h ++ f.html)

abbrev or_to : Option Text → Text → Text
or_to none to = to
or_to (some a) to = a

abbrev name_of : Option MailboxAccount → Option Text
name_of none = none
name_of (some m) = m.display_name

abbrev lane_of : Option MailboxAccount → Bool
lane_of none = true
lane_of (some m) = m.postmark_lane

abbrev agent_key_of : Option Agent → Option Text
agent_key_of none = none
agent_key_of (some a) = some a.dial.key

-- The send branch: the row, QUEUED, and the plan for the engine.
unfoldable pub record_send :
    Directory → Text → Text → Option Text → ComposeInput → Store → SendPlan × Store
record_send dir new_id workspace_id uc_uid input s =
    let mailbox = mailbox_of dir workspace_id input in
    let a = agent_of dir workspace_id input in
    let footer =
      footer_for (context_of dir workspace_id a mailbox input s) input.transparency_footer in
    let body = footed_body footer input.body in
    let html = footed_html footer input.body_html in
    let m = new_message new_id workspace_id uc_uid mailbox input send queued sent_mail body html in
    (
      record {
        message_id = new_id;
        mailbox = mailbox;
        agent_key = agent_key_of a;
        subject = input.subject;
        req = record {
          from_address = or_to (address_of mailbox) input.to_address;
          from_name = name_of mailbox;
          to_address = input.to_address;
          to_addresses = input.to_addresses;
          cc = input.cc;
          bcc = input.bcc;
          subject = input.subject;
          body = body;
          body_html = html;
          attachments = input.attachments;
          in_reply_to_thread_id = input.in_reply_to_thread_id;
          in_reply_to = none;
          references = input.references;
          autoreply_header = input.agent_autoreply;
          transactional = lane_of mailbox;
        };
      },
      remember workspace_id mailbox input (add_message m s),
    )

abbrev prep_draft : EmailMessage × Store → ComposePrep × Store
prep_draft r = (done r.0, r.1)

abbrev prep_send : SendPlan × Store → ComposePrep × Store
prep_send r = (to_send r.0, r.1)

abbrev pub by_mode :
    Directory
    → Text
    → Text
    → Text
    → Option Text
    → ComposeInput
    → AgentComposeDecision
    → Store
    → Mode
    → ComposePrep × Store
by_mode dir new_id new_item_id workspace_id uc_uid input d s draft =
    prep_draft (stage_draft dir new_id new_item_id workspace_id uc_uid input d s)
by_mode dir new_id new_item_id workspace_id uc_uid input d s send =
    prep_send (record_send dir new_id workspace_id uc_uid input s)

-- Phase 1 when there is no message of that key yet.
unfoldable pub prepare_new :
    Directory → Text → Text → Text → Option Text → ComposeInput → Store → ComposePrep × Store
prepare_new dir new_id new_item_id workspace_id uc_uid input s =
    if dir.agents_paused workspace_id
    then (refused (txt "Agents are paused for this workspace."), s)
    else if is_paused (agent_of dir workspace_id input)
    then (refused (txt "Agent '" ++ key_of input ++ txt "' is paused."), s)
    else if not (may_send_as dir uc_uid (explicit_from dir workspace_id input))
    then (refused (txt "You are not allowed to send as that mailbox."), s)
    else let d = compose_decision dir workspace_id input s in
      by_mode dir new_id new_item_id workspace_id uc_uid input d s d.mode

-- Phase 1, one transaction; the new ids are the database's.
unfoldable pub compose_prepare :
    Directory → Text → Text → Text → Option Text → ComposeInput → Store → ComposePrep × Store
compose_prepare dir new_id new_item_id workspace_id uc_uid input s =
    elim (find_ref workspace_id input.external_source input.external_ref s) [
      | some existing ↦ (done existing, s)
      | none ↦ prepare_new dir new_id new_item_id workspace_id uc_uid input s
    ]

abbrev chain_of : Option MessageHeaders → List Text
chain_of none = []
chain_of (some h) = elim h.message_id_header [
  | none ↦ h.references
  | some m ↦ if is_empty m then h.references else h.references ++ m ∷ []
]

abbrev header_of : Option MessageHeaders → Option Text → Option Text
header_of none old = old
header_of (some h) old = elim h.message_id_header [
  | none ↦ old
  | some m ↦ if is_empty m then old else some m
]

-- Phase 1.5: the threading headers of a reply.
unfoldable pub with_reply_headers : Directory → Text → ComposeInput → SendPlan → Store → SendReq
with_reply_headers dir workspace_id input plan s = elim input.in_reply_to_message_id [
  | none ↦ plan.req
  | some internal_id ↦
      if is_empty internal_id
      then plan.req
      else let h = resolve_reply_headers dir plan.mailbox internal_id workspace_id s in
        record plan.req {
          in_reply_to = header_of h plan.req.in_reply_to;
          references = if is_none plan.req.references then chain_of h else plan.req.references;
        }
]

-- The mailbox, if it is of the workspace and the caller may act through it.
unfoldable pub resolve_mailbox_for_caller :
    Directory → Text → Option Text → Text → Option MailboxAccount
resolve_mailbox_for_caller dir workspace_id uc_uid id = elim (mailbox_by_id dir workspace_id id) [
  | none ↦ none
  | some m ↦ if may_act_through_mailbox dir.users m uc_uid then some m else none
]

-- The removal of a saved draft, which only the sovereign engine keeps.
unfoldable pub delete_saved : Directory → Text → Option Text → Text → Text → Store → Store
unfolding resolve_mailbox_for_caller
delete_saved dir workspace_id uc_uid mailbox_id id s =
    elim (resolve_mailbox_for_caller dir workspace_id uc_uid mailbox_id) [
      | none ↦ s
      | some m ↦ if dir.handles m then s else called (delete_draft m.id id) s
    ]

-- The saved draft that was sent is removed; a failure of that is only logged.
abbrev pub drop_draft :
    Directory → Text → Option Text → Bool → Option MailboxAccount → Option Text → Store → Store
drop_draft dir workspace_id uc_uid true (some m) (some id) s =
    if is_empty id then s else delete_saved dir workspace_id uc_uid m.id id s
drop_draft _ _ _ _ _ _ s = s

abbrev status_wire : Bool → Text
status_wire accepted = if accepted then txt "sent" else txt "failed"

abbrev pub audit_send : Text → Option Text → SendPlan → EngineSendResult → Store → Store
audit_send workspace_id uc_uid plan r s = elim plan.agent_key [
  | none ↦ s
  | some key ↦
      if is_empty key
      then s
      else record_action
          (record {
            workspace_id = workspace_id;
            kind = autonomous_send;
            agent_key = some key;
            message_id = some plan.message_id;
            actor_uc_uid = uc_uid;
            detail = some (plan.subject ++ txt " (" ++ status_wire r.accepted ++ txt ")");
          })
          s
]

-- Phases 2 and 3.
unfoldable pub compose_finish :
    ℕ
    → Directory
    → Engine
    → Text
    → Option Text
    → ComposeInput
    → SendPlan
    → Store
    → EngineSendResult × Store
compose_finish now dir engine workspace_id uc_uid input plan s =
    let (r, s') =
      call_engine dir engine plan.mailbox (with_reply_headers dir workspace_id input plan s) s in
    (
      r,
      audit_send workspace_id uc_uid plan r (
          stamp_send_result now plan.message_id r
            (drop_draft dir workspace_id uc_uid r.accepted plan.mailbox input.draft_id s')),
    )

-- What the caller gets: a message that was there or is staged, the outcome of the engine, or an
-- exception.
pub data ComposeResult : Type 0 where
  unchanged : EmailMessage → ComposeResult
  handed_over : EngineSendResult → ComposeResult
  forbidden : Text → ComposeResult

abbrev pub finish_prep :
    ℕ
    → Directory
    → Engine
    → Text
    → Option Text
    → ComposeInput
    → ComposePrep × Store
    → ComposeResult × Store
finish_prep now dir engine workspace_id uc_uid input (done m, s) = (unchanged m, s)
finish_prep now dir engine workspace_id uc_uid input (refused why, s) = (forbidden why, s)
finish_prep now dir engine workspace_id uc_uid input (to_send plan, s) =
    let (r, s') = compose_finish now dir engine workspace_id uc_uid input plan s in
    (handed_over r, s')

unfoldable pub compose_email :
    ℕ
    → Directory
    → Engine
    → Text
    → Text
    → Text
    → Option Text
    → ComposeInput
    → Store
    → ComposeResult × Store
unfolding compose_prepare
compose_email now dir engine new_id new_item_id workspace_id uc_uid input s =
    finish_prep now dir engine workspace_id uc_uid input
      (compose_prepare dir new_id new_item_id workspace_id uc_uid input s)
