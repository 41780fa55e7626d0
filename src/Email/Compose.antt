-- ===== src/Email/Compose.antt =====
-- `composeEmail` of backend/src/email/email.service.ts: phase 1 records the message or stages it for
-- a human in one transaction, phase 2 hands it to the engine outside of any, phase 3 stamps the
-- outcome. Other handlers may come between the phases.
use email_ops_community.Prelude.{
  Bool, true, false, not, ◌&&◌, ◌||◌, Option, none, some, List, [], ◌∷◌, ◌++◌, find, take, length,
  ltb, if◌then◌else◌,
}
use email_ops_community.Prelude.Text.{Text, txt, text_eq, is_space, trim, has_text, is_empty}
use email_ops_community.Mailboxes.{
  MailboxAccount, OwnerKind, human, shared, agent, may_act_through_mailbox,
}
use email_ops_community.Autonomy.{
  AutonomyAgent, Mode, send, draft, PolicyReason, AgentComposeContext, AgentComposeDecision,
  ComposeArgs, decide_agent_compose_mode,
}
use email_ops_community.Delivery.{EmailMessageStatus}
use email_ops_community.Email.{EmailDirection, EmailMessage, SendReq, Store, Agent, Directory}
use email_ops_community.Email.Contacts.{address_entries, remember_contacts}
use email_ops_community.Email.Engine.{mailbox_by_id, resolve_send_mailbox}
use email_ops_community.Email.Context.{ComposeInput, all_recipients, build_agent_compose_context}

-- The unique key of a composed message.
abbrev pub has_ref : Text → Text → Text → EmailMessage → Bool
has_ref workspace_id source ref m =
    text_eq m.workspace_id workspace_id
    && text_eq m.external_source source
    && text_eq m.external_ref ref

abbrev pub find_ref : Text → Text → Text → Store → Option EmailMessage
find_ref workspace_id source ref s = find (has_ref workspace_id source ref) s.messages

abbrev pub agent_reply_runtime_source : Text
agent_reply_runtime_source = txt "agent-reply-runtime"

abbrev pub key_of : ComposeInput → Text
key_of input = elim input.drafted_by [ none ↦ input.external_source | some k ↦ k ]

abbrev active_agent : Text → Text → Agent → Bool
active_agent workspace_id key a =
    text_eq a.workspace_id workspace_id && text_eq a.dial.key key && a.active

unfoldable pub agent_of : Directory → Text → ComposeInput → Option Agent
agent_of dir workspace_id input =
    if is_empty (key_of input)
    then none
    else find (active_agent workspace_id (key_of input)) dir.agents

abbrev pub is_paused : Option Agent → Bool
is_paused none = false
is_paused (some a) = a.paused

unfoldable pub explicit_from : Directory → Text → ComposeInput → Option MailboxAccount
explicit_from dir workspace_id input = elim input.from_mailbox_account_id [
  | none ↦ none
  | some id ↦ if is_empty id then none else mailbox_by_id dir workspace_id id
]

-- A shared mailbox, or the caller's own.
abbrev may_send_as_kind : OwnerKind → Bool → Bool
may_send_as_kind shared own = true
may_send_as_kind human own = own
may_send_as_kind agent own = false

abbrev pub may_send_as : Directory → Option Text → Option MailboxAccount → Bool
may_send_as dir uc_uid none = true
may_send_as dir uc_uid (some m) =
    may_send_as_kind m.owner_kind (may_act_through_mailbox dir.users m uc_uid)

abbrev or_resolved : Option MailboxAccount → Option MailboxAccount → Option MailboxAccount
or_resolved none o = o
or_resolved (some m) o = some m

abbrev pub mailbox_of : Directory → Text → ComposeInput → Option MailboxAccount
mailbox_of dir workspace_id input =
    or_resolved (explicit_from dir workspace_id input)
      (resolve_send_mailbox dir workspace_id (agent_of dir workspace_id input))

abbrev dial_of : Option Agent → Option AutonomyAgent
dial_of none = none
dial_of (some a) = some a.dial

abbrev pub context_of :
    Directory
    → Text
    → Option Agent
    → Option MailboxAccount
    → ComposeInput
    → Store
    → Option AgentComposeContext
context_of dir workspace_id none mailbox input s = none
context_of dir workspace_id (some a) mailbox input s = elim input.mode [
  | send ↦ some (build_agent_compose_context dir workspace_id a mailbox input s)
  | draft ↦ none
]

abbrev no_agent : Option Agent → Bool
no_agent none = true
no_agent (some a) = false

abbrev pub compose_args : Directory → Text → ComposeInput → Store → ComposeArgs
compose_args dir workspace_id input s =
    let a = agent_of dir workspace_id input in
    record {
      requested_mode = input.mode;
      agent = dial_of a;
      to_address = input.to_address;
      trusted_unregistered_send = no_agent a && has_text dir.trusted_compose_sources (key_of input);
      agent_context = context_of dir workspace_id a (mailbox_of dir workspace_id input) input s;
    }

unfoldable pub compose_decision : Directory → Text → ComposeInput → Store → AgentComposeDecision
compose_decision dir workspace_id input s =
    decide_agent_compose_mode (compose_args dir workspace_id input s)

abbrev pub agent_initiated : Directory → Text → ComposeInput → Bool
agent_initiated dir workspace_id input =
    not (no_agent (agent_of dir workspace_id input))
    || text_eq input.external_source agent_reply_runtime_source

abbrev pub held_reasons : Bool → ComposeInput → AgentComposeDecision → List PolicyReason
held_reasons initiated input d = (if initiated then input.policy_reasons else []) ++ d.reasons

-- White space runs as one blank each (`replace(/\s+/g, ' ')`).
unfoldable pub flatten : Bool → Text → Text
flatten after_space [] = []
flatten after_space (c ∷ s) =
    let skipped = flatten true s in
    let kept = flatten false s in
    if is_space c then (if after_space then skipped else 32 ∷ skipped) else c ∷ kept

unfoldable pub snippet : Text → Option Text
snippet body =
    if is_empty body
    then none
    else let flat = trim (flatten false body) in
      some (if ltb 140 (length flat) then take 137 flat ++ txt "…" else flat)

abbrev with_default : Text → Text → Text
with_default t d = if is_empty t then d else t

unfoldable pub summary : Text → Text → Text
summary subject to =
    let s = with_default (trim subject) (txt "(no subject)") in
    if is_empty to then s else s ++ txt " → " ++ to

abbrev pub mailbox_id : Option MailboxAccount → Option Text
mailbox_id none = none
mailbox_id (some m) = some m.id

abbrev pub address_of : Option MailboxAccount → Option Text
address_of none = none
address_of (some m) = some m.email_address

-- The row of email_messages, with what differs between a send and a draft.
abbrev pub new_message :
    Text
    → Text
    → Option Text
    → Option MailboxAccount
    → ComposeInput
    → Mode
    → EmailMessageStatus
    → EmailDirection
    → Text
    → Option Text
    → EmailMessage
new_message new_id workspace_id uc_uid mailbox input mode status direction body html = record {
  id = new_id;
  workspace_id = workspace_id;
  mailbox_account_id = mailbox_id mailbox;
  contact_id = input.contact_id;
  thread_id = input.in_reply_to_thread_id;
  in_reply_to_thread_id = input.in_reply_to_thread_id;
  external_source = input.external_source;
  external_ref = input.external_ref;
  mode = mode;
  status = status;
  direction = direction;
  from_address = address_of mailbox;
  to_address = input.to_address;
  to_addresses = input.to_addresses;
  cc_addresses = input.cc;
  bcc_addresses = input.bcc;
  subject = some input.subject;
  body = some body;
  body_html = html;
  preview = snippet body;
  attachments = input.attachments;
  actor_uc_uid = uc_uid;
  provider_message_id = none;
  sent_at = none;
}

abbrev pub remember : Text → Option MailboxAccount → ComposeInput → Store → Store
remember workspace_id none input s = s
remember workspace_id (some m) input s =
    remember_contacts workspace_id m.id m.email_address (address_entries (all_recipients input)) s

abbrev pub add_message : EmailMessage → Store → Store
add_message m s = record s { messages = s.messages ++ m ∷ [] }

-- What phase 1 hands on.
pub record SendPlan : Type 0 where
  pub message_id : Text
  pub mailbox : Option MailboxAccount
  pub agent_key : Option Text
  pub subject : Text
  pub req : SendReq

-- Phase 1 ends the handler with a message, throws, or leaves a send to do.
pub data ComposePrep : Type 0 where
  done : EmailMessage → ComposePrep
  refused : Text → ComposePrep
  to_send : SendPlan → ComposePrep
