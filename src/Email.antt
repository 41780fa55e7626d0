-- ===== src/Email.antt =====
-- The system of record of backend/src/email/email.service.ts: its tables, and the engine that mail
-- is handed to. The handlers are in the child modules.
pub mod Address
pub mod Contacts
pub mod Engine
pub mod Context
pub mod Compose
pub mod Phases
pub mod Learn
pub mod Inbox
pub mod Once
pub mod Addressees
pub mod Released
pub mod Gate
pub mod Confirm
pub mod Overlap
pub mod Resend
mod Tests
use email_ops_community.Prelude.{ℕ, Bool, Option, List, ◌++◌, [], ◌∷◌}
use email_ops_community.Prelude.Text.{Text}
use email_ops_community.Json.{Json}
use email_ops_community.Mailboxes.{MailboxAccount, User}
use email_ops_community.Autonomy.{AutonomyAgent, Mode, PolicyReason}
use email_ops_community.Delivery.{EmailMessageStatus}

pub data EmailDirection : Type 0 where
  sent_mail draft_mail received_mail : EmailDirection

pub record Attachment : Type 0 where
  pub blob_id : Text
  pub name : Text
  pub type : Text

-- A row of email_messages; a list that is absent is the empty one.
pub record EmailMessage : Type 0 where
  pub id : Text
  pub workspace_id : Text
  pub mailbox_account_id : Option Text
  pub contact_id : Option Text
  pub thread_id : Option Text
  pub in_reply_to_thread_id : Option Text
  pub external_source : Text
  pub external_ref : Text
  pub mode : Mode
  pub status : EmailMessageStatus
  pub direction : EmailDirection
  pub from_address : Option Text
  pub to_address : Text
  pub to_addresses : List Text
  pub cc_addresses : List Text
  pub bcc_addresses : List Text
  pub subject : Option Text
  pub body : Option Text
  pub body_html : Option Text
  pub preview : Option Text
  pub attachments : List Attachment
  pub actor_uc_uid : Option Text
  pub provider_message_id : Option Text
  pub sent_at : Option ℕ

pub data AgentInboxState : Type 0 where
  pending approved rejected : AgentInboxState

pub data AgentInboxKind : Type 0 where
  email cleanup : AgentInboxKind

-- A row of agent_inbox_items.
pub record AgentInboxItem : Type 0 where
  pub id : Text
  pub workspace_id : Text
  pub message_id : Option Text
  pub kind : AgentInboxKind
  pub state : AgentInboxState
  pub drafted_by : Option Text
  pub summary : Text
  pub policy : List PolicyReason
  pub payload : Json
  pub reviewed_by_uc_uid : Option Text
  pub reviewed_at : Option ℕ
  pub review_note : Option Text

pub data AgentActionKind : Type 0 where
  staged_for_approval autonomous_send approved_action rejected_action : AgentActionKind

-- A row of agent_action_events.
pub record AgentActionEvent : Type 0 where
  pub workspace_id : Text
  pub kind : AgentActionKind
  pub agent_key : Option Text
  pub message_id : Option Text
  pub actor_uc_uid : Option Text
  pub detail : Option Text

-- A row of mail_contacts, the address book that a mailbox gathers.
pub record MailContact : Type 0 where
  pub workspace_id : Text
  pub mailbox_account_id : Text
  pub email : Text
  pub display_name : Option Text
  pub frequency : ℕ

pub data TrustedCorrespondentScope : Type 0 where
  address_scope domain_scope : TrustedCorrespondentScope

-- A row of trusted_correspondents.
pub record TrustedCorrespondent : Type 0 where
  pub workspace_id : Text
  pub scope : TrustedCorrespondentScope
  pub address : Text
  pub approval_count : ℕ

-- What a send hands to `callEngine` (`SendReq`).
pub record SendReq : Type 0 where
  pub from_address : Text
  pub from_name : Option Text
  pub to_address : Text
  pub to_addresses : List Text
  pub cc : List Text
  pub bcc : List Text
  pub subject : Text
  pub body : Text
  pub body_html : Option Text
  pub attachments : List Attachment
  pub in_reply_to_thread_id : Option Text
  pub in_reply_to : Option Text
  pub references : List Text
  pub autoreply_header : Bool
  pub transactional : Bool

-- A call that leaves the program: the sovereign engine, an external provider, or the removal of a
-- saved draft.
pub data EngineCall : Type 0 where
  stalwart_send : SendReq → EngineCall
  provider_send : (mailbox_id from to subject body : Text) (thread : Option Text) → EngineCall
  delete_draft : (mailbox_id draft_id : Text) → EngineCall

pub record EngineSendResult : Type 0 where
  pub accepted : Bool
  pub provider_message_id : Option Text
  pub thread_id : Option Text
  pub lane : Option Text
  pub reason : Option Text

-- The engine answers a call, and may look at the calls that it has had.
abbrev pub Engine : Type 0
Engine = List EngineCall → EngineCall → EngineSendResult

-- The tables that the handlers write, rows in the order of their creation, and the calls so far.
pub record Store : Type 0 where
  pub messages : List EmailMessage
  pub items : List AgentInboxItem
  pub actions : List AgentActionEvent
  pub contacts : List MailContact
  pub trusted : List TrustedCorrespondent
  pub calls : List EngineCall

pub record Agent : Type 0 where
  pub workspace_id : Text
  pub dial : AutonomyAgent
  pub active : Bool
  pub paused : Bool
  pub mailbox_account_id : Option Text

-- A row of the junction of agents and mailboxes, with whether its agent is active.
pub record AgentMailbox : Type 0 where
  pub workspace_id : Text
  pub mailbox_account_id : Text
  pub agent_active : Bool

pub record MailDomain : Type 0 where
  pub workspace_id : Text
  pub domain : Text

pub record MessageHeaders : Type 0 where
  pub message_id_header : Option Text
  pub references : List Text

-- What the handlers read and do not write: tables, the environment, which mailboxes an external
-- provider handles, and the headers that the engine has of a message.
pub record Directory : Type 0 where
  pub mailboxes : List MailboxAccount
  pub users : List User
  pub agents : List Agent
  pub agent_mailboxes : List AgentMailbox
  pub mail_domains : List MailDomain
  pub agents_paused : Text → Bool
  pub trusted_compose_sources : List Text
  pub autonomous_send_enabled : Bool
  pub handles : MailboxAccount → Bool
  pub message_headers : Text → Text → Option MessageHeaders

abbrev pub called : EngineCall → Store → Store
called c s = record s { calls = s.calls ++ c ∷ [] }
