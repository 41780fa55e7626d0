-- ===== src/Email/Tests.antt =====
-- The witnesses of the theorems on backend/src/email/email.service.ts.
use email_ops_community.Prelude.{◌≡◌, ◌↔◌, ◌⊎◌, refl, true, false, some, none, [], ◌∷◌}
use email_ops_community.Prelude.Text.{Text, txt, text_eq}
use email_ops_community.Json.{null}
use email_ops_community.Mailboxes.{MailboxAccount, OwnerKind}
use email_ops_community.Autonomy.{Mode, l1_approve_to_send, MailboxClass}
use email_ops_community.Delivery.{pending_approval}
use email_ops_community.Email.{
  EmailMessage, draft_mail, AgentInboxItem, AgentInboxState, AgentInboxKind, EngineSendResult,
  Engine, Store, Agent, Directory,
}
use email_ops_community.Email.Context.{ComposeInput, mailbox_class_of}
use email_ops_community.Email.Compose.{find_ref, agent_of, explicit_from, may_send_as, mailbox_of}
use email_ops_community.Email.Phases.{
  compose_prepare, ComposeResult, unchanged, forbidden, compose_email,
}
use email_ops_community.Email.Inbox.{
  Cleaner, no_batch, approve_prepare, approve_finish, ApprovePrep, ApproveResult, went_out, plan_of,
}
use email_ops_community.Email.Addressees.{addressees}
use email_ops_community.Email.Released.{ReleasedTo}
use email_ops_community.Email.Once.{compose_email-once}
use email_ops_community.Email.Gate.{Sends, compose_prepare-autonomous}
use email_ops_community.Email.Confirm.{call_for}
use email_ops_community.Email.Resend.{overlapping_approvals-resend}

abbrev pub desk : MailboxAccount
desk = record {
  id = txt "m";
  workspace_id = txt "w";
  email_address = txt "bot@x.y";
  provider = txt "stalwart";
  active = true;
  display_name = none;
  is_default = true;
  postmark_lane = true;
  owner_kind = OwnerKind.agent;
  owner_key = none;
}

abbrev bot : Agent
bot = record {
  workspace_id = txt "w";
  dial = record { key = txt "bot"; autonomy_level = l1_approve_to_send; recipient_policy = null };
  active = true;
  paused = false;
  mailbox_account_id = some (txt "m");
}

abbrev pub directory : Directory
directory = record {
  mailboxes = desk ∷ [];
  users = [];
  agents = bot ∷ [];
  agent_mailboxes = [];
  mail_domains = record { workspace_id = txt "w"; domain = txt "x.y" } ∷ [];
  agents_paused = λ w. false;
  trusted_compose_sources = txt "email-ops-client" ∷ [];
  autonomous_send_enabled = false;
  handles = λ m. false;
  message_headers = λ mailbox id. none;
}

abbrev pub engine : Engine
engine calls call = record {
  accepted = true;
  provider_message_id = some (txt "p");
  thread_id = none;
  lane = none;
  reason = none;
}

abbrev pub input : ComposeInput
input = record {
  contact_id = none;
  to_address = txt "a@x.y";
  to_addresses = [];
  subject = txt "hi";
  body = txt "text";
  body_html = none;
  mode = Mode.send;
  in_reply_to_thread_id = none;
  external_source = txt "bot";
  external_ref = txt "r1";
  drafted_by = none;
  from_mailbox_account_id = none;
  cc = [];
  bcc = [];
  attachments = [];
  in_reply_to_message_id = none;
  references = [];
  draft_id = none;
  agent_autoreply = false;
  inbound_reply_attestation = none;
  policy_reasons = [];
  transparency_footer = none;
}

abbrev staged : EmailMessage
staged = record {
  id = txt "msg";
  workspace_id = txt "w";
  mailbox_account_id = some (txt "m");
  contact_id = none;
  thread_id = none;
  in_reply_to_thread_id = none;
  external_source = txt "bot";
  external_ref = txt "r0";
  mode = Mode.draft;
  status = pending_approval;
  direction = draft_mail;
  from_address = some (txt "bot@x.y");
  to_address = txt "a@o.p";
  to_addresses = [];
  cc_addresses = [];
  bcc_addresses = [];
  subject = some (txt "hi");
  body = some (txt "text");
  body_html = none;
  preview = none;
  attachments = [];
  actor_uc_uid = none;
  provider_message_id = none;
  sent_at = none;
}

abbrev waiting : AgentInboxItem
waiting = record {
  id = txt "i";
  workspace_id = txt "w";
  message_id = some (txt "msg");
  kind = AgentInboxKind.email;
  state = AgentInboxState.pending;
  drafted_by = some (txt "bot");
  summary = txt "hi";
  policy = [];
  payload = null;
  reviewed_by_uc_uid = none;
  reviewed_at = none;
  review_note = none;
}

abbrev pub store : Store
store = record {
  messages = staged ∷ [];
  items = waiting ∷ [];
  actions = [];
  contacts = [];
  trusted = [];
  calls = [];
}

abbrev cleaner : Cleaner
cleaner item = no_batch

abbrev composed : ComposeResult × Store
composed = compose_email 5 directory engine (txt "n1") (txt "i1") (txt "w") none input store

compose_email-once_example :
    ((why : Text) × (composed.0 ≡ forbidden why))
    ⊎ ((m : EmailMessage) × (find_ref (txt "w") (txt "bot") (txt "r1") composed.1 ≡ some m)
        × (compose_email 6 directory engine (txt "n2") (txt "i2") (txt "w") none input composed.1
            ≡ (unchanged m, composed.1)))
compose_email-once_example =
    compose_email-once 5 6 directory directory engine engine (txt "n1") (txt "n2") (txt "i1")
      (txt "i2") (txt "w") none none input input store refl refl

compose_prepare-autonomous_example :
    Sends (compose_prepare directory (txt "n1") (txt "i1") (txt "w") none input store) ↔ (
      (find_ref (txt "w") (txt "bot") (txt "r1") store ≡ none)
      × (false ≡ false)
      × (false ≡ false)
      × (may_send_as directory none (explicit_from directory (txt "w") input) ≡ true)
      × (Mode.send ≡ Mode.send)
      × (mailbox_class_of directory (txt "w") (mailbox_of directory (txt "w") input)
          ≡ MailboxClass.agent)
      × ReleasedTo directory
          (txt "w")
          bot
          (mailbox_of directory (txt "w") input)
          input
          store
          (addressees input))
unfolding agent_of text_eq
compose_prepare-autonomous_example =
    compose_prepare-autonomous directory (txt "n1") (txt "i1") (txt "w") none input store bot refl

-- The first approval of the staged message, and the second one after it.
abbrev approved_once : ApproveResult × Store
approved_once =
    approve_finish 7 directory engine (txt "w") none none true
      (plan_of directory (txt "w") waiting staged) store

abbrev approved_twice : ApproveResult × Store
approved_twice =
    approve_finish 8 directory engine (txt "w") (some (txt "u")) none true
      (plan_of directory (txt "w") waiting staged) approved_once.1

overlapping_approvals-resend_example :
    (approve_prepare directory cleaner (txt "w") none (txt "i") 7 none store
      ≡ (ApprovePrep.to_send (plan_of directory (txt "w") waiting staged), store))
    × (approve_prepare directory cleaner (txt "w") (some (txt "u")) (txt "i") 8 none store
        ≡ (ApprovePrep.to_send (plan_of directory (txt "w") waiting staged), store))
    × (approved_once.0 ≡ went_out)
    × (approved_twice.0 ≡ went_out)
    × (approved_twice.1.calls
        ≡ call_for directory (txt "w") staged ∷ call_for directory (txt "w") staged ∷ [])
unfolding approve_finish text_eq email_ops_community.Mailboxes.may_act_through_mailbox
    email_ops_community.Email.Engine.call_engine
overlapping_approvals-resend_example =
    overlapping_approvals-resend directory engine cleaner (txt "w") none (some (txt "u")) (txt "i")
      7 8 none none true true waiting staged store refl refl refl refl refl refl refl refl
