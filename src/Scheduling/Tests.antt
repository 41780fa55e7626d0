-- ===== src/Scheduling/Tests.antt =====
-- The witnesses of the theorems on backend/src/scheduling/scheduling.service.ts.
use email_ops_community.Prelude.{
  ℕ, ◌==◌, ◌≡◌, refl, true, false, Option, some, none, List, [], ◌∷◌, Any, length, arith,
}
use email_ops_community.Prelude.Text.{Text, txt, text_eq, trim, trim_start, is_space}
use email_ops_community.Json.{Json, str, obj, end, field, get}
use email_ops_community.Scheduling.{
  claimed, pending, ScheduledSend, composed, State, Context, resolve_sovereign_mailbox_for_caller,
  cancel_update, cancel_scheduled_send,
}
use email_ops_community.Mailboxes.{MailboxAccount, shared, human}
use email_ops_community.Scheduling.Payload.{
  ScheduledSendPayload, normalize_payload, payload_json, payload_of,
}
use email_ops_community.Scheduling.Worker.{
  due_rows, claim, is_due, fire_row, fire_due_scheduled_sends,
}
use email_ops_community.Scheduling.States.{AllFollow, fire_due_scheduled_sends-AllFollow}
use email_ops_community.Scheduling.Claim.{NoneOf, Settled, fire_row-Settled, fire_row-once}
use email_ops_community.Scheduling.Cancel.{cancel_scheduled_send-final}
use email_ops_community.Scheduling.Drain.{fire_due_scheduled_sends-drains}
use email_ops_community.Email.{EmailMessage, Store, Engine, Directory, EngineSendResult}
use email_ops_community.Delivery.{EmailMessageStatus}
use email_ops_community.Email.Phases.{compose_prepare, compose_email, ComposeResult, unchanged}
use email_ops_community.Email.Compose.{ComposePrep}
use email_ops_community.Email.Gate.{Sends}
use email_ops_community.Scheduling.Mail.{
  IsSent, mail_input, outcome_of, answering, interrupted_send-lost,
}
use email_ops_community.Scheduling.Stored.{normalize_payload-payload_json}

abbrev request : Json
request = obj (field "toAddress" (str (txt " a@b.c ")) (field "subject" (str (txt "hi")) end))

abbrev send_row : Text → ℕ → ScheduledSend
send_row i at = record {
  id = i;
  workspace_id = txt "w";
  mailbox_id = txt "m";
  payload = request;
  send_at = at;
  state = pending;
  created_by = some (txt "u");
  claimed_at = none;
  sent_at = none;
}

abbrev mailbox : MailboxAccount
mailbox = record {
  id = txt "m";
  workspace_id = txt "w";
  email_address = txt "m@x.y";
  provider = txt "stalwart";
  active = true;
  display_name = none;
  is_default = true;
  postmark_lane = true;
  owner_kind = human;
  owner_key = some (txt "u");
}

abbrev cx : Context
cx = record {
  mailboxes = mailbox ∷ [];
  users = [];
  is_configured = true;
  handles = λ m. false;
  compose_email = λ calls c. composed;
}

abbrev table : State
table = record { sends = send_row (txt "s2") 9 ∷ send_row (txt "s1") 5 ∷ []; calls = [] }

fire_due_scheduled_sends-drains_example :
    NoneOf (is_due 9) (fire_due_scheduled_sends 9 10 cx 50 table).1.sends
unfolding email_ops_community.Prelude.Text.text_eq
fire_due_scheduled_sends-drains_example =
    fire_due_scheduled_sends-drains 9 10 cx 50 table ((refl, tt), (tt, tt)) (omega arith)

fire_row-once_example :
    (fire_row 9 10 cx (send_row (txt "s1") 5) (claim 8 (send_row (txt "s1") 5) table)
      ≡ (false, claim 8 (send_row (txt "s1") 5) table))
    × (fire_row 9 10 cx (send_row (txt "s1") 5) (fire_row 8 8 cx (send_row (txt "s1") 5) table).1
        ≡ (false, (fire_row 8 8 cx (send_row (txt "s1") 5) table).1))
unfolding email_ops_community.Prelude.Text.text_eq
fire_row-once_example = fire_row-once 8 8 9 10 cx cx (send_row (txt "s1") 5) table refl refl

fire_row-Settled_example :
    Settled (send_row (txt "s1") 5) (fire_row 8 8 cx (send_row (txt "s1") 5) table).1
unfolding email_ops_community.Prelude.Text.text_eq
fire_row-Settled_example = fire_row-Settled 8 8 cx (send_row (txt "s1") 5) table refl

cancel_scheduled_send-final_example :
    fire_row 9 10 cx
      (send_row (txt "s1") 5)
      (cancel_scheduled_send cx (some (txt "u")) (txt "w") (txt "s1") table).1
    ≡ (false, (cancel_scheduled_send cx (some (txt "u")) (txt "w") (txt "s1") table).1)
unfolding cancel_scheduled_send text_eq resolve_sovereign_mailbox_for_caller
cancel_scheduled_send-final_example =
    cancel_scheduled_send-final cx cx (some (txt "u")) (txt "w") (send_row (txt "s1") 5) 9 10 table
      ((refl, tt), (tt, tt)) refl

fire_due_scheduled_sends-AllFollow_example :
    AllFollow table.sends (fire_due_scheduled_sends 9 10 cx 50 table).1.sends
    × AllFollow table.sends (cancel_update (txt "w") (txt "s1") table).1.sends
fire_due_scheduled_sends-AllFollow_example =
    fire_due_scheduled_sends-AllFollow 9 10 cx 50 (txt "w") (txt "s1") table

abbrev normalized : ScheduledSendPayload
normalized =
    payload_of (txt "a@b.c")
      (field "toAddress" (str (txt " a@b.c ")) (field "subject" (str (txt "hi")) end))

normalize_payload-payload_json_example :
    normalize_payload (payload_json normalized) ≡ some normalized
unfolding normalize_payload trim get
normalize_payload-payload_json_example = normalize_payload-payload_json request normalized refl

abbrev directory : Directory
directory = record {
  mailboxes = mailbox ∷ [];
  users = [];
  agents = [];
  agent_mailboxes = [];
  mail_domains = [];
  agents_paused = λ w. false;
  trusted_compose_sources = txt "email-ops-client" ∷ [];
  autonomous_send_enabled = false;
  handles = λ m. false;
  message_headers = λ address id. none;
}

abbrev engine : Engine
engine calls call = record {
  accepted = true;
  provider_message_id = some (txt "p");
  thread_id = none;
  lane = none;
  reason = none;
}

abbrev empty_store : Store
empty_store = record {
  messages = [];
  items = [];
  actions = [];
  contacts = [];
  trusted = [];
  calls = [];
}

-- `s1` as the worker that stopped has left it, claimed at 8.
abbrev left_row : ScheduledSend
left_row = record (send_row (txt "s1") 5) { state = claimed; claimed_at = some 8 }

abbrev left_table : State
left_table = record { sends = left_row ∷ []; calls = [] }

-- The first phase of its send, and the compose of the sweep that reclaims it.
abbrev stopped : ComposePrep × Store
stopped =
    compose_prepare directory (txt "n1") (txt "i1") (txt "w") (some (txt "u"))
      (mail_input left_row normalized) empty_store

abbrev reclaimed : ComposeResult × Store
reclaimed =
    compose_email 400000 directory engine (txt "n2") (txt "i2") (txt "w") (some (txt "u"))
      (mail_input left_row normalized) stopped.1

abbrev reclaiming : ℕ × State
reclaiming =
    fire_due_scheduled_sends 400000 400001 (answering (outcome_of reclaimed.0) cx) 50 left_table

stopped-Sends : Sends stopped
unfolding Sends compose_prepare email_ops_community.Email.Phases.prepare_new
    email_ops_community.Email.Compose.agent_of email_ops_community.Email.Compose.explicit_from
    text_eq email_ops_community.Mailboxes.may_act_through_mailbox
    email_ops_community.Email.Compose.compose_decision
    email_ops_community.Autonomy.decide_agent_compose_mode
    email_ops_community.Autonomy.decide_compose_mode
stopped-Sends = (_, refl)

interrupted_send-lost_example :
    (m : EmailMessage) × (reclaimed.0 ≡ unchanged m)
    × (m.status ≡ EmailMessageStatus.queued)
    × (stopped.1.calls ≡ [])
    × (reclaimed.1.calls ≡ [])
    × (reclaiming.0 ≡ 1)
    × Any (IsSent (txt "s1") 400001) reclaiming.1.sends
unfolding text_eq due_rows normalize_payload trim get
interrupted_send-lost_example =
    interrupted_send-lost 400000 400001 50 directory directory engine (txt "n1") (txt "n2")
      (txt "i1") (txt "i2") cx left_row normalized empty_store left_table stopped-Sends refl refl
      refl refl refl refl
