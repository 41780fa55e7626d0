-- ===== src/Scheduling.antt =====
-- backend/src/scheduling/scheduling.service.ts: sends at a time, from the request to the worker's
-- sweep. The table scheduled_sends is a list of rows, the engine and `composeEmail` are parameters.
pub mod Payload
pub mod Worker
pub mod Mail
pub mod States
pub mod Claim
pub mod Cancel
pub mod Sweep
pub mod Drain
pub mod Stored
mod Tests
use email_ops_community.Prelude.{
  ℕ, suc, ◌+◌, ◌-◌, leb, ◌==◌, Bool, true, false, not, ◌&&◌, ◌||◌, Option, none, some, List, [],
  ◌∷◌, ◌++◌, map, any, find, keep, take, length, if◌then◌else◌,
}
use mathlib.Core.Option
use email_ops_community.Prelude.Text.{Text, txt, text_eq, is_empty}
use email_ops_community.Json.{Json}
use email_ops_community.Mailboxes.{MailboxAccount, User, may_act_through_mailbox}
use email_ops_community.Scheduling.Payload.{
  ScheduledSendPayload, Attachment, normalize_payload, payload_json,
}

pub data ScheduledSendState : Type 0 where
  pending claimed sent failed cancelled : ScheduledSendState

pub record ScheduledSend : Type 0 where
  pub id : Text
  pub workspace_id : Text
  pub mailbox_id : Text
  pub payload : Json
  pub send_at : ℕ
  pub state : ScheduledSendState
  pub created_by : Option Text
  pub claimed_at : Option ℕ
  pub sent_at : Option ℕ

-- What the worker passes to `composeEmail`, less the fields that are always null.
pub record ComposeInput : Type 0 where
  pub payload : ScheduledSendPayload
  pub mode : Text
  pub external_source : Text
  pub external_ref : Text
  pub from_mailbox_account_id : Text

pub record ComposeCall : Type 0 where
  pub workspace_id : Text
  pub created_by : Option Text
  pub input : ComposeInput

-- `composeEmail` returns a result, one with the status 'failed' or another one, or it throws.
pub data ComposeOutcome : Type 0 where
  composed failed_result thrown : ComposeOutcome

-- The table and the calls of `composeEmail` so far, oldest first.
pub record State : Type 0 where
  pub sends : List ScheduledSend
  pub calls : List ComposeCall

-- What the sweeps read and do not write: the mailboxes, the users, whether the engine is set up,
-- which mailboxes another provider handles, and the answers of `composeEmail`.
pub record Context : Type 0 where
  pub mailboxes : List MailboxAccount
  pub users : List User
  pub is_configured : Bool
  pub handles : MailboxAccount → Bool
  pub compose_email : List ComposeCall → ComposeCall → ComposeOutcome

abbrev pub is_pending : ScheduledSendState → Bool
is_pending pending = true
is_pending _ = false

abbrev pub is_claimed : ScheduledSendState → Bool
is_claimed claimed = true
is_claimed _ = false

abbrev pub opt_eq : Option ℕ → Option ℕ → Bool
opt_eq none none = true
opt_eq (some a) (some b) = a == b
opt_eq _ _ = false

-- `updateMany`: the number of the rows where the condition holds, and the table after the update.
abbrev pub matching : (ScheduledSend → Bool) → List ScheduledSend → ℕ
matching condition rows = length (keep condition rows)

unfoldable pub update_many :
    (ScheduledSend → Bool)
    → (ScheduledSend → ScheduledSend)
    → List ScheduledSend
    → List ScheduledSend
update_many condition change [] = []
update_many condition change (r ∷ rows) =
    (if condition r then change r else r) ∷ update_many condition change rows

-- The mailbox, if the caller may act through it and the sovereign engine has it.
unfoldable pub resolve_sovereign_mailbox_for_caller :
    Context → Text → Option Text → Text → Option MailboxAccount
unfolding may_act_through_mailbox
resolve_sovereign_mailbox_for_caller cx workspace_id uc_uid mailbox_id =
    elim (find (λ m. text_eq m.id mailbox_id && text_eq m.workspace_id workspace_id && m.active)
      cx.mailboxes) [
        | none ↦ none
        | some m ↦
            if may_act_through_mailbox cx.users m uc_uid && not (cx.handles m) then some m else none
      ]

abbrev pub has_some {ℓ} : {A : Type ℓ} → Option A → Bool
has_some none = false
has_some (some a) = true

-- `scheduleSend`; the time is none where it is not finite, and the new row's id is chosen by the
-- database.
unfoldable pub schedule_send :
    Context
    → Option Text
    → Text
    → Text
    → Text
    → Json
    → Option ℕ
    → State
    → Option ScheduledSend × State
schedule_send cx uc_uid new_id workspace_id mailbox_id payload none s = (none, s)
schedule_send cx uc_uid new_id workspace_id mailbox_id payload (some send_at) s =
    if not (
      has_some (resolve_sovereign_mailbox_for_caller cx workspace_id uc_uid mailbox_id)
      && cx.is_configured)
    then (none, s)
    else elim (normalize_payload payload) [
      | none ↦ (none, s)
      | some p ↦
          let row : ScheduledSend = record {
            id = new_id;
            workspace_id = workspace_id;
            mailbox_id = mailbox_id;
            payload = payload_json p;
            send_at = send_at;
            state = pending;
            created_by = uc_uid;
            claimed_at = none;
            sent_at = none;
          } in
          (some row, record s { sends = s.sends ++ row ∷ [] })
    ]

abbrev pub cancellable : Text → Text → ScheduledSend → Bool
cancellable workspace_id id r =
    text_eq r.id id && text_eq r.workspace_id workspace_id && is_pending r.state

abbrev pub cancel_row : ScheduledSend → ScheduledSend
cancel_row r = record r { state = cancelled }

-- The update of `cancelScheduledSend`, the last of its statements.
unfoldable pub cancel_update : Text → Text → State → Bool × State
cancel_update workspace_id id s = (
  matching (cancellable workspace_id id) s.sends == 1,
  record s { sends = update_many (cancellable workspace_id id) cancel_row s.sends },
)

unfoldable pub cancel_scheduled_send : Context → Option Text → Text → Text → State → Bool × State
unfolding cancel_update
cancel_scheduled_send cx uc_uid workspace_id id s =
    elim (find (cancellable workspace_id id) s.sends) [
      | none ↦ (false, s)
      | some row ↦
          if has_some (resolve_sovereign_mailbox_for_caller cx workspace_id uc_uid row.mailbox_id)
          then cancel_update workspace_id id s
          else (false, s)
    ]
