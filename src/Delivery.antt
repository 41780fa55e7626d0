-- ===== src/Delivery.antt =====
-- Delivery feedback: backend/src/email/message-status.ts, the mapping of a Postmark record in
-- backend/src/webhooks/postmark.types.ts and `recordEngagementEvent` of
-- backend/src/email/email.service.ts.
pub mod Capture
pub mod Redelivery
mod Tests
use email_ops_community.Prelude.{
  ℕ, suc, Bool, true, false, not, ◌&&◌, ◌||◌, Option, none, some, List, [], ◌∷◌, ◌++◌, String, ltb,
  any, if◌then◌else◌,
}
use email_ops_community.Prelude.Int.{ℤ, pos, negsuc}
use email_ops_community.Prelude.Text.{Text, txt, text_eq, trim, is_empty, decimal}
use email_ops_community.Json.{Json, boolean, str, num, Fields, get, as_string}

pub data EmailMessageStatus : Type 0 where
  draft pending_approval queued sent delivered bounced failed rejected : EmailMessageStatus

abbrev pub status_rank : EmailMessageStatus → ℕ
status_rank draft = 0
status_rank pending_approval = 5
status_rank queued = 10
status_rank sent = 20
status_rank delivered = 30
status_rank bounced = 40
status_rank failed = 40
status_rank rejected = 40

unfoldable pub should_advance_status : EmailMessageStatus → Option EmailMessageStatus → Bool
should_advance_status current none = false
should_advance_status current (some incoming) = ltb (status_rank current) (status_rank incoming)

pub data PostmarkRecordType : Type 0 where
  delivery open_record click bounce spam_complaint subscription_change : PostmarkRecordType

pub data EmailEngagementKind : Type 0 where
  opened clicked bounced_kind unsubscribed : EmailEngagementKind

pub record PostmarkMapping : Type 0 where
  pub record_type : PostmarkRecordType
  pub normalized_kind : Option EmailEngagementKind
  pub status_target : Option EmailMessageStatus
  pub provider_message_id : Option Text
  pub provider_event_id : Text
  pub occurred_at : Option ℕ

abbrev pub record_name : PostmarkRecordType → Text
record_name delivery = txt "Delivery"
record_name open_record = txt "Open"
record_name click = txt "Click"
record_name bounce = txt "Bounce"
record_name spam_complaint = txt "SpamComplaint"
record_name subscription_change = txt "SubscriptionChange"

-- `isHandledRecordType`, with the type that it accepts.
unfoldable pub handled_record_type : Option Text → Option PostmarkRecordType
handled_record_type none = none
handled_record_type (some t) =
    if text_eq t (txt "Delivery")
    then some delivery
    else if text_eq t (txt "Open")
    then some open_record
    else if text_eq t (txt "Click")
    then some click
    else if text_eq t (txt "Bounce")
    then some bounce
    else if text_eq t (txt "SpamComplaint")
    then some spam_complaint
    else if text_eq t (txt "SubscriptionChange")
    then some subscription_change
    else none

abbrev integer_text : ℤ → Text
integer_text (pos n) = decimal n
integer_text (negsuc n) = txt "-" ++ decimal (suc n)

-- `${body.ID}`, whose declared type is a text or a number; none where it is absent or blank.
unfoldable pub own_id : Option Json → Option Text
own_id (some (str s)) = if is_empty (trim s) then none else some s
own_id (some (num n)) = some (integer_text n)
own_id _ = none

abbrev or_text : Option Text → Text → Text
or_text none d = d
or_text (some s) d = s

-- What the table of the record types says of one of them: the kind and the status target.
abbrev kind_of : PostmarkRecordType → Option Json → Option EmailEngagementKind
kind_of delivery s = none
kind_of open_record s = some opened
kind_of click s = some clicked
kind_of bounce s = some bounced_kind
kind_of spam_complaint s = some unsubscribed
kind_of subscription_change (some (boolean false)) = none
kind_of subscription_change _ = some unsubscribed

abbrev target_of : PostmarkRecordType → Option EmailMessageStatus
target_of delivery = some delivered
target_of bounce = some bounced
target_of _ = none

-- `new Date(text).getTime()`, none where it is NaN, and `toISOString`.
module _ (parse_date : Text → Option ℕ) (to_iso_string : ℕ → Text) where
  -- `parseTs`, over the candidates in their order.
  parse_ts : List (Option Json) → Option ℕ
  parse_ts [] = none
  parse_ts (some (str c) ∷ candidates) =
      let rest = parse_ts candidates in
      if is_empty (trim c) then rest else elim (parse_date c) [ some d ↦ some d | none ↦ rest ]
  parse_ts (_ ∷ candidates) = parse_ts candidates

  abbrev stamp_text : Option ℕ → Text
  stamp_text none = txt "no-ts"
  stamp_text (some d) = to_iso_string d

  unfoldable pub derive_event_id : Fields → PostmarkRecordType → Option ℕ → Text
  derive_event_id body record_type occurred_at =
      let prefix = txt "postmark:" ++ record_name record_type ++ txt ":" in
      elim (own_id (get "ID" body)) [
        | some id ↦ prefix ++ id
        | none ↦
            prefix
            ++ or_text (as_string (get "MessageID" body)) (txt "no-mid")
            ++ txt ":"
            ++ stamp_text occurred_at
      ]

  unfoldable pub map_postmark_record : Fields → Option PostmarkMapping
  unfolding parse_ts
  map_postmark_record body = elim (handled_record_type (as_string (get "RecordType" body))) [
    | none ↦ none
    | some t ↦
        let occurred_at = parse_ts (
          get "DeliveredAt" body
          ∷ get "BouncedAt" body
          ∷ get "ChangedAt" body
          ∷ get "ReceivedAt" body
          ∷ []) in
        some (record {
          record_type = t;
          normalized_kind = kind_of t (get "SuppressSending" body);
          status_target = target_of t;
          provider_message_id = as_string (get "MessageID" body);
          provider_event_id = derive_event_id body t occurred_at;
          occurred_at = occurred_at;
        })
  ]

pub record EmailMessage : Type 0 where
  pub id : Text
  pub workspace_id : Text
  pub provider_message_id : Option Text
  pub status : EmailMessageStatus

pub record EngagementEvent : Type 0 where
  pub workspace_id : Text
  pub email_message_id : Text
  pub provider : Text
  pub provider_event_id : Text
  pub record_type : Text
  pub normalized_kind : Option EmailEngagementKind
  pub occurred_at : ℕ

-- The tables email_messages and email_engagement_events, rows in the order of their creation.
pub record Store : Type 0 where
  pub messages : List EmailMessage
  pub events : List EngagementEvent

pub record EngagementCaptureInput : Type 0 where
  pub provider : Text
  pub provider_message_id : Text
  pub provider_event_id : Text
  pub record_type : Text
  pub normalized_kind : Option EmailEngagementKind
  pub status_target : Option EmailMessageStatus
  pub occurred_at : Option ℕ

pub data CaptureOutcome : Type 0 where
  recorded duplicate unmatched : CaptureOutcome

pub record EngagementCaptureResult : Type 0 where
  pub outcome : CaptureOutcome
  pub workspace_id : Option Text
  pub email_message_id : Option Text
  pub normalized_kind : Option EmailEngagementKind
  pub status_before : Option EmailMessageStatus
  pub status_after : Option EmailMessageStatus
  pub status_advanced : Bool

abbrev is_for : Text → Option Text → Bool
is_for pid none = false
is_for pid (some p) = text_eq p pid

-- The privileged read: the newest message that carries the provider id, with its status.
unfoldable pub resolve_owner : Text → List EmailMessage → Option EmailMessage
resolve_owner pid [] = none
resolve_owner pid (m ∷ ms) = elim (resolve_owner pid ms) [
  | some newer ↦ some newer
  | none ↦ if is_for pid m.provider_message_id then some m else none
]

-- The unique index of the events.
abbrev same_event : Text → EngagementCaptureInput → EngagementEvent → Bool
same_event workspace_id input e =
    text_eq e.workspace_id workspace_id
    && text_eq e.provider input.provider
    && text_eq e.provider_event_id input.provider_event_id

unfoldable pub set_status : Text → EmailMessageStatus → List EmailMessage → List EmailMessage
set_status id status [] = []
set_status id status (m ∷ ms) =
    (if text_eq m.id id then record m { status = status } else m) ∷ set_status id status ms

-- The status that the handler writes, computed from the status that it read.
abbrev advanced : EmailMessageStatus → Option EmailMessageStatus → EmailMessageStatus
advanced before none = before
advanced before (some target) =
    if should_advance_status before (some target) then target else before

abbrev write_status :
    Text → EmailMessageStatus → Option EmailMessageStatus → List EmailMessage → List EmailMessage
write_status id before none ms = ms
write_status id before (some target) ms =
    if should_advance_status before (some target) then set_status id target ms else ms

abbrev or_now : Option ℕ → ℕ → ℕ
or_now none now = now
or_now (some t) now = t

abbrev duplicate_result : EmailMessage → EngagementCaptureInput → EngagementCaptureResult
duplicate_result owner input = record {
  outcome = duplicate;
  workspace_id = some owner.workspace_id;
  email_message_id = some owner.id;
  normalized_kind = input.normalized_kind;
  status_before = some owner.status;
  status_after = some owner.status;
  status_advanced = false;
}

abbrev unmatched_result : EngagementCaptureInput → EngagementCaptureResult
unmatched_result input = record {
  outcome = unmatched;
  workspace_id = none;
  email_message_id = none;
  normalized_kind = input.normalized_kind;
  status_before = none;
  status_after = none;
  status_advanced = false;
}

abbrev event_of : ℕ → EmailMessage → EngagementCaptureInput → EngagementEvent
event_of now owner input = record {
  workspace_id = owner.workspace_id;
  email_message_id = owner.id;
  provider = input.provider;
  provider_event_id = input.provider_event_id;
  record_type = input.record_type;
  normalized_kind = input.normalized_kind;
  occurred_at = or_now input.occurred_at now;
}

-- Step 2 of `recordEngagementEvent`: the scoped mutation, with the message as step 1 read it. A
-- unique violation by a concurrent insert ends as the pre-check does.
unfoldable pub apply_capture :
    ℕ → EmailMessage → EngagementCaptureInput → Store → EngagementCaptureResult × Store
apply_capture now owner input s =
    if any (same_event owner.workspace_id input) s.events
    then (duplicate_result owner input, s)
    else (
      record {
        outcome = recorded;
        workspace_id = some owner.workspace_id;
        email_message_id = some owner.id;
        normalized_kind = input.normalized_kind;
        status_before = some owner.status;
        status_after = some (advanced owner.status input.status_target);
        status_advanced = should_advance_status owner.status input.status_target;
      },
      record {
        messages = write_status owner.id owner.status input.status_target s.messages;
        events = s.events ++ event_of now owner input ∷ [];
      },
    )

-- `recordEngagementEvent` when nothing comes between its two steps.
unfoldable pub record_engagement_event :
    ℕ → EngagementCaptureInput → Store → EngagementCaptureResult × Store
unfolding apply_capture
record_engagement_event now input s = elim (resolve_owner input.provider_message_id s.messages) [
  | none ↦ (unmatched_result input, s)
  | some owner ↦ apply_capture now owner input s
]

-- A run of the webhook over events that arrive one after the other.
unfoldable pub capture_all : ℕ → List EngagementCaptureInput → Store → Store
capture_all now [] s = s
capture_all now (input ∷ inputs) s = capture_all now inputs (record_engagement_event now input s).1
