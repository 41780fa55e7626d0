-- ===== src/Delivery/Tests.antt =====
-- The witnesses of the theorems on `recordEngagementEvent`, and runs of the record mapping.
use email_ops_community.Prelude.{◌≤◌, ◌≡◌, refl, Option, some, none, List, [], ◌∷◌}
use email_ops_community.Prelude.Text.{Text, txt}
use email_ops_community.Json.{str, end, field}
use email_ops_community.Delivery.{
  EmailMessage, EmailMessageStatus, sent, delivered, bounced, Store, EngagementCaptureInput,
  bounced_kind, bounce, derive_event_id, map_postmark_record, resolve_owner, set_status,
  write_status, should_advance_status, apply_capture, record_engagement_event, capture_all,
}
use email_ops_community.Delivery.Capture.{NotRegressed, capture_all-NotRegressed}
use email_ops_community.Delivery.Redelivery.{
  record_engagement_event_idem, interleaved_captures_regress,
}

abbrev message : Text → EmailMessage
message i = record { id = i; workspace_id = txt "w1"; provider_message_id = some i; status = sent }

abbrev start : Store
start = record { messages = message (txt "a") ∷ message (txt "b") ∷ []; events = [] }

abbrev event : Text → EmailMessageStatus → EngagementCaptureInput
event i st = record {
  provider = txt "postmark";
  provider_message_id = txt "a";
  provider_event_id = i;
  record_type = txt "Bounce";
  normalized_kind = some bounced_kind;
  status_target = some st;
  occurred_at = none;
}

capture_all-NotRegressed_example :
    NotRegressed start.messages
      (capture_all 7 (event (txt "1") bounced ∷ event (txt "2") delivered ∷ []) start).messages
unfolding email_ops_community.Prelude.Text.text_eq
capture_all-NotRegressed_example =
    capture_all-NotRegressed 7 (event (txt "1") bounced ∷ event (txt "2") delivered ∷ []) start
      ((refl, tt), (tt, tt))

-- The store when a bounce has been captured, and a delivery after it.
abbrev meantime : Store
meantime =
    capture_all 8 (event (txt "2") delivered ∷ [])
      (record_engagement_event 7 (event (txt "1") bounced) start).1

record_engagement_event_idem_example :
    (record_engagement_event 9 (event (txt "1") bounced) meantime).1 ≡ meantime
record_engagement_event_idem_example =
    record_engagement_event_idem 7 8 9 (event (txt "1") bounced) (event (txt "2") delivered ∷ [])
      start

interleaved_captures_regress_example :
    (resolve_owner
        (txt "a")
        (apply_capture 7 (message (txt "a")) (event (txt "1") bounced) start).1.messages
      ≡ some (record (message (txt "a")) { status = bounced }))
    × (resolve_owner
          (txt "a")
          (apply_capture 7
            (message (txt "a"))
            (event (txt "2") delivered)
            (apply_capture 7 (message (txt "a")) (event (txt "1") bounced) start).1).1.messages
        ≡ some (record (message (txt "a")) { status = delivered }))
unfolding resolve_owner apply_capture should_advance_status set_status
    email_ops_community.Prelude.Text.text_eq
interleaved_captures_regress_example =
    interleaved_captures_regress 7 (message (txt "a")) (event (txt "1") bounced)
      (event (txt "2") delivered) start refl refl refl refl refl refl

-- A bounce without an ID is keyed by its message and its time.
event_id_run :
    derive_event_id
      (λ d. some 0)
      (λ t. txt "1970")
      (field "MessageID" (str (txt "m")) end)
      bounce
      (some 0)
    ≡ txt "postmark:Bounce:m:1970"
unfolding derive_event_id email_ops_community.Delivery.own_id email_ops_community.Json.get
event_id_run = refl
