-- ===== src/Delivery/Redelivery.antt =====
-- `recordEngagementEvent` of backend/src/email/email.service.ts: a provider event that is delivered
-- again, and two handlers that interleave.
use email_ops_community.Prelude.{
  ℕ, ◌≡◌, refl, sym, ap, ◌∙◌, Bool, true, false, Option, none, some, List, [], ◌∷◌, ◌++◌, arith,
  any, ltb, Option-cases, Bool-cases, inl, inr, if◌then◌else◌,
}
use mathlib.Core.Option
use mathlib.Core.Path.{subst}
use email_ops_community.Prelude.Text.{Text, text_eq, text_eq_refl}
use email_ops_community.Delivery.{
  EmailMessageStatus, sent, delivered, bounced, status_rank, should_advance_status, EmailMessage,
  EngagementEvent, Store, EngagementCaptureInput, resolve_owner, same_event, set_status,
  write_status, apply_capture, record_engagement_event, event_of, capture_all,
}

-- The row as an update of one id leaves it.
abbrev restatus : Text → EmailMessageStatus → EmailMessage → EmailMessage
restatus id st m = if text_eq m.id id then record m { status = st } else m

resolve_owner-set_status :
    (pid id : Text) (st : EmailMessageStatus) (ms : List EmailMessage)
    → resolve_owner pid (set_status id st ms) ≡ Option.map (restatus id st) (resolve_owner pid ms)
unfolding resolve_owner set_status
resolve_owner-set_status pid id st [] = refl
resolve_owner-set_status pid id st (m ∷ ms) = ground (arith, resolve_owner-set_status pid id st ms)

resolve_owner-write_status :
    (pid : Text) (owner : EmailMessage) (target : Option EmailMessageStatus)
    (ms : List EmailMessage)
    → resolve_owner pid ms ≡ some owner
    → (o : EmailMessage) × (resolve_owner pid (write_status owner.id owner.status target ms)
        ≡ some o)
      × (o.workspace_id ≡ owner.workspace_id)
resolve_owner-write_status pid owner none ms e = (owner, e, refl)
resolve_owner-write_status pid owner (some st) ms e =
    elim (Bool-cases (should_advance_status owner.status (some st))) [
      | inl up ↦ (
        record owner { status = st },
        rw up (
            resolve_owner-set_status pid owner.id st ms
            ∙ ap (Option.map (restatus owner.id st)) e
            ∙ rw (text_eq_refl owner.id) refl),
        refl,
      )
      | inr held ↦ (owner, rw held e, refl)
    ]

any-last :
    (p : EngagementEvent → Bool) (xs : List EngagementEvent) (x : EngagementEvent)
    → p x ≡ true
    → any p (xs ++ x ∷ []) ≡ true
any-last p [] x h = rw h refl
any-last p (y ∷ ys) x h = ground (arith, any-last p ys x h)

same_event-event_of :
    (now : ℕ) (owner : EmailMessage) (input : EngagementCaptureInput)
    → same_event owner.workspace_id input (event_of now owner input) ≡ true
same_event-event_of now owner input =
    rw
      (
        text_eq_refl owner.workspace_id,
        text_eq_refl input.provider,
        text_eq_refl input.provider_event_id,
      )
      refl

apply_capture-known :
    (now : ℕ) (o : EmailMessage) (input : EngagementCaptureInput) (s : Store)
    → any (same_event o.workspace_id input) s.events ≡ true
    → (apply_capture now o input s).1 ≡ s
unfolding apply_capture
apply_capture-known now o input s h = rw h refl

record_engagement_event-known :
    (now : ℕ) (o : EmailMessage) (input : EngagementCaptureInput) (s : Store)
    → resolve_owner input.provider_message_id s.messages ≡ some o
    → any (same_event o.workspace_id input) s.events ≡ true
    → (record_engagement_event now input s).1 ≡ s
unfolding record_engagement_event
record_engagement_event-known now o input s e h =
    rw (e, record_engagement_event) (apply_capture-known now o input s h)

record_engagement_event-unmatched :
    (now : ℕ) (input : EngagementCaptureInput) (s : Store)
    → resolve_owner input.provider_message_id s.messages ≡ none
    → (record_engagement_event now input s).1 ≡ s
unfolding record_engagement_event
record_engagement_event-unmatched now input s e = rw (e, record_engagement_event) refl

record_engagement_event-matched :
    (now : ℕ) (owner : EmailMessage) (input : EngagementCaptureInput) (s : Store)
    → resolve_owner input.provider_message_id s.messages ≡ some owner
    → (record_engagement_event now input s).1 ≡ (apply_capture now owner input s).1
unfolding record_engagement_event
record_engagement_event-matched now owner input s e = rw (e, record_engagement_event) refl

-- The table has the event of the input, for the message that the provider id leads to.
abbrev Knows : EngagementCaptureInput → Store → Option EmailMessage → Type 0
Knows input s none = Unit
Knows input s (some o) = any (same_event o.workspace_id input) s.events ≡ true

abbrev IsKnown : EngagementCaptureInput → Store → Type 0
IsKnown input s = Knows input s (resolve_owner input.provider_message_id s.messages)

record_engagement_event-IsKnown :
    (now : ℕ) (input : EngagementCaptureInput) (s : Store)
    → IsKnown input s
    → (record_engagement_event now input s).1 ≡ s
record_engagement_event-IsKnown now input s h =
    elim (Option-cases (resolve_owner input.provider_message_id s.messages)) [
      | inl e ↦ record_engagement_event-unmatched now input s e
      | inr (o, e) ↦
          record_engagement_event-known now o input s e (subst (λ r. Knows input s r) e h)
    ]

any-more :
    (p : EngagementEvent → Bool) (xs : List EngagementEvent) (x : EngagementEvent)
    → any p xs ≡ true
    → any p (xs ++ x ∷ []) ≡ true
any-more p [] x h = ground (arith, h)
any-more p (y ∷ ys) x h = ground (arith, any-more p ys x, h)

-- The owner after an update of the status of some message, and one more event.
Knows-set_status :
    (input : EngagementCaptureInput) (id : Text) (st : EmailMessageStatus) (x : EngagementEvent)
    (s : Store) (r : Option EmailMessage)
    → Knows input s r
    → Knows input
        (record { messages = set_status id st s.messages; events = s.events ++ x ∷ [] })
        (Option.map (restatus id st) r)
Knows-set_status input id st x s none h = tt
Knows-set_status input id st x s (some o) h = elim (Bool-cases (text_eq o.id id)) [
  | inl e ↦ rw e (any-more (same_event o.workspace_id input) s.events x h)
  | inr e ↦ rw e (any-more (same_event o.workspace_id input) s.events x h)
]

Knows-more :
    (input : EngagementCaptureInput) (x : EngagementEvent) (s : Store) (r : Option EmailMessage)
    → Knows input s r
    → Knows input (record s { events = s.events ++ x ∷ [] }) r
Knows-more input x s none h = tt
Knows-more input x s (some o) h = any-more (same_event o.workspace_id input) s.events x h

write_status-IsKnown :
    (input : EngagementCaptureInput) (id : Text) (before : EmailMessageStatus)
    (target : Option EmailMessageStatus) (x : EngagementEvent) (s : Store)
    → IsKnown input s
    → IsKnown input (record {
      messages = write_status id before target s.messages;
      events = s.events ++ x ∷ [];
    })
write_status-IsKnown input id before none x s h = Knows-more input x s _ h
write_status-IsKnown input id before (some st) x s h =
    elim (Bool-cases (should_advance_status before (some st))) [
      | inl e ↦ rw e (
          subst
            (λ r.
              Knows input
                (record { messages = set_status id st s.messages; events = s.events ++ x ∷ [] }) r)
            (sym (resolve_owner-set_status input.provider_message_id id st s.messages))
            (Knows-set_status input id st x s _ h))
      | inr e ↦ rw e (Knows-more input x s _ h)
    ]

apply_capture-IsKnown :
    (now : ℕ) (owner : EmailMessage) (input x : EngagementCaptureInput) (s : Store)
    → IsKnown input s
    → IsKnown input (apply_capture now owner x s).1
unfolding apply_capture
apply_capture-IsKnown now owner input x s h =
    elim (Bool-cases (any (same_event owner.workspace_id x) s.events)) [
      | inl e ↦ rw e h
      | inr e ↦ rw e (
          write_status-IsKnown input owner.id owner.status x.status_target (event_of now owner x) s
            h)
    ]

-- What the table knows, it knows after any further event.
keeps-IsKnown :
    (now : ℕ) (input x : EngagementCaptureInput) (s : Store)
    → IsKnown input s
    → IsKnown input (record_engagement_event now x s).1
keeps-IsKnown now input x s h =
    elim (Option-cases (resolve_owner x.provider_message_id s.messages)) [
      | inl e ↦ subst (λ t. IsKnown input t) (sym (record_engagement_event-unmatched now x s e)) h
      | inr (o, e) ↦
          subst (λ t. IsKnown input t) (sym (record_engagement_event-matched now o x s e))
            (apply_capture-IsKnown now o input x s h)
    ]

capture_all-IsKnown :
    (now : ℕ) (input : EngagementCaptureInput) (xs : List EngagementCaptureInput) (s : Store)
    → IsKnown input s
    → IsKnown input (capture_all now xs s)
unfolding capture_all
capture_all-IsKnown now input [] s h = h
capture_all-IsKnown now input (x ∷ xs) s h =
    capture_all-IsKnown now input xs _ (keeps-IsKnown now input x s h)

captured-IsKnown :
    (now : ℕ) (owner : EmailMessage) (input : EngagementCaptureInput) (s : Store)
    → resolve_owner input.provider_message_id s.messages ≡ some owner
    → IsKnown input (apply_capture now owner input s).1
unfolding apply_capture
captured-IsKnown now owner input s e =
    elim (Bool-cases (any (same_event owner.workspace_id input) s.events)) [
      | inl known ↦ rw (known, e) known
      | inr new ↦
          let (o, found, same) =
            resolve_owner-write_status input.provider_message_id owner input.status_target
              s.messages e in
          rw (new, found)
            (rw same (
              any-last (same_event owner.workspace_id input) s.events (event_of now owner input)
                (same_event-event_of now owner input)))
    ]

record_engagement_event-learns :
    (now : ℕ) (input : EngagementCaptureInput) (s : Store)
    → IsKnown input (record_engagement_event now input s).1
record_engagement_event-learns now input s =
    elim (Option-cases (resolve_owner input.provider_message_id s.messages)) [
      | inl e ↦
          subst (λ t. IsKnown input t) (sym (record_engagement_event-unmatched now input s e))
            (rw e tt)
      | inr (o, e) ↦
          subst (λ t. IsKnown input t) (sym (record_engagement_event-matched now o input s e))
            (captured-IsKnown now o input s e)
    ]

-- At-least-once delivery: after an event has been captured, and any further events have been
-- captured one after the other, a capture of the same event changes no row.
pub record_engagement_event_idem :
    (now meanwhile later : ℕ) (input : EngagementCaptureInput)
    (between : List EngagementCaptureInput) (s : Store)
    → let t = capture_all meanwhile between (record_engagement_event now input s).1 in
      (record_engagement_event later input t).1 ≡ t
record_engagement_event_idem now meanwhile later input between s =
    record_engagement_event-IsKnown later input _
      (capture_all-IsKnown meanwhile input between _ (record_engagement_event-learns now input s))

apply_capture-messages :
    (now : ℕ) (owner : EmailMessage) (input : EngagementCaptureInput) (st : EmailMessageStatus)
    (s : Store)
    → any (same_event owner.workspace_id input) s.events ≡ false
    → input.status_target ≡ some st
    → should_advance_status owner.status (some st) ≡ true
    → (apply_capture now owner input s).1.messages ≡ set_status owner.id st s.messages
unfolding apply_capture
apply_capture-messages now owner input st s fresh e up = rw (fresh, e, up) refl

sent-advances :
    (before st : EmailMessageStatus)
    → before ≡ sent
    → ltb 20 (status_rank st) ≡ true
    → should_advance_status before (some st) ≡ true
unfolding should_advance_status
sent-advances before st e h = rw e h

-- What a fresh capture with the target `st` makes of the row that it finds for its owner.
resolve_owner-apply_capture :
    (now : ℕ) (pid : Text) (owner o : EmailMessage) (input : EngagementCaptureInput)
    (st : EmailMessageStatus) (s : Store)
    → any (same_event owner.workspace_id input) s.events ≡ false
    → input.status_target ≡ some st
    → should_advance_status owner.status (some st) ≡ true
    → resolve_owner pid s.messages ≡ some o
    → text_eq o.id owner.id ≡ true
    → resolve_owner pid (apply_capture now owner input s).1.messages
      ≡ some (record o { status = st })
resolve_owner-apply_capture now pid owner o input st s fresh e up found same =
    ap (resolve_owner pid) (apply_capture-messages now owner input st s fresh e up)
    ∙ resolve_owner-set_status pid owner.id st s.messages
    ∙ ap (Option.map (restatus owner.id st)) found
    ∙ rw same refl

-- Two captures of one SENT message that both read it before either writes: the bounce is recorded,
-- and then the delivery writes over it, so the bounced message ends as DELIVERED, a lower rung.
pub interleaved_captures_regress :
    (now : ℕ) (owner : EmailMessage) (hard soft : EngagementCaptureInput) (s : Store)
    → owner.status ≡ sent
    → hard.status_target ≡ some bounced
    → soft.status_target ≡ some delivered
    → any (same_event owner.workspace_id hard) s.events ≡ false
    → any (same_event owner.workspace_id soft) (apply_capture now owner hard s).1.events ≡ false
    → resolve_owner soft.provider_message_id s.messages ≡ some owner
    → (resolve_owner soft.provider_message_id (apply_capture now owner hard s).1.messages
        ≡ some (record owner { status = bounced }))
      × (resolve_owner soft.provider_message_id
            (apply_capture now owner soft (apply_capture now owner hard s).1).1.messages
          ≡ some (record owner { status = delivered }))
interleaved_captures_regress now owner hard soft s st h d new_hard new_soft found =
    let pid = soft.provider_message_id in
    let first =
      resolve_owner-apply_capture now pid owner owner hard bounced s new_hard h
        (sent-advances owner.status bounced st refl) found (text_eq_refl owner.id) in
    (
      first,
      resolve_owner-apply_capture now pid owner (record owner { status = bounced }) soft delivered
          (apply_capture now owner hard s).1 new_soft d
          (sent-advances owner.status delivered st refl) first (text_eq_refl owner.id),
    )
