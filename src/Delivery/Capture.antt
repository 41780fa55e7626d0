-- ===== src/Delivery/Capture.antt =====
-- `recordEngagementEvent` of backend/src/email/email.service.ts: no status regresses.
use email_ops_community.Prelude.{
  ℕ, ◌≤◌, ◌≡◌, refl, sym, ap, ◌∙◌, true, false, Option, none, some, List, [], ◌∷◌, arith, any, All,
  Option-cases, Bool-cases, inl, inr,
}
use mathlib.Core.Path.{subst}
use mathlib.Core.Bool.{false≢true}
use email_ops_community.Prelude.Text.{Text, text_eq, text_eq_iff}
use email_ops_community.Delivery.{
  EmailMessageStatus, status_rank, should_advance_status, EmailMessage, Store,
  EngagementCaptureInput, resolve_owner, same_event, set_status, write_status, apply_capture,
  record_engagement_event, capture_all,
}

-- Primary keys are unique.
abbrev pub Distinct : List EmailMessage → Type 0
Distinct [] = Unit
Distinct (m ∷ ms) = All (λ n. text_eq n.id m.id ≡ false) ms × Distinct ms

-- The same messages in the same order, each at its rung or a higher one.
abbrev pub NotRegressed : List EmailMessage → List EmailMessage → Type 0
NotRegressed [] [] = Unit
NotRegressed (m ∷ ms) (n ∷ ns) =
    (n.id ≡ m.id) × (status_rank m.status ≤ status_rank n.status) × NotRegressed ms ns
NotRegressed _ _ = ⊥

NotRegressed-refl : (ms : List EmailMessage) → NotRegressed ms ms
NotRegressed-refl [] = tt
NotRegressed-refl (m ∷ ms) = (refl, omega arith, NotRegressed-refl ms)

NotRegressed-trans :
    (a b c : List EmailMessage) → NotRegressed a b → NotRegressed b c → NotRegressed a c
NotRegressed-trans [] [] [] h k = tt
NotRegressed-trans (x ∷ a) (y ∷ b) (z ∷ c) h k =
    (k.0 ∙ h.0, omega (arith, h.1, k.1), NotRegressed-trans a b c h.2 k.2)
NotRegressed-trans [] (y ∷ b) c h k = elim h [ ]
NotRegressed-trans (x ∷ a) [] c h k = elim h [ ]
NotRegressed-trans [] [] (z ∷ c) h k = elim k [ ]
NotRegressed-trans (x ∷ a) (y ∷ b) [] h k = elim k [ ]

set_status-distinct :
    (i : Text) (id : Text) (st : EmailMessageStatus) (ms : List EmailMessage)
    → All (λ n. text_eq n.id i ≡ false) ms
    → All (λ n. text_eq n.id i ≡ false) (set_status id st ms)
unfolding set_status
set_status-distinct i id st [] h = tt
set_status-distinct i id st (m ∷ ms) h = elim (Bool-cases (text_eq m.id id)) [
  | inl e ↦ rw e (h.0, set_status-distinct i id st ms h.1)
  | inr e ↦ rw e (h.0, set_status-distinct i id st ms h.1)
]

set_status-Distinct :
    (id : Text) (st : EmailMessageStatus) (ms : List EmailMessage)
    → Distinct ms
    → Distinct (set_status id st ms)
unfolding set_status
set_status-Distinct id st [] h = tt
set_status-Distinct id st (m ∷ ms) h = elim (Bool-cases (text_eq m.id id)) [
  | inl e ↦ rw e (set_status-distinct m.id id st ms h.0, set_status-Distinct id st ms h.1)
  | inr e ↦ rw e (set_status-distinct m.id id st ms h.0, set_status-Distinct id st ms h.1)
]

-- Every row with the id of `owner` has its status.
abbrev HasStatus : EmailMessage → List EmailMessage → Type 0
HasStatus owner ms = All (λ m. text_eq m.id owner.id ≡ true → m.status ≡ owner.status) ms

set_status-NotRegressed :
    (owner : EmailMessage) (st : EmailMessageStatus) (ms : List EmailMessage)
    → status_rank owner.status ≤ status_rank st
    → HasStatus owner ms
    → NotRegressed ms (set_status owner.id st ms)
unfolding set_status
set_status-NotRegressed owner st [] up h = tt
set_status-NotRegressed owner st (m ∷ ms) up h = elim (Bool-cases (text_eq m.id owner.id)) [
  | inl e ↦ let same = h.0 e in rw e (refl, rw same up, set_status-NotRegressed owner st ms up h.1)
  | inr e ↦ rw e (refl, omega arith, set_status-NotRegressed owner st ms up h.1)
]

HasStatus-apart :
    (owner : EmailMessage) (ms : List EmailMessage)
    → All (λ n. text_eq n.id owner.id ≡ false) ms
    → HasStatus owner ms
HasStatus-apart owner [] h = tt
HasStatus-apart owner (m ∷ ms) h = (ground (arith, h.0), HasStatus-apart owner ms h.1)

-- A row of the table that is found stands in it.
apart_found :
    (pid i : Text) (ms : List EmailMessage) (owner : EmailMessage)
    → All (λ n. text_eq n.id i ≡ false) ms
    → resolve_owner pid ms ≡ some owner
    → text_eq owner.id i ≡ false
unfolding resolve_owner
apart_found pid i [] owner h e = ground arith
apart_found pid i (m ∷ ms) owner h e = elim (Option-cases (resolve_owner pid ms)) [
  | inl missing ↦ ground (arith, h.0)
  | inr (o, found) ↦
      let same : o ≡ owner = ground arith in apart_found pid i ms owner h.1 (found ∙ ap some same)
]

text_eq_flip : (s t : Text) → text_eq s t ≡ false → text_eq t s ≡ false
text_eq_flip s t h = ground (arith, text_eq_iff s t, text_eq_iff t s)

resolve_owner-HasStatus :
    (pid : Text) (ms : List EmailMessage) (owner : EmailMessage)
    → Distinct ms
    → resolve_owner pid ms ≡ some owner
    → HasStatus owner ms
unfolding resolve_owner
resolve_owner-HasStatus pid [] owner d e = tt
resolve_owner-HasStatus pid (m ∷ ms) owner d e = elim (Option-cases (resolve_owner pid ms)) [
  | inl missing ↦
      let same : m ≡ owner = ground arith in
      subst (λ o. HasStatus o (m ∷ ms)) same ((λ h. refl), HasStatus-apart m ms d.0)
  | inr (o, found) ↦
      let f : resolve_owner pid ms ≡ some owner = ground arith in
      (
        (λ h. absurd (
            false≢true
              (sym (text_eq_flip owner.id m.id (apart_found pid m.id ms owner d.0 f)) ∙ h))),
        resolve_owner-HasStatus pid ms owner d.1 f,
      )
]

write_status-NotRegressed :
    (owner : EmailMessage) (target : Option EmailMessageStatus) (ms : List EmailMessage)
    → HasStatus owner ms
    → NotRegressed ms (write_status owner.id owner.status target ms)
unfolding should_advance_status
write_status-NotRegressed owner none ms h = NotRegressed-refl ms
write_status-NotRegressed owner (some st) ms h =
    elim (Bool-cases (should_advance_status owner.status (some st))) [
      | inl up ↦ rw up (set_status-NotRegressed owner st ms (ground arith) h)
      | inr held ↦ rw held (NotRegressed-refl ms)
    ]

write_status-Distinct :
    (id : Text) (before : EmailMessageStatus) (target : Option EmailMessageStatus)
    (ms : List EmailMessage)
    → Distinct ms
    → Distinct (write_status id before target ms)
write_status-Distinct id before none ms h = h
write_status-Distinct id before (some st) ms h =
    elim (Bool-cases (should_advance_status before (some st))) [
      | inl up ↦ rw up (set_status-Distinct id st ms h)
      | inr held ↦ rw held h
    ]

-- One event: no message regresses, and the keys stay unique.
abbrev Kept : Store → Store → Type 0
Kept s t = NotRegressed s.messages t.messages × Distinct t.messages

apply_capture-Kept :
    (now : ℕ) (owner : EmailMessage) (input : EngagementCaptureInput) (s : Store)
    → Distinct s.messages
    → HasStatus owner s.messages
    → Kept s (apply_capture now owner input s).1
unfolding apply_capture
apply_capture-Kept now owner input s d h =
    elim (Bool-cases (any (same_event owner.workspace_id input) s.events)) [
      | inl e ↦ rw e (NotRegressed-refl s.messages, d)
      | inr e ↦ rw e (
        write_status-NotRegressed owner input.status_target s.messages h,
        write_status-Distinct owner.id owner.status input.status_target s.messages d,
      )
    ]

record_engagement_event-Kept :
    (now : ℕ) (input : EngagementCaptureInput) (s : Store)
    → Distinct s.messages
    → Kept s (record_engagement_event now input s).1
unfolding record_engagement_event
record_engagement_event-Kept now input s d =
    elim (Option-cases (resolve_owner input.provider_message_id s.messages)) [
      | inl e ↦ rw (e, record_engagement_event) (NotRegressed-refl s.messages, d)
      | inr (owner, e) ↦
          rw (e, record_engagement_event)
            (apply_capture-Kept now owner input s d
              (resolve_owner-HasStatus input.provider_message_id s.messages owner d e))
    ]

-- With unique keys, and events captured one after the other: whatever the events and their order, no
-- message ends at a lower rung of the status ladder than it began.
pub capture_all-NotRegressed :
    (now : ℕ) (inputs : List EngagementCaptureInput) (s : Store)
    → Distinct s.messages
    → NotRegressed s.messages (capture_all now inputs s).messages
unfolding capture_all
capture_all-NotRegressed now [] s d = NotRegressed-refl s.messages
capture_all-NotRegressed now (input ∷ inputs) s d =
    let (kept, d') = record_engagement_event-Kept now input s d in
    let s' = (record_engagement_event now input s).1 in
    NotRegressed-trans s.messages s'.messages (capture_all now inputs s').messages kept
      (capture_all-NotRegressed now inputs s' d')
