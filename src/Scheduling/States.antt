-- ===== src/Scheduling/States.antt =====
-- The life of a row of scheduled_sends: the moves between its states, and that the operations of
-- backend/src/scheduling/scheduling.service.ts make no others.
use email_ops_community.Prelude.{
  ℕ, ◌==◌, ◌≡◌, refl, ◌∙◌, Bool, true, ◌&&◌, ◌||◌, Option, none, some, List, [], ◌∷◌, arith,
  Bool-cases, Option-cases, inl, inr,
}
use email_ops_community.Prelude.Text.{Text}
use email_ops_community.Scheduling.{
  ScheduledSendState, pending, claimed, sent, failed, cancelled, ScheduledSend, ComposeOutcome,
  composed, failed_result, thrown, State, Context, is_pending, is_claimed, matching, update_many,
  cancellable, cancel_row, cancel_update,
}
use email_ops_community.Scheduling.Payload.{normalize_payload}
use email_ops_community.Scheduling.Worker.{
  claimable, claim_row, claim, markable, mark_row, mark_scheduled_send, has_mailbox, settle,
  compose_call, fire_claimed, fire_row, fire_rows, due_rows, fire_due_scheduled_sends,
}

pub data Move : ScheduledSendState → ScheduledSendState → Type 0 where
  claim_it : Move pending claimed
  reclaim_it : Move claimed claimed
  finish_it : Move claimed sent
  fail_it : Move claimed failed
  cancel_it : Move pending cancelled

pub data Moves : ScheduledSendState → ScheduledSendState → Type 0 where
  stay : {a : ScheduledSendState} → Moves a a
  step : {a b c : ScheduledSendState} → Move a b → Moves b c → Moves a c

Moves-trans : {a b c : ScheduledSendState} → Moves a b → Moves b c → Moves a c
Moves-trans stay ys = ys
Moves-trans (step x xs) ys = step x (Moves-trans xs ys)

-- The same request, in a state that moves lead to.
abbrev pub Follows : ScheduledSend → ScheduledSend → Type 0
Follows r q =
    (q.id ≡ r.id)
    × (q.workspace_id ≡ r.workspace_id)
    × (q.payload ≡ r.payload)
    × (q.send_at ≡ r.send_at)
    × Moves r.state q.state

-- The same rows in the same order, each of which follows its old version.
abbrev pub AllFollow : List ScheduledSend → List ScheduledSend → Type 0
AllFollow [] [] = Unit
AllFollow (r ∷ rs) (q ∷ qs) = Follows r q × AllFollow rs qs
AllFollow _ _ = ⊥

Follows-refl : (r : ScheduledSend) → Follows r r
Follows-refl r = (refl, refl, refl, refl, stay)

AllFollow-refl : (rs : List ScheduledSend) → AllFollow rs rs
AllFollow-refl [] = tt
AllFollow-refl (r ∷ rs) = (Follows-refl r, AllFollow-refl rs)

AllFollow-trans : (a b c : List ScheduledSend) → AllFollow a b → AllFollow b c → AllFollow a c
AllFollow-trans [] [] [] h k = tt
AllFollow-trans (x ∷ a) (y ∷ b) (z ∷ c) ((i, w, p, t, m), h) ((i', w', p', t', m'), k) =
    ((i' ∙ i, w' ∙ w, p' ∙ p, t' ∙ t, Moves-trans m m'), AllFollow-trans a b c h k)
AllFollow-trans [] (y ∷ b) c h k = elim h [ ]
AllFollow-trans (x ∷ a) [] c h k = elim h [ ]
AllFollow-trans [] [] (z ∷ c) h k = elim k [ ]
AllFollow-trans (x ∷ a) (y ∷ b) [] h k = elim k [ ]

update_many-AllFollow :
    (condition : ScheduledSend → Bool) (change : ScheduledSend → ScheduledSend)
    → ((r : ScheduledSend) → condition r ≡ true → Follows r (change r))
    → (rows : List ScheduledSend) → AllFollow rows (update_many condition change rows)
unfolding update_many
update_many-AllFollow condition change f [] = tt
update_many-AllFollow condition change f (r ∷ rows) = elim (Bool-cases (condition r)) [
  | inl e ↦ rw e (f r e, update_many-AllFollow condition change f rows)
  | inr e ↦ rw e (Follows-refl r, update_many-AllFollow condition change f rows)
]

to_claimed : (st : ScheduledSendState) → (is_claimed st || is_pending st) ≡ true → Moves st claimed
to_claimed pending h = step claim_it stay
to_claimed claimed h = step reclaim_it stay
to_claimed sent h = ground arith
to_claimed failed h = ground arith
to_claimed cancelled h = ground arith

from_claimed :
    (st final : ScheduledSendState) → Move claimed final → is_claimed st ≡ true → Moves st final
from_claimed claimed final m h = step m stay
from_claimed pending final m h = ground arith
from_claimed sent final m h = ground arith
from_claimed failed final m h = ground arith
from_claimed cancelled final m h = ground arith

to_cancelled : (st : ScheduledSendState) → is_pending st ≡ true → Moves st cancelled
to_cancelled pending h = step cancel_it stay
to_cancelled claimed h = ground arith
to_cancelled sent h = ground arith
to_cancelled failed h = ground arith
to_cancelled cancelled h = ground arith

claim-AllFollow :
    (now : ℕ) (row : ScheduledSend) (s : State) → AllFollow s.sends (claim now row s).sends
claim-AllFollow now row s =
    update_many-AllFollow (claimable row) (claim_row now)
      (λ r h. (refl, refl, refl, refl, to_claimed r.state (ground arith))) s.sends

mark-AllFollow :
    (id : Text) (st : ScheduledSendState) (t : Option ℕ) (s : State)
    → Move claimed st
    → AllFollow s.sends (mark_scheduled_send id st t s).sends
mark-AllFollow id st t s m =
    update_many-AllFollow (markable id) (mark_row st t)
      (λ r h. (refl, refl, refl, refl, from_claimed r.state st m (ground arith))) s.sends

settle-AllFollow :
    (t : ℕ) (id : Text) (o : ComposeOutcome) (s : State)
    → AllFollow s.sends (settle t id o s).1.sends
settle-AllFollow t id composed s = mark-AllFollow id sent (some t) s finish_it
settle-AllFollow t id failed_result s = mark-AllFollow id failed none s fail_it
settle-AllFollow t id thrown s = mark-AllFollow id failed none s fail_it

fire_claimed-AllFollow :
    (t : ℕ) (cx : Context) (row : ScheduledSend) (s : State)
    → AllFollow s.sends (fire_claimed t cx row s).1.sends
unfolding fire_claimed
fire_claimed-AllFollow t cx row s = elim (Option-cases (normalize_payload row.payload)) [
  | inl e ↦ rw (e, fire_claimed) (mark-AllFollow row.id failed none s fail_it)
  | inr (p, e) ↦ elim (Bool-cases (has_mailbox cx row && cx.is_configured)) [
    | inl usable ↦
        rw (e, usable, fire_claimed)
          (settle-AllFollow t row.id (cx.compose_email s.calls (compose_call row p)) _)
    | inr not_usable ↦
        rw (e, not_usable, fire_claimed) (mark-AllFollow row.id failed none s fail_it)
  ]
]

pub fire_row-AllFollow :
    (now t : ℕ) (cx : Context) (row : ScheduledSend) (s : State)
    → AllFollow s.sends (fire_row now t cx row s).1.sends
unfolding fire_row
fire_row-AllFollow now t cx row s = elim (Bool-cases (matching (claimable row) s.sends == 1)) [
  | inl won ↦ rw won (
      AllFollow-trans s.sends (claim now row s).sends
        (fire_claimed t cx row (claim now row s)).1.sends (claim-AllFollow now row s)
        (fire_claimed-AllFollow t cx row (claim now row s)))
  | inr lost ↦ rw lost (claim-AllFollow now row s)
]

pub fire_rows-AllFollow :
    (now t : ℕ) (cx : Context) (rows : List ScheduledSend) (s : State)
    → AllFollow s.sends (fire_rows now t cx rows s).1.sends
unfolding fire_rows
fire_rows-AllFollow now t cx [] s = AllFollow-refl s.sends
fire_rows-AllFollow now t cx (row ∷ rows) s =
    let s' = (fire_row now t cx row s).1 in
    AllFollow-trans s.sends s'.sends (fire_rows now t cx rows s').1.sends
      (fire_row-AllFollow now t cx row s) (fire_rows-AllFollow now t cx rows s')

-- A sweep and a cancellation change no request: each keeps the rows, their order, their payloads
-- and times, and moves a row only along the arrows from PENDING to CLAIMED or CANCELLED, and from
-- CLAIMED to CLAIMED, SENT or FAILED.
pub fire_due_scheduled_sends-AllFollow :
    (now t : ℕ) (cx : Context) (limit : ℕ) (workspace_id id : Text) (s : State)
    → AllFollow s.sends (fire_due_scheduled_sends now t cx limit s).1.sends
      × AllFollow s.sends (cancel_update workspace_id id s).1.sends
unfolding fire_due_scheduled_sends cancel_update
fire_due_scheduled_sends-AllFollow now t cx limit workspace_id id s = (
  fire_rows-AllFollow now t cx (due_rows now limit s.sends) s,
  update_many-AllFollow (cancellable workspace_id id) cancel_row
      (λ r h. (refl, refl, refl, refl, to_cancelled r.state (ground arith))) s.sends,
)
