-- ===== src/Scheduling/Claim.antt =====
-- The race on a row of scheduled_sends in backend/src/scheduling/scheduling.service.ts: between two
-- workers, and between a worker and a cancellation.
use email_ops_community.Prelude.{
  ℕ, ◌==◌, ◌≡◌, refl, ap, Bool, true, false, ◌&&◌, Option, none, some, List, [], ◌∷◌, ◌++◌, arith,
  All, Bool-cases, Option-cases, inl, inr, if◌then◌else◌, keep,
}
use email_ops_community.Prelude.Text.{text_eq}
use email_ops_community.Scheduling.{
  ScheduledSendState, sent, failed, ScheduledSend, ComposeCall, ComposeOutcome, composed,
  failed_result, thrown, State, Context, is_pending, is_claimed, matching, update_many,
}
use email_ops_community.Scheduling.Payload.{normalize_payload}
use email_ops_community.Scheduling.Worker.{
  is_due, claimable, claim_row, claim, markable, mark_row, has_mailbox, settle, compose_call,
  fire_claimed, fire_row,
}

-- Primary keys are unique.
abbrev pub Distinct : List ScheduledSend → Type 0
Distinct [] = Unit
Distinct (r ∷ rows) = All (λ q. text_eq q.id r.id ≡ false) rows × Distinct rows

-- No row of the table meets the condition.
abbrev pub NoneOf : (ScheduledSend → Bool) → List ScheduledSend → Type 0
NoneOf c rows = All (λ r. c r ≡ false) rows

pub matching-NoneOf :
    (c : ScheduledSend → Bool) (rows : List ScheduledSend) → NoneOf c rows → matching c rows ≡ 0
matching-NoneOf c [] h = refl
matching-NoneOf c (r ∷ rows) h = rw (h.0, keep) (matching-NoneOf c rows h.1)

pub update_many-NoneOf :
    (c : ScheduledSend → Bool) (f : ScheduledSend → ScheduledSend) (rows : List ScheduledSend)
    → NoneOf c rows
    → update_many c f rows ≡ rows
unfolding update_many
update_many-NoneOf c f [] h = refl
update_many-NoneOf c f (r ∷ rows) h = rw h.0 (ap (λ rs. r ∷ rs) (update_many-NoneOf c f rows h.1))

pub fire_row-NoneOf :
    (now t : ℕ) (cx : Context) (row : ScheduledSend) (s : State)
    → NoneOf (claimable row) s.sends
    → fire_row now t cx row s ≡ (false, s)
unfolding fire_row
fire_row-NoneOf now t cx row s h =
    rw
      (
        matching-NoneOf (claimable row) s.sends h,
        update_many-NoneOf (claimable row) (claim_row now) s.sends h,
      )
      refl

abbrev pub Over : ScheduledSendState → Type 0
Over st = (is_pending st ≡ false) × (is_claimed st ≡ false)

-- A row after the claim and the mark.
abbrev pub after : ℕ → ScheduledSend → ScheduledSendState → Option ℕ → ScheduledSend → ScheduledSend
after now row st t r =
    let r' = if claimable row r then claim_row now r else r in
    if markable row.id r' then mark_row st t r' else r'

after-not-claimed :
    (now : ℕ) (row : ScheduledSend) (st : ScheduledSendState) (t : Option ℕ) (r : ScheduledSend)
    → Over st
    → (claimable row (after now row st t r) ≡ false)
      × (markable row.id (after now row st t r) ≡ false)
after-not-claimed now row st t r (p, c) = ground (arith, p, c)

-- What a won claim leaves: no row that the same snapshot or the mark would match.
abbrev pub Settled : ScheduledSend → State → Type 0
Settled row s = NoneOf (claimable row) s.sends × NoneOf (markable row.id) s.sends

mark-claim-Settled :
    (now : ℕ) (row : ScheduledSend) (st : ScheduledSendState) (t : Option ℕ)
    (rows : List ScheduledSend)
    → Over st
    → NoneOf (claimable row) (
        update_many
          (markable row.id)
          (mark_row st t)
          (update_many (claimable row) (claim_row now) rows))
      × NoneOf (markable row.id) (
          update_many
            (markable row.id)
            (mark_row st t)
            (update_many (claimable row) (claim_row now) rows))
unfolding update_many
mark-claim-Settled now row st t [] o = (tt, tt)
mark-claim-Settled now row st t (r ∷ rows) o =
    let (a, b) = mark-claim-Settled now row st t rows o in
    let (x, y) = after-not-claimed now row st t r o in ((x, a), (y, b))

-- The table when the claim of `row` is won and the send has ended, in SENT or FAILED.
abbrev pub marked :
    ℕ → ScheduledSend → ScheduledSendState → Option ℕ → List ScheduledSend → List ScheduledSend
marked now row st t rows =
    update_many (markable row.id) (mark_row st t) (update_many (claimable row) (claim_row now) rows)

abbrev pub EndsMarked : ℕ → ScheduledSend → State → State → Type 0
EndsMarked now row s s' =
    (st : ScheduledSendState) × (t : Option ℕ) × Over st × (s'.sends ≡ marked now row st t s.sends)

settle-EndsMarked :
    (now t : ℕ) (row : ScheduledSend) (o : ComposeOutcome) (s : State) (calls : List ComposeCall)
    → EndsMarked now row s (settle t row.id o (record (claim now row s) { calls = calls })).1
settle-EndsMarked now t row composed s calls = (sent, some t, (refl, refl), refl)
settle-EndsMarked now t row failed_result s calls = (failed, none, (refl, refl), refl)
settle-EndsMarked now t row thrown s calls = (failed, none, (refl, refl), refl)

fire_claimed-EndsMarked :
    (now t : ℕ) (cx : Context) (row : ScheduledSend) (s : State)
    → EndsMarked now row s (fire_claimed t cx row (claim now row s)).1
unfolding fire_claimed
fire_claimed-EndsMarked now t cx row s = elim (Option-cases (normalize_payload row.payload)) [
  | inl e ↦ rw (e, fire_claimed) (failed, none, (refl, refl), refl)
  | inr (p, e) ↦ elim (Bool-cases (has_mailbox cx row && cx.is_configured)) [
    | inl usable ↦
        rw (e, usable, fire_claimed)
          (settle-EndsMarked now t row (cx.compose_email s.calls (compose_call row p)) s
            (s.calls ++ compose_call row p ∷ []))
    | inr not_usable ↦ rw (e, not_usable, fire_claimed) (failed, none, (refl, refl), refl)
  ]
]

pub fire_row-EndsMarked :
    (now t : ℕ) (cx : Context) (row : ScheduledSend) (s : State)
    → (matching (claimable row) s.sends == 1) ≡ true
    → EndsMarked now row s (fire_row now t cx row s).1
unfolding fire_row
fire_row-EndsMarked now t cx row s won = rw won (fire_claimed-EndsMarked now t cx row s)

-- A worker that wins the claim leaves no row of that id in CLAIMED, whatever the payload, the
-- mailbox and the answer of `composeEmail`, an exception included.
pub fire_row-Settled :
    (now t : ℕ) (cx : Context) (row : ScheduledSend) (s : State)
    → (matching (claimable row) s.sends == 1) ≡ true
    → Settled row (fire_row now t cx row s).1
fire_row-Settled now t cx row s won =
    let (st, t', over, e) = fire_row-EndsMarked now t cx row s won in
    rw e (mark-claim-Settled now row st t' s.sends over)

claimed-not-claimable :
    (now : ℕ) (row r : ScheduledSend)
    → is_due now row ≡ true
    → claimable row (if claimable row r then claim_row now r else r) ≡ false
claimed-not-claimable now row r due = ground (arith, due)

claim-NoneOf :
    (now : ℕ) (row : ScheduledSend) (rows : List ScheduledSend)
    → is_due now row ≡ true
    → NoneOf (claimable row) (update_many (claimable row) (claim_row now) rows)
unfolding update_many
claim-NoneOf now row [] due = tt
claim-NoneOf now row (r ∷ rows) due =
    (claimed-not-claimable now row r due, claim-NoneOf now row rows due)

-- Of the workers that have read a due row in one and the same version, one at most acts on it:
-- once a worker has won the claim, another one changes nothing and calls nothing, be it while the
-- first is still sending or after it is done.
pub fire_row-once :
    (now t later t' : ℕ) (cx cx' : Context) (row : ScheduledSend) (s : State)
    → is_due now row ≡ true
    → (matching (claimable row) s.sends == 1) ≡ true
    → (fire_row later t' cx' row (claim now row s) ≡ (false, claim now row s))
      × (fire_row later t' cx' row (fire_row now t cx row s).1
          ≡ (false, (fire_row now t cx row s).1))
fire_row-once now t later t' cx cx' row s due won = (
  fire_row-NoneOf later t' cx' row (claim now row s) (claim-NoneOf now row s.sends due),
  fire_row-NoneOf later t' cx' row (fire_row now t cx row s).1
      (fire_row-Settled now t cx row s won).0,
)
