-- ===== src/Scheduling/Drain.antt =====
-- The whole of `fireDueScheduledSends`: the rows that it reads, and that it leaves none behind.
use email_ops_community.Prelude.{
  ℕ, zero, suc, ◌≤◌, leb, ◌≡◌, refl, ◌∙◌, ap, true, false, List, [], ◌∷◌, arith, Any, Bool-cases,
  inl, inr, length, length-keep-le, keep, take,
}
use email_ops_community.Scheduling.{ScheduledSend, State, Context}
use email_ops_community.Scheduling.Worker.{
  is_due, order_by_send_at, insert_by_send_at, due_rows, fire_rows, fire_due_scheduled_sends,
}
use email_ops_community.Scheduling.Claim.{Distinct, NoneOf}
use email_ops_community.Scheduling.Sweep.{Covered, fire_rows-Covered}

abbrev Is : ScheduledSend → ScheduledSend → Type 0
Is r q = q ≡ r

Any-insert-here :
    (r : ScheduledSend) (rows : List ScheduledSend) → Any (Is r) (insert_by_send_at r rows)
unfolding insert_by_send_at
Any-insert-here r [] = inl refl
Any-insert-here r (q ∷ rows) = elim (Bool-cases (leb r.send_at q.send_at)) [
  | inl e ↦ rw e (inl refl)
  | inr e ↦ rw e (inr (Any-insert-here r rows))
]

Any-insert-there :
    (r x : ScheduledSend) (rows : List ScheduledSend)
    → Any (Is r) rows
    → Any (Is r) (insert_by_send_at x rows)
unfolding insert_by_send_at
Any-insert-there r x [] h = elim h [ ]
Any-insert-there r x (q ∷ rows) h = elim (Bool-cases (leb x.send_at q.send_at)) [
  | inl e ↦ rw e (inr h)
  | inr e ↦ elim h [
    | inl same ↦ rw e (inl same)
    | inr there ↦ rw e (inr (Any-insert-there r x rows there))
  ]
]

Any-order :
    (r : ScheduledSend) (rows : List ScheduledSend)
    → Any (Is r) rows
    → Any (Is r) (order_by_send_at rows)
unfolding order_by_send_at
Any-order r [] h = elim h [ ]
Any-order r (q ∷ rows) (inl same) = rw (← same) (Any-insert-here q (order_by_send_at rows))
Any-order r (q ∷ rows) (inr h) = Any-insert-there r q (order_by_send_at rows) (Any-order r rows h)

length-insert :
    (r : ScheduledSend) (rows : List ScheduledSend)
    → length (insert_by_send_at r rows) ≡ suc (length rows)
unfolding insert_by_send_at
length-insert r [] = refl
length-insert r (q ∷ rows) = elim (Bool-cases (leb r.send_at q.send_at)) [
  | inl e ↦ rw e refl
  | inr e ↦ rw e (ap suc (length-insert r rows))
]

length-order : (rows : List ScheduledSend) → length (order_by_send_at rows) ≡ length rows
unfolding order_by_send_at
length-order [] = refl
length-order (r ∷ rows) = length-insert r (order_by_send_at rows) ∙ ap suc (length-order rows)

take-all {ℓ} : {A : Type ℓ} (n : ℕ) (xs : List A) → length xs ≤ n → take n xs ≡ xs
take-all zero [] h = refl
take-all (suc n) [] h = refl
take-all zero (x ∷ xs) h = ground (arith, h)
take-all (suc n) (x ∷ xs) h = ap (λ ys. x ∷ ys) (take-all n xs (omega (arith, h)))

due_rows-all :
    (now limit : ℕ) (rows : List ScheduledSend)
    → length rows ≤ limit
    → due_rows now limit rows ≡ order_by_send_at (keep (is_due now) rows)
unfolding due_rows
due_rows-all now limit rows h =
    take-all limit (order_by_send_at (keep (is_due now) rows))
      (omega (arith, h, length-order (keep (is_due now) rows), length-keep-le (is_due now) rows))

Any-keep :
    (now : ℕ) (r : ScheduledSend) (rows : List ScheduledSend)
    → is_due now r ≡ true
    → Any (Is r) rows
    → Any (Is r) (keep (is_due now) rows)
Any-keep now r [] due h = elim h [ ]
Any-keep now r (q ∷ rows) due (inl same) =
    let e : is_due now q ≡ true = rw same due in rw (e, keep) (inl same)
Any-keep now r (q ∷ rows) due (inr h) = elim (Bool-cases (is_due now q)) [
  | inl e ↦ rw (e, keep) (inr (Any-keep now r rows due h))
  | inr e ↦ rw (e, keep) (Any-keep now r rows due h)
]

Covered-by :
    (now : ℕ) (all rows table : List ScheduledSend)
    → ((r : ScheduledSend) → Any (Is r) table → Any (Is r) all)
    → ((r : ScheduledSend) → is_due now r ≡ true → Any (Is r) all → Any (Is r) rows)
    → Covered now rows table
Covered-by now all rows [] f g = tt
Covered-by now all rows (r ∷ table) f g =
    ((λ due. g r due (f r (inl refl))), Covered-by now all rows table (λ q h. f q (inr h)) g)

Covered-due :
    (now : ℕ) (table : List ScheduledSend)
    → Covered now (order_by_send_at (keep (is_due now) table)) table
Covered-due now table =
    Covered-by now table (order_by_send_at (keep (is_due now) table)) table (λ r h. h)
      (λ r due h. Any-order r (keep (is_due now) table) (Any-keep now r table due h))

not_due : (now : ℕ) (r : ScheduledSend) → (is_due now r ≡ true → ⊥) → is_due now r ≡ false
not_due now r h = elim (Bool-cases (is_due now r)) [ inl e ↦ absurd (h e) | inr e ↦ e ]

Covered-nil :
    (now : ℕ) (table : List ScheduledSend) → Covered now [] table → NoneOf (is_due now) table
Covered-nil now [] c = tt
Covered-nil now (r ∷ table) c = (not_due now r c.0, Covered-nil now table c.1)

-- With unique keys, and a limit that the table does not exceed: a sweep leaves nothing that is due
-- at its time, neither a pending row nor a stale claim, whatever the payloads, the mailboxes and
-- the answers of `composeEmail`.
pub fire_due_scheduled_sends-drains :
    (now t : ℕ) (cx : Context) (limit : ℕ) (s : State)
    → Distinct s.sends
    → length s.sends ≤ limit
    → NoneOf (is_due now) (fire_due_scheduled_sends now t cx limit s).1.sends
unfolding fire_due_scheduled_sends
fire_due_scheduled_sends-drains now t cx limit s d h =
    let rows = order_by_send_at (keep (is_due now) s.sends) in
    rw (due_rows-all now limit s.sends h) (
      Covered-nil now (fire_rows now t cx rows s).1.sends
        (fire_rows-Covered now t cx rows s d (Covered-due now s.sends)))
