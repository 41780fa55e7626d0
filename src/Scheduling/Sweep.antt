-- ===== src/Scheduling/Sweep.antt =====
-- What `fireDueScheduledSends` of backend/src/scheduling/scheduling.service.ts leaves to do.
use email_ops_community.Prelude.{
  ℕ, ◌==◌, ◌≡◌, refl, sym, true, false, Option, none, some, List, [], ◌∷◌, arith, All, Any,
  Bool-cases, inl, inr, keep, ◌⊎◌,
}
use mathlib.Core.Path.{subst}
use email_ops_community.Prelude.Text.{Text, text_eq, text_eq_iff, text_eq_refl}
use email_ops_community.Scheduling.{
  ScheduledSendState, ScheduledSend, State, Context, opt_eq, matching, update_many,
}
use email_ops_community.Scheduling.Worker.{is_due, claimable, markable, fire_row, fire_rows}
use email_ops_community.Scheduling.States.{AllFollow, fire_row-AllFollow}
use email_ops_community.Scheduling.Claim.{
  Distinct, NoneOf, Over, after, marked, fire_row-EndsMarked, fire_row-NoneOf, matching-NoneOf,
}

-- Every row of the table that is due is among those that the sweep still has before it.
abbrev pub Covered : ℕ → List ScheduledSend → List ScheduledSend → Type 0
Covered now rows table = All (λ r. is_due now r ≡ true → Any (λ q. q ≡ r) rows) table

opt_eq_refl : (a : Option ℕ) → opt_eq a a ≡ true
opt_eq_refl none = refl
opt_eq_refl (some a) = ground arith

due-claimable : (now : ℕ) (r : ScheduledSend) → is_due now r ≡ true → claimable r r ≡ true
due-claimable now r h = ground (arith, h, text_eq_refl r.id, opt_eq_refl r.claimed_at)

claimable-id : (row r : ScheduledSend) → claimable row r ≡ true → text_eq r.id row.id ≡ true
claimable-id row r h = ground (arith, h)

not-claimable-apart :
    (row : ScheduledSend) (rows : List ScheduledSend)
    → All (λ q. text_eq q.id row.id ≡ false) rows
    → NoneOf (claimable row) rows
not-claimable-apart row [] h = tt
not-claimable-apart row (r ∷ rows) h = (rw h.0 refl, not-claimable-apart row rows h.1)

-- With unique keys a claim takes one row or none.
claim-one :
    (row : ScheduledSend) (rows : List ScheduledSend)
    → Distinct rows
    → NoneOf (claimable row) rows ⊎ ((matching (claimable row) rows == 1) ≡ true)
claim-one row [] d = inl tt
claim-one row (r ∷ rows) d = elim (Bool-cases (claimable row r)) [
  | inl e ↦
      let apart =
        subst (λ i. All (λ q. text_eq q.id i ≡ false) rows)
          ((text_eq_iff r.id row.id).0 (claimable-id row r e)) d.0 in
      let zero_left = matching-NoneOf (claimable row) rows (not-claimable-apart row rows apart) in
      inr (rw (e, keep) (rw zero_left refl))
  | inr e ↦ elim (claim-one row rows d.1) [ inl h ↦ inl (e, h) | inr h ↦ inr (rw (e, keep) h) ]
]

-- A row that the claim does not match, and that is due, is another row than the one at hand.
other_row :
    (now : ℕ) (row r : ScheduledSend) (rows : List ScheduledSend)
    → claimable row r ≡ false
    → is_due now r ≡ true
    → Any (λ q. q ≡ r) (row ∷ rows)
    → Any (λ q. q ≡ r) rows
other_row now row r rows e due (inl same) =
    let mine : claimable row r ≡ true =
      subst (λ q. claimable q r ≡ true) (sym same) (due-claimable now r due) in
    ground (arith, e, mine)
other_row now row r rows e due (inr h) = h

Covered-tail :
    (now : ℕ) (row : ScheduledSend) (rows table : List ScheduledSend)
    → NoneOf (claimable row) table
    → Covered now (row ∷ rows) table
    → Covered now rows table
Covered-tail now row rows [] h c = tt
Covered-tail now row rows (r ∷ table) h c =
    ((λ due. other_row now row r rows h.0 due (c.0 due)), Covered-tail now row rows table h.1 c.1)

-- Of the rows after the claim and the mark, one that is due is as it was before.
after-due :
    (now : ℕ) (row : ScheduledSend) (st : ScheduledSendState) (t : Option ℕ) (r : ScheduledSend)
    → Over st
    → is_due now (after now row st t r) ≡ true
    → (claimable row r ≡ false) × (after now row st t r ≡ r)
after-due now row st t r (p, c) h = elim (Bool-cases (claimable row r)) [
  | inl e ↦ ground (arith, e, h, p, c, claimable-id row r e)
  | inr e ↦ elim (Bool-cases (markable row.id r)) [
    | inl m ↦ ground (arith, e, m, h, p, c)
    | inr m ↦ (e, rw (e, m) refl)
  ]
]

Covered-marked :
    (now : ℕ) (row : ScheduledSend) (st : ScheduledSendState) (t : Option ℕ)
    (rows table : List ScheduledSend)
    → Over st
    → Covered now (row ∷ rows) table
    → Covered now rows (marked now row st t table)
unfolding update_many
Covered-marked now row st t rows [] o c = tt
Covered-marked now row st t rows (r ∷ table) o c = (
  (λ due.
      let (e, same) = after-due now row st t r o due in
      subst (λ x. Any (λ q. q ≡ x) rows) (sym same)
        (other_row now row r rows e (subst (λ x. is_due now x ≡ true) same due)
          (c.0 (subst (λ x. is_due now x ≡ true) same due)))),
  Covered-marked now row st t rows table o c.1,
)

fire_row-Covered :
    (now t : ℕ) (cx : Context) (row : ScheduledSend) (rows : List ScheduledSend) (s : State)
    → Distinct s.sends
    → Covered now (row ∷ rows) s.sends
    → Covered now rows (fire_row now t cx row s).1.sends
fire_row-Covered now t cx row rows s d c = elim (claim-one row s.sends d) [
  | inl h ↦
      subst (λ x. Covered now rows x.1.sends) (sym (fire_row-NoneOf now t cx row s h))
        (Covered-tail now row rows s.sends h c)
  | inr won ↦
      let (st, t', over, e) = fire_row-EndsMarked now t cx row s won in
      subst (λ x. Covered now rows x) (sym e) (Covered-marked now row st t' rows s.sends over c)
]

apart-AllFollow :
    (i : Text) (a b : List ScheduledSend)
    → AllFollow a b
    → All (λ q. text_eq q.id i ≡ false) a
    → All (λ q. text_eq q.id i ≡ false) b
apart-AllFollow i [] [] f h = tt
apart-AllFollow i (x ∷ a) (y ∷ b) f h = (rw f.0.0 h.0, apart-AllFollow i a b f.1 h.1)
apart-AllFollow i [] (y ∷ b) f h = elim f [ ]
apart-AllFollow i (x ∷ a) [] f h = elim f [ ]

pub Distinct-AllFollow : (a b : List ScheduledSend) → AllFollow a b → Distinct a → Distinct b
Distinct-AllFollow [] [] f d = tt
Distinct-AllFollow (x ∷ a) (y ∷ b) f d =
    (rw f.0.0 (apart-AllFollow x.id a b f.1 d.0), Distinct-AllFollow a b f.1 d.1)
Distinct-AllFollow [] (y ∷ b) f d = elim f [ ]
Distinct-AllFollow (x ∷ a) [] f d = elim f [ ]

pub fire_rows-Covered :
    (now t : ℕ) (cx : Context) (rows : List ScheduledSend) (s : State)
    → Distinct s.sends
    → Covered now rows s.sends
    → Covered now [] (fire_rows now t cx rows s).1.sends
unfolding fire_rows
fire_rows-Covered now t cx [] s d c = c
fire_rows-Covered now t cx (row ∷ rows) s d c =
    let s' = (fire_row now t cx row s).1 in
    fire_rows-Covered now t cx rows s'
      (Distinct-AllFollow s.sends s'.sends (fire_row-AllFollow now t cx row s) d)
      (fire_row-Covered now t cx row rows s d c)
