-- ===== src/Scheduling/Cancel.antt =====
-- The race between a cancellation and a worker of backend/src/scheduling/scheduling.service.ts.
use email_ops_community.Prelude.{
  ℕ, ◌≡◌, refl, sym, ap, ◌∙◌, true, false, Option, List, [], ◌∷◌, arith, All, Bool-cases,
  Option-cases, inl, inr,
}
use mathlib.Core.Path.{subst}
use email_ops_community.Prelude.Text.{Text, text_eq, text_eq_iff}
use email_ops_community.Scheduling.{
  ScheduledSend, State, Context, matching, update_many, cancellable, cancel_row, cancel_update,
}
use email_ops_community.Scheduling.Worker.{claimable, fire_row}
use email_ops_community.Scheduling.{
  cancel_scheduled_send, resolve_sovereign_mailbox_for_caller, has_some,
}
use email_ops_community.Scheduling.Claim.{
  Distinct, NoneOf, matching-NoneOf, update_many-NoneOf, fire_row-NoneOf,
}
use email_ops_community.Prelude.{==_iff, find}

apart-cancellable :
    (workspace_id id : Text) (rows : List ScheduledSend)
    → All (λ q. text_eq q.id id ≡ false) rows
    → NoneOf (cancellable workspace_id id) rows
apart-cancellable workspace_id id [] h = tt
apart-cancellable workspace_id id (r ∷ rows) h =
    (rw h.0 refl, apart-cancellable workspace_id id rows h.1)

apart-claimable :
    (row : ScheduledSend) (rows : List ScheduledSend)
    → All (λ q. text_eq q.id row.id ≡ false) rows
    → NoneOf (claimable row) rows
apart-claimable row [] h = tt
apart-claimable row (r ∷ rows) h = (rw h.0 refl, apart-claimable row rows h.1)

cancelled-not-claimable :
    (workspace_id : Text) (row r : ScheduledSend) → claimable row (cancel_row r) ≡ false
cancelled-not-claimable workspace_id row r = ground arith

-- The table after the one row of an id is cancelled has nothing of that id to claim.
cancelled-NoneOf :
    (workspace_id : Text) (row : ScheduledSend) (rows : List ScheduledSend)
    → Distinct rows
    → matching (cancellable workspace_id row.id) rows ≡ 1
    → NoneOf (claimable row) (update_many (cancellable workspace_id row.id) cancel_row rows)
unfolding update_many
cancelled-NoneOf workspace_id row [] d h = tt
cancelled-NoneOf workspace_id row (r ∷ rows) d h = elim (Bool-cases (text_eq r.id row.id)) [
  | inl same ↦
      let apart =
        subst (λ i. All (λ q. text_eq q.id i ≡ false) rows) ((text_eq_iff r.id row.id).0 same)
          d.0 in
      let none_left = apart-cancellable workspace_id row.id rows apart in
      let zero_left = matching-NoneOf (cancellable workspace_id row.id) rows none_left in
      (
        ground (arith, zero_left, h, same),
        rw (update_many-NoneOf (cancellable workspace_id row.id) cancel_row rows none_left)
            (apart-claimable row rows apart),
      )
  | inr other ↦
      (ground (arith, other), cancelled-NoneOf workspace_id row rows d.1 (ground (arith, other, h)))
]

cancel_update-NoneOf :
    (workspace_id : Text) (row : ScheduledSend) (s : State)
    → Distinct s.sends
    → (cancel_update workspace_id row.id s).0 ≡ true
    → NoneOf (claimable row) (cancel_update workspace_id row.id s).1.sends
unfolding cancel_update
cancel_update-NoneOf workspace_id row s d h =
    cancelled-NoneOf workspace_id row s.sends d
      ((==_iff (matching (cancellable workspace_id row.id) s.sends) 1).0 h)

cancel_scheduled_send-update :
    (cx : Context) (uc_uid : Option Text) (workspace_id id : Text) (s : State)
    → (cancel_scheduled_send cx uc_uid workspace_id id s).0 ≡ true
    → cancel_scheduled_send cx uc_uid workspace_id id s ≡ cancel_update workspace_id id s
unfolding cancel_scheduled_send
cancel_scheduled_send-update cx uc_uid workspace_id id s h =
    elim (Option-cases (find (cancellable workspace_id id) s.sends)) [
      | inl e ↦ ground (arith, e, h)
      | inr (row, e) ↦
          elim (Bool-cases (
            has_some
              (resolve_sovereign_mailbox_for_caller cx workspace_id uc_uid row.mailbox_id))) [
                | inl may ↦ rw (e, may, cancel_scheduled_send) refl
                | inr may_not ↦ ground (arith, e, h, may_not)
              ]
    ]

-- A cancellation that reports success is final, with unique keys: a worker that fires the row
-- afterwards, even from a version that it read before the cancellation, calls nothing and changes
-- nothing.
pub cancel_scheduled_send-final :
    (cx cx' : Context) (uc_uid : Option Text) (workspace_id : Text) (row : ScheduledSend)
    (now t : ℕ) (s : State)
    → Distinct s.sends
    → (cancel_scheduled_send cx uc_uid workspace_id row.id s).0 ≡ true
    → fire_row now t cx' row (cancel_scheduled_send cx uc_uid workspace_id row.id s).1
      ≡ (false, (cancel_scheduled_send cx uc_uid workspace_id row.id s).1)
cancel_scheduled_send-final cx cx' uc_uid workspace_id row now t s d h =
    let e = cancel_scheduled_send-update cx uc_uid workspace_id row.id s h in
    rw e (
      fire_row-NoneOf now t cx' row (cancel_update workspace_id row.id s).1
        (cancel_update-NoneOf workspace_id row s d (sym (ap (λ x. x.0) e) ∙ h)))
