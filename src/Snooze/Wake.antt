-- ===== src/Snooze/Wake.antt =====
-- The sweep `surfaceDueSnoozes` of backend/src/scheduling/scheduling.service.ts over the table.
use email_ops_community.Prelude.{
  ◌≡◌, ◌⊎◌, refl, ap, ◌∙◌, inl, inr, true, false, List, [], ◌∷◌, arith, Bool-cases, Option-cases, ℕ,
  ◌&&◌, find,
}
use mathlib.Core.Path.{subst}
use email_ops_community.Prelude.Text.{Text, txt, text_eq}
use email_ops_community.Scheduling.{Context}
use email_ops_community.Mailboxes.{MailboxAccount}
use email_ops_community.Snooze.{
  SnoozedThreadState, active, surfaced, cancelled, is_active, SnoozedThread, Move, Answer, moved,
  refused, thrown, State, Engine, asked, set_state, wakes, after_wake, restore_move, surface_row,
  surface_rows, due_snoozes, surface_due_snoozes,
}

-- A round asks nothing, or it asks the engine to move the thread to the inbox of some mailbox.
pub surface_row_cases :
    (cx : Context) (engine : Engine) (row : SnoozedThread) (s : State)
    → (surface_row cx engine row s ≡ (false, s))
      ⊎ ((mailbox : MailboxAccount) × (surface_row cx engine row s
            ≡ after_wake
                (engine s.moves (restore_move mailbox row))
                row.id
                (asked (restore_move mailbox row) s)))
unfolding surface_row
surface_row_cases cx engine row s =
    elim (Option-cases (
      find
        (λ m.
          text_eq m.id row.mailbox_id
          && text_eq m.workspace_id row.workspace_id
          && text_eq m.provider (txt "stalwart")
          && m.active)
        cx.mailboxes)) [
          | inl e ↦ inl (rw (e, surface_row) refl)
          | inr (mailbox, e) ↦ elim (Bool-cases cx.is_configured) [
            | inl g ↦ inr (mailbox, rw (e, g, surface_row) refl)
            | inr g ↦ inl (rw (e, g, surface_row) refl)
          ]
        ]

-- A row as it was, or an active one that is surfaced now.
abbrev pub Woken : SnoozedThread → SnoozedThread → Type 0
Woken r q = (q ≡ r) ⊎ ((r.state ≡ active) × (q ≡ record r { state = surfaced }))

abbrev pub AllWoken : List SnoozedThread → List SnoozedThread → Type 0
AllWoken [] [] = Unit
AllWoken (r ∷ rs) (q ∷ qs) = Woken r q × AllWoken rs qs
AllWoken _ _ = ⊥

AllWoken-refl : (rs : List SnoozedThread) → AllWoken rs rs
AllWoken-refl [] = tt
AllWoken-refl (r ∷ rs) = (inl refl, AllWoken-refl rs)

Woken-trans : (a b c : SnoozedThread) → Woken a b → Woken b c → Woken a c
Woken-trans a b c (inl e) k = subst (λ x. Woken x c) e k
Woken-trans a b c (inr (h, e)) (inl f) = inr (h, f ∙ e)
Woken-trans a b c (inr (h, e)) (inr (h', f)) =
    inr (h, f ∙ ap (λ (x : SnoozedThread). record x { state = surfaced }) e)

AllWoken-trans : (a b c : List SnoozedThread) → AllWoken a b → AllWoken b c → AllWoken a c
AllWoken-trans [] [] [] h k = tt
AllWoken-trans (x ∷ a) (y ∷ b) (z ∷ c) h k =
    (Woken-trans x y z h.0 k.0, AllWoken-trans a b c h.1 k.1)
AllWoken-trans [] (y ∷ b) c h k = elim h [ ]
AllWoken-trans (x ∷ a) [] c h k = elim h [ ]
AllWoken-trans [] [] (z ∷ c) h k = elim k [ ]
AllWoken-trans (x ∷ a) (y ∷ b) [] h k = elim k [ ]

is_active-active : (st : SnoozedThreadState) → is_active st ≡ true → st ≡ active
is_active-active active h = refl
is_active-active surfaced h = ground (arith, h)
is_active-active cancelled h = ground (arith, h)

set_state-AllWoken :
    (id : Text) (rows : List SnoozedThread) → AllWoken rows (set_state (wakes id) surfaced rows)
unfolding set_state
set_state-AllWoken id [] = tt
set_state-AllWoken id (r ∷ rows) = elim (Bool-cases (wakes id r)) [
  | inl e ↦
      rw e (inr (is_active-active r.state (ground (arith, e)), refl), set_state-AllWoken id rows)
  | inr e ↦ rw e (inl refl, set_state-AllWoken id rows)
]

after_wake-AllWoken :
    (a : Answer) (m : Move) (id : Text) (s : State)
    → AllWoken s.threads (after_wake a id (asked m s)).1.threads
after_wake-AllWoken moved m id s = set_state-AllWoken id s.threads
after_wake-AllWoken refused m id s = AllWoken-refl s.threads
after_wake-AllWoken thrown m id s = AllWoken-refl s.threads

surface_row-AllWoken :
    (cx : Context) (engine : Engine) (row : SnoozedThread) (s : State)
    → AllWoken s.threads (surface_row cx engine row s).1.threads
surface_row-AllWoken cx engine row s = elim (surface_row_cases cx engine row s) [
  | inl e ↦ rw e (AllWoken-refl s.threads)
  | inr (mailbox, e) ↦ rw e (
      after_wake-AllWoken (engine s.moves (restore_move mailbox row)) (restore_move mailbox row)
        row.id s)
]

surface_rows-AllWoken :
    (cx : Context) (engine : Engine) (rows : List SnoozedThread) (s : State)
    → AllWoken s.threads (surface_rows cx engine rows s).1.threads
unfolding surface_rows
surface_rows-AllWoken cx engine [] s = AllWoken-refl s.threads
surface_rows-AllWoken cx engine (row ∷ rows) s =
    let s' = (surface_row cx engine row s).1 in
    AllWoken-trans s.threads s'.threads (surface_rows cx engine rows s').1.threads
      (surface_row-AllWoken cx engine row s) (surface_rows-AllWoken cx engine rows s')

-- A sweep keeps the rows and their order, and changes nothing but active rows to surfaced ones.
pub surface_due_snoozes-AllWoken :
    (cx : Context) (engine : Engine) (now limit : ℕ) (s : State)
    → AllWoken s.threads (surface_due_snoozes cx engine now limit s).1.threads
unfolding surface_due_snoozes
surface_due_snoozes-AllWoken cx engine now limit s =
    surface_rows-AllWoken cx engine (due_snoozes now limit s.threads) s
