-- ===== src/Snooze/Returned.antt =====
-- The sweep `surfaceDueSnoozes` of backend/src/scheduling/scheduling.service.ts against the moves that
-- the engine has made.
use email_ops_community.Prelude.{
  ◌≡◌, ◌⊎◌, refl, sym, ap, ◌∙◌, inl, inr, true, List, [], ◌∷◌, ◌++◌, arith, Bool-cases, ℕ, Any,
}
use mathlib.Core.Path.{subst}
use mathlib.Core.List.{append_assoc, append-nil}
use email_ops_community.Prelude.Text.{Text, text_eq}
use email_ops_community.Scheduling.{Context}
use email_ops_community.Mailboxes.{MailboxAccount}
use email_ops_community.Snooze.{
  surfaced, SnoozedThread, Move, inbox, Answer, moved, refused, thrown, State, Engine, asked,
  set_state, wakes, after_wake, restore_move, surface_row, surface_rows, due_snoozes,
  surface_due_snoozes,
}
use email_ops_community.Snooze.Wake.{surface_row_cases}

-- Among the calls that came after the old ones there is one that put the row's thread into the inbox
-- and that the engine, given the calls before it, answered as done.
abbrev pub WasMoved : Engine → List Move → List Move → SnoozedThread → Type 0
WasMoved engine old calls row =
    (before : List Move) × (m : Move) × (after : List Move) × ((calls ≡ before ++ m ∷ after)
      × ((engine (old ++ before) m ≡ moved) × ((m.thread_id ≡ row.thread_id) × (m.folder ≡ inbox))))

-- One of the rows has the id, and its thread was moved.
abbrev pub HasMove : Engine → List SnoozedThread → List Move → List Move → Text → Type 0
HasMove engine rows old calls id =
    Any (λ row. (text_eq id row.id ≡ true) × WasMoved engine old calls row) rows

-- A row as it was, or one that is surfaced now and for whose id the evidence is there.
abbrev pub Backed : (Text → Type 0) → SnoozedThread → SnoozedThread → Type 0
Backed E r q = (q ≡ r) ⊎ ((q ≡ record r { state = surfaced }) × E r.id)

abbrev pub AllBacked : (Text → Type 0) → List SnoozedThread → List SnoozedThread → Type 0
AllBacked E [] [] = Unit
AllBacked E (r ∷ rs) (q ∷ qs) = Backed E r q × AllBacked E rs qs
AllBacked E _ _ = ⊥

module _ (E : Text → Type 0) where
  AllBacked-refl : (rs : List SnoozedThread) → AllBacked E rs rs
  AllBacked-refl [] = tt
  AllBacked-refl (r ∷ rs) = (inl refl, AllBacked-refl rs)

  Backed-trans : (a b c : SnoozedThread) → Backed E a b → Backed E b c → Backed E a c
  Backed-trans a b c (inl e) k = subst (λ x. Backed E x c) e k
  Backed-trans a b c (inr (e, h)) (inl f) = inr (f ∙ e, h)
  Backed-trans a b c (inr (e, h)) (inr (f, h')) =
      inr (f ∙ ap (λ (x : SnoozedThread). record x { state = surfaced }) e, h)

  AllBacked-trans :
      (a b c : List SnoozedThread) → AllBacked E a b → AllBacked E b c → AllBacked E a c
  AllBacked-trans [] [] [] h k = tt
  AllBacked-trans (x ∷ a) (y ∷ b) (z ∷ c) h k =
      (Backed-trans x y z h.0 k.0, AllBacked-trans a b c h.1 k.1)
  AllBacked-trans [] (y ∷ b) c h k = elim h [ ]
  AllBacked-trans (x ∷ a) [] c h k = elim h [ ]
  AllBacked-trans [] [] (z ∷ c) h k = elim k [ ]
  AllBacked-trans (x ∷ a) (y ∷ b) [] h k = elim k [ ]

  Backed-weaken :
      (F : Text → Type 0)
      → ((id : Text) → E id → F id)
      → (r q : SnoozedThread) → Backed E r q
      → Backed F r q
  Backed-weaken F f r q (inl e) = inl e
  Backed-weaken F f r q (inr (e, h)) = inr (e, f r.id h)

  AllBacked-weaken :
      (F : Text → Type 0)
      → ((id : Text) → E id → F id)
      → (rs qs : List SnoozedThread) → AllBacked E rs qs
      → AllBacked F rs qs
  AllBacked-weaken F f [] [] h = tt
  AllBacked-weaken F f (r ∷ rs) (q ∷ qs) h =
      (Backed-weaken F f r q h.0, AllBacked-weaken F f rs qs h.1)
  AllBacked-weaken F f [] (q ∷ qs) h = elim h [ ]
  AllBacked-weaken F f (r ∷ rs) [] h = elim h [ ]

  set_state-AllBacked :
      (id : Text) (rows : List SnoozedThread)
      → ((other : Text) → text_eq other id ≡ true → E other)
      → AllBacked E rows (set_state (wakes id) surfaced rows)
  unfolding set_state
  set_state-AllBacked id [] h = tt
  set_state-AllBacked id (r ∷ rows) h = elim (Bool-cases (wakes id r)) [
    | inl e ↦ rw e (inr (refl, h r.id (ground (arith, e))), set_state-AllBacked id rows h)
    | inr e ↦ rw e (inl refl, set_state-AllBacked id rows h)
  ]

WasMoved-more :
    (engine : Engine) (old calls more : List Move) (row : SnoozedThread)
    → WasMoved engine old calls row
    → WasMoved engine old (calls ++ more) row
WasMoved-more engine old calls more row (before, m, after, (e, rest)) =
    (before, m, after ++ more, (ap (λ z. z ++ more) e ∙ append_assoc before (m ∷ after) more, rest))

WasMoved-later :
    (engine : Engine) (old first calls : List Move) (row : SnoozedThread)
    → WasMoved engine (old ++ first) calls row
    → WasMoved engine old (first ++ calls) row
WasMoved-later engine old first calls row (before, m, after, (e, (answer, rest))) = (
  first ++ before,
  m,
  after,
  (
    ap (λ z. first ++ z) e ∙ sym (append_assoc first before (m ∷ after)),
    (ap (λ z. engine z m) (sym (append_assoc old first before)) ∙ answer, rest),
  ),
)

HasMove-map :
    (engine : Engine) (rows : List SnoozedThread) (old old' calls calls' : List Move) (id : Text)
    → ((row : SnoozedThread) → WasMoved engine old calls row → WasMoved engine old' calls' row)
    → HasMove engine rows old calls id
    → HasMove engine rows old' calls' id
HasMove-map engine [] old old' calls calls' id f h = h
HasMove-map engine (row ∷ rows) old old' calls calls' id f (inl h) = inl (h.0, f row h.1)
HasMove-map engine (row ∷ rows) old old' calls calls' id f (inr h) =
    inr (HasMove-map engine rows old old' calls calls' id f h)

-- A round, or a run of rounds over the rows, makes calls and surfaces what they moved.
abbrev pub Round : Engine → List SnoozedThread → State → State → Type 0
Round engine rows s s' =
    (calls : List Move) × ((s'.moves ≡ s.moves ++ calls)
      × AllBacked (HasMove engine rows s.moves calls) s.threads s'.threads)

quiet-Round : (engine : Engine) (rows : List SnoozedThread) (s : State) → Round engine rows s s
quiet-Round engine rows s =
    ([], (sym (append-nil s.moves), AllBacked-refl (HasMove engine rows s.moves []) s.threads))

after_wake-Round :
    (engine : Engine) (a : Answer) (mailbox : MailboxAccount) (row : SnoozedThread) (s : State)
    → engine s.moves (restore_move mailbox row) ≡ a
    → Round engine (row ∷ []) s (after_wake a row.id (asked (restore_move mailbox row) s)).1
after_wake-Round engine moved mailbox row s e =
    let m = restore_move mailbox row in
    let E = HasMove engine (row ∷ []) s.moves (m ∷ []) in
    let answer : engine (s.moves ++ []) m ≡ moved = ap (λ z. engine z m) (append-nil s.moves) ∙ e in
    (
      m ∷ [],
      (
        refl,
        set_state-AllBacked E row.id s.threads
            (λ other same. inl (same, ([], m, [], (refl, (answer, (refl, refl)))))),
      ),
    )
after_wake-Round engine refused mailbox row s e =
    (restore_move mailbox row ∷ [], (refl, AllBacked-refl _ s.threads))
after_wake-Round engine thrown mailbox row s e =
    (restore_move mailbox row ∷ [], (refl, AllBacked-refl _ s.threads))

surface_row-Round :
    (cx : Context) (engine : Engine) (row : SnoozedThread) (s : State)
    → Round engine (row ∷ []) s (surface_row cx engine row s).1
surface_row-Round cx engine row s = elim (surface_row_cases cx engine row s) [
  | inl e ↦ subst (λ r. Round engine (row ∷ []) s r.1) (sym e) (quiet-Round engine (row ∷ []) s)
  | inr (mailbox, e) ↦
      subst (λ r. Round engine (row ∷ []) s r.1) (sym e)
        (after_wake-Round engine (engine s.moves (restore_move mailbox row)) mailbox row s refl)
]

HasMove-first :
    (engine : Engine) (row : SnoozedThread) (rows : List SnoozedThread) (old calls : List Move)
    (id : Text)
    → HasMove engine (row ∷ []) old calls id
    → HasMove engine (row ∷ rows) old calls id
HasMove-first engine row rows old calls id (inl h) = inl h
HasMove-first engine row rows old calls id (inr h) = elim h [ ]

-- A round, then a run of rounds.
Round-cons :
    (engine : Engine) (row : SnoozedThread) (rows : List SnoozedThread) (s s' last : State)
    → Round engine (row ∷ []) s s'
    → Round engine rows s' last
    → Round engine (row ∷ rows) s last
Round-cons engine row rows s s' last (first, (log, a)) (rest, (log', b)) =
    let E = HasMove engine (row ∷ rows) s.moves (first ++ rest) in
    let from_first = λ (id : Text) (h : HasMove engine (row ∷ []) s.moves first id).
      HasMove-first engine row rows s.moves (first ++ rest) id (
        HasMove-map engine (row ∷ []) s.moves s.moves first (first ++ rest) id
          (WasMoved-more engine s.moves first rest) h) in
    let from_rest = λ (id : Text) (h : HasMove engine rows s'.moves rest id). inr (
      HasMove-map engine rows (s.moves ++ first) s.moves rest (first ++ rest) id
        (WasMoved-later engine s.moves first rest)
        (subst (λ z. HasMove engine rows z rest id) log h)) in
    (
      first ++ rest,
      (
        log' ∙ ap (λ z. z ++ rest) log ∙ append_assoc s.moves first rest,
        AllBacked-trans E s.threads s'.threads last.threads
            (AllBacked-weaken (HasMove engine (row ∷ []) s.moves first) E from_first s.threads
              s'.threads a)
            (AllBacked-weaken (HasMove engine rows s'.moves rest) E from_rest s'.threads
              last.threads b),
      ),
    )

surface_rows-Round :
    (cx : Context) (engine : Engine) (rows : List SnoozedThread) (s : State)
    → Round engine rows s (surface_rows cx engine rows s).1
unfolding surface_rows
surface_rows-Round cx engine [] s = quiet-Round engine [] s
surface_rows-Round cx engine (row ∷ rows) s =
    let s' = (surface_row cx engine row s).1 in
    Round-cons engine row rows s s' (surface_rows cx engine rows s').1
      (surface_row-Round cx engine row s) (surface_rows-Round cx engine rows s')

-- Whatever the engine answers, and also where it moves some threads and refuses others: a row that a
-- sweep reports as surfaced has the id of a due row whose thread the engine was asked, in a call of
-- this sweep, to put into the inbox, and it answered that it had; every other row stays as it was.
pub surface_due_snoozes-Round :
    (cx : Context) (engine : Engine) (now limit : ℕ) (s : State)
    → Round engine (due_snoozes now limit s.threads) s (surface_due_snoozes cx engine now limit s).1
unfolding surface_due_snoozes
surface_due_snoozes-Round cx engine now limit s =
    surface_rows-Round cx engine (due_snoozes now limit s.threads) s
