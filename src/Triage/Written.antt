-- ===== src/Triage/Written.antt =====
-- What a search of a table finds after an upsert, for the tables of backend/src/mail-triage.
use email_ops_community.Prelude.{
  Bool, true, false, ◌&&◌, Option, none, some, List, [], ◌∷◌, ◌++◌, any, keep, find, if◌then◌else◌,
  Bool-cases, ◌≡◌, refl, arith, inl, inr, ◌∙◌, ap,
}
use mathlib.Core.Bool.{false≢true}
use email_ops_community.Triage.{changed, upsert}

module _ {A : Type 0} (P : A → Type 0) where
  unfoldable pub Found : Option A → Type 0
  Found none = ⊥
  Found (some r) = P r

  Found-head :
      (q : A → Bool) (x y : A)
      → x ≡ y
      → q y ≡ true
      → P y
      → (rows : List A) → Found (find q (x ∷ rows))
  unfolding Found
  Found-head q x y p e h rows =
      let at_x : q x ≡ true = ap {B = Bool} q p ∙ e in rw (at_x, find) (rw p h)

  changed-Found :
      (q : A → Bool) (change : A → A)
      → ((r : A) → q r ≡ true → q (change r) ≡ true)
      → ((r : A) → P (change r))
      → (rows : List A) → any q rows ≡ true
      → Found (find q (changed q change rows))
  unfolding Found
  changed-Found q change keeps holds [] h = absurd (false≢true h)
  changed-Found q change keeps holds (r ∷ rows) h = elim (Bool-cases (q r)) [
    | inl e ↦
        let head : (if q r then change r else r) ≡ change r =
          ap {B = A} (λ b. if b then change r else r) e in
        Found-head q (if q r then change r else r) (change r) head (keeps r e) (holds r)
          (changed q change rows)
    | inr e ↦
        let later : any q rows ≡ true = ground (arith, e, h) in
        rw (e, e) (changed-Found q change keeps holds rows later)
  ]

  append-Found :
      (q : A → Bool) (new : A)
      → q new ≡ true
      → P new
      → (rows : List A) → any q rows ≡ false
      → Found (find q (rows ++ new ∷ []))
  unfolding Found
  append-Found q new e holds [] h = rw e holds
  append-Found q new e holds (r ∷ rows) h = elim (Bool-cases (q r)) [
    | inl f ↦ ground (arith, f, h)
    | inr f ↦
        let later : any q rows ≡ false = ground (arith, f, h) in
        rw f (append-Found q new e holds rows later)
  ]

  -- After an upsert the first row of the key is the one that was written.
  pub upsert-Found :
      (q : A → Bool) (change : A → A) (new : A)
      → ((r : A) → q r ≡ true → q (change r) ≡ true)
      → ((r : A) → P (change r))
      → q new ≡ true
      → P new
      → (rows : List A) → Found (find q (upsert q change new rows))
  unfolding upsert
  upsert-Found q change new keeps holds e last rows = elim (Bool-cases (any q rows)) [
    | inl f ↦ rw f (changed-Found q change keeps holds rows f)
    | inr f ↦ rw f (append-Found q new e last rows f)
  ]

pub find-keep {ℓ} :
    {A : Type ℓ} (p m q : A → Bool)
    → ((r : A) → q r ≡ (m r && p r))
    → (rows : List A) → find p (keep m rows) ≡ find q rows
find-keep p m q h [] = refl
find-keep p m q h (r ∷ rows) = ground (arith, h r, find-keep p m q h rows)
