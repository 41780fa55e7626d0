-- ===== src/Prelude/Trim.antt =====
-- `String.prototype.trim` applied to its own result.
use email_ops_community.Prelude.Text.{Text, is_space, trim_start, trim}
use email_ops_community.Prelude.Tests.{Bool-cases}
use Prim.Native.Nat.{ℕ}
use mathlib.Core.Path.{◌≡◌, refl, ap, ◌∙◌}
use mathlib.Core.Logic.{inl, inr}
use mathlib.Core.Bool.{false}
use mathlib.Core.List.{[], ◌∷◌, ◌++◌, reverse, reverse-cons, reverse-append, reverse-reverse}

-- A character that is no space ends the run of spaces at the start, wherever it stands.
trim_start-snoc :
    (s : Text) (c : ℕ) → is_space c ≡ false → trim_start (s ++ c ∷ []) ≡ trim_start s ++ c ∷ []
unfolding trim_start
trim_start-snoc [] c h = rw h refl
trim_start-snoc (d ∷ s) c h = elim (Bool-cases (is_space d)) [
  | inl e ↦ rw e (trim_start-snoc s c h)
  | inr e ↦ rw e refl
]

-- A text that starts with no space.
abbrev Starts : Text → Type 0
Starts [] = Unit
Starts (c ∷ s) = is_space c ≡ false

trim_start-Starts : (s : Text) → Starts (trim_start s)
unfolding trim_start
trim_start-Starts [] = tt
trim_start-Starts (c ∷ s) = elim (Bool-cases (is_space c)) [
  | inl e ↦ rw e (trim_start-Starts s)
  | inr e ↦ rw e e
]

trim_start-fixed : (s : Text) → Starts s → trim_start s ≡ s
unfolding trim_start
trim_start-fixed [] h = refl
trim_start-fixed (c ∷ s) h = rw h refl

-- What is left of a text that starts with no space, once its end is trimmed, starts with none.
trim_end-Starts : (s : Text) → Starts s → Starts (reverse (trim_start (reverse s)))
unfolding trim_start
trim_end-Starts [] h = tt
trim_end-Starts (c ∷ s) h =
    let body : reverse (trim_start (reverse (c ∷ s))) ≡ c ∷ reverse (trim_start (reverse s)) =
      ap (λ t. reverse (trim_start t)) (reverse-cons c s)
      ∙ ap reverse (trim_start-snoc (reverse s) c h)
      ∙ reverse-append (trim_start (reverse s)) (c ∷ []) in
    rw body h

pub trim_idem : (s : Text) → trim (trim s) ≡ trim s
unfolding trim
trim_idem s =
    let start = trim_start s in
    let back = trim_start (reverse start) in
    ap (λ t. reverse (trim_start (reverse t)))
      (trim_start-fixed (reverse back) (trim_end-Starts start (trim_start-Starts s)))
    ∙ ap (λ t. reverse (trim_start t)) (reverse-reverse back)
    ∙ ap reverse (trim_start-fixed back (trim_start-Starts (reverse start)))
