-- ===== src/Prelude/Lists.antt =====
-- Lists measured by native numbers, and predicates on all or some members by recursion.
use Prim.Native.Nat.{ℕ, zero, suc, ◌+◌, ◌≤◌}
use mathlib.Core.Path.{◌≡◌, refl}
use mathlib.Core.Logic.{◌⊎◌, ◌↔◌, inl, inr}
use mathlib.Core.Bool.{Bool, true, false, ◌&&◌, ◌||◌, not, false≢true}
use mathlib.Core.Option.{Option, none, some}
use mathlib.Core.List.{List, [], ◌∷◌, ◌++◌}
use native.Mathlib.Omega.{arith}
use email_ops_community.Prelude.Tests.{ltb, Bool-cases, if◌then◌else◌}

module _ {ℓ} {A : Type ℓ} where
  abbrev pub length : List A → ℕ
  length [] = 0
  length (x ∷ xs) = suc (length xs)

  abbrev pub take : ℕ → List A → List A
  take zero xs = []
  take (suc n) [] = []
  take (suc n) (x ∷ xs) = x ∷ take n xs

  abbrev pub drop : ℕ → List A → List A
  drop zero xs = xs
  drop (suc n) [] = []
  drop (suc n) (x ∷ xs) = drop n xs

  -- `xs.every(p)` and `xs.some(p)`.
  abbrev pub every : (A → Bool) → List A → Bool
  every p [] = true
  every p (x ∷ xs) = p x && every p xs

  abbrev pub any : (A → Bool) → List A → Bool
  any p [] = false
  any p (x ∷ xs) = p x || any p xs

  -- `xs.find(p)`, `undefined` as `none`.
  abbrev pub find : (A → Bool) → List A → Option A
  find p [] = none
  find p (x ∷ xs) = let rest = find p xs in elim (p x) [ true ↦ some x | false ↦ rest ]

  -- `xs.filter(p)`.
  abbrev pub keep : (A → Bool) → List A → List A
  keep p [] = []
  keep p (x ∷ xs) = let rest = keep p xs in elim (p x) [ true ↦ x ∷ rest | false ↦ rest ]

  pub length-append : (xs ys : List A) → length (xs ++ ys) ≡ length xs + length ys
  length-append [] ys = omega arith
  length-append (x ∷ xs) ys = omega (arith, length-append xs ys)

  pub length-keep-le : (p : A → Bool) (xs : List A) → length (keep p xs) ≤ length xs
  length-keep-le p [] = omega arith
  length-keep-le p (x ∷ xs) = ground (arith, length-keep-le p xs)

abbrev pub All {ℓ κ} : {A : Type ℓ} → (A → Type κ) → List A → Type κ
All P [] = Unit
All P (x ∷ xs) = P x × All P xs

module _ {ℓ} {A : Type ℓ} (P : A → Type 0) where
  -- Some member has the property; the member is kept.
  abbrev pub Any : List A → Type 0
  Any [] = ⊥
  Any (x ∷ xs) = P x ⊎ Any xs

module _ {ℓ} {A : Type ℓ} (p : A → Bool) where
  pub All-keep : (Q : A → Type 0) (xs : List A) → All Q (keep p xs) ↔ All (λ x. p x ≡ true → Q x) xs
  All-keep Q [] = ((λ h. tt), (λ h. tt))
  All-keep Q (x ∷ xs) =
      let (to, from) = All-keep Q xs in
      elim (Bool-cases (p x)) [
        | inl e ↦ rw (e, keep) ((λ h. ((λ _. h.0), to h.1)), (λ h. (h.0 refl, from h.1)))
        | inr e ↦
            rw (e, keep)
              ((λ h. ((λ (c : false ≡ true). absurd (false≢true c)), to h)), (λ h. from h.1))
      ]

  -- Nothing is kept exactly when the test fails on every member.
  pub keep-empty : (xs : List A) → (ltb 0 (length (keep p xs)) ≡ false) ↔ All (λ x. p x ≡ false) xs
  keep-empty [] = ground arith
  keep-empty (x ∷ xs) = ground (arith, keep-empty xs)

  pub keep-eq-nil : (xs : List A) → (keep p xs ≡ []) ↔ All (λ x. p x ≡ false) xs
  keep-eq-nil [] = ground arith
  keep-eq-nil (x ∷ xs) = ground (arith, keep-eq-nil xs)

pub keep-not-eq-nil {ℓ} :
    {A : Type ℓ} (p : A → Bool) (xs : List A)
    → (keep (λ x. not (p x)) xs ≡ []) ↔ All (λ x. p x ≡ true) xs
keep-not-eq-nil p [] = ground arith
keep-not-eq-nil p (x ∷ xs) = ground (arith, keep-not-eq-nil p xs)

pub All-weaken {ℓ} :
    {A : Type ℓ} (P Q : A → Type 0) → ((x : A) → P x → Q x) → (xs : List A) → All P xs → All Q xs
All-weaken P Q f [] h = tt
All-weaken P Q f (x ∷ xs) h = (f x h.0, All-weaken P Q f xs h.1)

pub All-last {ℓ} :
    {A : Type ℓ} (P : A → Type 0) (xs : List A) (x : A) → All P xs → P x → All P (xs ++ x ∷ [])
All-last P [] x h px = (px, tt)
All-last P (y ∷ xs) x h px = (h.0, All-last P xs x h.1 px)

pub All-kept {ℓ} :
    {A : Type ℓ} (P : A → Type 0) (p : A → Bool) (xs : List A) → All P xs → All P (keep p xs)
All-kept P p [] h = tt
All-kept P p (x ∷ xs) h = elim (Bool-cases (p x)) [
  | inl e ↦ rw (e, keep) (h.0, All-kept P p xs h.1)
  | inr e ↦ rw (e, keep) (All-kept P p xs h.1)
]

pub keep-last {ℓ} :
    {A : Type ℓ} (p : A → Bool) (xs : List A) (x : A)
    → length (keep p (xs ++ x ∷ [])) ≡ length (keep p xs) + (if p x then 1 else 0)
keep-last p [] x = ground arith
keep-last p (y ∷ xs) x = ground (arith, keep-last p xs x)

pub keep-keep-le {ℓ} :
    {A : Type ℓ} (p q : A → Bool) (xs : List A) → length (keep p (keep q xs)) ≤ length (keep p xs)
keep-keep-le p q [] = omega arith
keep-keep-le p q (x ∷ xs) = ground (arith, keep-keep-le p q xs)
