-- ===== src/RuleEngine/AnyOrder.antt =====
-- `evaluateRules` of backend/src/mail-rules/rule-engine.ts and the sort of its runtime: any stable sort
-- by the priority gives the same walk.
use email_ops_community.Prelude.{
  ◌≡◌, refl, sym, ap, ◌∙◌, inl, inr, Bool, true, ◌&&◌, Option, none, some, List, [], ◌∷◌, arith,
  All, All-weaken, keep, Bool-cases, Option-cases,
}
use mathlib.Core.Path.{subst}
use email_ops_community.Prelude.Int.{ℤ, pos, ◌≤ℤ◌, leb_ℤ, leb_ℤ_of_le}
use email_ops_community.RuleEngine.{
  InboundMessage, CompiledRule, sort_key, sort_rules, run_rules, evaluate_rules,
}
use email_ops_community.RuleEngine.Order.{IsSorted, at_priority, at, sort_rules_lem, leb_ℤ-le}

-- The number by which a priority is ordered: `Number.MAX_SAFE_INTEGER` if it is not finite.
abbrev pub counts_as : Option ℤ → ℤ
counts_as none = pos 9007199254740991
counts_as (some k) = k

-- The rules ascend by their priority.
abbrev pub Ascends : List CompiledRule → Type 0
Ascends [] = Unit
Ascends (r ∷ rs) = All (λ x. counts_as r.priority ≤ℤ counts_as x.priority) rs × Ascends rs

-- The rules whose priority counts as the number, in the order of the list.
abbrev pub counting_as : ℤ → List CompiledRule → List CompiledRule
counting_as k rs = keep (λ r. leb_ℤ (counts_as r.priority) k && leb_ℤ k (counts_as r.priority)) rs

sort_key-counts_as : (r : CompiledRule) → sort_key r ≡ counts_as r.priority
sort_key-counts_as r = elim (Option-cases r.priority) [
  | inl e ↦ rw (e, sort_key) refl
  | inr (k, e) ↦ rw (e, sort_key) refl
]

IsSorted-Ascends : (rs : List CompiledRule) → IsSorted rs → Ascends rs
IsSorted-Ascends [] h = tt
IsSorted-Ascends (r ∷ rs) h = (
  All-weaken (λ x. sort_key r ≤ℤ sort_key x) (λ x. counts_as r.priority ≤ℤ counts_as x.priority)
      (λ x g.
        subst (λ k. counts_as r.priority ≤ℤ k) (sort_key-counts_as x)
          (subst (λ k. k ≤ℤ sort_key x) (sort_key-counts_as r) g))
      rs h.0,
  IsSorted-Ascends rs h.1,
)

keep-same :
    (p q : CompiledRule → Bool)
    → ((r : CompiledRule) → p r ≡ q r)
    → (rs : List CompiledRule) → keep p rs ≡ keep q rs
keep-same p q h [] = refl
keep-same p q h (r ∷ rs) = ground (arith, h r, keep-same p q h rs)

at_priority-counting_as : (k : ℤ) (rs : List CompiledRule) → at_priority k rs ≡ counting_as k rs
at_priority-counting_as k rs =
    keep-same (at k) _ (λ r. ap (λ z. leb_ℤ z k && leb_ℤ k z) (sort_key-counts_as r)) rs

-- A rule that is found at a priority bounds it from below.
counting_as-bound :
    (b k : ℤ) (x : CompiledRule) (xs rs : List CompiledRule)
    → All (λ r. b ≤ℤ counts_as r.priority) rs
    → counting_as k rs ≡ x ∷ xs
    → b ≤ℤ k
counting_as-bound b k x xs [] h e = ground (arith, e)
counting_as-bound b k x xs (r ∷ rs) h e =
    elim (Bool-cases (leb_ℤ (counts_as r.priority) k && leb_ℤ k (counts_as r.priority))) [
      | inl f ↦
          let le : leb_ℤ (counts_as r.priority) k ≡ true = ground (arith, f) in
          let below = leb_ℤ-le (counts_as r.priority) k le in omega (arith, h.0, below)
      | inr f ↦
          let rest : counting_as k rs ≡ x ∷ xs = sym (rw (f, keep) refl) ∙ e in
          counting_as-bound b k x xs rs h.1 rest
    ]

self_at : (k : ℤ) → (leb_ℤ k k && leb_ℤ k k) ≡ true
self_at k = ground arith

counting_as_self :
    (r : CompiledRule) (rs : List CompiledRule)
    → counting_as (counts_as r.priority) (r ∷ rs) ≡ r ∷ counting_as (counts_as r.priority) rs
counting_as_self r rs = rw (self_at (counts_as r.priority), keep) refl

≤ℤ-refl : (k : ℤ) → k ≤ℤ k
≤ℤ-refl k = omega arith

head_or : CompiledRule → List CompiledRule → CompiledRule
head_or d [] = d
head_or d (r ∷ rs) = r

tail_of : List CompiledRule → List CompiledRule
tail_of [] = []
tail_of (r ∷ rs) = rs

-- Without its first rule a list loses that rule at its own priority, and nothing elsewhere.
counting_as-tails :
    (k : ℤ) (x : CompiledRule) (xs ys : List CompiledRule)
    → counting_as k (x ∷ xs) ≡ counting_as k (x ∷ ys)
    → counting_as k xs ≡ counting_as k ys
counting_as-tails k x xs ys h =
    elim (Bool-cases (leb_ℤ (counts_as x.priority) k && leb_ℤ k (counts_as x.priority))) [
      | inl f ↦
          let l : counting_as k (x ∷ xs) ≡ x ∷ counting_as k xs = rw (f, keep) refl in
          let r : counting_as k (x ∷ ys) ≡ x ∷ counting_as k ys = rw (f, keep) refl in
          unfold tail_of in ap tail_of (sym l ∙ h ∙ r)
      | inr f ↦
          let l : counting_as k (x ∷ xs) ≡ counting_as k xs = rw (f, keep) refl in
          let r : counting_as k (x ∷ ys) ≡ counting_as k ys = rw (f, keep) refl in sym l ∙ h ∙ r
    ]

first_equal :
    (x y : CompiledRule) (xs ys : List CompiledRule)
    → Ascends (x ∷ xs)
    → Ascends (y ∷ ys)
    → ((k : ℤ) → counting_as k (x ∷ xs) ≡ counting_as k (y ∷ ys))
    → x ≡ y
unfolding head_or
first_equal x y xs ys a b h =
    let kx = counts_as x.priority in
    let ky = counts_as y.priority in
    let at_x = sym (h kx) ∙ counting_as_self x xs in
    let at_y = h ky ∙ counting_as_self y ys in
    let y_below = counting_as-bound ky kx x _ (y ∷ ys) (≤ℤ-refl ky, b.0) at_x in
    let x_below = counting_as-bound kx ky y _ (x ∷ xs) (≤ℤ-refl kx, a.0) at_y in
    let up = leb_ℤ_of_le ky kx y_below in
    let down = leb_ℤ_of_le kx ky x_below in
    let kept : counting_as kx (y ∷ ys) ≡ y ∷ counting_as kx ys = rw (up, down, keep) refl in
    ap (head_or x) (sym at_x ∙ kept)

-- Ascending lists with the same rules, in the same order, at each priority are the same list.
same_order :
    (xs ys : List CompiledRule)
    → Ascends xs
    → Ascends ys
    → ((k : ℤ) → counting_as k xs ≡ counting_as k ys)
    → xs ≡ ys
same_order [] [] a b h = refl
same_order [] (y ∷ ys) a b h = ground (arith, h (counts_as y.priority) ∙ counting_as_self y ys)
same_order (x ∷ xs) [] a b h =
    ground (arith, sym (h (counts_as x.priority)) ∙ counting_as_self x xs)
same_order (x ∷ xs) (y ∷ ys) a b h =
    let e = first_equal x y xs ys a b h in
    let aligned =
      λ (k : ℤ). subst (λ z. counting_as k (x ∷ xs) ≡ counting_as k (z ∷ ys)) (sym e) (h k) in
    let rest = same_order xs ys a.1 b.1 (λ k. counting_as-tails k x xs ys (aligned k)) in
    ap (λ z. z ∷ xs) e ∙ ap (λ zs. y ∷ zs) rest

-- A list that ascends by the priority, where one that is not finite counts as the largest safe
-- integer, and that has the rules of each priority in the order in which they are given: this is what
-- any stable sort returns, and the evaluation of the rules as given is the walk over that list.
pub evaluate_rules-any_order :
    (rs sorted : List CompiledRule) (msg : InboundMessage)
    → Ascends sorted
    → ((k : ℤ) → counting_as k sorted ≡ counting_as k rs)
    → evaluate_rules rs msg ≡ run_rules sorted msg
unfolding evaluate_rules
evaluate_rules-any_order rs sorted msg up stable =
    let (ordered, perm, kept) = sort_rules_lem rs in
    let agrees = λ (k : ℤ).
      sym (at_priority-counting_as k (sort_rules rs))
      ∙ kept k
      ∙ at_priority-counting_as k rs
      ∙ sym (stable k) in
    ap (λ z. run_rules z msg)
      (same_order (sort_rules rs) sorted (IsSorted-Ascends (sort_rules rs) ordered) up agrees)
