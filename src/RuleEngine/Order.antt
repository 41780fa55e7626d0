-- ===== src/RuleEngine/Order.antt =====
-- The order in which `evaluateRules` of backend/src/mail-rules/rule-engine.ts walks the rules.
use mathlib.Core.List.{Perm}
use mathlib.Core.List.Perm
use email_ops_community.Prelude.{
  ◌≡◌, refl, inl, inr, Bool, true, false, ◌&&◌, List, [], ◌∷◌, arith, All, keep, Bool-cases, ◌∙◌,
  ap,
}
use email_ops_community.Prelude.Int.{ℤ, ◌≤ℤ◌, leb_ℤ}
use email_ops_community.RuleEngine.{CompiledRule, sort_key, insert_rule, sort_rules}

abbrev pub IsSorted : List CompiledRule → Type 0
IsSorted [] = Unit
IsSorted (r ∷ rs) = All (λ x. sort_key r ≤ℤ sort_key x) rs × IsSorted rs

-- The rules of one priority, in the order of the list.
abbrev pub at_priority : ℤ → List CompiledRule → List CompiledRule
at_priority k rs = keep (λ r. leb_ℤ (sort_key r) k && leb_ℤ k (sort_key r)) rs

All-insert_rule :
    (P : CompiledRule → Type 0) (r : CompiledRule) (rs : List CompiledRule)
    → P r
    → All P rs
    → All P (insert_rule r rs)
unfolding insert_rule
All-insert_rule P r [] p h = (p, tt)
All-insert_rule P r (x ∷ xs) p h = elim (Bool-cases (leb_ℤ (sort_key r) (sort_key x))) [
  | inl e ↦ rw e (p, h)
  | inr e ↦ rw e (h.0, All-insert_rule P r xs p h.1)
]

All-above :
    (r x : CompiledRule) (xs : List CompiledRule)
    → sort_key r ≤ℤ sort_key x
    → All (λ y. sort_key x ≤ℤ sort_key y) xs
    → All (λ y. sort_key r ≤ℤ sort_key y) xs
All-above r x [] h k = tt
All-above r x (y ∷ ys) h k = (omega (arith, k.0), All-above r x ys h k.1)

pub leb_ℤ-le : (a b : ℤ) → leb_ℤ a b ≡ true → a ≤ℤ b
leb_ℤ-le a b h = ground arith

pub leb_ℤ-ge : (a b : ℤ) → leb_ℤ a b ≡ false → b ≤ℤ a
leb_ℤ-ge a b h = ground arith

insert_rule-IsSorted :
    (r : CompiledRule) (rs : List CompiledRule) → IsSorted rs → IsSorted (insert_rule r rs)
unfolding insert_rule
insert_rule-IsSorted r [] h = (tt, tt)
insert_rule-IsSorted r (x ∷ xs) h = elim (Bool-cases (leb_ℤ (sort_key r) (sort_key x))) [
  | inl e ↦ let le = leb_ℤ-le (sort_key r) (sort_key x) e in rw e ((le, All-above r x xs le h.0), h)
  | inr e ↦ rw e (
    All-insert_rule _ r xs (leb_ℤ-ge (sort_key r) (sort_key x) e) h.0,
    insert_rule-IsSorted r xs h.1,
  )
]

insert_rule-perm : (r : CompiledRule) (rs : List CompiledRule) → Perm (insert_rule r rs) (r ∷ rs)
unfolding insert_rule
insert_rule-perm r [] = Perm.refl (r ∷ [])
insert_rule-perm r (x ∷ xs) = elim (Bool-cases (leb_ℤ (sort_key r) (sort_key x))) [
  | inl e ↦ rw e (Perm.refl (r ∷ x ∷ xs))
  | inr e ↦ rw e (Perm.trans (Perm.cons x (insert_rule-perm r xs)) (Perm.swap r x xs))
]

abbrev pub at : ℤ → CompiledRule → Bool
at k r = leb_ℤ (sort_key r) k && leb_ℤ k (sort_key r)

apart :
    (a b k : ℤ)
    → leb_ℤ a b ≡ false
    → (leb_ℤ a k && leb_ℤ k a) ≡ true
    → (leb_ℤ b k && leb_ℤ k b) ≡ false
apart a b k h e = ground arith

at_priority-cons :
    (k : ℤ) (r x : CompiledRule) (xs ys : List CompiledRule)
    → leb_ℤ (sort_key r) (sort_key x) ≡ false
    → at_priority k ys ≡ at_priority k (r ∷ xs)
    → at_priority k (x ∷ ys) ≡ at_priority k (r ∷ x ∷ xs)
at_priority-cons k r x xs ys h ih = elim (Bool-cases (at k r)) [
  | inl e ↦
      let f : at k x ≡ false = apart (sort_key r) (sort_key x) k h e in
      rw (f, keep) (rw (e, keep) (ih ∙ rw (e, keep) (rw (f, keep) refl)))
  | inr e ↦
      rw (e, keep)
        (elim (Bool-cases (at k x)) [
          | inl f ↦ rw (f, keep) (ap (λ z. x ∷ z) (ih ∙ rw (e, keep) refl))
          | inr f ↦ rw (f, keep) (ih ∙ rw (e, keep) refl)
        ])
]

at_priority-insert_rule :
    (k : ℤ) (r : CompiledRule) (rs : List CompiledRule)
    → at_priority k (insert_rule r rs) ≡ at_priority k (r ∷ rs)
unfolding insert_rule
at_priority-insert_rule k r [] = refl
at_priority-insert_rule k r (x ∷ xs) = elim (Bool-cases (leb_ℤ (sort_key r) (sort_key x))) [
  | inl e ↦ rw e refl
  | inr e ↦ rw e (at_priority-cons k r x xs (insert_rule r xs) e (at_priority-insert_rule k r xs))
]

-- The rules are walked by ascending priority, each once, and rules of one priority in the order in
-- which they are given; a priority that is not finite counts as the largest safe integer.
pub sort_rules_lem :
    (rs : List CompiledRule)
    → IsSorted (sort_rules rs)
      × Perm (sort_rules rs) rs
      × ((k : ℤ) → at_priority k (sort_rules rs) ≡ at_priority k rs)
unfolding sort_rules
sort_rules_lem [] = (tt, Perm.refl [], λ k. refl)
sort_rules_lem (r ∷ rs) =
    let (sorted, perm, stable) = sort_rules_lem rs in
    (
      insert_rule-IsSorted r (sort_rules rs) sorted,
      Perm.trans (insert_rule-perm r (sort_rules rs)) (Perm.cons r perm),
      λ k.
          at_priority-insert_rule k r (sort_rules rs)
          ∙ ap (λ z. let rest = z in elim (at k r) [ true ↦ r ∷ rest | false ↦ rest ]) (stable k),
    )
