-- ===== src/MailRules/Shape.antt =====
-- The bounds of a match tree that the write side of
-- backend/src/mail-rules/mail-rules.service.ts lets through.
use email_ops_community.Prelude.{
  ℕ, ◌+◌, ◌-◌, ◌*◌, ◌≤◌, ◌==◌, ◌≡◌, refl, sym, inl, inr, str_eq, String, false, not, ◌&&◌, Option,
  none, some, List, [], ◌∷◌, any, keep, length, length-keep-le, arith, Bool-cases, Option-cases,
  if◌then◌else◌,
}
use email_ops_community.Json.{Json, arr, obj, Items, nil, cons, Fields, end, field, get, as_array}
use email_ops_community.RuleEngine.{parse_match}
use email_ops_community.RuleEngine.Parse.{parse_match_idem}
use email_ops_community.MailRules.Write.{
  passed, is_there, is_leaf, listed, children, has_both, first_clause, count_conditions,
  count_clause, count_array, count_items, group_fault, first_fault, shape_fault, compile_match,
}

-- The conditions below a list of children.
total : List Json → ℕ
total [] = 0
total (c ∷ cs) = (if is_leaf c then 1 else count_conditions c) + total cs

count_items-listed : (xs : Items) → count_items xs ≡ total (listed xs)
unfolding total listed count_items
count_items-listed nil = refl
count_items-listed (cons x xs) = ground (arith, count_items-listed xs)

count_opt : Option Items → ℕ
count_opt none = 0
count_opt (some xs) = count_items xs

count_array-as_array : (v : Json) → count_array v ≡ count_opt (as_array (some v))
unfolding count_opt count_array
count_array-as_array (arr xs) = refl
count_array-as_array (obj fs) = refl
count_array-as_array Json.null = refl
count_array-as_array (Json.boolean b) = refl
count_array-as_array (Json.num z) = refl
count_array-as_array (Json.str s) = refl

count_clause-get :
    (key : String) (fs : Fields) → count_clause key fs ≡ count_opt (as_array (get key fs))
unfolding count_opt get count_clause
count_clause-get key end = refl
count_clause-get key (field k v fs) = elim (Bool-cases (str_eq k key)) [
  | inl e ↦ rw (count_clause, get, e) (count_array-as_array v)
  | inr e ↦ rw (count_clause, get, e) (count_clause-get key fs)
]

total-first_clause :
    (a b : Option Items)
    → (is_there a && is_there b) ≡ false
    → count_opt a + count_opt b ≡ total (first_clause a b)
unfolding count_opt listed total
total-first_clause none none h = refl
total-first_clause none (some b) h = ground (arith, count_items-listed b)
total-first_clause (some a) none h = ground (arith, count_items-listed a)
total-first_clause (some a) (some b) h = ground (arith, h)

-- With one mode the conditions of a node are those below its children.
count_conditions-children :
    (node : Json) → has_both node ≡ false → count_conditions node ≡ total (children node)
unfolding children has_both get count_conditions total
count_conditions-children (obj fs) h =
    let first = total-first_clause (as_array (get "all" fs)) (as_array (get "any" fs)) h in
    rw (count_conditions, count_clause-get "all" fs, count_clause-get "any" fs) first
count_conditions-children (arr xs) h = refl
count_conditions-children Json.null h = refl
count_conditions-children (Json.boolean b) h = refl
count_conditions-children (Json.num z) h = refl
count_conditions-children (Json.str t) h = refl

total_leaves : (cs : List Json) → any (λ c. not (is_leaf c)) cs ≡ false → total cs ≡ length cs
unfolding total
total_leaves [] h = refl
total_leaves (c ∷ cs) h = ground (arith, h, total_leaves cs)

group_fault-count : (g : Json) → group_fault g ≡ none → count_conditions g ≤ 10
unfolding group_fault
group_fault-count g h = ground (arith, h, count_conditions-children g, total_leaves (children g))

first_fault-none :
    (g : Json) (gs : List Json)
    → first_fault (g ∷ gs) ≡ none
    → (group_fault g ≡ none) × (first_fault gs ≡ none)
unfolding first_fault
first_fault-none g gs h = elim (Option-cases (group_fault g)) [
  | inl e ↦ (e, ground (arith, e, h))
  | inr (why, e) ↦ ground (arith, e, h)
]

first_fault-total :
    (cs : List Json)
    → first_fault (keep (λ c. not (is_leaf c)) cs) ≡ none
    → total cs
      ≤ (length cs - length (keep (λ c. not (is_leaf c)) cs))
        + 10 * length (keep (λ c. not (is_leaf c)) cs)
unfolding total
first_fault-total [] h = omega arith
first_fault-total (c ∷ cs) h =
    let size = length-keep-le (λ c. not (is_leaf c)) cs in
    elim (Bool-cases (is_leaf c)) [
      | inl e ↦
          let h' : first_fault (keep (λ c. not (is_leaf c)) cs) ≡ none = ground (arith, e, h) in
          ground (arith, e, size, first_fault-total cs h')
      | inr e ↦
          let g : first_fault (c ∷ keep (λ c. not (is_leaf c)) cs) ≡ none = ground (arith, e, h) in
          let (own, others) = first_fault-none c (keep (λ c. not (is_leaf c)) cs) g in
          ground (arith, e, size, group_fault-count c own, first_fault-total cs others)
    ]

shape_fault-count : (node : Json) → shape_fault node ≡ none → count_conditions node ≤ 60
unfolding shape_fault
shape_fault-count node h =
    ground (arith, h, count_conditions-children node, first_fault-total (children node))

compile_match-passed :
    (raw node : Json)
    → compile_match raw ≡ passed node
    → (parse_match raw ≡ node)
      × (shape_fault (parse_match raw) ≡ none)
      × ((count_conditions (parse_match raw) == 0) ≡ false)
unfolding compile_match
compile_match-passed raw node h = elim (Bool-cases (count_conditions (parse_match raw) == 0)) [
  | inl e ↦ ground (arith, e, h)
  | inr e ↦ elim (Option-cases (shape_fault (parse_match raw))) [
    | inl f ↦ (ground (arith, e, f, h), f, e)
    | inr (why, f) ↦ ground (arith, e, f, h)
  ]
]

-- A match that the write side lets through has between one and sixty conditions, is stored as it is
-- parsed, and is what the engine reads back from the column.
pub compile_match-bounds :
    (raw node : Json)
    → compile_match raw ≡ passed node
    → (1 ≤ count_conditions node) × (count_conditions node ≤ 60) × (parse_match node ≡ node)
compile_match-bounds raw node h =
    let (same, shaped, some_there) = compile_match-passed raw node h in
    let shaped' : shape_fault node ≡ none = rw (sym same) shaped in
    let some' : (count_conditions node == 0) ≡ false = rw (sym same) some_there in
    (ground (arith, some'), shape_fault-count node shaped', rw (sym same) (parse_match_idem raw))
