-- ===== src/RuleEngine/Meaning.antt =====
-- What a match tree of backend/src/mail-rules/rule-engine.ts means, read off the raw JSON in one
-- pass with no fuel and no second parse, and that `matchesNode` computes it.
use email_ops_community.Prelude.{
  ℕ, zero, suc, ◌+◌, ◌<◌, ◌≡◌, refl, sym, ap, ◌∙◌, inl, inr, Bool, true, false, ◌&&◌, Option, none,
  some, List, [], ◌∷◌, String, str_eq, arith, if◌then◌else◌, every, any, Option-cases, Bool-cases,
}
use email_ops_community.Json.{
  Json, null, boolean, num, str, arr, obj, Items, nil, cons, Fields, end, field, get,
}
use email_ops_community.RuleEngine.{
  InboundMessage, Condition, as_condition, match_node, parse_match_node, parse_clause, parse_array,
  parse_children, pick_child, cons_some, matches_condition, every_item, some_item, all_holds,
  any_holds, node_holds, matches_node, nesting, item_nesting, field_nesting, matches, parse_match,
}
use email_ops_community.RuleEngine.Parse.{parse_match_node-not-condition, node_idem}

abbrev add : Option Bool → List Bool → List Bool
add none bs = bs
add (some b) bs = b ∷ bs

abbrev holds_all : Option (List Bool) → Bool
holds_all none = true
holds_all (some []) = false
holds_all (some (b ∷ bs)) = every (λ x. x) (b ∷ bs)

abbrev holds_any : Option (List Bool) → Bool
holds_any none = true
holds_any (some []) = false
holds_any (some (b ∷ bs)) = any (λ x. x) (b ∷ bs)

-- A value with neither clause is no node.
abbrev combine : Option (List Bool) → Option (List Bool) → Option Bool
combine none none = none
combine all any = some (holds_all all && holds_any any)

-- A child is a condition, or else a node; what is neither is left out.
child_truth : Json → InboundMessage → Option Bool → Option Bool
child_truth raw msg node = elim (as_condition raw) [
  | some c ↦ some (matches_condition c msg)
  | none ↦ node
]

mutual
  -- The truth of a node, none if the value is no node.
  pub meaning : Json → InboundMessage → Option Bool
  meaning (obj fs) msg = combine (truths "all" fs msg) (truths "any" fs msg)
  meaning _ msg = none

  -- The truth of each child of a clause, none if there is no such clause.
  pub truths : String → Fields → InboundMessage → Option (List Bool)
  truths key end msg = none
  truths key (field k v fs) msg = if str_eq k key then array_truths v msg else truths key fs msg

  pub array_truths : Json → InboundMessage → Option (List Bool)
  array_truths (arr items) msg = some (child_truths items msg)
  array_truths _ msg = none

  pub child_truths : Items → InboundMessage → List Bool
  child_truths nil msg = []
  child_truths (cons raw rest) msg =
      add (child_truth raw msg (meaning raw msg)) (child_truths rest msg)

module _ (msg : InboundMessage) where
  abbrev eval_child : ℕ → Json → Bool
  eval_child f child = elim (as_condition child) [
    | some c ↦ matches_condition c msg
    | none ↦ matches_node f child msg
  ]

  abbrev Same : ℕ → Items → List Bool → Type 0
  Same f nil [] = Unit
  Same f (cons x xs) (b ∷ bs) = (eval_child f x ≡ b) × Same f xs bs
  Same f _ _ = ⊥

  abbrev SameClause : ℕ → Option Items → Option (List Bool) → Type 0
  SameClause f none none = Unit
  SameClause f (some xs) (some bs) = Same f xs bs
  SameClause f _ _ = ⊥

  -- The parse of a node and its truth.
  abbrev Agree : ℕ → Json → Option Json → Option Bool → Type 0
  Agree f raw none none = matches_node f raw msg ≡ false
  Agree f raw (some p) (some b) = matches_node f raw msg ≡ b
  Agree f raw _ _ = ⊥

  Same-every :
      (f : ℕ) (xs : Items) (bs : List Bool)
      → Same f xs bs
      → every_item (eval_child f) xs ≡ every (λ x. x) bs
  Same-every f nil [] h = refl
  Same-every f (cons x xs) (b ∷ bs) h = ground (arith, Same-every f xs bs)
  Same-every f nil (b ∷ bs) h = elim h [ ]
  Same-every f (cons x xs) [] h = elim h [ ]

  Same-some :
      (f : ℕ) (xs : Items) (bs : List Bool)
      → Same f xs bs
      → some_item (eval_child f) xs ≡ any (λ x. x) bs
  Same-some f nil [] h = refl
  Same-some f (cons x xs) (b ∷ bs) h = ground (arith, Same-some f xs bs)
  Same-some f nil (b ∷ bs) h = elim h [ ]
  Same-some f (cons x xs) [] h = elim h [ ]

  abbrev pub truth : Option Bool → Bool
  truth none = false
  truth (some b) = b

  all_holds-truth :
      (f : ℕ) (a : Option Items) (x : Option (List Bool))
      → SameClause f a x
      → all_holds (eval_child f) a ≡ holds_all x
  all_holds-truth f none none h = refl
  all_holds-truth f (some nil) (some []) h = refl
  all_holds-truth f (some (cons a as')) (some (b ∷ bs)) h = Same-every f (cons a as') (b ∷ bs) h
  all_holds-truth f _ _ h = ground arith

  any_holds-truth :
      (f : ℕ) (a : Option Items) (x : Option (List Bool))
      → SameClause f a x
      → any_holds (eval_child f) a ≡ holds_any x
  any_holds-truth f none none h = refl
  any_holds-truth f (some nil) (some []) h = refl
  any_holds-truth f (some (cons a as')) (some (b ∷ bs)) h = Same-some f (cons a as') (b ∷ bs) h
  any_holds-truth f _ _ h = ground arith

  node_holds-combine :
      (f : ℕ) (a b : Option Items) (x y : Option (List Bool))
      → SameClause f a x
      → SameClause f b y
      → node_holds (eval_child f) (match_node a b) ≡ truth (combine x y)
  unfolding get
  node_holds-combine f none none none none h k = refl
  node_holds-combine f (some a) none (some x) none h k =
      ground (arith, all_holds-truth f (some a) (some x))
  node_holds-combine f none (some b) none (some y) h k =
      ground (arith, any_holds-truth f (some b) (some y))
  node_holds-combine f (some a) (some b) (some x) (some y) h k =
      ground (arith, all_holds-truth f (some a) (some x), any_holds-truth f (some b) (some y))
  node_holds-combine f _ _ _ _ h k = ground arith

  same_shape :
      (f g : ℕ) (raw : Json) (a b : Option Items) (x y : Option (List Bool))
      → SameClause f a x
      → SameClause f b y
      → matches_node g raw msg ≡ truth (combine x y)
      → Agree g raw (match_node a b) (combine x y)
  same_shape f g raw none none none none h k e = e
  same_shape f g raw (some a) none (some x) none h k e = e
  same_shape f g raw none (some b) none (some y) h k e = e
  same_shape f g raw (some a) (some b) (some x) (some y) h k e = e
  same_shape f g raw _ _ _ _ h k e = ground arith

  -- A node gives what the object that it parses to gives.
  matches_node-parsed :
      (f : ℕ) (raw p : Json)
      → parse_match_node raw ≡ some p
      → matches_node f p msg ≡ matches_node f raw msg
  unfolding matches_node
  matches_node-parsed zero raw p h = refl
  matches_node-parsed (suc f) raw p h = ap (node_holds (eval_child f)) (node_idem raw p h ∙ sym h)

  matches_node-scalar :
      (f : ℕ) (raw : Json) → parse_match_node raw ≡ none → matches_node f raw msg ≡ false
  unfolding matches_node
  matches_node-scalar zero raw h = refl
  matches_node-scalar (suc f) raw h = rw h refl

  Same-child :
      (f : ℕ) (raw : Json) (o : Option Condition) (n : Option Json) (m : Option Bool) (xs : Items)
      (bs : List Bool)
      → as_condition raw ≡ o
      → parse_match_node raw ≡ n
      → Agree f raw n m
      → Same f xs bs
      → Same f
          (cons_some (elim o [ some c ↦ some raw | none ↦ n ]) xs)
          (add (elim o [ some c ↦ some (matches_condition c msg) | none ↦ m ]) bs)
  Same-child f raw (some c) n m xs bs e p h k = (rw (e, eval_child) refl, k)
  Same-child f raw none none none xs bs e p h k = k
  Same-child f raw none (some q) (some b) xs bs e p h k = (
    rw (parse_match_node-not-condition raw q p, eval_child) (matches_node-parsed f raw q p ∙ h),
    k,
  )
  Same-child f raw none none (some b) xs bs e p h k = elim h [ ]
  Same-child f raw none (some q) none xs bs e p h k = elim h [ ]

  mutual
    unfolding parse_match_node meaning nesting matches_node pick_child child_truth

    node-Agree :
        (raw : Json) (f : ℕ)
        → nesting raw < f
        → Agree f raw (parse_match_node raw) (meaning raw msg)
    node-Agree (obj fs) zero h = elim h [ ]
    node-Agree (obj fs) (suc f) h =
        let a = clause_agree fs "all" f (omega arith) in
        let b = clause_agree fs "any" f (omega arith) in
        same_shape f (suc f) (obj fs) (parse_clause "all" fs) (parse_clause "any" fs)
          (truths "all" fs msg) (truths "any" fs msg) a b
          (node_holds-combine f (parse_clause "all" fs) (parse_clause "any" fs)
            (truths "all" fs msg) (truths "any" fs msg) a b)
    node-Agree null f h = matches_node-scalar f null refl
    node-Agree (boolean b) f h = matches_node-scalar f (boolean b) refl
    node-Agree (num n) f h = matches_node-scalar f (num n) refl
    node-Agree (str s) f h = matches_node-scalar f (str s) refl
    node-Agree (arr items) f h = matches_node-scalar f (arr items) refl

    clause_agree :
        (fs : Fields) (key : String) (f : ℕ)
        → field_nesting fs < f
        → SameClause f (parse_clause key fs) (truths key fs msg)
    clause_agree end key f h = tt
    clause_agree (field k v fs) key f h = elim (Bool-cases (str_eq k key)) [
      | inl e ↦ rw (e) (array_agree v f (omega arith))
      | inr e ↦ rw (e) (clause_agree fs key f (omega arith))
    ]

    array_agree :
        (v : Json) (f : ℕ) → nesting v < f → SameClause f (parse_array v) (array_truths v msg)
    array_agree (arr items) f h = children_agree items f h
    array_agree null f h = tt
    array_agree (boolean b) f h = tt
    array_agree (num n) f h = tt
    array_agree (str s) f h = tt
    array_agree (obj fs) f h = tt

    children_agree :
        (items : Items) (f : ℕ)
        → item_nesting items < f
        → Same f (parse_children items) (child_truths items msg)
    children_agree nil f h = tt
    children_agree (cons raw rest) f h =
        Same-child f raw (as_condition raw) (parse_match_node raw) (meaning raw msg)
          (parse_children rest) (child_truths rest msg) refl refl (node-Agree raw f (omega arith))
          (children_agree rest f (omega arith))

  Agree-truth :
      (f : ℕ) (raw : Json) (n : Option Json) (m : Option Bool)
      → Agree f raw n m
      → matches_node f raw msg ≡ truth m
  Agree-truth f raw none none h = h
  Agree-truth f raw (some p) (some b) h = h
  Agree-truth f raw none (some b) h = elim h [ ]
  Agree-truth f raw (some p) none h = elim h [ ]

  -- With any fuel above the nesting of the raw JSON, `matchesNode`, which parses every node again,
  -- computes the meaning of the tree: every child of an `all` and some child of an `any` hold, a
  -- clause with no well-formed child holds nothing, and a value with neither clause matches nothing.
  pub matches_node-meaning :
      (raw : Json) (fuel : ℕ)
      → nesting raw < fuel
      → matches_node fuel raw msg ≡ truth (meaning raw msg)
  matches_node-meaning raw fuel h = Agree-truth fuel raw _ _ (node-Agree raw fuel h)

  pub matches-meaning : (raw : Json) → matches raw msg ≡ truth (meaning raw msg)
  unfolding matches
  matches-meaning raw = matches_node-meaning raw (suc (nesting raw)) (omega arith)

  matches_node-parse_match :
      (f : ℕ) (raw : Json) → matches_node f (parse_match raw) msg ≡ matches_node f raw msg
  unfolding parse_match
  matches_node-parse_match f raw = elim (Option-cases (parse_match_node raw)) [
    | inl e ↦
        rw (e, parse_match)
          (matches_node-scalar f (obj end) (unfold parse_match_node in refl)
            ∙ sym (matches_node-scalar f raw e))
    | inr (p, e) ↦ rw (e, parse_match) (matches_node-parsed f raw p e)
  ]

  -- A rule stored in its parsed form matches the messages that the raw form matches.
  pub matches-parse_match : (raw : Json) → matches (parse_match raw) msg ≡ matches raw msg
  matches-parse_match raw =
      let fuel : ℕ = suc (nesting raw + nesting (parse_match raw)) in
      matches-meaning (parse_match raw)
      ∙ sym (matches_node-meaning (parse_match raw) fuel (omega arith))
      ∙ matches_node-parse_match fuel raw
      ∙ matches_node-meaning raw fuel (omega arith)
      ∙ sym (matches-meaning raw)
