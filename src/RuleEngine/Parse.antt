-- ===== src/RuleEngine/Parse.antt =====
-- `parseMatchNode` and `parseActions` of backend/src/mail-rules/rule-engine.ts applied to their own
-- results.
use email_ops_community.Prelude.{
  ◌≡◌, refl, ap, ◌∙◌, Option, none, some, List, [], ◌∷◌, arith, Option-cases, inl, inr, String,
}
use email_ops_community.Prelude.Text.{Text, text_eq}
use email_ops_community.Json.{
  Json, null, boolean, num, str, arr, obj, Items, nil, cons, Fields, end, field, get,
}
use email_ops_community.RuleEngine.{
  RuleAction, RuleActionType, move_to_folder, label, archive, trash, mark_read, stop, type_name,
  rule_action_type, as_condition, match_node, match_field, match_op, parse_match_node, parse_clause,
  parse_array, parse_children, pick_child, cons_some, parse_match, parse_action, parse_actions,
  action_json, actions_json,
}

match_node-not-condition :
    (a b : Option Items) (p : Json) → match_node a b ≡ some p → as_condition p ≡ none
unfolding as_condition get match_field match_op
match_node-not-condition none none p h = ground arith
match_node-not-condition (some a) none p h =
    let e : obj (field "all" (arr a) end) ≡ p = ground arith in rw (← e) refl
match_node-not-condition none (some b) p h =
    let e : obj (field "any" (arr b) end) ≡ p = ground arith in rw (← e) refl
match_node-not-condition (some a) (some b) p h =
    let e : obj (field "all" (arr a) (field "any" (arr b) end)) ≡ p = ground arith in rw (← e) refl

pub parse_match_node-not-condition :
    (raw p : Json) → parse_match_node raw ≡ some p → as_condition p ≡ none
unfolding parse_match_node
parse_match_node-not-condition (obj fs) p h =
    match_node-not-condition (parse_clause "all" fs) (parse_clause "any" fs) p h
parse_match_node-not-condition _ p h = ground arith

-- Clauses that parse to themselves make a node that does.
match_node_idem :
    (a b : Option Items) (p : Json)
    → ((x : Items) → a ≡ some x → parse_children x ≡ x)
    → ((x : Items) → b ≡ some x → parse_children x ≡ x)
    → match_node a b ≡ some p
    → parse_match_node p ≡ some p
unfolding parse_match_node
match_node_idem none none p f g h = ground arith
match_node_idem (some a) none p f g h =
    let e : obj (field "all" (arr a) end) ≡ p = ground arith in
    rw (← e) (ap (λ x. some (obj (field "all" (arr x) end))) (f a refl))
match_node_idem none (some b) p f g h =
    let e : obj (field "any" (arr b) end) ≡ p = ground arith in
    rw (← e) (ap (λ x. some (obj (field "any" (arr x) end))) (g b refl))
match_node_idem (some a) (some b) p f g h =
    let e : obj (field "all" (arr a) (field "any" (arr b) end)) ≡ p = ground arith in
    rw (← e) (
      ap (λ x. some (obj (field "all" (arr x) (field "any" (arr (parse_children b)) end))))
        (f a refl)
      ∙ ap (λ x. some (obj (field "all" (arr a) (field "any" (arr x) end)))) (g b refl))

pick_child_idem :
    (raw : Json)
    → ((p : Json) → parse_match_node raw ≡ some p → parse_match_node p ≡ some p)
    → (p : Json) → pick_child raw (parse_match_node raw) ≡ some p
    → pick_child p (parse_match_node p) ≡ some p
unfolding pick_child
pick_child_idem raw ih p h = elim (Option-cases (as_condition raw)) [
  | inr (c, e) ↦ let same : raw ≡ p = ground arith in ground arith
  | inl e ↦
      let parsed : parse_match_node raw ≡ some p = ground arith in
      rw (parse_match_node-not-condition raw p parsed, pick_child) (ih p parsed)
]

cons_some_idem :
    (o : Option Json) (rest : Items)
    → ((p : Json) → o ≡ some p → pick_child p (parse_match_node p) ≡ some p)
    → parse_children rest ≡ rest
    → parse_children (cons_some o rest) ≡ cons_some o rest
unfolding parse_match_node
cons_some_idem none rest f h = h
cons_some_idem (some p) rest f h = rw (f p refl, h) refl

mutual
  unfolding parse_match_node

  pub node_idem : (raw p : Json) → parse_match_node raw ≡ some p → parse_match_node p ≡ some p
  node_idem (obj fs) p h =
      match_node_idem (parse_clause "all" fs) (parse_clause "any" fs) p (clause_idem "all" fs)
        (clause_idem "any" fs) h
  node_idem null p h = ground arith
  node_idem (boolean b) p h = ground arith
  node_idem (num n) p h = ground arith
  node_idem (str s) p h = ground arith
  node_idem (arr items) p h = ground arith

  clause_idem :
      (key : String) (fs : Fields) (x : Items) → parse_clause key fs ≡ some x → parse_children x ≡ x
  clause_idem key end x h = ground arith
  clause_idem key (field k v fs) x h = ground (arith, array_idem v x, clause_idem key fs x)

  array_idem : (v : Json) (x : Items) → parse_array v ≡ some x → parse_children x ≡ x
  array_idem (arr items) x h =
      let e : parse_children items ≡ x = ground arith in rw (← e) (children_idem items)
  array_idem null x h = ground arith
  array_idem (boolean b) x h = ground arith
  array_idem (num n) x h = ground arith
  array_idem (str s) x h = ground arith
  array_idem (obj fs) x h = ground arith

  children_idem : (items : Items) → parse_children (parse_children items) ≡ parse_children items
  children_idem nil = refl
  children_idem (cons raw rest) =
      cons_some_idem (pick_child raw (parse_match_node raw)) (parse_children rest)
        (pick_child_idem raw (node_idem raw)) (children_idem rest)

-- Parsing a match a second time changes nothing: what `parseMatch` returns is a node that it
-- returns as it is, or the empty object.
pub parse_match_idem : (raw : Json) → parse_match (parse_match raw) ≡ parse_match raw
unfolding parse_match
parse_match_idem raw = elim (Option-cases (parse_match_node raw)) [
  | inl e ↦
      let f : parse_match raw ≡ obj end = ground arith in rw f (unfold parse_match_node in refl)
  | inr (p, e) ↦
      let f : parse_match raw ≡ p = ground arith in rw f (ground (arith, node_idem raw p e))
]

named_action_type : (t : RuleActionType) → rule_action_type (some (type_name t)) ≡ some t
unfolding rule_action_type text_eq
named_action_type move_to_folder = refl
named_action_type label = refl
named_action_type archive = refl
named_action_type trash = refl
named_action_type mark_read = refl
named_action_type stop = refl

parse_action-typed :
    (t : RuleActionType) (v : Option Text)
    → parse_action (action_json (record { type = t; value = v }))
      ≡ record { type = t; value = v } ∷ []
unfolding parse_action action_json get
parse_action-typed t none = ground (arith, named_action_type t)
parse_action-typed t (some v) = ground (arith, named_action_type t)

parse_action-json : (a : RuleAction) → parse_action (action_json a) ≡ a ∷ []
parse_action-json a = parse_action-typed a.type a.value

-- A sanitized action list, stored and parsed again, is the same list.
pub parse_actions-json : (acts : List RuleAction) → parse_actions (actions_json acts) ≡ acts
unfolding parse_actions actions_json
parse_actions-json [] = refl
parse_actions-json (a ∷ acts) = rw (parse_action-json a) (ap (λ r. a ∷ r) (parse_actions-json acts))
