-- ===== src/RuleEngine/Tests.antt =====
-- Runs of the rule engine of backend/src/mail-rules/rule-engine.ts, and the witnesses of its theorems.
use email_ops_community.Prelude.{◌<◌, ◌≡◌, refl, true, false, none, some, List, [], ◌∷◌, arith, any}
use email_ops_community.Prelude.Int.{ℤ, pos}
use email_ops_community.Prelude.Text.{Text, txt, text_eq, to_lower_case, includes, ends_with}
use email_ops_community.Json.{Json, str, arr, obj, nil, cons, end, field, get}
use email_ops_community.RuleEngine.{
  InboundMessage, CompiledRule, nesting, matches_node, as_condition, rule_action_type, pick_child,
  parse_match_node, matches_condition, matches, parse_action, parse_actions, parse_match, run_rules,
  evaluate_rules, is_stop,
}
use email_ops_community.RuleEngine.Parse.{parse_match_idem}
use email_ops_community.RuleEngine.Meaning.{meaning, truth, matches_node-meaning}
use email_ops_community.RuleEngine.AnyOrder.{counting_as, evaluate_rules-any_order}
use email_ops_community.RuleEngine.Walk.{fires, run_rules-stop, sanitize, evaluate_rules-sanitize}

abbrev leaf : Text → Text → Text → Json
leaf f o v = obj (field "field" (str f) (field "op" (str o) (field "value" (str v) end)))

-- { all: [subject contains "Sale", { any: [from endsWith "@x.io"] }] }
abbrev tree : Json
tree = obj (
    field "all"
      (arr (
        cons (leaf (txt "subject") (txt "contains") (txt "Sale")) (
          cons
            (obj
              (field "any" (arr (cons (leaf (txt "from") (txt "endsWith") (txt "@x.io")) nil)) end))
            nil)))
      end)

abbrev hello : InboundMessage
hello = record {
  from_address = txt "Bob@X.io";
  to_address = [];
  to_addresses = none;
  subject = txt "big SALE";
}

abbrev act : Text → Json
act t = obj (field "type" (str t) end)

abbrev binning : CompiledRule
binning = record {
  id = txt "r1";
  enabled = true;
  priority = some (pos 10);
  match = tree;
  actions = arr (cons (act (txt "TRASH")) (cons (act (txt "STOP")) nil));
}

abbrev labelling : CompiledRule
labelling = record {
  id = txt "r2";
  enabled = true;
  priority = some (pos 20);
  match = tree;
  actions = arr (cons (act (txt "LABEL")) nil);
}

tree-matches : matches tree hello ≡ true
unfolding matches matches_node parse_match_node pick_child as_condition text_eq matches_condition
    includes to_lower_case nesting ends_with
tree-matches = refl

empty_all : matches (obj (field "all" (arr nil) end)) hello ≡ false
unfolding matches matches_node parse_match_node
empty_all = refl

binning-fires : fires binning hello ≡ true
unfolding matches matches_node parse_match_node pick_child as_condition text_eq matches_condition
    includes to_lower_case nesting ends_with
binning-fires = refl

binning_stops : any is_stop (parse_actions binning.actions) ≡ true
unfolding parse_actions parse_action rule_action_type get text_eq
binning_stops = refl

tree-nesting : nesting tree < 9
unfolding nesting
tree-nesting = omega arith

matches_node-meaning_example : matches_node 9 tree hello ≡ truth hello (meaning tree hello)
matches_node-meaning_example = matches_node-meaning hello tree 9 tree-nesting

parse_match_idem_example : parse_match (parse_match tree) ≡ parse_match tree
parse_match_idem_example = parse_match_idem tree

abbrev unsorted : List CompiledRule
unsorted = labelling ∷ binning ∷ []

same_at_each : (k : ℤ) → counting_as k (binning ∷ labelling ∷ []) ≡ counting_as k unsorted
same_at_each k = ground arith

evaluate_rules-any_order_example :
    evaluate_rules unsorted hello ≡ run_rules (binning ∷ labelling ∷ []) hello
evaluate_rules-any_order_example =
    evaluate_rules-any_order unsorted (binning ∷ labelling ∷ []) hello ((omega arith, tt), (tt, tt))
      same_at_each

run_rules-stop_example : run_rules (binning ∷ labelling ∷ []) hello ≡ run_rules (binning ∷ []) hello
run_rules-stop_example =
    run_rules-stop [] (labelling ∷ []) binning hello binning-fires binning_stops

evaluate_rules-sanitize_example :
    evaluate_rules (sanitize unsorted) hello ≡ evaluate_rules unsorted hello
evaluate_rules-sanitize_example = evaluate_rules-sanitize unsorted hello
