-- ===== src/RuleEngine/Walk.antt =====
-- The walk of `evaluateRules` in backend/src/mail-rules/rule-engine.ts over sorted rules.
use email_ops_community.Prelude.{
  ◌≡◌, refl, sym, ap, ◌∙◌, Bool, true, ◌&&◌, List, [], ◌∷◌, ◌++◌, arith, any,
}
use email_ops_community.RuleEngine.{
  InboundMessage, CompiledRule, is_stop, matches, parse_actions, parse_match, actions_json,
  run_rules, sort_rules, insert_rule, evaluate_rules,
}
use email_ops_community.RuleEngine.Parse.{parse_actions-json}
use email_ops_community.RuleEngine.Meaning.{matches-parse_match}

-- The rule fires on the message.
abbrev pub fires : CompiledRule → InboundMessage → Bool
fires r msg = r.enabled && matches r.match msg

-- After a rule that fires and stops, no rule has a say: what stands behind it may as well not be
-- there.
pub run_rules-stop :
    (xs ys : List CompiledRule) (r : CompiledRule) (msg : InboundMessage)
    → fires r msg ≡ true
    → any is_stop (parse_actions r.actions) ≡ true
    → run_rules (xs ++ r ∷ ys) msg ≡ run_rules (xs ++ r ∷ []) msg
unfolding run_rules
run_rules-stop [] ys r msg f s = rw (f, s) refl
run_rules-stop (x ∷ xs) ys r msg f s = rw (run_rules-stop xs ys r msg f s) refl

-- The sanitized form of a rule, which the service stores and compiles.
abbrev pub sanitized : CompiledRule → CompiledRule
sanitized r = record r {
  match = parse_match r.match;
  actions = actions_json (parse_actions r.actions);
}

abbrev pub sanitize : List CompiledRule → List CompiledRule
sanitize [] = []
sanitize (r ∷ rs) = sanitized r ∷ sanitize rs

run_rules-sanitize :
    (rs : List CompiledRule) (msg : InboundMessage) → run_rules (sanitize rs) msg ≡ run_rules rs msg
unfolding run_rules
run_rules-sanitize [] msg = refl
run_rules-sanitize (r ∷ rs) msg =
    rw
      (
        matches-parse_match msg r.match,
        parse_actions-json (parse_actions r.actions),
        run_rules-sanitize rs msg,
      )
      refl

sanitize-insert_rule :
    (r : CompiledRule) (rs : List CompiledRule)
    → sanitize (insert_rule r rs) ≡ insert_rule (sanitized r) (sanitize rs)
unfolding insert_rule
sanitize-insert_rule r [] = refl
sanitize-insert_rule r (x ∷ xs) = ground (arith, sanitize-insert_rule r xs)

sanitize-sort_rules : (rs : List CompiledRule) → sanitize (sort_rules rs) ≡ sort_rules (sanitize rs)
unfolding sort_rules
sanitize-sort_rules [] = refl
sanitize-sort_rules (r ∷ rs) =
    sanitize-insert_rule r (sort_rules rs) ∙ ap (insert_rule (sanitized r)) (sanitize-sort_rules rs)

-- Rules in the sanitized form give every message the actions that the raw forms give it.
pub evaluate_rules-sanitize :
    (rs : List CompiledRule) (msg : InboundMessage)
    → evaluate_rules (sanitize rs) msg ≡ evaluate_rules rs msg
unfolding evaluate_rules
evaluate_rules-sanitize rs msg =
    ap (λ z. run_rules z msg) (sym (sanitize-sort_rules rs))
    ∙ run_rules-sanitize (sort_rules rs) msg
