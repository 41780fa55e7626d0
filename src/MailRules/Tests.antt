-- ===== src/MailRules/Tests.antt =====
-- The witnesses of the theorems on backend/src/mail-rules/mail-rules.service.ts.
use email_ops_community.Prelude.{
  ◌+◌, ◌≡◌, true, some, none, List, [], ◌∷◌, ◌++◌, ◌≤◌, refl, keep, length, arith,
}
use email_ops_community.Prelude.Int.{pos}
use email_ops_community.Prelude.Text.{Text, txt, text_eq}
use email_ops_community.Mailboxes.{MailboxAccount, shared}
use email_ops_community.MailRules.Write.{count_conditions}
use email_ops_community.MailRules.Shape.{compile_match-bounds}
use email_ops_community.MailRules.Table.{Write, creating, updating, removing, perform_all}
use email_ops_community.MailRules.Capacity.{IsCapped, perform_all-IsCapped}
use email_ops_community.Json.{Json, str, arr, obj, nil, cons, end, field}
use email_ops_community.RuleEngine.{
  RuleAction, parse_match, trash, archive, evaluate_rules, sort_rules,
}
use email_ops_community.MailRules.{
  EngineCall, MailRuleRow, InboundRuleMessage, Engine, done, apply_actions, usable_row, compile,
  inbound_of, matched_rules, apply_inbound,
}
use email_ops_community.MailRules.Applicator.{
  actions_of, evaluate_rules-matched_rules, Performs, done_among, apply_actions-Performs, foreign,
  apply_inbound-fence,
}

abbrev row : Text → MailRuleRow
row workspace = record {
  id = txt "r1";
  workspace_id = workspace;
  mailbox_id = txt "m1";
  name = txt "sales";
  enabled = true;
  priority = pos 10;
  match = obj (
      field "any"
        (arr (
          cons
            (obj (
              field "field" (str (txt "subject"))
                (field "op" (str (txt "contains")) (field "value" (str (txt "sale")) end))))
            nil))
        end);
  actions = arr (cons (obj (field "type" (str (txt "ARCHIVE")) end)) nil);
  hit_count = 0;
}

abbrev rows : List MailRuleRow
rows = row (txt "w2") ∷ row (txt "w1") ∷ []

abbrev arrival : InboundRuleMessage
arrival = record {
  thread_id = txt "t1";
  from_address = some (txt "bob@x.io");
  to_addresses = none;
  subject = some (txt "Sale");
}

abbrev willing : Engine
willing = λ calls call. done

abbrev both : List RuleAction
both = record { type = trash; value = none } ∷ record { type = archive; value = none } ∷ []

evaluate_rules-matched_rules_example :
    evaluate_rules (sort_rules (compile (row (txt "w1")) ∷ [])) (inbound_of arrival)
    ≡ actions_of
        (matched_rules (sort_rules (compile (row (txt "w1")) ∷ [])) (inbound_of arrival))
        (inbound_of arrival)
evaluate_rules-matched_rules_example =
    evaluate_rules-matched_rules (compile (row (txt "w1")) ∷ []) (inbound_of arrival)

apply_actions-Performs_example :
    (made : List EngineCall) × (Performs (txt "ann@a.io") (txt "t1") both made
      × ((apply_actions willing (txt "ann@a.io") (txt "t1") both 0 []).1 ≡ [] ++ made)
      × ((apply_actions willing (txt "ann@a.io") (txt "t1") both 0 []).0
          ≡ 0 + done_among willing [] made))
apply_actions-Performs_example =
    apply_actions-Performs willing (txt "ann@a.io") (txt "t1") both 0 []

apply_inbound-fence_example :
    ((apply_inbound willing true (txt "w1") (txt "m1") (txt "ann@a.io") arrival rows).0
      ≡ (apply_inbound willing true
          (txt "w1")
          (txt "m1")
          (txt "ann@a.io")
          arrival
          (row (txt "w1") ∷ [])).0)
    × (foreign
          (txt "w1")
          (txt "m1")
          (apply_inbound willing true (txt "w1") (txt "m1") (txt "ann@a.io") arrival rows).1
        ≡ foreign (txt "w1") (txt "m1") rows)
unfolding text_eq
apply_inbound-fence_example =
    apply_inbound-fence willing true (txt "w1") (txt "m1") (txt "ann@a.io") arrival rows
      (row (txt "w1") ∷ []) refl

abbrev sale_match : Json
sale_match = (row (txt "w1")).match

compile_match-bounds_example :
    (1 ≤ count_conditions sale_match)
    × (count_conditions sale_match ≤ 60)
    × (parse_match sale_match ≡ sale_match)
unfolding email_ops_community.MailRules.Write.compile_match parse_match
    email_ops_community.RuleEngine.parse_match_node email_ops_community.RuleEngine.pick_child
    email_ops_community.RuleEngine.as_condition email_ops_community.Prelude.Text.text_eq
compile_match-bounds_example = compile_match-bounds sale_match sale_match refl

abbrev box : MailboxAccount
box = record {
  id = txt "m1";
  workspace_id = txt "w1";
  email_address = txt "m@x.y";
  provider = txt "stalwart";
  active = true;
  display_name = none;
  is_default = true;
  postmark_lane = true;
  owner_kind = shared;
  owner_key = none;
}

abbrev requests : List Write
requests =
    creating (txt "r1") (txt "w1") none (txt "m1") (record {
      name = txt " sales ";
      enabled = none;
      priority = none;
      match = sale_match;
      actions = (row (txt "w1")).actions;
    })
    ∷ updating (txt "w1") none (txt "m1") (txt "r1") (record {
      name = some (txt "offers");
      enabled = some true;
      priority = some (pos 7);
      match = none;
      actions = none;
    })
    ∷ removing (txt "w1") none (txt "m1") (txt "r2")
    ∷ []

perform_all-IsCapped_example : IsCapped 30 (perform_all (box ∷ []) requests [])
perform_all-IsCapped_example =
    perform_all-IsCapped (box ∷ []) requests 0 [] (record { within = tt; few = λ w m. omega arith })
