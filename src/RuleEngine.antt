-- ===== src/RuleEngine.antt =====
-- backend/src/mail-rules/rule-engine.ts. A parsed match node is a JSON object again, as in the
-- source, where `matchesNode` parses each node that it is given anew.
pub mod Parse
pub mod Meaning
pub mod Order
pub mod AnyOrder
pub mod Walk
mod Tests
use Prim.Native.Nat.{max}
use email_ops_community.Prelude.{
  ℕ, zero, suc, ◌+◌, ◌-◌, ◌≡◌, Bool, true, false, not, ◌&&◌, ◌||◌, Option, none, some, List, [],
  ◌∷◌, ◌++◌, String, str_eq, ltb, leb, ◌==◌, length, drop, any, keep, if◌then◌else◌,
}
use email_ops_community.Prelude.Int.{ℤ, pos, leb_ℤ}
use email_ops_community.Prelude.Text.{
  Text, txt, text_eq, to_lower_case, last_index_of, starts_with, ends_with, includes, is_empty,
}
use email_ops_community.Json.{
  Json, str, arr, obj, Items, nil, cons, Fields, end, field, get, as_array, as_string,
}

pub record InboundMessage : Type 0 where
  pub from_address : Text
  pub to_address : Text
  pub to_addresses : Option (List Text)
  pub subject : Text

pub data RuleActionType : Type 0 where
  move_to_folder label archive trash mark_read stop : RuleActionType

pub record RuleAction : Type 0 where
  pub type : RuleActionType
  pub value : Option Text

pub data MatchField : Type 0 where
  from to subject from_domain : MatchField

pub data MatchOp : Type 0 where
  equals contains begins_with finishes_with : MatchOp

pub record Condition : Type 0 where
  pub field_name : MatchField
  pub op : MatchOp
  pub value : Text

-- `match` and `actions` are what the row's JSON columns hold; no priority stands for one that is
-- not finite.
pub record CompiledRule : Type 0 where
  pub id : Text
  pub enabled : Bool
  pub priority : Option ℤ
  pub match : Json
  pub actions : Json

abbrev pub type_name : RuleActionType → Text
type_name move_to_folder = txt "MOVE_TO_FOLDER"
type_name label = txt "LABEL"
type_name archive = txt "ARCHIVE"
type_name trash = txt "TRASH"
type_name mark_read = txt "MARK_READ"
type_name stop = txt "STOP"

-- The value of an enumeration with this name, if there is one.
abbrev pub named {ℓ} : {A : Type ℓ} → Text → List (Text × A) → Option A
named s [] = none
named s ((n, a) ∷ rest) = if text_eq s n then some a else named s rest

abbrev pub action_types : List (Text × RuleActionType)
action_types =
    (type_name move_to_folder, move_to_folder)
    ∷ (type_name label, label)
    ∷ (type_name archive, archive)
    ∷ (type_name trash, trash)
    ∷ (type_name mark_read, mark_read)
    ∷ (type_name stop, stop)
    ∷ []

abbrev pub match_fields : List (Text × MatchField)
match_fields =
    (txt "from", from)
    ∷ (txt "to", to)
    ∷ (txt "subject", MatchField.subject)
    ∷ (txt "fromDomain", from_domain)
    ∷ []

abbrev pub match_ops : List (Text × MatchOp)
match_ops =
    (txt "equals", equals)
    ∷ (txt "contains", contains)
    ∷ (txt "startsWith", begins_with)
    ∷ (txt "endsWith", finishes_with)
    ∷ []

-- `isRuleActionType`, `isMatchField` and `isMatchOp`, with the value that they accept.
unfoldable pub rule_action_type : Option Text → Option RuleActionType
rule_action_type none = none
rule_action_type (some s) = named s action_types

match_field : Option Text → Option MatchField
match_field none = none
match_field (some s) = named s match_fields

match_op : Option Text → Option MatchOp
match_op none = none
match_op (some s) = named s match_ops

abbrev condition_of : Option MatchField → Option MatchOp → Option Text → Option Condition
condition_of (some f) (some o) (some v) = some (record { field_name = f; op = o; value = v })
condition_of _ _ _ = none

-- `isCondition`, with the condition that it accepts.
unfoldable pub as_condition : Json → Option Condition
unfolding match_field match_op
as_condition (obj fs) =
    condition_of (match_field (as_string (get "field" fs))) (match_op (as_string (get "op" fs)))
      (as_string (get "value" fs))
as_condition _ = none

-- One element of `parseActions`.
unfoldable pub parse_action : Json → List RuleAction
parse_action (obj fs) = elim (rule_action_type (as_string (get "type" fs))) [
  | none ↦ []
  | some t ↦ record { type = t; value = as_string (get "value" fs) } ∷ []
]
parse_action _ = []

unfoldable pub parse_action_items : Items → List RuleAction
parse_action_items nil = []
parse_action_items (cons raw rest) = parse_action raw ++ parse_action_items rest

unfoldable pub parse_actions : Json → List RuleAction
unfolding parse_action_items
parse_actions (arr items) = parse_action_items items
parse_actions _ = []

-- A `RuleAction[]` as the JSON value that it is: what a sanitized rule stores.
abbrev value_field : Option Text → Fields
value_field none = end
value_field (some v) = field "value" (str v) end

unfoldable pub action_json : RuleAction → Json
action_json a = obj (field "type" (str (type_name a.type)) (value_field a.value))

unfoldable pub action_items : List RuleAction → Items
action_items [] = nil
action_items (a ∷ acts) = cons (action_json a) (action_items acts)

unfoldable pub actions_json : List RuleAction → Json
unfolding action_items
actions_json acts = arr (action_items acts)

-- `parseMatchChild`, with the parse of the child as a node at hand.
unfoldable pub pick_child : Json → Option Json → Option Json
pick_child raw node = elim (as_condition raw) [ some c ↦ some raw | none ↦ node ]

abbrev cons_some : Option Json → Items → Items
cons_some none rest = rest
cons_some (some child) rest = cons child rest

-- The object that `parseMatchNode` builds, or null if it has neither clause.
abbrev match_node : Option Items → Option Items → Option Json
match_node none none = none
match_node (some all) none = some (obj (field "all" (arr all) end))
match_node none (some any) = some (obj (field "any" (arr any) end))
match_node (some all) (some any) = some (obj (field "all" (arr all) (field "any" (arr any) end)))

unfoldable mutual
  pub parse_match_node : Json → Option Json
  parse_match_node (obj fs) = match_node (parse_clause "all" fs) (parse_clause "any" fs)
  parse_match_node _ = none

  -- `raw.all` or `raw.any`, parsed if it is an array.
  pub parse_clause : String → Fields → Option Items
  parse_clause key end = none
  parse_clause key (field k v fs) = if str_eq k key then parse_array v else parse_clause key fs

  pub parse_array : Json → Option Items
  parse_array (arr items) = some (parse_children items)
  parse_array _ = none

  pub parse_children : Items → Items
  parse_children nil = nil
  parse_children (cons raw rest) =
      cons_some (pick_child raw (parse_match_node raw)) (parse_children rest)

unfoldable pub parse_match : Json → Json
parse_match raw = elim (parse_match_node raw) [ some node ↦ node | none ↦ obj end ]

unfoldable pub extract_domain : Text → Text
extract_domain address = elim (last_index_of b'@' address) [
  | none ↦ []
  | some at ↦ if at == length address - 1 then [] else drop (suc at) address
]

abbrev one_unless_empty : Text → List Text
one_unless_empty s = if is_empty s then [] else s ∷ []

abbrev to_values : Text → List Text → List Text
to_values single [] = one_unless_empty single
to_values single (a ∷ many) = a ∷ many

abbrev present : Option (List Text) → List Text
present none = []
present (some many) = keep (λ a. not (is_empty a)) many

unfoldable pub read_field : MatchField → InboundMessage → List Text
unfolding extract_domain
read_field from msg = msg.from_address ∷ []
read_field to msg = to_values msg.to_address (present msg.to_addresses)
read_field MatchField.subject msg = msg.subject ∷ []
read_field from_domain msg = extract_domain msg.from_address ∷ []

abbrev compare_by : MatchOp → Text → Text → Bool
compare_by equals actual expected = text_eq actual expected
compare_by contains actual expected = includes actual expected
compare_by begins_with actual expected = starts_with actual expected
compare_by finishes_with actual expected = ends_with actual expected

unfoldable pub matches_condition : Condition → InboundMessage → Bool
unfolding read_field
matches_condition c msg =
    any (λ raw. compare_by c.op (to_lower_case raw) (to_lower_case c.value))
      (read_field c.field_name msg)

abbrev pub every_item : (Json → Bool) → Items → Bool
every_item p nil = true
every_item p (cons x xs) = p x && every_item p xs

abbrev pub some_item : (Json → Bool) → Items → Bool
some_item p nil = false
some_item p (cons x xs) = p x || some_item p xs

-- A clause that is there holds; an empty clause never does.
abbrev all_holds : (Json → Bool) → Option Items → Bool
all_holds p none = true
all_holds p (some nil) = false
all_holds p (some (cons x xs)) = every_item p (cons x xs)

abbrev any_holds : (Json → Bool) → Option Items → Bool
any_holds p none = true
any_holds p (some nil) = false
any_holds p (some (cons x xs)) = some_item p (cons x xs)

abbrev clauses_hold : (Json → Bool) → Option Items → Option Items → Bool
clauses_hold p none none = false
clauses_hold p all any = all_holds p all && any_holds p any

-- The body of `matchesNode` on the parsed node.
abbrev node_holds : (Json → Bool) → Option Json → Bool
node_holds p (some (obj fs)) = clauses_hold p (as_array (get "all" fs)) (as_array (get "any" fs))
node_holds p _ = false

-- `matchesNode` and `matchesChild`; the fuel bounds the nesting.
unfoldable pub matches_node : ℕ → Json → InboundMessage → Bool
unfolding get
matches_node zero raw msg = false
matches_node (suc fuel) raw msg =
    node_holds
      (λ child. elim (as_condition child) [
        | some c ↦ matches_condition c msg
        | none ↦ matches_node fuel child msg
      ])
      (parse_match_node raw)

-- How many objects stand one inside the other.
unfoldable mutual
  pub field_nesting : Fields → ℕ
  field_nesting end = 0
  field_nesting (field key child fs) = max (field_nesting fs) (nesting child)

  pub nesting : Json → ℕ
  nesting (obj fs) = suc (field_nesting fs)
  nesting (arr items) = item_nesting items
  nesting _ = 0

  pub item_nesting : Items → ℕ
  item_nesting nil = 0
  item_nesting (cons child items) = max (item_nesting items) (nesting child)

-- A node with the fuel that its nesting needs.
unfoldable pub matches : Json → InboundMessage → Bool
matches raw msg = matches_node (suc (nesting raw)) raw msg

abbrev pub max_safe_integer : ℤ
max_safe_integer = pos 9007199254740991

abbrev pub sort_key : CompiledRule → ℤ
sort_key r = elim r.priority [ some p ↦ p | none ↦ max_safe_integer ]

-- JavaScript's `sort`, which is stable, by the priority.
unfoldable pub insert_rule : CompiledRule → List CompiledRule → List CompiledRule
insert_rule r [] = r ∷ []
insert_rule r (x ∷ xs) =
    if leb_ℤ (sort_key r) (sort_key x) then r ∷ x ∷ xs else x ∷ insert_rule r xs

unfoldable pub sort_rules : List CompiledRule → List CompiledRule
sort_rules [] = []
sort_rules (r ∷ rs) = insert_rule r (sort_rules rs)

abbrev pub is_stop : RuleAction → Bool
is_stop a = elim a.type [ stop ↦ true | _ ↦ false ]

-- The loop of `evaluateRules` over the sorted rules.
unfoldable pub run_rules : List CompiledRule → InboundMessage → List RuleAction
run_rules [] msg = []
run_rules (r ∷ rs) msg =
    let rest = run_rules rs msg in
    let rule_actions = parse_actions r.actions in
    if r.enabled && matches r.match msg
    then if any is_stop rule_actions then rule_actions else rule_actions ++ rest
    else rest

unfoldable pub evaluate_rules : List CompiledRule → InboundMessage → List RuleAction
evaluate_rules rules msg = run_rules (sort_rules rules) msg
