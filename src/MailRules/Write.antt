-- ===== src/MailRules/Write.antt =====
-- The write side of backend/src/mail-rules/mail-rules.service.ts (create, update and remove with
-- their checks) and backend/src/common/mailbox/mailbox-fence.ts. A priority is a whole number.
use email_ops_community.Prelude.{
  ℕ, ◌+◌, ◌-◌, ltb, ◌==◌, str_eq, String, Bool, true, false, not, ◌&&◌, ◌||◌, Option, none, some,
  List, [], ◌∷◌, any, every, keep, length, if◌then◌else◌,
}
use email_ops_community.Prelude.Int.{ℤ, pos, leb_ℤ}
use email_ops_community.Prelude.Text.{Text, txt, trim}
use email_ops_community.Json.{Json, arr, obj, Items, nil, cons, Fields, end, field, get, as_array}
use email_ops_community.RuleEngine.{RuleAction, label, is_stop, parse_match, parse_actions}

-- A check lets a value pass, or throws with a message.
pub data Checked {ℓ} (A : Type ℓ) : Type ℓ where
  passed : A → Checked A
  refused : Text → Checked A

abbrev pub max_rules_per_mailbox : ℕ
max_rules_per_mailbox = 100

abbrev pub priority_step : ℕ
priority_step = 10

abbrev pub priority_max : ℕ
priority_max = 1000000000

abbrev pub max_match_groups : ℕ
max_match_groups = 5

abbrev pub max_match_conditions_per_group : ℕ
max_match_conditions_per_group = 10

unfoldable pub normalize_name : Text → Checked Text
normalize_name raw =
    let name = trim raw in
    if ltb (length name) 1 || ltb 120 (length name)
    then refused (txt "name must be 1..120 characters.")
    else passed name

unfoldable pub normalize_priority : ℤ → Checked ℤ
normalize_priority raw =
    if leb_ℤ (pos 0) raw && leb_ℤ raw (pos priority_max)
    then passed raw
    else refused (txt "priority must be an integer between 0 and 1000000000.")

abbrev pub is_there {ℓ} : {A : Type ℓ} → Option A → Bool
is_there none = false
is_there (some a) = true

-- `'field' in child`.
abbrev pub is_leaf : Json → Bool
is_leaf (obj fs) = is_there (get "field" fs)
is_leaf _ = false

abbrev pub clause : String → Json → Option Items
clause key (obj fs) = as_array (get key fs)
clause key _ = none

unfoldable pub listed : Items → List Json
listed nil = []
listed (cons x xs) = x ∷ listed xs

-- `node.all ?? node.any ?? []`.
abbrev pub first_clause : Option Items → Option Items → List Json
first_clause (some xs) _ = listed xs
first_clause none (some xs) = listed xs
first_clause none none = []

unfoldable pub children : Json → List Json
unfolding listed get
children node = first_clause (clause "all" node) (clause "any" node)

unfoldable pub has_both : Json → Bool
unfolding get
has_both node = is_there (clause "all" node) && is_there (clause "any" node)

unfoldable mutual
  pub count_conditions : Json → ℕ
  count_conditions (obj fs) = count_clause "all" fs + count_clause "any" fs
  count_conditions _ = 0

  pub count_clause : String → Fields → ℕ
  count_clause key end = 0
  count_clause key (field k v fs) = if str_eq k key then count_array v else count_clause key fs

  pub count_array : Json → ℕ
  count_array (arr items) = count_items items
  count_array _ = 0

  pub count_items : Items → ℕ
  count_items nil = 0
  count_items (cons child rest) =
      (if is_leaf child then 1 else count_conditions child) + count_items rest

abbrev one_mode : Text
one_mode =
    txt
      "match node must use either \"all\" or \"any\", not both — put the other list in a nested group"

abbrev too_many : Text
too_many = txt "match supports at most 10 conditions per group."

-- What is wrong with a group, if anything.
unfoldable pub group_fault : Json → Option Text
unfolding children has_both
group_fault group =
    let inner = children group in
    if has_both group
    then some one_mode
    else if any (λ child. not (is_leaf child)) inner
    then some (txt "match groups nest one level deep — a group may contain only conditions")
    else if length inner == 0
    then some (txt "match groups must contain at least one condition")
    else if ltb max_match_conditions_per_group (length inner)
    then some too_many
    else none

unfoldable pub first_fault : List Json → Option Text
unfolding group_fault
first_fault [] = none
first_fault (g ∷ groups) =
    let rest = first_fault groups in elim (group_fault g) [ some why ↦ some why | none ↦ rest ]

-- `assertMatchShape`: what is wrong with the node, if anything.
unfoldable pub shape_fault : Json → Option Text
unfolding children has_both first_fault
shape_fault node =
    let groups = keep (λ child. not (is_leaf child)) (children node) in
    if has_both node
    then some one_mode
    else if ltb max_match_conditions_per_group (length (children node) - length groups)
    then some too_many
    else if ltb max_match_groups (length groups)
    then some (txt "match supports at most 5 groups.")
    else first_fault groups

abbrev checked_shape : Json → Option Text → Checked Json
checked_shape node none = passed node
checked_shape node (some why) = refused why

unfoldable pub compile_match : Json → Checked Json
unfolding count_conditions shape_fault
compile_match raw =
    let node = parse_match raw in
    if count_conditions node == 0
    then refused (txt "match must contain at least one condition")
    else checked_shape node (shape_fault node)

abbrev is_label : RuleAction → Bool
is_label a = elim a.type [ label ↦ true | _ ↦ false ]

unfoldable pub compile_actions : Json → Checked (List RuleAction)
compile_actions raw =
    let actions = parse_actions raw in
    if length actions == 0
    then refused (txt "actions must contain at least one valid action")
    else if any is_label actions
    then refused (txt "LABEL is not supported yet")
    else if every is_stop actions
    then refused (txt "actions must include at least one effectful action (not only STOP)")
    else passed actions
