-- ===== src/MailRules.antt =====
-- backend/src/mail-rules/mail-rules.service.ts: the applicator of the rules to an inbound message.
pub mod Applicator
pub mod Write
pub mod Shape
pub mod Table
pub mod Checks
pub mod Capacity
mod Tests
use email_ops_community.Prelude.{
  ℕ, suc, ◌+◌, Bool, true, false, ◌&&◌, Option, none, some, List, [], ◌∷◌, ◌++◌, map, any, keep,
  length, if◌then◌else◌,
}
use email_ops_community.Prelude.Int.{ℤ}
use email_ops_community.Prelude.Text.{Text, text_eq, has_text, trim, is_empty}
use email_ops_community.Json.{Json}
use email_ops_community.RuleEngine.{
  InboundMessage, CompiledRule, RuleAction, RuleActionType, move_to_folder, label, archive, trash,
  mark_read, stop, is_stop, parse_match, parse_actions, actions_json, evaluate_rules, sort_rules,
}

-- A row of mail_rules; the rows of a table stand in the order of their creation.
pub record MailRuleRow : Type 0 where
  pub id : Text
  pub workspace_id : Text
  pub mailbox_id : Text
  pub name : Text
  pub enabled : Bool
  pub priority : ℤ
  pub match : Json
  pub actions : Json
  pub hit_count : ℕ

pub record InboundRuleMessage : Type 0 where
  pub thread_id : Text
  pub from_address : Option Text
  pub to_addresses : Option (List Text)
  pub subject : Option Text

pub record ApplyInboundSummary : Type 0 where
  pub matched : ℕ
  pub applied : ℕ

pub data MailFolder : Type 0 where
  archive_folder trash_folder : MailFolder

-- The calls of the mail engine (the port `StalwartPort`) that the actions make.
pub data EngineCall : Type 0 where
  move_thread_to_mailbox : Text → Text → Text → EngineCall
  move_thread_to_folder : Text → Text → MailFolder → EngineCall
  set_thread_read : Text → Text → Bool → EngineCall

-- An engine call returns true or false, or throws.
pub data EngineAnswer : Type 0 where
  done declined thrown : EngineAnswer

-- The engine answers each call, given the calls that it has had.
abbrev pub Engine : Type 0
Engine = List EngineCall → EngineCall → EngineAnswer

abbrev or_empty : Option Text → Text
or_empty none = []
or_empty (some s) = s

abbrev or_none : Option (List Text) → List Text
or_none none = []
or_none (some ts) = ts

-- The call that `executeAction` makes, none where it returns null.
unfoldable pub engine_call : Text → Text → RuleAction → Option EngineCall
engine_call mailbox_email thread_id action = elim action.type [
  | move_to_folder ↦
      let folder_id = trim (or_empty action.value) in
      if is_empty folder_id
      then none
      else some (move_thread_to_mailbox mailbox_email thread_id folder_id)
  | archive ↦ some (move_thread_to_folder mailbox_email thread_id archive_folder)
  | trash ↦ some (move_thread_to_folder mailbox_email thread_id trash_folder)
  | mark_read ↦ some (set_thread_read mailbox_email thread_id true)
  | label ↦ none
  | stop ↦ none
]

abbrev pub bump : EngineAnswer → ℕ → ℕ
bump done n = suc n
bump _ n = n

-- STOP is skipped before the engine is asked.
abbrev pub call_of : Text → Text → RuleAction → Option EngineCall
call_of mailbox_email thread_id action =
    if is_stop action then none else engine_call mailbox_email thread_id action

abbrev count_answer : Engine → List EngineCall → Option EngineCall → ℕ → ℕ
count_answer engine calls none applied = applied
count_answer engine calls (some c) applied = bump (engine calls c) applied

abbrev pub add_call : List EngineCall → Option EngineCall → List EngineCall
add_call calls none = calls
add_call calls (some c) = calls ++ c ∷ []

-- The loop over the actions: the number that took effect, and the calls so far, oldest first.
unfoldable pub apply_actions :
    Engine → Text → Text → List RuleAction → ℕ → List EngineCall → ℕ × List EngineCall
apply_actions engine mailbox_email thread_id [] applied calls = (applied, calls)
apply_actions engine mailbox_email thread_id (action ∷ actions) applied calls =
    let call = call_of mailbox_email thread_id action in
    apply_actions engine mailbox_email thread_id actions (count_answer engine calls call applied)
      (add_call calls call)

-- The fence over the rows.
abbrev pub usable_row : Text → Text → MailRuleRow → Bool
usable_row workspace_id mailbox_id r =
    r.enabled && text_eq r.workspace_id workspace_id && text_eq r.mailbox_id mailbox_id

unfoldable pub compile : MailRuleRow → CompiledRule
compile row = record {
  id = row.id;
  enabled = row.enabled;
  priority = some row.priority;
  match = parse_match row.match;
  actions = actions_json (parse_actions row.actions);
}

unfoldable pub inbound_of : InboundRuleMessage → InboundMessage
inbound_of msg = record {
  from_address = or_empty msg.from_address;
  to_address = [];
  to_addresses = some (or_none msg.to_addresses);
  subject = or_empty msg.subject;
}

abbrev is_nil : List RuleAction → Bool
is_nil [] = true
is_nil (a ∷ as') = false

-- The replay of the walk, rule by rule, that collects the rules that fired.
unfoldable pub matched_rules : List CompiledRule → InboundMessage → List CompiledRule
matched_rules [] inbound = []
matched_rules (rule ∷ sorted) inbound =
    let rest = matched_rules sorted inbound in
    let rule_actions = evaluate_rules (rule ∷ []) inbound in
    if is_nil rule_actions
    then rest
    else if any is_stop rule_actions
    then rule ∷ []
    else rule ∷ rest

pub record Applied : Type 0 where
  pub summary : ApplyInboundSummary
  pub calls : List EngineCall
  pub hits : List Text

abbrev nothing_applied : Applied
nothing_applied = record { summary = record { matched = 0; applied = 0 }; calls = []; hits = [] }

abbrev applied_by : List Text → ℕ × List EngineCall → Applied
applied_by matched_ids outcome = record {
  summary = record { matched = length matched_ids; applied = outcome.0 };
  calls = outcome.1;
  hits = matched_ids;
}

-- `applyInbound` on the sorted rules: the summary, the engine calls, and the ids for the counters.
unfoldable pub apply_sorted : Engine → Text → InboundRuleMessage → List CompiledRule → Applied
unfolding inbound_of
apply_sorted engine mailbox_email msg sorted =
    let actions = evaluate_rules sorted (inbound_of msg) in
    let matched_ids = map (λ (r : CompiledRule). r.id) (matched_rules sorted (inbound_of msg)) in
    let outcome = apply_actions engine mailbox_email msg.thread_id actions 0 [] in
    elim matched_ids [ [] ↦ nothing_applied | i ∷ ids ↦ applied_by (i ∷ ids) outcome ]

-- `applyInbound` on the loaded rows.
unfoldable pub apply_rows :
    Engine → Text → Text → Text → InboundRuleMessage → List MailRuleRow → Applied
unfolding apply_sorted compile
apply_rows engine workspace_id mailbox_id mailbox_email msg rows =
    apply_sorted engine mailbox_email msg
      (sort_rules (map compile (keep (usable_row workspace_id mailbox_id) rows)))

-- The fenced update of the hit counters.
unfoldable pub bump_hits : Text → Text → List Text → List MailRuleRow → List MailRuleRow
bump_hits workspace_id mailbox_id ids [] = []
bump_hits workspace_id mailbox_id ids (r ∷ rows) =
    (if has_text ids r.id && text_eq r.workspace_id workspace_id && text_eq r.mailbox_id mailbox_id
      then record r { hit_count = r.hit_count + 1 }
      else r)
    ∷ bump_hits workspace_id mailbox_id ids rows

-- `applyInbound` on the table, with no preloaded rules; `counted` is false if the counter update
-- fails, which is only logged.
unfoldable pub apply_inbound :
    Engine
    → Bool
    → Text
    → Text
    → Text
    → InboundRuleMessage
    → List MailRuleRow
    → Applied × List MailRuleRow
unfolding bump_hits
apply_inbound engine counted workspace_id mailbox_id mailbox_email msg rows =
    let result = apply_rows engine workspace_id mailbox_id mailbox_email msg rows in
    (result, (if counted then bump_hits workspace_id mailbox_id result.hits rows else rows))
