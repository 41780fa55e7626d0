-- ===== src/MailRules/Table.antt =====
-- The table of the rules under `create`, `update` and `remove` of
-- backend/src/mail-rules/mail-rules.service.ts, and the fence before them.
use email_ops_community.Prelude.{
  suc, ◌+◌, ◌-◌, leb, ltb, ◌==◌, Bool, true, false, not, ◌&&◌, ◌||◌, Option, none, some, List, [],
  ◌∷◌, ◌++◌, find, keep, length, if◌then◌else◌,
}
use email_ops_community.Prelude.Int.{ℤ, pos, negsuc, leb_ℤ}
use email_ops_community.Prelude.Text.{Text, txt, text_eq, is_empty}
use email_ops_community.Json.{Json}
use email_ops_community.Mailboxes.{MailboxAccount, is_human}
use email_ops_community.RuleEngine.{RuleAction, actions_json}
use email_ops_community.MailRules.{MailRuleRow}
use email_ops_community.MailRules.Write.{
  Checked, passed, refused, max_rules_per_mailbox, priority_step, normalize_name,
  normalize_priority, compile_match, compile_actions,
}

pub record CreateMailRuleInput : Type 0 where
  pub name : Text
  pub enabled : Option Bool
  pub priority : Option ℤ
  pub match : Json
  pub actions : Json

-- A field that is null counts as absent.
pub record UpdateMailRuleInput : Type 0 where
  pub name : Option Text
  pub enabled : Option Bool
  pub priority : Option ℤ
  pub match : Option Json
  pub actions : Option Json

-- `assertMayActThroughMailbox`.
abbrev owns : MailboxAccount → Option Text → Bool
owns m none = false
owns m (some u) = elim m.owner_key [ none ↦ false | some k ↦ not (is_empty u) && text_eq k u ]

abbrev pub assert_may_act : MailboxAccount → Option Text → Bool
assert_may_act m uc_uid = not (is_human m.owner_kind) || owns m uc_uid

abbrev fence_fault : MailboxAccount → Option Text → Bool → Option Text
fence_fault m uc_uid require_sovereign =
    if not (assert_may_act m uc_uid)
    then some (txt "This mailbox is private to its owner.")
    else if require_sovereign && (not (text_eq m.provider (txt "stalwart")) || not m.active)
    then some (
        txt
          "Mail rules run only on active sovereign mailboxes — this mailbox is external or inactive.")
    else none

-- `assertMailbox`: what it throws, if anything.
unfoldable pub mailbox_fault : List MailboxAccount → Text → Option Text → Text → Bool → Option Text
mailbox_fault mailboxes workspace_id uc_uid mailbox_id require_sovereign =
    elim (find (λ m. text_eq m.id mailbox_id && text_eq m.workspace_id workspace_id) mailboxes) [
      | none ↦ some (txt "Mailbox not found in this workspace.")
      | some m ↦ fence_fault m uc_uid require_sovereign
    ]

abbrev pub is_of : Text → Text → MailRuleRow → Bool
is_of workspace_id mailbox_id r =
    text_eq r.workspace_id workspace_id && text_eq r.mailbox_id mailbox_id

abbrev pub max_ℤ : ℤ → ℤ → ℤ
max_ℤ a b = if leb_ℤ a b then b else a

-- The largest priority of the rows, null if there is none.
unfoldable pub max_priority : List MailRuleRow → Option ℤ
max_priority [] = none
max_priority (r ∷ rows) =
    let rest = max_priority rows in
    elim rest [ none ↦ some r.priority | some p ↦ some (max_ℤ r.priority p) ]

-- The sum with the step.
abbrev pub plus_step : ℤ → ℤ
plus_step (pos n) = pos (n + priority_step)
plus_step (negsuc n) =
    if ltb n priority_step then pos (priority_step - suc n) else negsuc (n - priority_step)

abbrev pub or_zero : Option ℤ → ℤ
or_zero none = pos 0
or_zero (some p) = p

abbrev pub next_priority : List MailRuleRow → ℤ
next_priority rows = plus_step (or_zero (max_priority rows))

abbrev pub or_next : Option ℤ → List MailRuleRow → ℤ
or_next none rows = next_priority rows
or_next (some p) rows = p

abbrev or_enabled : Option Bool → Bool → Bool
or_enabled none old = old
or_enabled (some b) old = b

-- What the checks of a create let through.
pub record Accepted : Type 0 where
  pub name : Text
  pub enabled : Bool
  pub priority : Option ℤ
  pub match : Json
  pub actions : List RuleAction

abbrev pub and_then {ℓ κ} : {A : Type ℓ} {B : Type κ} → Checked A → (A → Checked B) → Checked B
and_then (passed a) f = f a
and_then (refused why) f = refused why

abbrev pub check_opt {ℓ κ} :
    {A : Type ℓ} {B : Type κ} → (A → Checked B) → Option A → Checked (Option B)
check_opt f none = passed none
check_opt f (some a) = and_then (f a) (λ b. passed (some b))

-- The validation before the transaction.
unfoldable pub accept : CreateMailRuleInput → Checked Accepted
accept input = and_then (normalize_name input.name) (λ name.
    and_then (compile_match input.match) (λ match.
      and_then (compile_actions input.actions) (λ actions.
        and_then (check_opt normalize_priority input.priority) (λ priority. passed (record {
          name = name;
          enabled = or_enabled input.enabled true;
          priority = priority;
          match = match;
          actions = actions;
        })))))

abbrev pub new_row : Text → Text → Text → Accepted → ℤ → MailRuleRow
new_row id workspace_id mailbox_id a priority = record {
  id = id;
  workspace_id = workspace_id;
  mailbox_id = mailbox_id;
  name = a.name;
  enabled = a.enabled;
  priority = priority;
  match = a.match;
  actions = actions_json a.actions;
  hit_count = 0;
}

abbrev pub insert_row :
    Text → Text → Text → Accepted → List MailRuleRow → Checked MailRuleRow × List MailRuleRow
insert_row id workspace_id mailbox_id a rows =
    let own = keep (is_of workspace_id mailbox_id) rows in
    if leb max_rules_per_mailbox (length own)
    then (refused (txt "This mailbox already has the maximum of 100 rules."), rows)
    else let r = new_row id workspace_id mailbox_id a (or_next a.priority own) in
      (passed r, rows ++ r ∷ [])

abbrev pub create_accepted :
    List MailboxAccount
    → Text
    → Text
    → Option Text
    → Text
    → Checked Accepted
    → List MailRuleRow
    → Checked MailRuleRow × List MailRuleRow
create_accepted mailboxes id workspace_id uc_uid mailbox_id (refused why) rows = (refused why, rows)
create_accepted mailboxes id workspace_id uc_uid mailbox_id (passed a) rows =
    elim (mailbox_fault mailboxes workspace_id uc_uid mailbox_id true) [
      | some why ↦ (refused why, rows)
      | none ↦ insert_row id workspace_id mailbox_id a rows
    ]

unfoldable pub create :
    List MailboxAccount
    → Text
    → Text
    → Option Text
    → Text
    → CreateMailRuleInput
    → List MailRuleRow
    → Checked MailRuleRow × List MailRuleRow
unfolding max_priority
create mailboxes id workspace_id uc_uid mailbox_id input rows =
    create_accepted mailboxes id workspace_id uc_uid mailbox_id (accept input) rows

-- The fields that an update writes.
pub record Patch : Type 0 where
  pub name : Option Text
  pub enabled : Option Bool
  pub priority : Option ℤ
  pub match : Option Json
  pub actions : Option (List RuleAction)

unfoldable pub accept_patch : UpdateMailRuleInput → Checked Patch
accept_patch input = and_then (check_opt normalize_name input.name) (λ name.
    and_then (check_opt normalize_priority input.priority) (λ priority.
      and_then (check_opt compile_match input.match) (λ match.
        and_then (check_opt compile_actions input.actions) (λ actions. passed (record {
          name = name;
          enabled = input.enabled;
          priority = priority;
          match = match;
          actions = actions;
        })))))

abbrev pub or_old {ℓ} : {A : Type ℓ} → Option A → A → A
or_old none old = old
or_old (some a) old = a

abbrev or_old_actions : Option (List RuleAction) → Json → Json
or_old_actions none old = old
or_old_actions (some acts) old = actions_json acts

-- The update of a row; an empty patch writes nothing, which is the same.
abbrev pub patched : Patch → MailRuleRow → MailRuleRow
patched p r = record r {
  name = or_old p.name r.name;
  enabled = or_old p.enabled r.enabled;
  priority = or_old p.priority r.priority;
  match = or_old p.match r.match;
  actions = or_old_actions p.actions r.actions;
}

abbrev pub is_rule : Text → Text → Text → MailRuleRow → Bool
is_rule workspace_id mailbox_id id r = text_eq r.id id && is_of workspace_id mailbox_id r

unfoldable pub update_rows : Text → Patch → List MailRuleRow → List MailRuleRow
update_rows id p [] = []
update_rows id p (r ∷ rows) = (if text_eq r.id id then patched p r else r) ∷ update_rows id p rows

abbrev pub write_patch :
    Text → Text → Text → Patch → List MailRuleRow → Checked (Option MailRuleRow) × List MailRuleRow
write_patch workspace_id mailbox_id id p rows =
    elim (find (is_rule workspace_id mailbox_id id) rows) [
      | none ↦ (passed none, rows)
      | some r ↦ (passed (some (patched p r)), update_rows id p rows)
    ]

abbrev pub update_accepted :
    List MailboxAccount
    → Text
    → Option Text
    → Text
    → Text
    → Checked Patch
    → List MailRuleRow
    → Checked (Option MailRuleRow) × List MailRuleRow
update_accepted mailboxes workspace_id uc_uid mailbox_id id (refused why) rows = (refused why, rows)
update_accepted mailboxes workspace_id uc_uid mailbox_id id (passed p) rows =
    elim (mailbox_fault mailboxes workspace_id uc_uid mailbox_id false) [
      | some why ↦ (refused why, rows)
      | none ↦ write_patch workspace_id mailbox_id id p rows
    ]

-- `update`: none where the rule is not of the mailbox.
unfoldable pub update :
    List MailboxAccount
    → Text
    → Option Text
    → Text
    → Text
    → UpdateMailRuleInput
    → List MailRuleRow
    → Checked (Option MailRuleRow) × List MailRuleRow
unfolding update_rows
update mailboxes workspace_id uc_uid mailbox_id id input rows =
    update_accepted mailboxes workspace_id uc_uid mailbox_id id (accept_patch input) rows

unfoldable pub remove :
    List MailboxAccount
    → Text
    → Option Text
    → Text
    → Text
    → List MailRuleRow
    → Checked Bool × List MailRuleRow
remove mailboxes workspace_id uc_uid mailbox_id id rows =
    elim (mailbox_fault mailboxes workspace_id uc_uid mailbox_id false) [
      | some why ↦ (refused why, rows)
      | none ↦ (
        passed (length (keep (is_rule workspace_id mailbox_id id) rows) == 1),
        keep (λ r. not (is_rule workspace_id mailbox_id id r)) rows,
      )
    ]

-- A request to change the table, with the id that the database gives a new row.
pub data Write : Type 0 where
  creating :
      (id workspace_id : Text) (uc_uid : Option Text) (mailbox_id : Text)
      → CreateMailRuleInput
      → Write
  updating :
      (workspace_id : Text) (uc_uid : Option Text) (mailbox_id id : Text)
      → UpdateMailRuleInput
      → Write
  removing : (workspace_id : Text) (uc_uid : Option Text) (mailbox_id id : Text) → Write

unfoldable pub perform : List MailboxAccount → Write → List MailRuleRow → List MailRuleRow
unfolding create update remove
perform mailboxes (creating id w u m input) rows = (create mailboxes id w u m input rows).1
perform mailboxes (updating w u m id input) rows = (update mailboxes w u m id input rows).1
perform mailboxes (removing w u m id) rows = (remove mailboxes w u m id rows).1

unfoldable pub perform_all : List MailboxAccount → List Write → List MailRuleRow → List MailRuleRow
unfolding perform
perform_all mailboxes [] rows = rows
perform_all mailboxes (x ∷ xs) rows = perform_all mailboxes xs (perform mailboxes x rows)
