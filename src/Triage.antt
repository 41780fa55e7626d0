-- ===== src/Triage.antt =====
-- backend/src/mail-triage: the senders' policies of sender-policy.service.ts, the folders of
-- disposition.service.ts, and the classification of received mail of mail-triage.service.ts.
--
-- The tables are lists of rows in the order of the database; a query keeps that order. The spam engine
-- behind spam.port.ts is a parameter, and so is the type of its scores, which the code only stores.
pub mod Classify
mod Written
mod Taught
mod Tests
use email_ops_community.Prelude.{
  ℕ, suc, ◌+◌, Bool, true, false, not, ◌&&◌, ◌||◌, ◌==◌, Option, none, some, List, [], ◌∷◌, ◌++◌,
  map, any, keep, find, length, drop, ltb, if◌then◌else◌,
}
use email_ops_community.Prelude.Text.{
  Text, txt, text_eq, trim, to_lower_case, last_index_of, is_empty,
}

pub data SenderPolicyScope : Type 0 where
  address_scope : SenderPolicyScope
  domain_scope : SenderPolicyScope

pub data SenderPolicyKind : Type 0 where
  block : SenderPolicyKind
  allow : SenderPolicyKind

pub data MessageDisposition : Type 0 where
  inbox : MessageDisposition
  archive : MessageDisposition
  trash : MessageDisposition
  spam : MessageDisposition

pub data SpamLabel : Type 0 where
  clean_label : SpamLabel
  spam_label : SpamLabel
  unsure_label : SpamLabel

pub data Reason : Type 0 where
  sender_allowed : Reason
  sender_blocked : Reason
  engine_verdict : Reason
  engine_clean : Reason
  engine_dormant : Reason

abbrev pub same_scope : SenderPolicyScope → SenderPolicyScope → Bool
same_scope address_scope address_scope = true
same_scope address_scope domain_scope = false
same_scope domain_scope address_scope = false
same_scope domain_scope domain_scope = true

pub record SenderPolicy : Type 0 where
  id : Text
  workspace_id : Text
  scope : SenderPolicyScope
  pattern : Text
  kind : SenderPolicyKind
  reason : Option Text
  set_by_uc_uid : Option Text
  set_by_agent_key : Option Text

pub record ThreadDisposition : Type 0 where
  workspace_id : Text
  thread_id : Text
  disposition : MessageDisposition
  set_by_uc_uid : Option Text
  set_by_agent_key : Option Text

pub record SetSenderPolicyInput : Type 0 where
  scope : SenderPolicyScope
  pattern : Text
  kind : SenderPolicyKind
  reason : Option Text
  agent_key : Option Text

-- `v.replace(/^@/, '')`.
unfoldable pub without_at : Text → Text
without_at [] = []
without_at (c ∷ s) = if c == 64 then s else c ∷ s

unfoldable pub normalize : SenderPolicyScope → Text → Text
unfolding without_at
normalize address_scope raw = to_lower_case (trim raw)
normalize domain_scope raw = without_at (to_lower_case (trim raw))

abbrev domain_from : Option ℕ → Text → Option Text
domain_from none address = none
domain_from (some at) address =
    if suc at == length address then none else some (to_lower_case (trim (drop (suc at) address)))

unfoldable pub domain_of : Text → Option Text
domain_of address = domain_from (last_index_of 64 address) address

unfoldable pub has_scope : SenderPolicyScope → SenderPolicy → Bool
has_scope scope r = same_scope r.scope scope

-- The unique key of a policy.
unfoldable pub is_policy : Text → SenderPolicyScope → Text → SenderPolicy → Bool
unfolding has_scope
is_policy workspace_id scope pattern r =
    text_eq r.workspace_id workspace_id && (has_scope scope r && text_eq r.pattern pattern)

-- The domain's part of the query; an empty domain asks for none.
unfoldable pub for_domain : Text → Option Text → SenderPolicy → Bool
unfolding is_policy
for_domain workspace_id none r = false
for_domain workspace_id (some []) r = false
for_domain workspace_id (some (c ∷ s)) r = is_policy workspace_id domain_scope (c ∷ s) r

unfoldable pub matching : Text → Text → SenderPolicy → Bool
unfolding is_policy for_domain domain_of
matching workspace_id address r =
    is_policy workspace_id address_scope address r || for_domain workspace_id (domain_of address) r

abbrev kind_of : Option SenderPolicy → Option SenderPolicyKind
kind_of none = none
kind_of (some r) = some (r.kind)

abbrev pub first_kind : Option SenderPolicy → Option SenderPolicyKind → Option SenderPolicyKind
first_kind none other = other
first_kind (some r) other = some (r.kind)

unfoldable pub verdict_in : List SenderPolicy → Option SenderPolicyKind
unfolding has_scope
verdict_in rows =
    first_kind (find (has_scope address_scope) rows) (kind_of (find (has_scope domain_scope) rows))

unfoldable pub evaluate : List SenderPolicy → Text → Option Text → Option SenderPolicyKind
unfolding verdict_in matching
evaluate policies workspace_id none = none
evaluate policies workspace_id (some []) = none
evaluate policies workspace_id (some (c ∷ s)) =
    verdict_in (keep (matching workspace_id (to_lower_case (trim (c ∷ s)))) policies)

-- An upsert by a unique key: the rows of the key are changed, or else the new row is added.
abbrev pub changed {ℓ} : {A : Type ℓ} → (A → Bool) → (A → A) → List A → List A
changed p change [] = []
changed p change (r ∷ rows) = (if p r then change r else r) ∷ changed p change rows

unfoldable pub upsert {ℓ} : {A : Type ℓ} → (A → Bool) → (A → A) → A → List A → List A
upsert p change new rows = if any p rows then changed p change rows else rows ++ new ∷ []

abbrev pub policy_of : Text → Text → Option Text → SetSenderPolicyInput → Text → SenderPolicy
policy_of id workspace_id uc_uid input pattern = record {
  id = id;
  workspace_id = workspace_id;
  scope = input.scope;
  pattern = pattern;
  kind = input.kind;
  reason = input.reason;
  set_by_uc_uid = uc_uid;
  set_by_agent_key = input.agent_key;
}

abbrev pub refiled : Option Text → SetSenderPolicyInput → SenderPolicy → SenderPolicy
refiled uc_uid input r = record r {
  kind = input.kind;
  reason = input.reason;
  set_by_uc_uid = uc_uid;
  set_by_agent_key = input.agent_key;
}

-- `new_id` is the id that the database gives a new row.
unfoldable pub set :
    Text → Text → Option Text → SetSenderPolicyInput → List SenderPolicy → List SenderPolicy
unfolding upsert normalize is_policy
set new_id workspace_id uc_uid input policies =
    let pattern = normalize (input.scope) (input.pattern) in
    upsert (is_policy workspace_id (input.scope) pattern) (refiled uc_uid input)
      (policy_of new_id workspace_id uc_uid input pattern) policies

abbrev own_policy : Text → Text → SenderPolicy → Bool
own_policy workspace_id id r = text_eq r.id id && text_eq r.workspace_id workspace_id

unfoldable pub remove : Text → Text → List SenderPolicy → Bool × List SenderPolicy
remove workspace_id id policies = (
  any (own_policy workspace_id id) policies,
  keep (λ r. not (own_policy workspace_id id r)) policies,
)

unfoldable pub is_thread : Text → Text → ThreadDisposition → Bool
is_thread workspace_id thread_id r =
    text_eq r.workspace_id workspace_id && text_eq r.thread_id thread_id

unfoldable pub set_disposition :
    Text
    → Option Text
    → Text
    → MessageDisposition
    → Option Text
    → List ThreadDisposition
    → List ThreadDisposition
unfolding upsert is_thread
set_disposition workspace_id uc_uid thread_id disposition agent_key rows =
    upsert (is_thread workspace_id thread_id)
      (λ r. record r {
        disposition = disposition;
        set_by_uc_uid = uc_uid;
        set_by_agent_key = agent_key;
      })
      (record {
        workspace_id = workspace_id;
        thread_id = thread_id;
        disposition = disposition;
        set_by_uc_uid = uc_uid;
        set_by_agent_key = agent_key;
      })
      rows
