-- ===== src/AccessList.antt =====
-- Who may sign in: backend/src/auth/access-list.ts. The environment variable is none where it is
-- not set; the rules are parsed from it on the first call and kept.
pub mod Cover
mod Tests
use email_ops_community.Prelude.{
  ℕ, suc, Bool, true, false, not, ◌&&◌, Option, none, some, List, [], ◌∷◌, ◌++◌, find, drop,
  if◌then◌else◌,
}
use mathlib.Core.Option
use email_ops_community.Prelude.Text.{
  Text, txt, text_eq, trim, to_lower_case, to_upper_case, split, starts_with, index_of, is_empty,
}
use email_ops_community.Roles.{WorkspaceRole, viewer, member, manager, admin, owner}

pub record AccessResolution : Type 0 where
  pub allowed : Bool
  pub role : WorkspaceRole
  pub reason : Text

pub record AccessRule : Type 0 where
  pub pattern : Text
  pub is_domain : Bool
  pub domain : Option Text
  pub role : WorkspaceRole

abbrev role_name : WorkspaceRole → Text
role_name viewer = txt "VIEWER"
role_name member = txt "MEMBER"
role_name manager = txt "MANAGER"
role_name admin = txt "ADMIN"
role_name owner = txt "OWNER"

-- The member of `VALID_ROLES` with a name.
unfoldable pub valid_role : Text → Option WorkspaceRole
valid_role name =
    find (λ r. text_eq (role_name r) name) (owner ∷ admin ∷ manager ∷ member ∷ viewer ∷ [])

abbrev legacy_fallback : List AccessRule
legacy_fallback =
    record { pattern = txt "owner@example.com"; is_domain = false; domain = none; role = owner }
    ∷ record { pattern = txt "team@example.com"; is_domain = false; domain = none; role = owner }
    ∷ []

abbrev rule_of : Text → WorkspaceRole → AccessRule
rule_of pattern role =
    let is_domain = starts_with pattern (txt "*@") in
    record {
      pattern = pattern;
      is_domain = is_domain;
      domain = if is_domain then some (drop 2 pattern) else none;
      role = role;
    }

-- The rule of the two parts of a token, if both have ink and the role is valid.
unfoldable pub rule_of_parts : List Text → Option AccessRule
rule_of_parts (pattern_raw ∷ role_raw ∷ _) =
    let pattern = to_lower_case (trim pattern_raw) in
    if is_empty (trim pattern_raw)
    then none
    else if is_empty (trim role_raw)
    then none
    else Option.map (rule_of pattern) (valid_role (to_upper_case (trim role_raw)))
rule_of_parts _ = none

abbrev token_rule : Text → Option AccessRule
token_rule token = if is_empty token then none else rule_of_parts (split b':' token)

abbrev add_rule : Option AccessRule → List AccessRule → List AccessRule
add_rule none rules = rules
add_rule (some r) rules = r ∷ rules

unfoldable pub parse_tokens : List Text → List AccessRule
parse_tokens [] = []
parse_tokens (token ∷ tokens) = add_rule (token_rule (trim token)) (parse_tokens tokens)

unfoldable pub parse_access_list : Text → List AccessRule
parse_access_list raw = parse_tokens (split b',' raw)

-- `getRules`: the rules and their source.
unfoldable pub get_rules : Option Text → List AccessRule × Text
get_rules none = (legacy_fallback, txt "legacy fallback (EMAIL_OPS_ACCESS_LIST not set)")
get_rules (some raw_env) =
    if is_empty (trim raw_env)
    then ([], txt "explicit-empty EMAIL_OPS_ACCESS_LIST (deny-all)")
    else (parse_access_list (trim raw_env), txt "env:EMAIL_OPS_ACCESS_LIST")

-- The part of an address after its first '@', none if there is no '@' or nothing follows.
unfoldable pub domain_of : Text → Option Text
domain_of lower = elim (index_of b'@' lower) [
  | none ↦ none
  | some at ↦ let domain = drop (suc at) lower in if is_empty domain then none else some domain
]

abbrev pub is_exact : Text → AccessRule → Bool
is_exact lower r = not r.is_domain && text_eq r.pattern lower

abbrev pub same_domain : Text → Option Text → Bool
same_domain d none = false
same_domain d (some e) = text_eq e d

abbrev pub is_wild : Text → AccessRule → Bool
is_wild d r = r.is_domain && same_domain d r.domain

abbrev pub denied : Text → AccessResolution
denied reason = record { allowed = false; role = viewer; reason = reason }

abbrev no_match : Text → Text → AccessResolution
no_match source lower = denied (txt "no rule in " ++ source ++ txt " matched " ++ lower)

-- The domain rules, asked when no exact one matches.
unfoldable pub by_domain : List AccessRule → Text → Text → AccessResolution
by_domain rules source lower = elim (domain_of lower) [
  | none ↦ no_match source lower
  | some d ↦ elim (find (is_wild d) rules) [
    | none ↦ no_match source lower
    | some wild ↦ record {
      allowed = true;
      role = wild.role;
      reason =
          txt "domain match (*@" ++ d ++ txt ") in " ++ source ++ txt " → " ++ role_name wild.role;
    }
  ]
]

-- `resolveUserAccess` on the rules and their source.
unfoldable pub by_rules : List AccessRule → Text → Text → AccessResolution
unfolding by_domain
by_rules rules source lower = elim (find (is_exact lower) rules) [
  | some exact ↦ record {
    allowed = true;
    role = exact.role;
    reason = txt "exact match in " ++ source ++ txt " → " ++ role_name exact.role;
  }
  | none ↦ by_domain rules source lower
]

-- `resolveUserAccess`; the address is none where it is null, undefined or empty.
unfoldable pub resolve_user_access : Option Text → Option Text → AccessResolution
unfolding by_rules
resolve_user_access env none = denied (txt "no email on Keycloak profile")
resolve_user_access env (some email) =
    let (rules, source) = get_rules env in by_rules rules source (to_lower_case email)
