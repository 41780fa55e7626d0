-- ===== src/PatScope/Tests.antt =====
-- The witnesses of the theorems on backend/src/auth/pat-scope.ts and backend/src/mcp/mcp-scopes.ts.
use email_ops_community.Prelude.{
  ◌≡◌, ◌≢◌, ◌↔◌, refl, arith, true, some, none, List, [], ◌∷◌, Any, ap,
}
use email_ops_community.Prelude.Text.{Text, txt, is_empty}
use email_ops_community.PatScope.{
  PatRecord, PatScope, mail_read, mcp_tool_scopes, scope_text, list_threads, scope_satisfies,
  check_pat, enforce_mcp_tool_scope, returned,
}
use email_ops_community.PatScope.Meaning.{
  Grants, Permits, scope_satisfies-Grants, enforce_mcp_tool_scope-Permits,
  enforce_mcp_tool_scope-least,
}

abbrev reader : PatRecord
reader = record {
  scopes = txt "mail:read" ∷ [];
  expires_at = some (txt "2027-01-01");
  revoked_at = none;
}

read_is_full : txt "mail:read" ≢ []
read_is_full e = ground (arith, ap is_empty e)

scope_satisfies-Grants_example :
    (scope_satisfies (txt "mail:*" ∷ []) (txt "mail:read") ≡ true)
    ↔ Any (Grants (txt "mail:read")) (txt "mail:*" ∷ [])
scope_satisfies-Grants_example =
    scope_satisfies-Grants (txt "mail:*" ∷ []) (txt "mail:read") read_is_full

enforce_mcp_tool_scope-Permits_example :
    ((enforce_mcp_tool_scope (some reader) list_threads (txt "2026-01-01") ≡ returned)
      ↔ Permits reader (scope_text (mcp_tool_scopes list_threads)) (txt "2026-01-01"))
    × (enforce_mcp_tool_scope none list_threads (txt "2026-01-01") ≡ returned)
enforce_mcp_tool_scope-Permits_example =
    enforce_mcp_tool_scope-Permits reader list_threads (txt "2026-01-01")

enforce_mcp_tool_scope-least_example : mail_read ≡ mcp_tool_scopes list_threads
unfolding enforce_mcp_tool_scope email_ops_community.PatScope.text_lt scope_satisfies
    email_ops_community.Prelude.Text.text_eq
enforce_mcp_tool_scope-least_example =
    enforce_mcp_tool_scope-least reader mail_read list_threads (txt "2026-01-01") refl refl
