-- ===== src/PatScope.antt =====
-- Personal access tokens: the decision of backend/src/auth/pat-scope.ts and its use for the MCP tools
-- in backend/src/mcp/mcp-scopes.ts.
pub mod Meaning
mod Tests
use email_ops_community.Prelude.{
  Bool, true, false, not, ◌&&◌, ◌||◌, Option, none, some, List, [], ◌∷◌, ltb, ◌==◌, any, length,
  if◌then◌else◌,
}
use email_ops_community.Prelude.Text.{Text, txt, text_eq, ends_with, starts_with, is_empty}

pub data PatScope : Type 0 where
  mail_read mail_write agent_inbox_read agent_inbox_approve cleaner_run admin_provision ui_control :
      PatScope

-- `KNOWN_SCOPES`.
abbrev pub scope_text : PatScope → Text
scope_text mail_read = txt "mail:read"
scope_text mail_write = txt "mail:write"
scope_text agent_inbox_read = txt "agent-inbox:read"
scope_text agent_inbox_approve = txt "agent-inbox:approve"
scope_text cleaner_run = txt "cleaner:run"
scope_text admin_provision = txt "admin:provision"
scope_text ui_control = txt "ui:control"

-- Times are ISO texts.
pub record PatRecord : Type 0 where
  pub scopes : List Text
  pub expires_at : Option Text
  pub revoked_at : Option Text

pub data PatDenyReason : Type 0 where
  revoked expired missing_scope : PatDenyReason

pub record PatCheck : Type 0 where
  pub ok : Bool
  pub reason : Option PatDenyReason

-- `raw.slice(0, -1)`.
unfoldable pub drop_last : Text → Text
drop_last [] = []
drop_last (c ∷ []) = []
drop_last (c ∷ d ∷ s) = c ∷ drop_last (d ∷ s)

-- One round of the loop of `scopeSatisfies`.
unfoldable pub grants : Text → Text → Bool
grants required raw =
    if is_empty raw
    then false
    else if text_eq raw (txt "*")
    then true
    else if text_eq raw required
    then true
    else if ends_with raw (txt ":*")
    then starts_with required (drop_last raw) && ltb (length (drop_last raw)) (length required)
    else false

unfoldable pub scope_satisfies : List Text → Text → Bool
unfolding grants
scope_satisfies held required = if is_empty required then false else any (grants required) held

-- `s < t` on texts.
unfoldable pub text_lt : Text → Text → Bool
text_lt s [] = false
text_lt [] (d ∷ t) = true
text_lt (c ∷ s) (d ∷ t) = ltb c d || c == d && text_lt s t

abbrev is_expired : Option Text → Text → Bool
is_expired none now_iso = false
is_expired (some e) now_iso = text_lt e now_iso

abbrev is_set : Option Text → Bool
is_set none = false
is_set (some t) = true

abbrev deny : PatDenyReason → PatCheck
deny r = record { ok = false; reason = some r }

unfoldable pub check_pat : PatRecord → Text → Text → PatCheck
check_pat pat required now_iso =
    if is_set pat.revoked_at
    then deny revoked
    else if is_expired pat.expires_at now_iso
    then deny expired
    else if not (scope_satisfies pat.scopes required)
    then deny missing_scope
    else record { ok = true; reason = none }

pub data McpToolName : Type 0 where
  health list_my_workspaces email_ops_health list_agents provision_mailbox provision_agent
        set_disposition set_sender_policy list_threads_with_contact list_thread_messages
        compose_email list_threads get_thread search_mail set_read bulk_disposition list_folders
        create_folder rename_folder delete_folder move_to_folder snooze_thread unsnooze_thread
        list_snoozed schedule_send cancel_scheduled_send list_scheduled_sends list_agent_mailboxes
        get_agent_mailbox list_mail_rules create_mail_rule update_mail_rule delete_mail_rule
        list_connected_accounts get_inbox_stats analyze_inbox plan_cleanup clean_trash clean_delete
        organize_messages unsubscribe_sender undo_batch list_agent_inbox approve_agent_inbox_item
        reject_agent_inbox_item list_trusted_correspondents trust_correspondent
        untrust_correspondent list_mail_domains list_mail_accounts ensure_mail_domain
        remove_mail_domain set_mailbox_quota remove_mailbox_engine ui_navigate ui_open_thread
        ui_compose ui_switch_space ui_notify :
      McpToolName

-- `MCP_TOOL_SCOPES`.
abbrev pub mcp_tool_scopes : McpToolName → PatScope
mcp_tool_scopes health = mail_read
mcp_tool_scopes list_my_workspaces = mail_read
mcp_tool_scopes email_ops_health = mail_read
mcp_tool_scopes list_agents = mail_read
mcp_tool_scopes provision_mailbox = admin_provision
mcp_tool_scopes provision_agent = admin_provision
mcp_tool_scopes set_disposition = mail_write
mcp_tool_scopes set_sender_policy = mail_write
mcp_tool_scopes list_threads_with_contact = mail_read
mcp_tool_scopes list_thread_messages = mail_read
mcp_tool_scopes compose_email = agent_inbox_approve
mcp_tool_scopes list_threads = mail_read
mcp_tool_scopes get_thread = mail_read
mcp_tool_scopes search_mail = mail_read
mcp_tool_scopes set_read = mail_write
mcp_tool_scopes bulk_disposition = mail_write
mcp_tool_scopes list_folders = mail_read
mcp_tool_scopes create_folder = mail_write
mcp_tool_scopes rename_folder = mail_write
mcp_tool_scopes delete_folder = mail_write
mcp_tool_scopes move_to_folder = mail_write
mcp_tool_scopes snooze_thread = mail_write
mcp_tool_scopes unsnooze_thread = mail_write
mcp_tool_scopes list_snoozed = mail_read
mcp_tool_scopes schedule_send = agent_inbox_approve
mcp_tool_scopes cancel_scheduled_send = mail_write
mcp_tool_scopes list_scheduled_sends = mail_read
mcp_tool_scopes list_agent_mailboxes = mail_read
mcp_tool_scopes get_agent_mailbox = mail_read
mcp_tool_scopes list_mail_rules = mail_read
mcp_tool_scopes create_mail_rule = mail_write
mcp_tool_scopes update_mail_rule = mail_write
mcp_tool_scopes delete_mail_rule = mail_write
mcp_tool_scopes list_connected_accounts = mail_read
mcp_tool_scopes get_inbox_stats = cleaner_run
mcp_tool_scopes analyze_inbox = cleaner_run
mcp_tool_scopes plan_cleanup = cleaner_run
mcp_tool_scopes clean_trash = cleaner_run
mcp_tool_scopes clean_delete = cleaner_run
mcp_tool_scopes organize_messages = cleaner_run
mcp_tool_scopes unsubscribe_sender = cleaner_run
mcp_tool_scopes undo_batch = cleaner_run
mcp_tool_scopes list_agent_inbox = agent_inbox_read
mcp_tool_scopes approve_agent_inbox_item = agent_inbox_approve
mcp_tool_scopes reject_agent_inbox_item = agent_inbox_approve
mcp_tool_scopes list_trusted_correspondents = mail_read
mcp_tool_scopes trust_correspondent = mail_write
mcp_tool_scopes untrust_correspondent = mail_write
mcp_tool_scopes list_mail_domains = mail_read
mcp_tool_scopes list_mail_accounts = mail_read
mcp_tool_scopes ensure_mail_domain = admin_provision
mcp_tool_scopes remove_mail_domain = admin_provision
mcp_tool_scopes set_mailbox_quota = admin_provision
mcp_tool_scopes remove_mailbox_engine = admin_provision
mcp_tool_scopes ui_navigate = ui_control
mcp_tool_scopes ui_open_thread = ui_control
mcp_tool_scopes ui_compose = ui_control
mcp_tool_scopes ui_switch_space = ui_control
mcp_tool_scopes ui_notify = ui_control

-- The wrapper returns, or it throws one of two exceptions.
pub data Enforcement : Type 0 where
  returned : Enforcement
  forbidden unauthorized : Option PatDenyReason → Enforcement

abbrev exception : Option PatDenyReason → Enforcement
exception (some missing_scope) = forbidden (some missing_scope)
exception r = unauthorized r

-- `enforceMcpToolScope`; a caller without a token was let in by a JWT.
unfoldable pub enforce_mcp_tool_scope : Option PatRecord → McpToolName → Text → Enforcement
unfolding check_pat
enforce_mcp_tool_scope none tool_name now_iso = returned
enforce_mcp_tool_scope (some pat) tool_name now_iso =
    let decision = check_pat pat (scope_text (mcp_tool_scopes tool_name)) now_iso in
    if decision.ok then returned else exception decision.reason
