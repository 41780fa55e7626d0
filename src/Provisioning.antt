-- ===== src/Provisioning.antt =====
-- backend/src/provisioning/provisioning-policy.ts: who may provision what.
pub mod Ladder
pub mod Requests
pub mod Review
pub mod World
pub mod Pending
pub mod Once
mod Tests
use email_ops_community.Prelude.{ℕ, Bool, true, false, ◌&&◌, if◌then◌else◌}
use email_ops_community.Roles.{WorkspaceRole, viewer, member, manager, admin, role_at_least}

pub data ProvisioningMode : Type 0 where
  open_mode manager_mode admin_only approval : ProvisioningMode

pub record ProvisioningPolicyShape : Type 0 where
  pub human_mailbox_create_mode : ProvisioningMode
  pub human_mailbox_edit_mode : ProvisioningMode
  pub agent_mailbox_create_mode : ProvisioningMode
  pub agent_mailbox_edit_mode : ProvisioningMode
  pub agent_create_mode : ProvisioningMode
  pub agent_edit_mode : ProvisioningMode
  pub approver_min_role : WorkspaceRole
  pub allow_self_service_own_mailbox : Bool

abbrev pub default_provisioning_policy : ProvisioningPolicyShape
default_provisioning_policy = record {
  human_mailbox_create_mode = manager_mode;
  human_mailbox_edit_mode = manager_mode;
  agent_mailbox_create_mode = admin_only;
  agent_mailbox_edit_mode = admin_only;
  agent_create_mode = manager_mode;
  agent_edit_mode = manager_mode;
  approver_min_role = admin;
  allow_self_service_own_mailbox = false;
}

pub data ProvisionDecision : Type 0 where
  allow deny requires_approval : ProvisionDecision

abbrev allow_if : Bool → ProvisionDecision
allow_if b = if b then allow else deny

-- The switch of `decideProvision`.
unfoldable pub by_mode : ProvisioningMode → WorkspaceRole → WorkspaceRole → ProvisionDecision
by_mode open_mode caller_role approver = allow_if (role_at_least caller_role member)
by_mode manager_mode caller_role approver = allow_if (role_at_least caller_role manager)
by_mode admin_only caller_role approver = allow_if (role_at_least caller_role admin)
by_mode approval caller_role approver =
    if role_at_least caller_role approver
    then allow
    else if role_at_least caller_role member
    then requires_approval
    else deny

pub record ProvisionArgs : Type 0 where
  pub mode : ProvisioningMode
  pub approver_min_role : WorkspaceRole
  pub is_self_own_mailbox : Bool
  pub allow_self_service_own_mailbox : Bool

unfoldable pub decide_provision : WorkspaceRole → ProvisionArgs → ProvisionDecision
unfolding by_mode
decide_provision caller_role args =
    if args.is_self_own_mailbox
      && args.allow_self_service_own_mailbox
      && role_at_least caller_role member
    then allow
    else by_mode args.mode caller_role args.approver_min_role
