-- ===== src/Provisioning/Ladder.antt =====
-- The decision of backend/src/provisioning/provisioning-policy.ts along the ladder of the roles.
use email_ops_community.Prelude.{ℕ, ◌≤◌, ◌≡◌, ◌≢◌, refl, arith}
use email_ops_community.Roles.{WorkspaceRole, viewer, member, manager, admin, owner, role_rank}
use email_ops_community.Provisioning.{
  ProvisioningMode, open_mode, manager_mode, admin_only, approval, ProvisionDecision, allow, deny,
  requires_approval, by_mode, ProvisionArgs, decide_provision,
}

-- How much a decision lets happen.
abbrev pub reach : ProvisionDecision → ℕ
reach deny = 0
reach requires_approval = 1
reach allow = 2

by_mode_monotone :
    (mode : ProvisioningMode) (low high approver : WorkspaceRole)
    → role_rank low ≤ role_rank high
    → reach (by_mode mode low approver) ≤ reach (by_mode mode high approver)
unfolding by_mode
by_mode_monotone open_mode low high approver h = ground (arith, h)
by_mode_monotone manager_mode low high approver h = ground (arith, h)
by_mode_monotone admin_only low high approver h = ground (arith, h)
by_mode_monotone approval low high approver h = ground (arith, h)

-- A higher role is never given less: where the lower one may act, the higher one may, and where
-- the lower one may ask, the higher one may ask or act.
pub decide_provision_monotone :
    (low high : WorkspaceRole) (args : ProvisionArgs)
    → role_rank low ≤ role_rank high
    → reach (decide_provision low args) ≤ reach (decide_provision high args)
unfolding decide_provision
decide_provision_monotone low high args h =
    ground (arith, h, by_mode_monotone args.mode low high args.approver_min_role h)

by_mode-viewer :
    (mode : ProvisioningMode) (approver : WorkspaceRole)
    → (mode ≡ approval → approver ≢ viewer)
    → by_mode mode viewer approver ≡ deny
unfolding by_mode
by_mode-viewer open_mode approver h = refl
by_mode-viewer manager_mode approver h = refl
by_mode-viewer admin_only approver h = refl
by_mode-viewer approval viewer h = absurd (h refl refl)
by_mode-viewer approval member h = refl
by_mode-viewer approval manager h = refl
by_mode-viewer approval admin h = refl
by_mode-viewer approval owner h = refl

-- A viewer can do nothing and ask for nothing, whatever the dials and the self-service flag are,
-- unless approvals are on and the approver's rung is the viewer's.
decide_provision-viewer :
    (args : ProvisionArgs)
    → (args.mode ≡ approval → args.approver_min_role ≢ viewer)
    → decide_provision viewer args ≡ deny
unfolding decide_provision
decide_provision-viewer args h = ground (arith, by_mode-viewer args.mode args.approver_min_role h)
