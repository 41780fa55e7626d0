-- ===== src/Roles.antt =====
-- The roles of a workspace: backend/src/common/workspace/role-rank.ts.
use email_ops_community.Prelude.{ℕ, Bool, leb}

pub data WorkspaceRole : Type 0 where
  viewer member manager admin owner : WorkspaceRole

abbrev pub role_rank : WorkspaceRole → ℕ
role_rank viewer = 0
role_rank member = 1
role_rank manager = 2
role_rank admin = 3
role_rank owner = 4

abbrev pub role_at_least : WorkspaceRole → WorkspaceRole → Bool
role_at_least role min = leb (role_rank min) (role_rank role)
