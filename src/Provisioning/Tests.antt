-- ===== src/Provisioning/Tests.antt =====
-- The witnesses of the theorems on backend/src/provisioning.
use email_ops_community.Prelude.{ℕ, ◌+◌, ◌≤◌, ◌⊎◌, false, none, some, List, [], ◌∷◌, any}
use email_ops_community.Prelude.Text.{txt}
use email_ops_community.Json.{null}
use email_ops_community.Roles.{owner}
use email_ops_community.Provisioning.{default_provisioning_policy}
use email_ops_community.Provisioning.Requests.{
  human_mailbox, pending, ProvisioningRequest, Services, made, Store, claimable,
}
use email_ops_community.Provisioning.Review.{Reviewer}
use email_ops_community.Provisioning.World.{
  World, start, Event, begins, finishes, rejects, happen_all, approvals,
}
use email_ops_community.Provisioning.Once.{happen_all-once}
use email_ops_community.Prelude.{◌≤◌, ◌≡◌, true, arith}
use email_ops_community.Roles.{member, manager, admin}
use email_ops_community.Provisioning.{ProvisionArgs, approval, decide_provision}
use email_ops_community.Provisioning.Ladder.{reach, decide_provision_monotone}

abbrev asked : ProvisionArgs
asked = record {
  mode = approval;
  approver_min_role = admin;
  is_self_own_mailbox = true;
  allow_self_service_own_mailbox = true;
}

decide_provision_monotone_example :
    reach (decide_provision member asked) ≤ reach (decide_provision manager asked)
decide_provision_monotone_example = decide_provision_monotone member manager asked (omega arith)

abbrev filed : ProvisioningRequest
filed = record {
  id = txt "r";
  workspace_id = txt "w";
  kind = human_mailbox;
  action = txt "create";
  state = pending;
  payload = null;
  summary = txt "a mailbox";
  requested_by_uc_uid = none;
  requested_by_agent_key = none;
  reviewed_by_uc_uid = none;
  reviewed_at = none;
  review_note = none;
  applied_ref_id = none;
  applied_at = none;
  failure_reason = none;
}

abbrev willing : Services
willing calls call = made (txt "m1")

abbrev boss : ℕ → Reviewer
boss n = record { workspace_id = txt "w"; uc_uid = some (txt "u"); role = owner; now = n }

abbrev waiting : Store
waiting = record { requests = filed ∷ []; audit = []; calls = [] }

-- Two approvers and a rejection, with the second claim before the first replay.
abbrev reviews : List Event
reviews =
    begins (boss 1) (txt "r")
    ∷ begins (boss 2) (txt "r")
    ∷ finishes 0
    ∷ rejects (boss 3) (txt "r") none
    ∷ finishes 0
    ∷ []

abbrev reviewed_world : World
reviewed_world = happen_all willing default_provisioning_policy reviews (start waiting)

happen_all-once_example :
    (approvals (txt "w") (txt "r") reviewed_world.replayed ≤ 1)
    × ((approvals (txt "w") (txt "r") reviewed_world.claimed
            + approvals (txt "w") (txt "r") reviewed_world.replayed
          ≡ 0)
        ⊎ (any (claimable (txt "w") (txt "r")) reviewed_world.store.requests ≡ false))
happen_all-once_example =
    happen_all-once willing default_provisioning_policy reviews waiting (txt "w") (txt "r")
