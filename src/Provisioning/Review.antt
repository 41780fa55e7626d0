-- ===== src/Provisioning/Review.antt =====
-- `approve` and `reject` of backend/src/provisioning/provisioning-requests.service.ts. An approval is
-- a claim, the replay outside of any transaction and a stamp; other reviews may come in between.
use email_ops_community.Prelude.{
  ℕ, ◌==◌, Bool, not, Option, none, some, [], ◌++◌, keep, find, length, if◌then◌else◌,
}
use email_ops_community.Prelude.Text.{Text, txt, text_eq, is_empty}
use email_ops_community.Roles.{WorkspaceRole, role_at_least}
use email_ops_community.Provisioning.{ProvisioningPolicyShape}
use email_ops_community.Provisioning.Requests.{
  RequestState, approved, rejected, applied, failed, ProvisioningRequest, AuditKind,
  provision_applied, provision_failed, provision_rejected, Services, Store, is_request, claimable,
  update_where, record_event, Replayed, ended, broke, replay,
}

-- A request for a review: of which workspace and request, by whom and when.
pub record Reviewer : Type 0 where
  pub workspace_id : Text
  pub uc_uid : Option Text
  pub role : WorkspaceRole
  pub now : ℕ

-- An approval that has won its claim, with the row that it has read.
pub record Claimed : Type 0 where
  pub reviewer : Reviewer
  pub request : ProvisioningRequest

pub data Begun : Type 0 where
  not_approver not_found : Begun
  conflict : RequestState → Begun
  won : Claimed → Begun

abbrev pub reviewed : RequestState → Reviewer → ProvisioningRequest → ProvisioningRequest
reviewed st by r = record r {
  state = st;
  reviewed_by_uc_uid = by.uc_uid;
  reviewed_at = some by.now;
}

-- The conditional write, and the number of the rows that it has changed.
abbrev pub claim : (ProvisioningRequest → ProvisioningRequest) → Reviewer → Text → Store → ℕ × Store
claim change by id s = (
  length (keep (claimable by.workspace_id id) s.requests),
  record s { requests = update_where (claimable by.workspace_id id) change s.requests },
)

abbrev pub lost : Reviewer → Text → Store → Begun
lost by id s = elim (find (is_request by.workspace_id id) s.requests) [
  | none ↦ not_found
  | some r ↦ conflict r.state
]

abbrev pub read_back : Reviewer → Text → Store → Begun
read_back by id s = elim (find (is_request by.workspace_id id) s.requests) [
  | none ↦ not_found
  | some r ↦ won (record { reviewer = by; request = r })
]

abbrev pub assert_approver : ProvisioningPolicyShape → Reviewer → Bool
assert_approver policy by = role_at_least by.role policy.approver_min_role

-- The first part of `approve`.
unfoldable pub begin_approval : ProvisioningPolicyShape → Reviewer → Text → Store → Begun × Store
begin_approval policy by id s =
    if not (assert_approver policy by)
    then (not_approver, s)
    else let (count, s') = claim (reviewed approved by) by id s in
      ((if count == 0 then lost by id s' else read_back by id s'), s')

-- The stamp by the outcome; a message that is empty does not count as a failure.
abbrev pub stamp : Reviewer → Replayed → ProvisioningRequest → ProvisioningRequest
stamp by (ended ref) r = record (reviewed applied by r) {
  applied_ref_id = some ref;
  applied_at = some by.now;
}
stamp by (broke why) r =
    if is_empty why
    then record (reviewed applied by r) { applied_ref_id = some []; applied_at = some by.now }
    else record (reviewed failed by r) { failure_reason = some why }

abbrev outcome_kind : Replayed → AuditKind
outcome_kind (ended ref) = provision_applied
outcome_kind (broke why) = if is_empty why then provision_applied else provision_failed

abbrev outcome_detail : Text → Replayed → Text
outcome_detail summary (ended ref) = summary
outcome_detail summary (broke why) =
    if is_empty why then summary else summary ++ txt " — FAILED: " ++ why

-- The rest of `approve`: the replay, the stamp and the audit event.
unfoldable pub finish_approval : Services → Claimed → Store → Store
unfolding replay
finish_approval services c s =
    let (outcome, calls) =
      replay services c.reviewer.workspace_id c.reviewer.uc_uid c.request s.calls in
    record_event
      (record {
        workspace_id = c.reviewer.workspace_id;
        kind = outcome_kind outcome;
        actor_uc_uid = c.reviewer.uc_uid;
        agent_key = c.request.requested_by_agent_key;
        detail = outcome_detail c.request.summary outcome;
      })
      (record s {
        requests =
            update_where (λ r. text_eq r.id c.request.id) (stamp c.reviewer outcome) s.requests;
        calls = calls;
      })

pub data Rejection : Type 0 where
  refused gone : Rejection
  already : RequestState → Rejection
  done : ProvisioningRequest → Rejection

abbrev missed : Option ProvisioningRequest → Rejection
missed none = gone
missed (some r) = already r.state

abbrev pub audit_rejection : Reviewer → Option ProvisioningRequest → Store → Rejection × Store
audit_rejection by none s = (gone, s)
audit_rejection by (some r) s = (
  done r,
  record_event
      (record {
        workspace_id = by.workspace_id;
        kind = provision_rejected;
        actor_uc_uid = by.uc_uid;
        agent_key = r.requested_by_agent_key;
        detail = r.summary;
      })
      s,
)

abbrev pub noted : Option Text → ProvisioningRequest → ProvisioningRequest
noted remark r = record r { review_note = remark }

-- `reject`, one transaction.
unfoldable pub reject :
    ProvisioningPolicyShape → Reviewer → Text → Option Text → Store → Rejection × Store
reject policy by id remark s =
    if not (assert_approver policy by)
    then (refused, s)
    else let (count, s') = claim (λ r. noted remark (reviewed rejected by r)) by id s in
      let row = find (is_request by.workspace_id id) s'.requests in
      if count == 0 then (missed row, s') else audit_rejection by row s'
