-- ===== src/Provisioning/Requests.antt =====
-- backend/src/provisioning/provisioning-requests.service.ts, the review of the requests, with
-- `authorize` and `fileRequest` of provisioning-policy.service.ts. The services that a replay calls
-- are a parameter; the effective policy is given.
use email_ops_community.Prelude.{
  ℕ, Bool, true, false, ◌&&◌, Option, none, some, List, [], ◌∷◌, ◌++◌, if◌then◌else◌,
}
use email_ops_community.Prelude.Text.{Text, txt, text_eq}
use email_ops_community.Json.{Json, obj, get}
use email_ops_community.Roles.{WorkspaceRole}
use email_ops_community.Provisioning.{
  ProvisioningMode, ProvisioningPolicyShape, ProvisionDecision, deny, decide_provision,
}

pub data ProvisionAction : Type 0 where
  agent_create agent_edit human_mailbox_create human_mailbox_edit agent_mailbox_create
        agent_mailbox_edit :
      ProvisionAction

unfoldable pub mode_for : ProvisioningPolicyShape → ProvisionAction → ProvisioningMode
mode_for p agent_create = p.agent_create_mode
mode_for p agent_edit = p.agent_edit_mode
mode_for p human_mailbox_create = p.human_mailbox_create_mode
mode_for p human_mailbox_edit = p.human_mailbox_edit_mode
mode_for p agent_mailbox_create = p.agent_mailbox_create_mode
mode_for p agent_mailbox_edit = p.agent_mailbox_edit_mode

-- `authorize`: the decision, none for the exception on a denial.
abbrev unless_denied : ProvisionDecision → Option ProvisionDecision
unless_denied deny = none
unless_denied d = some d

unfoldable pub authorize :
    ProvisioningPolicyShape → WorkspaceRole → ProvisionAction → Bool → Option ProvisionDecision
unfolding mode_for
authorize policy caller_role action is_self_own_mailbox = unless_denied (
    decide_provision caller_role (record {
      mode = mode_for policy action;
      approver_min_role = policy.approver_min_role;
      is_self_own_mailbox = is_self_own_mailbox;
      allow_self_service_own_mailbox = policy.allow_self_service_own_mailbox;
    }))

pub data ProvisionableKind : Type 0 where
  human_mailbox agent_mailbox agent_kind : ProvisionableKind

pub data RequestState : Type 0 where
  pending approved rejected canceled applied failed : RequestState

-- A row of mailbox_provisioning_requests.
pub record ProvisioningRequest : Type 0 where
  pub id : Text
  pub workspace_id : Text
  pub kind : ProvisionableKind
  pub action : Text
  pub state : RequestState
  pub payload : Json
  pub summary : Text
  pub requested_by_uc_uid : Option Text
  pub requested_by_agent_key : Option Text
  pub reviewed_by_uc_uid : Option Text
  pub reviewed_at : Option ℕ
  pub review_note : Option Text
  pub applied_ref_id : Option Text
  pub applied_at : Option ℕ
  pub failure_reason : Option Text

pub data AuditKind : Type 0 where
  provision_requested provision_applied provision_failed provision_rejected : AuditKind

pub record AuditEvent : Type 0 where
  pub workspace_id : Text
  pub kind : AuditKind
  pub actor_uc_uid : Option Text
  pub agent_key : Option Text
  pub detail : Text

-- What a replay asks of the services of mailboxes and agents.
pub data ServiceCall : Type 0 where
  create_mailbox create_agent :
      (workspace_id : Text) (uc_uid : Option Text) (payload : Json) → ServiceCall
  update_mailbox update_agent :
      (workspace_id : Text) (uc_uid : Option Text) (id patch : Option Json) → ServiceCall

-- The id of what was made or changed, nothing to change, or an exception.
pub data ServiceAnswer : Type 0 where
  made : Text → ServiceAnswer
  missing : ServiceAnswer
  threw : Text → ServiceAnswer

abbrev pub Services : Type 0
Services = List ServiceCall → ServiceCall → ServiceAnswer

pub record Store : Type 0 where
  pub requests : List ProvisioningRequest
  pub audit : List AuditEvent
  pub calls : List ServiceCall

abbrev pub is_request : Text → Text → ProvisioningRequest → Bool
is_request workspace_id id r = text_eq r.id id && text_eq r.workspace_id workspace_id

abbrev pub is_pending : RequestState → Bool
is_pending pending = true
is_pending _ = false

-- The condition of the conditional writes.
abbrev pub claimable : Text → Text → ProvisioningRequest → Bool
claimable workspace_id id r = is_request workspace_id id r && is_pending r.state

unfoldable pub update_where :
    (ProvisioningRequest → Bool)
    → (ProvisioningRequest → ProvisioningRequest)
    → List ProvisioningRequest
    → List ProvisioningRequest
update_where p change [] = []
update_where p change (r ∷ rows) = (if p r then change r else r) ∷ update_where p change rows

abbrev pub record_event : AuditEvent → Store → Store
record_event e s = record s { audit = s.audit ++ e ∷ [] }

-- `fileRequest`.
abbrev pub file_request :
    Text → Text → Option Text → ProvisionableKind → Text → Json → Text → Option Text → Store → Store
file_request id workspace_id uc_uid kind action payload summary agent_key s =
    record_event
      (record {
        workspace_id = workspace_id;
        kind = provision_requested;
        actor_uc_uid = uc_uid;
        agent_key = agent_key;
        detail = summary;
      })
      (record s {
        requests =
            s.requests
            ++ record {
              id = id;
              workspace_id = workspace_id;
              kind = kind;
              action = action;
              state = pending;
              payload = payload;
              summary = summary;
              requested_by_uc_uid = uc_uid;
              requested_by_agent_key = agent_key;
              reviewed_by_uc_uid = none;
              reviewed_at = none;
              review_note = none;
              applied_ref_id = none;
              applied_at = none;
              failure_reason = none;
            }
              ∷ [];
      })

abbrev id_in : Json → Option Json
id_in (obj fs) = get "id" fs
id_in _ = none

abbrev patch_in : Json → Option Json
patch_in (obj fs) = get "patch" fs
patch_in _ = none

-- The call of a replay by the kind and the action, none where they are unsupported.
abbrev mailbox_call : Text → Option Text → ProvisioningRequest → Option ServiceCall
mailbox_call w u req =
    if text_eq req.action (txt "create")
    then some (create_mailbox w u req.payload)
    else if text_eq req.action (txt "update")
    then some (update_mailbox w u (id_in req.payload) (patch_in req.payload))
    else none

abbrev agent_call : Text → Option Text → ProvisioningRequest → Option ServiceCall
agent_call w u req =
    if text_eq req.action (txt "create")
    then some (create_agent w u req.payload)
    else if text_eq req.action (txt "update")
    then some (update_agent w u (id_in req.payload) (patch_in req.payload))
    else none

unfoldable pub replay_call : Text → Option Text → ProvisioningRequest → Option ServiceCall
unfolding get
replay_call w u req = elim req.kind [
  | human_mailbox ↦ mailbox_call w u req
  | agent_mailbox ↦ mailbox_call w u req
  | agent_kind ↦ agent_call w u req
]

-- The id that a replay ends with, or the message of its exception.
pub data Replayed : Type 0 where
  ended broke : Text → Replayed

abbrev answered : ServiceAnswer → Replayed
answered (made id) = ended id
answered missing = ended []
answered (threw why) = broke why

abbrev kind_name : ProvisionableKind → Text
kind_name human_mailbox = txt "HUMAN_MAILBOX"
kind_name agent_mailbox = txt "AGENT_MAILBOX"
kind_name agent_kind = txt "AGENT"

unfoldable pub replay :
    Services
    → Text
    → Option Text
    → ProvisioningRequest
    → List ServiceCall
    → Replayed × List ServiceCall
unfolding replay_call
replay services w u req calls = elim (replay_call w u req) [
  | none ↦ (
    broke (txt "Unsupported provisioning request: " ++ kind_name req.kind ++ txt "/" ++ req.action),
    calls,
  )
  | some c ↦ (answered (services calls c), calls ++ c ∷ [])
]
