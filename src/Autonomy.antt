-- ===== src/Autonomy.antt =====
-- backend/src/email/autonomy.ts: the decision of the effective compose mode.
pub mod Split
pub mod Matrix
pub mod Consistency
mod Tests
use email_ops_community.Prelude.{
  ℕ, suc, ◌-◌, Bool, true, false, not, ◌&&◌, Option, none, some, List, [], ◌∷◌, ◌++◌, map, ltb, leb,
  length, take, drop, keep, if◌then◌else◌,
}
use email_ops_community.Prelude.Text.{
  Text, txt, text_eq, trim, to_lower_case, last_index_of, strip_at, has_text, is_empty, ends_with,
  decimal,
}
use email_ops_community.Json.{Json, obj, get, as_array, is_true, strings, Items}

pub data AgentAutonomyLevel : Type 0 where
  l0_draft_only l1_approve_to_send l2_autonomous_audit : AgentAutonomyLevel

pub record AutonomyAgent : Type 0 where
  pub key : Text
  pub autonomy_level : AgentAutonomyLevel
  pub recipient_policy : Json

pub record RecipientPolicy : Type 0 where
  pub require_approval_for_external : Bool
  pub internal_domains : List Text

abbrev pub empty_policy : RecipientPolicy
empty_policy = record { require_approval_for_external = false; internal_domains = [] }

-- The filter, map and filter over `obj.internalDomains`.
parse_domains : Option Items → List Text
parse_domains none = []
parse_domains (some items) =
    keep (λ d. not (is_empty d)) (map (λ d. strip_at (to_lower_case (trim d))) (strings items))

unfoldable pub parse_recipient_policy : Json → RecipientPolicy
unfolding parse_domains
parse_recipient_policy (obj fs) = record {
  require_approval_for_external = is_true (get "requireApprovalForExternal" fs);
  internal_domains = parse_domains (as_array (get "internalDomains" fs));
}
parse_recipient_policy _ = empty_policy

-- The domain of an address, empty if it has no '@'.
unfoldable pub recipient_domain : Text → Text
recipient_domain to_address = elim (last_index_of b'@' to_address) [
  | some at ↦ to_lower_case (trim (drop (suc at) to_address))
  | none ↦ []
]

unfoldable pub is_external_recipient : Text → List Text → Bool
unfolding recipient_domain
is_external_recipient to_address internal_domains =
    let domain = recipient_domain to_address in
    if is_empty domain
    then true
    else if ltb 0 (length internal_domains)
    then not (has_text internal_domains domain)
    else true

pub data Mode : Type 0 where
  send draft : Mode

pub record PolicyReason : Type 0 where
  pub code : Text
  pub message : Text

pub data MailboxClass : Type 0 where
  user agent unknown : MailboxClass

pub record AgentComposeContext : Type 0 where
  pub mailbox_class : MailboxClass
  pub internal_domains : List Text
  pub recipients : List Text
  pub is_in_thread_reply_to_inbound : Bool
  pub attachment_count : ℕ
  pub trusted_addresses : List Text
  pub autonomous_send_enabled : Bool

pub record ComposeModeDecision : Type 0 where
  pub mode : Mode
  pub coerced : Bool
  pub reason : Text

pub record AgentComposeDecision : Type 0 where
  pub decision : ComposeModeDecision
  pub open decision use *
  pub reasons : List PolicyReason

pub record ComposeArgs : Type 0 where
  pub requested_mode : Mode
  pub agent : Option AutonomyAgent
  pub to_address : Text
  pub trusted_unregistered_send : Bool
  pub agent_context : Option AgentComposeContext

abbrev pub max_routine_external_recipients : ℕ
max_routine_external_recipients = 5

abbrev pub max_first_contact_reasons : ℕ
max_first_contact_reasons = 5

-- The loop of `splitRecipients`, with its two arrays.
unfoldable pub split_recipients : List Text → List Text → List Text × List Text
split_recipients [] internal_domains = ([], [])
split_recipients (addr ∷ recipients) internal_domains =
    let (internal, external) = split_recipients recipients internal_domains in
    if is_external_recipient addr internal_domains
    then (internal, addr ∷ external)
    else (addr ∷ internal, external)

abbrev decide : Mode → Bool → Text → ComposeModeDecision
decide mode coerced reason = record { mode = mode; coerced = coerced; reason = reason }

abbrev level_name : AgentAutonomyLevel → Text
level_name l0_draft_only = txt "L0_DRAFT_ONLY"
level_name l1_approve_to_send = txt "L1_APPROVE_TO_SEND"
level_name l2_autonomous_audit = txt "L2_AUTONOMOUS_AUDIT"

-- The registered agent's branch of `decideComposeMode`, for a requested send.
dial : AutonomyAgent → AgentAutonomyLevel → Text → ComposeModeDecision
dial a l2_autonomous_audit to_address =
    let policy = parse_recipient_policy a.recipient_policy in
    if policy.require_approval_for_external
      && is_external_recipient to_address policy.internal_domains
    then decide draft true (txt "L2-external-recipient-requires-approval")
    else decide send false (txt "L2-autonomous-audited")
dial a level to_address = decide draft true (level_name level ++ txt "-requires-approval")

base_gate : Mode → Option AutonomyAgent → Text → Bool → ComposeModeDecision
base_gate draft a to_address trusted = decide draft false (txt "requested-draft")
base_gate send none to_address trusted =
    if trusted
    then decide send false (txt "unregistered-trusted-source")
    else decide draft true (txt "unregistered-untrusted-source-fail-safe")
base_gate send (some a) to_address trusted = dial a a.autonomy_level to_address

unfoldable pub decide_compose_mode : ComposeArgs → ComposeModeDecision
unfolding base_gate dial
decide_compose_mode args =
    base_gate args.requested_mode args.agent args.to_address args.trusted_unregistered_send

abbrev pub fail_safe : Text
fail_safe = txt "unregistered-untrusted-source-fail-safe"

unfoldable pub base_reason_code : Text → Text
base_reason_code reason =
    if text_eq reason fail_safe
    then txt "untrusted-source"
    else if ends_with reason (txt "-requires-approval")
    then txt "autonomy-dial"
    else reason

unfoldable pub base_reason_message : Text → Text
base_reason_message reason =
    if text_eq reason fail_safe
    then txt "Unregistered, untrusted source — the send was staged for a human approval."
    else txt "The agent autonomy dial requires a human approval for this send."

-- `addresses.join(', ')`.
join_comma : List Text → Text
join_comma [] = []
join_comma (a ∷ []) = a
join_comma (a ∷ b ∷ rest) = a ++ txt ", " ++ join_comma (b ∷ rest)

unfoldable pub summarize : List Text → Text
unfolding join_comma
summarize addresses =
    let head = join_comma (take 3 addresses) in
    if ltb 3 (length addresses)
    then head ++ txt ", +" ++ decimal (length addresses - 3) ++ txt " more"
    else head

abbrev hold : List PolicyReason → Text → AgentComposeDecision
hold reasons reason = record { decision = decide draft true reason; reasons = reasons }

abbrev release : Text → AgentComposeDecision
release reason = record { decision = decide send false reason; reasons = [] }

abbrev because : Bool → Text → Text → List PolicyReason
because failed code message = if failed then record { code = code; message = message } ∷ [] else []

first_contact : Text → PolicyReason
first_contact addr = record {
  code = txt "first-contact";
  message = txt "First contact with " ++ addr ++ txt " — approve once to trust this correspondent.";
}

-- Every failed condition of the ROUTINE check, in the order of the source.
unfoldable pub routine_reasons : AgentComposeContext → List Text → List PolicyReason
unfolding first_contact
routine_reasons ctx external =
    let untrusted = keep (λ addr. not (has_text ctx.trusted_addresses addr)) external in
    because (not ctx.autonomous_send_enabled) (txt "autonomous-send-disabled")
      (txt "Autonomous agent sends are globally disabled (AGENT_AUTONOMOUS_SEND_ENABLED=false).")
    ++ because (not ctx.is_in_thread_reply_to_inbound) (txt "cold-outbound") (
        txt
          "Not a reply to an inbound message from these recipients — cold outreach always needs a human approval.")
    ++ because (ltb 0 ctx.attachment_count) (txt "attachment") (
        txt "Carries "
        ++ decimal ctx.attachment_count
        ++ txt " attachment(s) — attachments always need a human approval.")
    ++ because (ltb max_routine_external_recipients (length external)) (txt "bulk-external")
        (decimal (length external) ++ txt " external recipients (max 5 for an autonomous send).")
    ++ map first_contact (take max_first_contact_reasons untrusted)
    ++ because (ltb max_first_contact_reasons (length untrusted)) (txt "first-contact") (
        txt "…and "
        ++ decimal (length untrusted - max_first_contact_reasons)
        ++ txt " more first-contact recipient(s).")

abbrev settle : List PolicyReason → AgentComposeDecision
settle [] = release (txt "L2-routine-external-autonomous")
settle (r ∷ reasons) = hold (r ∷ reasons) (txt "L2-external-not-routine")

-- The part of the matrix for an agent's own mailbox.
class_b :
    AgentAutonomyLevel → AutonomyAgent → AgentComposeContext → List Text → AgentComposeDecision
class_b l0_draft_only a ctx external =
    hold
      (because true (txt "l0-draft-only")
        (txt "This agent is draft-only (L0) — every send needs a human approval."))
      (txt "L0_DRAFT_ONLY-requires-approval")
class_b l1_approve_to_send a ctx external =
    if ltb 0 (length external)
    then hold
        (because true (txt "l1-external") (
          txt "This agent (L1) sends internally on its own; external recipients ("
          ++ summarize external
          ++ txt ") need a human approval."))
        (txt "L1-external-requires-approval")
    else release (txt "L1-internal-autonomous")
class_b l2_autonomous_audit a ctx external =
    if ltb 0 (length external)
    then if (parse_recipient_policy a.recipient_policy).require_approval_for_external
      then hold
          (because true (txt "l2-external-policy")
            (txt "This agent's recipient policy requires human approval for all external mail."))
          (txt "L2-external-recipient-requires-approval")
      else settle (routine_reasons ctx external)
    else release (txt "L2-internal-autonomous")

matrix : MailboxClass → AutonomyAgent → AgentComposeContext → AgentComposeDecision
matrix agent a ctx =
    class_b a.autonomy_level a ctx (split_recipients ctx.recipients ctx.internal_domains).1
matrix _ a ctx =
    hold
      (because true (txt "class-a-mailbox") (
        txt
          "This is a human/shared mailbox — agent-initiated mail from it always needs a human approval."))
      (txt "class-a-mailbox-requires-approval")

with_base_reasons : ComposeModeDecision → AgentComposeDecision
with_base_reasons base = record {
  decision = base;
  reasons = because base.coerced (base_reason_code base.reason) (base_reason_message base.reason);
}

agent_gate :
    Mode → Option AutonomyAgent → Option AgentComposeContext → ComposeArgs → AgentComposeDecision
agent_gate send (some a) (some ctx) args = matrix ctx.mailbox_class a ctx
agent_gate _ _ _ args = with_base_reasons (decide_compose_mode args)

unfoldable pub decide_agent_compose_mode : ComposeArgs → AgentComposeDecision
unfolding agent_gate matrix class_b with_base_reasons
decide_agent_compose_mode args = agent_gate args.requested_mode args.agent args.agent_context args
