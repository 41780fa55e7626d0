-- ===== src/Autonomy/Matrix.antt =====
-- When the matrix of backend/src/email/autonomy.ts lets an agent's mail leave by itself.
use email_ops_community.Prelude.{
  ◌≤◌, ◌≡◌, ◌≢◌, refl, ◌↔◌, ◌⊎◌, inl, inr, true, false, some, List, [], ◌∷◌, arith, All, keep,
  length, ltb, keep-empty, All-keep,
}
use email_ops_community.Prelude.Text.{Text, has_text}
use email_ops_community.Autonomy.{
  AgentAutonomyLevel, l0_draft_only, l1_approve_to_send, l2_autonomous_audit, AutonomyAgent,
  AgentComposeContext, MailboxClass, send, ComposeArgs, PolicyReason, is_external_recipient,
  parse_recipient_policy, routine_reasons, settle, class_b, matrix, agent_gate,
  decide_agent_compose_mode,
}
use email_ops_community.Autonomy.Split.{IsRoutine, routine_reasons-nil, split_recipients-external}

-- The external recipients of a compose, as the policy of the workspace sees them.
abbrev pub externals : AgentComposeContext → List Text
externals ctx = keep (λ r. is_external_recipient r ctx.internal_domains) ctx.recipients

abbrev pub AllInternal : AgentComposeContext → Type 0
AllInternal ctx = All (λ r. is_external_recipient r ctx.internal_domains ≡ false) ctx.recipients

-- Every recipient that is external is a trusted correspondent.
abbrev pub ExternalsTrusted : AgentComposeContext → Type 0
ExternalsTrusted ctx =
    All
      (λ r.
        is_external_recipient r ctx.internal_domains ≡ true
        → has_text ctx.trusted_addresses r ≡ true)
      ctx.recipients

-- What the matrix asks of the agent and the message, for an agent's own mailbox.
abbrev pub MayRelease : AutonomyAgent → AgentComposeContext → Type 0
MayRelease a ctx =
    (a.autonomy_level ≢ l0_draft_only)
    × (AllInternal ctx
        ⊎ ((a.autonomy_level ≡ l2_autonomous_audit)
            × ((parse_recipient_policy a.recipient_policy).require_approval_for_external ≡ false)
            × (ctx.autonomous_send_enabled ≡ true)
            × (ctx.is_in_thread_reply_to_inbound ≡ true)
            × (ctx.attachment_count ≡ 0)
            × (length (externals ctx) ≤ 5)
            × ExternalsTrusted ctx))

settle-send : (rs : List PolicyReason) → ((settle rs).mode ≡ send) ↔ (rs ≡ [])
settle-send [] = ground arith
settle-send (r ∷ rs) = ground arith

class_b-send :
    (l : AgentAutonomyLevel) (a : AutonomyAgent) (ctx : AgentComposeContext) (ext : List Text)
    → ((class_b l a ctx ext).mode ≡ send) ↔ (
        (l ≢ l0_draft_only)
        × ((ltb 0 (length ext) ≡ false)
            ⊎ ((l ≡ l2_autonomous_audit)
                × ((parse_recipient_policy a.recipient_policy).require_approval_for_external
                    ≡ false)
                × IsRoutine ctx ext)))
unfolding class_b
class_b-send l0_draft_only a ctx ext = ground arith
class_b-send l1_approve_to_send a ctx ext = ground arith
class_b-send l2_autonomous_audit a ctx ext =
    ground (arith, settle-send (routine_reasons ctx ext), routine_reasons-nil ctx ext)

class_b-externals :
    (a : AutonomyAgent) (ctx : AgentComposeContext)
    → ((class_b a.autonomy_level a ctx (externals ctx)).mode ≡ send) ↔ MayRelease a ctx
class_b-externals a ctx =
    let external = λ (r : Text). is_external_recipient r ctx.internal_domains in
    let trusted = λ (r : Text). has_text ctx.trusted_addresses r ≡ true in
    let (to, from) = class_b-send a.autonomy_level a ctx (externals ctx) in
    let (none_kept, keeps_none) = keep-empty external ctx.recipients in
    let (all_of, all_to) = All-keep external trusted ctx.recipients in
    (
      (λ h. elim (to h).1 [
        | inl e ↦ ((to h).0, inl (none_kept e))
        | inr (l, p, r) ↦ ((to h).0, inr (l, p, r.0, r.1, r.2, r.3, all_of r.4))
      ]),
      (λ h. elim h.1 [
        | inl e ↦ from (h.0, inl (keeps_none e))
        | inr (l, p, r0, r1, r2, r3, r4) ↦ from (h.0, inr (l, p, (r0, r1, r2, r3, all_to r4)))
      ]),
    )

matrix-send :
    (m : MailboxClass) (a : AutonomyAgent) (ctx : AgentComposeContext)
    → ((matrix m a ctx).mode ≡ send) ↔ ((m ≡ MailboxClass.agent) × MayRelease a ctx)
unfolding matrix
matrix-send MailboxClass.agent a ctx =
    let (to, from) = class_b-externals a ctx in
    rw split_recipients-external ((λ h. (refl, to h)), (λ h. from h.1))
matrix-send MailboxClass.user a ctx = ground arith
matrix-send MailboxClass.unknown a ctx = ground arith

-- For a registered agent that asks to send, with a context: the mail leaves without a human exactly
-- when the sending mailbox is an agent's own, the agent is not draft-only, and either no recipient
-- is external (an L1 agent's mail leaves too), or the agent is L2, its policy asks for no approval of
-- external mail, the global
-- switch is on, the mail answers an inbound one, it has no attachment, at most five recipients are
-- external and each of them is a trusted correspondent.
pub decide_agent_compose_mode-send :
    (args : ComposeArgs) (a : AutonomyAgent) (ctx : AgentComposeContext)
    → args.requested_mode ≡ send
    → args.agent ≡ some a
    → args.agent_context ≡ some ctx
    → ((decide_agent_compose_mode args).mode ≡ send)
      ↔ ((ctx.mailbox_class ≡ MailboxClass.agent) × MayRelease a ctx)
unfolding decide_agent_compose_mode
decide_agent_compose_mode-send args a ctx asked registered given =
    rw (asked, registered, given, agent_gate) (matrix-send ctx.mailbox_class a ctx)
