-- ===== src/Autonomy/Consistency.antt =====
-- What holds of every decision of backend/src/email/autonomy.ts, on every branch.
use email_ops_community.Prelude.{
  ◌≤◌, ◌≡◌, ◌≢◌, refl, ◌↔◌, ◌⊎◌, inl, inr, Bool, true, false, Option, none, some, List, [], ◌∷◌,
  arith, ℕ, All-weaken,
}
use email_ops_community.Prelude.Text.{Text, has_text}
use email_ops_community.Autonomy.{
  AgentAutonomyLevel, l0_draft_only, l1_approve_to_send, l2_autonomous_audit, AutonomyAgent,
  AgentComposeContext, MailboxClass, Mode, send, draft, ComposeArgs, PolicyReason,
  AgentComposeDecision, is_external_recipient, parse_recipient_policy, routine_reasons, settle,
  class_b, matrix, agent_gate, decide_agent_compose_mode, base_gate, dial, decide_compose_mode,
  with_base_reasons,
}
use email_ops_community.Autonomy.Matrix.{MayRelease, decide_agent_compose_mode-send}

-- A decision fits the mode that was asked for, and gives reasons exactly for a downgrade.
abbrev pub Fits : Mode → AgentComposeDecision → Type 0
Fits asked d =
    ((d.coerced ≡ true) ↔ ((asked ≡ send) × (d.mode ≡ draft)))
    × ((d.reasons ≡ []) ↔ (d.coerced ≡ false))
    × (asked ≡ draft → d.mode ≡ draft)

settle-Fits : (rs : List PolicyReason) → Fits send (settle rs)
settle-Fits [] = ground arith
settle-Fits (r ∷ rs) = ground arith

class_b-Fits :
    (l : AgentAutonomyLevel) (a : AutonomyAgent) (ctx : AgentComposeContext) (ext : List Text)
    → Fits send (class_b l a ctx ext)
unfolding class_b
class_b-Fits l0_draft_only a ctx ext = ground arith
class_b-Fits l1_approve_to_send a ctx ext = ground arith
class_b-Fits l2_autonomous_audit a ctx ext = ground (arith, settle-Fits (routine_reasons ctx ext))

matrix-Fits :
    (m : MailboxClass) (a : AutonomyAgent) (ctx : AgentComposeContext) → Fits send (matrix m a ctx)
unfolding matrix
matrix-Fits MailboxClass.agent a ctx = class_b-Fits a.autonomy_level a ctx _
matrix-Fits _ a ctx = ground arith

dial-Fits :
    (l : AgentAutonomyLevel) (a : AutonomyAgent) (to : Text)
    → Fits send (with_base_reasons (dial a l to))
unfolding dial with_base_reasons
dial-Fits l2_autonomous_audit a to = ground arith
dial-Fits _ a to = ground arith

base_gate-Fits :
    (asked : Mode) (o : Option AutonomyAgent) (to : Text) (t : Bool)
    → Fits asked (with_base_reasons (base_gate asked o to t))
unfolding base_gate with_base_reasons
base_gate-Fits draft o to t = ground arith
base_gate-Fits send none to t = ground arith
base_gate-Fits send (some a) to t = unfold with_base_reasons in dial-Fits a.autonomy_level a to

agent_gate-Fits :
    (asked : Mode) (o : Option AutonomyAgent) (c : Option AgentComposeContext) (args : ComposeArgs)
    → Fits asked (with_base_reasons (decide_compose_mode args))
    → Fits asked (agent_gate asked o c args)
unfolding agent_gate
agent_gate-Fits send (some a) (some ctx) args h = matrix-Fits ctx.mailbox_class a ctx
agent_gate-Fits _ _ _ args h = h

-- Whatever the arguments: the decision is marked as coerced exactly when a send was asked for and a
-- draft came out, it carries reasons exactly when it is coerced, and a requested draft stays one.
pub decide_agent_compose_mode-Fits :
    (args : ComposeArgs) → Fits args.requested_mode (decide_agent_compose_mode args)
unfolding decide_agent_compose_mode decide_compose_mode
decide_agent_compose_mode-Fits args =
    agent_gate-Fits args.requested_mode args.agent args.agent_context args
      (base_gate-Fits args.requested_mode args.agent args.to_address args.trusted_unregistered_send)

-- When the base gate lets a requested send pass.
abbrev pub BaseMaySend : Option AutonomyAgent → Text → Bool → Type 0
BaseMaySend none to trusted = trusted ≡ true
BaseMaySend (some a) to trusted =
    (a.autonomy_level ≡ l2_autonomous_audit)
    × (((parse_recipient_policy a.recipient_policy).require_approval_for_external ≡ false)
        ⊎ (is_external_recipient to (parse_recipient_policy a.recipient_policy).internal_domains
            ≡ false))

dial-send :
    (l : AgentAutonomyLevel) (a : AutonomyAgent) (to : Text)
    → ((dial a l to).mode ≡ send) ↔ (
        (l ≡ l2_autonomous_audit)
        × (((parse_recipient_policy a.recipient_policy).require_approval_for_external ≡ false)
            ⊎ (is_external_recipient to (parse_recipient_policy a.recipient_policy).internal_domains
                ≡ false)))
unfolding dial
dial-send l2_autonomous_audit a to = ground arith
dial-send l0_draft_only a to = ground arith
dial-send l1_approve_to_send a to = ground arith

base_gate-send :
    (asked : Mode) (o : Option AutonomyAgent) (to : Text) (t : Bool)
    → ((base_gate asked o to t).mode ≡ send) ↔ ((asked ≡ send) × BaseMaySend o to t)
unfolding base_gate
base_gate-send draft o to t = ground arith
base_gate-send send none to t = ground arith
base_gate-send send (some a) to t =
    let (f, g) = dial-send a.autonomy_level a to in ((λ h. (refl, f h)), (λ h. g h.1))

agent_gate-none :
    (asked : Mode) (o : Option AutonomyAgent) (args : ComposeArgs)
    → agent_gate asked o none args ≡ with_base_reasons (decide_compose_mode args)
unfolding agent_gate
agent_gate-none draft none args = refl
agent_gate-none draft (some a) args = refl
agent_gate-none send none args = refl
agent_gate-none send (some a) args = refl

gate_of_none :
    (asked : Mode) (o : Option AutonomyAgent) (c : Option AgentComposeContext) (args : ComposeArgs)
    → c ≡ none
    → agent_gate asked o c args ≡ with_base_reasons (decide_compose_mode args)
gate_of_none asked o c args h = rw h (agent_gate-none asked o args)

-- Without a context the decision is the base gate's, which sends exactly when a send was asked for
-- and either the source is unregistered and trusted, or the agent is L2 and its policy, if it asks
-- for approval of external mail, counts the recipient as internal.
pub decide_agent_compose_mode_without_context :
    (args : ComposeArgs)
    → args.agent_context ≡ none
    → ((decide_agent_compose_mode args).decision ≡ decide_compose_mode args)
      × (((decide_agent_compose_mode args).mode ≡ send) ↔ (
          (args.requested_mode ≡ send)
          × BaseMaySend args.agent args.to_address args.trusted_unregistered_send))
unfolding decide_agent_compose_mode decide_compose_mode with_base_reasons
decide_agent_compose_mode_without_context args h =
    rw (gate_of_none args.requested_mode args.agent args.agent_context args h) (
      refl,
      base_gate-send args.requested_mode args.agent args.to_address args.trusted_unregistered_send,
    )

-- The order of the dial.
abbrev pub dial_rank : AgentAutonomyLevel → ℕ
dial_rank l0_draft_only = 0
dial_rank l1_approve_to_send = 1
dial_rank l2_autonomous_audit = 2

level_up :
    (l m : AgentAutonomyLevel) → dial_rank l ≤ dial_rank m → l ≢ l0_draft_only → m ≢ l0_draft_only
level_up l0_draft_only m h n = λ e. n refl
level_up l1_approve_to_send m h n = ground arith
level_up l2_autonomous_audit m h n = ground arith

level_top :
    (l m : AgentAutonomyLevel)
    → dial_rank l ≤ dial_rank m
    → l ≡ l2_autonomous_audit
    → m ≡ l2_autonomous_audit
level_top l m h e = ground arith

MayRelease-TrustsMore :
    (a b : AutonomyAgent) (c : AgentComposeContext) (ts : List Text)
    → dial_rank a.autonomy_level ≤ dial_rank b.autonomy_level
    → b.recipient_policy ≡ a.recipient_policy
    → ((r : Text) → has_text c.trusted_addresses r ≡ true → has_text ts r ≡ true)
    → MayRelease a c
    → MayRelease b (record c { trusted_addresses = ts })
MayRelease-TrustsMore a b c ts up same trusts (n, allowed) = (
  level_up a.autonomy_level b.autonomy_level up n,
  elim allowed [
    | inl internal ↦ inl internal
    | inr (l, p, r0, r1, r2, r3, r4) ↦ inr (
      level_top a.autonomy_level b.autonomy_level up l,
      rw same p,
      r0,
      r1,
      r2,
      r3,
      All-weaken _ _ (λ r h x. trusts r (h x)) c.recipients r4,
    )
  ],
)

-- Trust and the dial only open: with a higher autonomy level, the same policy and at least the same
-- trusted correspondents, mail that left without a human still does.
pub decide_agent_compose_mode_monotone :
    (args : ComposeArgs) (a b : AutonomyAgent) (c : AgentComposeContext) (ts : List Text)
    → args.requested_mode ≡ send
    → args.agent ≡ some a
    → args.agent_context ≡ some c
    → dial_rank a.autonomy_level ≤ dial_rank b.autonomy_level
    → b.recipient_policy ≡ a.recipient_policy
    → ((r : Text) → has_text c.trusted_addresses r ≡ true → has_text ts r ≡ true)
    → (decide_agent_compose_mode args).mode ≡ send
    → (decide_agent_compose_mode (record args {
      agent = some b;
      agent_context = some (record c { trusted_addresses = ts });
    })).mode
      ≡ send
decide_agent_compose_mode_monotone args a b c ts asked registered given up same trusts sent =
    let (class, may) = (decide_agent_compose_mode-send args a c asked registered given).0 sent in
    (decide_agent_compose_mode-send _ b _ asked refl refl).1
      (class, MayRelease-TrustsMore a b c ts up same trusts may)
