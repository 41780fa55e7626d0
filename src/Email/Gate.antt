-- ===== src/Email/Gate.antt =====
-- When a message of a registered agent leaves without a human: `composeEmail` of
-- backend/src/email/email.service.ts with the matrix of backend/src/email/autonomy.ts.
use email_ops_community.Prelude.{
  ◌≡◌, ◌↔◌, ◌∙◌, ap, refl, sym, Bool, true, false, not, Option, none, some, arith, Option-cases,
  inl, inr, ◌⊎◌, if◌then◌else◌,
}
use email_ops_community.Prelude.Text.{Text}
use email_ops_community.Autonomy.{Mode, send, draft, AgentComposeDecision, MailboxClass}
use email_ops_community.Autonomy.Matrix.{MayRelease, decide_agent_compose_mode-send}
use email_ops_community.Autonomy.Consistency.{decide_agent_compose_mode-Fits}
use email_ops_community.Email.{Store, Directory, Agent}
use email_ops_community.Email.Context.{ComposeInput, build_agent_compose_context, mailbox_class_of}
use email_ops_community.Email.Compose.{
  find_ref, agent_of, is_paused, explicit_from, may_send_as, mailbox_of, compose_args,
  compose_decision, SendPlan, ComposePrep, refused, to_send,
}
use email_ops_community.Email.Phases.{by_mode, prepare_new, compose_prepare}
use email_ops_community.Email.Addressees.{addressees}
use email_ops_community.Email.Released.{ReleasedTo, MayRelease-ReleasedTo}
use email_ops_community.Email.Once.{compose_prepare-find_ref, compose_prepare-fresh}

-- Phase 1 leaves a message for the engine.
unfoldable pub Sends : ComposePrep × Store → Type 0
Sends p = (plan : SendPlan) × (p.0 ≡ to_send plan)

Sends-guard :
    (b : Bool) (why : Text) (s : Store) (p : ComposePrep × Store) (P : Type 0)
    → Sends p ↔ P
    → Sends (if b then (refused why, s) else p) ↔ ((b ≡ false) × P)
unfolding Sends
Sends-guard true why s p P h = ground arith
Sends-guard false why s p P h = ((λ x. (refl, h.0 x)), (λ x. h.1 x.1))

Sends-guard_not :
    (b : Bool) (why : Text) (s : Store) (p : ComposePrep × Store) (P : Type 0)
    → Sends p ↔ P
    → Sends (if not b then (refused why, s) else p) ↔ ((b ≡ true) × P)
unfolding Sends
Sends-guard_not false why s p P h = ground arith
Sends-guard_not true why s p P h = ((λ x. (refl, h.0 x)), (λ x. h.1 x.1))

Sends-by_mode :
    (dir : Directory) (id item w : Text) (u : Option Text) (input : ComposeInput)
    (d : AgentComposeDecision) (s : Store) (mode : Mode)
    → Sends (by_mode dir id item w u input d s mode) ↔ (mode ≡ send)
unfolding Sends
Sends-by_mode dir id item w u input d s send = ((λ h. refl), (λ h. (_, refl)))
Sends-by_mode dir id item w u input d s draft = ground arith

Sends-prepare_new :
    (dir : Directory) (id item w : Text) (u : Option Text) (input : ComposeInput) (s : Store)
    → Sends (prepare_new dir id item w u input s) ↔ (
        (dir.agents_paused w ≡ false)
        × (is_paused (agent_of dir w input) ≡ false)
        × (may_send_as dir u (explicit_from dir w input) ≡ true)
        × ((compose_decision dir w input s).mode ≡ send))
unfolding prepare_new
Sends-prepare_new dir id item w u input s =
    let d = compose_decision dir w input s in
    let h = Sends-guard (dir.agents_paused w) _ s _ _ (
      Sends-guard (is_paused (agent_of dir w input)) _ s _ _ (
        Sends-guard_not (may_send_as dir u (explicit_from dir w input)) _ s _ _
          (Sends-by_mode dir id item w u input d s d.mode))) in
    (
      (λ x. let (a, t) = h.0 x in let (b, t2) = t in let (c, d2) = t2 in (a, b, c, d2)),
      (λ x. h.1 (x.0, (x.1, (x.2, x.3)))),
    )

Sends-compose_prepare :
    (dir : Directory) (id item w : Text) (u : Option Text) (input : ComposeInput) (s : Store)
    → Sends (compose_prepare dir id item w u input s) ↔ (
        (find_ref w input.external_source input.external_ref s ≡ none)
        × Sends (prepare_new dir id item w u input s))
unfolding Sends
Sends-compose_prepare dir id item w u input s =
    elim (Option-cases (find_ref w input.external_source input.external_ref s)) [
      | inl e ↦ rw (compose_prepare-fresh dir id item w u input s e) ((λ x. (e, x)), (λ x. x.1))
      | inr (m, e) ↦ rw (compose_prepare-find_ref dir id item w u input s m e, e) (ground arith)
    ]

asked_cases : (m : Mode) → (m ≡ send) ⊎ (m ≡ draft)
asked_cases send = inl refl
asked_cases draft = inr refl

-- The decision on an agent's mail: it asks to send and the matrix lets it.
compose_decision-send :
    (dir : Directory) (w : Text) (input : ComposeInput) (s : Store) (a : Agent)
    → agent_of dir w input ≡ some a
    → ((compose_decision dir w input s).mode ≡ send) ↔ (
        (input.mode ≡ send)
        × (mailbox_class_of dir w (mailbox_of dir w input) ≡ MailboxClass.agent)
        × MayRelease a.dial (build_agent_compose_context dir w a (mailbox_of dir w input) input s))
unfolding compose_decision build_agent_compose_context
compose_decision-send dir w input s a e = elim (asked_cases input.mode) [
  | inl asked ↦
      let ctx = build_agent_compose_context dir w a (mailbox_of dir w input) input s in
      let given : (compose_args dir w input s).agent_context ≡ some ctx = rw (e, asked) refl in
      let matrix =
        decide_agent_compose_mode-send (compose_args dir w input s) a.dial ctx asked (rw e refl)
          given in
      ((λ h. let y = matrix.0 h in (asked, y.0, y.1)), (λ h. matrix.1 (h.1, h.2)))
  | inr asked ↦
      let drafted = (decide_agent_compose_mode-Fits (compose_args dir w input s)).2 asked in
      ground arith
]

-- For a registered agent, a compose leaves a message for the engine exactly when its key is new,
-- neither the workspace nor the agent is paused, the mailbox it names is one that it may send as, it
-- asks to send, the sending mailbox is an agent's own, and the request itself is one that may leave:
-- the agent is L1 or L2, and either every to, cc and bcc address is of a domain of the workspace or of
-- the agent's policy, or the agent is L2 without an approval for external mail, the global switch is
-- on, the mail answers an inbound one in its thread, it has no attachment, and its external addresses
-- are at most five, each of them trusted by its address or its domain.
pub compose_prepare-autonomous :
    (dir : Directory) (id item w : Text) (u : Option Text) (input : ComposeInput) (s : Store)
    (a : Agent)
    → agent_of dir w input ≡ some a
    → Sends (compose_prepare dir id item w u input s) ↔ (
        (find_ref w input.external_source input.external_ref s ≡ none)
        × (dir.agents_paused w ≡ false)
        × (a.paused ≡ false)
        × (may_send_as dir u (explicit_from dir w input) ≡ true)
        × (input.mode ≡ send)
        × (mailbox_class_of dir w (mailbox_of dir w input) ≡ MailboxClass.agent)
        × ReleasedTo dir w a (mailbox_of dir w input) input s (addressees input))
compose_prepare-autonomous dir id item w u input s a registered =
    let fresh = Sends-compose_prepare dir id item w u input s in
    let guards = Sends-prepare_new dir id item w u input s in
    let decision = compose_decision-send dir w input s a registered in
    let (to, from) = MayRelease-ReleasedTo dir w a (mailbox_of dir w input) input s in
    let dial : is_paused (agent_of dir w input) ≡ a.paused = ap is_paused registered in
    (
      (λ x.
          let y = fresh.0 x in
          let g = guards.0 y.1 in
          let m = decision.0 g.3 in (y.0, g.0, sym dial ∙ g.1, g.2, m.0, m.1, to m.2)),
      (λ x. fresh.1 (x.0, guards.1 (x.1, dial ∙ x.2, x.3, decision.1 (x.4, x.5, from x.6)))),
    )
