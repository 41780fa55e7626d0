-- ===== src/Autonomy/Tests.antt =====
-- Runs of the gate of backend/src/email/autonomy.ts, and the witnesses of its theorems.
use email_ops_community.Prelude.{◌≡◌, refl, true, false, some, none, [], ◌∷◌, List, ◌↔◌, arith}
use email_ops_community.Prelude.Text.{
  txt, Text, has_text, last_index_of, to_lower_case, trim, text_eq,
}
use email_ops_community.Json.{null}
use email_ops_community.Autonomy.{
  AutonomyAgent, l2_autonomous_audit, AgentComposeContext, MailboxClass, ComposeArgs, send,
  decide_agent_compose_mode, decide_compose_mode, is_external_recipient, split_recipients,
  parse_recipient_policy, routine_reasons,
}
use email_ops_community.Autonomy.Matrix.{MayRelease, decide_agent_compose_mode-send}
use email_ops_community.Autonomy.Consistency.{
  Fits, BaseMaySend, decide_agent_compose_mode-Fits, decide_agent_compose_mode_without_context,
  decide_agent_compose_mode_monotone,
}

abbrev scout : AutonomyAgent
scout = record { key = txt "scout"; autonomy_level = l2_autonomous_audit; recipient_policy = null }

abbrev trusting : AgentComposeContext
trusting = record {
  mailbox_class = MailboxClass.agent;
  internal_domains = txt "acme.com" ∷ [];
  recipients = txt "ann@acme.com" ∷ txt "bob@x.io" ∷ [];
  is_in_thread_reply_to_inbound = true;
  attachment_count = 0;
  trusted_addresses = txt "bob@x.io" ∷ [];
  autonomous_send_enabled = true;
}

abbrev args_in : AgentComposeContext → ComposeArgs
args_in ctx = record {
  requested_mode = send;
  agent = some scout;
  to_address = txt "bob@x.io";
  trusted_unregistered_send = false;
  agent_context = some ctx;
}

routine_send : (decide_agent_compose_mode (args_in trusting)).mode ≡ send
unfolding decide_agent_compose_mode split_recipients is_external_recipient last_index_of
    to_lower_case trim text_eq parse_recipient_policy routine_reasons
routine_send = refl

decide_agent_compose_mode-send_example :
    ((decide_agent_compose_mode (args_in trusting)).mode ≡ send)
    ↔ ((trusting.mailbox_class ≡ MailboxClass.agent) × MayRelease scout trusting)
decide_agent_compose_mode-send_example =
    decide_agent_compose_mode-send (args_in trusting) scout trusting refl refl refl

decide_agent_compose_mode-Fits_example : Fits send (decide_agent_compose_mode (args_in trusting))
decide_agent_compose_mode-Fits_example = decide_agent_compose_mode-Fits (args_in trusting)

abbrev bare : ComposeArgs
bare = record (args_in trusting) { agent_context = none }

decide_agent_compose_mode_without_context_example :
    ((decide_agent_compose_mode bare).decision ≡ decide_compose_mode bare)
    × (((decide_agent_compose_mode bare).mode ≡ send)
        ↔ ((send ≡ send) × BaseMaySend (some scout) (txt "bob@x.io") false))
decide_agent_compose_mode_without_context_example =
    decide_agent_compose_mode_without_context bare refl

abbrev more : List Text
more = txt "eve@y.org" ∷ txt "bob@x.io" ∷ []

more_trusts : (r : Text) → has_text trusting.trusted_addresses r ≡ true → has_text more r ≡ true
more_trusts r h = ground (arith)

decide_agent_compose_mode_monotone_example :
    (decide_agent_compose_mode (args_in (record trusting { trusted_addresses = more }))).mode ≡ send
decide_agent_compose_mode_monotone_example =
    decide_agent_compose_mode_monotone (args_in trusting) scout scout trusting more refl refl refl
      (omega arith) refl more_trusts routine_send
