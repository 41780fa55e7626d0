-- ===== src/Triage/Tests.antt =====
-- Runs of the triage of received mail, and its theorem at a concrete input.
use email_ops_community.Prelude.{ℕ, true, none, some, [], ◌∷◌, ◌≡◌, refl}
use email_ops_community.Prelude.Text.{Text, txt, text_eq, last_index_of, to_lower_case, trim}
use email_ops_community.Triage.{
  SenderPolicy, allow, block, domain_scope, inbox, set, evaluate, spam_label,
}
use email_ops_community.Triage.Classify.{SpamPort, TriageStore}
use email_ops_community.Triage.Taught.{
  classify_inbound-taught, classify_taught, address_rule, disposition_at,
}

-- A policy that blocks the domain example.com.
abbrev blocked_domain : SenderPolicy
blocked_domain = record {
  id = txt "p1";
  workspace_id = txt "w";
  scope = domain_scope;
  pattern = txt "example.com";
  kind = block;
  reason = none;
  set_by_uc_uid = none;
  set_by_agent_key = none;
}

abbrev store : TriageStore ℕ
store = record { policies = blocked_domain ∷ []; dispositions = []; messages = [] }

abbrev stern_port : SpamPort ℕ
stern_port = record {
  is_configured = true;
  classify = λ m. record { score = some 9; verdict = some spam_label };
}

abbrev ann : Text
ann = txt "Ann@Example.com "

domain_blocks : evaluate (blocked_domain ∷ []) (txt "w") (some ann) ≡ some block
unfolding evaluate text_eq last_index_of to_lower_case trim
domain_blocks = refl

classify_inbound-taught_example :
    let taught = set (txt "p2") (txt "w") none (address_rule allow ann none none) store.policies in
    let r = classify_taught ℕ stern_port (txt "w") taught ann (txt "t1") none none store in
    (r.0.disposition ≡ inbox) × (disposition_at (txt "w") (txt "t1") r.1.dispositions ≡ some inbox)
classify_inbound-taught_example =
    classify_inbound-taught ℕ stern_port (txt "p2") (txt "w") none 65 (txt "nn@Example.com ") allow
      none none none none (txt "t1") store
