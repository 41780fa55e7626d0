-- ===== src/Triage/Classify.antt =====
-- backend/src/mail-triage/mail-triage.service.ts: classifyInbound, with the spam engine of spam.port.ts
-- as a parameter.
use email_ops_community.Prelude.{Bool, true, false, ◌&&◌, Option, none, some, List, if◌then◌else◌}
use email_ops_community.Prelude.Text.{Text, txt, text_eq}
use email_ops_community.Triage.{
  SenderPolicyKind, allow, block, MessageDisposition, inbox, spam, SpamLabel, clean_label,
  spam_label, unsure_label, Reason, sender_allowed, sender_blocked, engine_verdict, engine_clean,
  engine_dormant, SenderPolicy, ThreadDisposition, evaluate, upsert, is_thread, changed,
}

module _ (Score : Type 0) where
  -- The columns of a message that the classification reads or writes.
  pub record TriagedMessage : Type 0 where
    pub workspace_id : Text
    pub thread_id : Text
    pub spam_score : Option Score
    pub spam_verdict : Option SpamLabel

  pub record SpamVerdict : Type 0 where
    pub score : Option Score
    pub verdict : Option SpamLabel

  pub record Inbound : Type 0 where
    pub thread_id : Text
    pub from_address : Option Text
    pub subject : Option Text
    pub body : Option Text

  pub record SpamPort : Type 0 where
    pub is_configured : Bool
    pub classify : Inbound → SpamVerdict

  pub record ClassifyResult : Type 0 where
    pub thread_id : Text
    pub disposition : MessageDisposition
    pub spam_score : Option Score
    pub spam_verdict : Option SpamLabel
    pub reason : Reason

  pub record TriageStore : Type 0 where
    pub policies : List SenderPolicy
    pub dispositions : List ThreadDisposition
    pub messages : List TriagedMessage

  abbrev spam_agent_key : Text
  spam_agent_key = txt "spam-filter"

  abbrev of_thread : Text → Text → TriagedMessage → Bool
  of_thread workspace_id thread_id m =
      text_eq m.workspace_id workspace_id && text_eq m.thread_id thread_id

  -- `updateMany` on the messages of the thread.
  unfoldable pub stamp_score :
      Text → Text → Option Score → Option SpamLabel → TriageStore → TriageStore
  stamp_score workspace_id thread_id score verdict s = record s {
    messages =
        changed (of_thread workspace_id thread_id)
          (λ m. record m { spam_score = score; spam_verdict = verdict }) s.messages;
  }

  -- `if (score != null || verdict != null)`.
  unfoldable pub stamp_known :
      Text → Text → Option Score → Option SpamLabel → TriageStore → TriageStore
  unfolding stamp_score
  stamp_known workspace_id thread_id none none s = s
  stamp_known workspace_id thread_id none (some v) s =
      stamp_score workspace_id thread_id none (some v) s
  stamp_known workspace_id thread_id (some x) verdict s =
      stamp_score workspace_id thread_id (some x) verdict s

  unfoldable pub apply_disposition :
      Text → Text → MessageDisposition → Option Score → Option SpamLabel → TriageStore → TriageStore
  unfolding stamp_known upsert is_thread
  apply_disposition workspace_id thread_id disposition score verdict s =
      let filed = record s {
        dispositions =
            upsert (is_thread workspace_id thread_id)
              (λ r. record r { disposition = disposition; set_by_agent_key = some spam_agent_key })
              (record {
                workspace_id = workspace_id;
                thread_id = thread_id;
                disposition = disposition;
                set_by_uc_uid = none;
                set_by_agent_key = some spam_agent_key;
              })
              s.dispositions;
      } in
      stamp_known workspace_id thread_id score verdict filed

  abbrev is_spam : Option SpamLabel → Bool
  is_spam none = false
  is_spam (some clean_label) = false
  is_spam (some spam_label) = true
  is_spam (some unsure_label) = false

  abbrev result :
      Text → MessageDisposition → Option Score → Option SpamLabel → Reason → ClassifyResult
  result thread_id disposition score verdict reason = record {
    thread_id = thread_id;
    disposition = disposition;
    spam_score = score;
    spam_verdict = verdict;
    reason = reason;
  }

  unfoldable pub by_engine : SpamPort → Text → Inbound → TriageStore → ClassifyResult × TriageStore
  unfolding apply_disposition stamp_known
  by_engine port workspace_id input s =
      let thread = input.thread_id in
      let answer = port.classify input in
      if is_spam (answer.verdict)
      then (
        result thread spam (answer.score) (some spam_label) engine_verdict,
        apply_disposition workspace_id thread spam (answer.score) (some spam_label) s,
      )
      else (
        result thread inbox (answer.score) (answer.verdict)
            (if port.is_configured then engine_clean else engine_dormant),
        stamp_known workspace_id thread (answer.score) (answer.verdict) s,
      )

  unfoldable pub by_policy :
      Option SenderPolicyKind
      → SpamPort
      → Text
      → Inbound
      → TriageStore
      → ClassifyResult × TriageStore
  unfolding by_engine apply_disposition
  by_policy (some allow) port workspace_id input s = (
    result (input.thread_id) inbox none (some clean_label) sender_allowed,
    apply_disposition workspace_id (input.thread_id) inbox none (some clean_label) s,
  )
  by_policy (some block) port workspace_id input s = (
    result (input.thread_id) spam none (some spam_label) sender_blocked,
    apply_disposition workspace_id (input.thread_id) spam none (some spam_label) s,
  )
  by_policy none port workspace_id input s = by_engine port workspace_id input s

  unfoldable pub classify_inbound :
      SpamPort → Text → Inbound → TriageStore → ClassifyResult × TriageStore
  unfolding by_policy evaluate
  classify_inbound port workspace_id input s =
      by_policy (evaluate s.policies workspace_id (input.from_address)) port workspace_id input s
