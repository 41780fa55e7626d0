-- ===== src/Scheduling/Mail.antt =====
-- `fireDueScheduledSends` of backend/src/scheduling/scheduling.service.ts with `composeEmail` of
-- backend/src/email/email.service.ts: what the worker hands over and what it makes of the answer.
use email_ops_community.Prelude.{
  ℕ, ◌≡◌, ◌∙◌, ap, refl, true, false, Option, none, some, List, [], ◌∷◌, ◌++◌, map, if◌then◌else◌,
  Any, Bool-cases, inl, inr, arith, ltb,
}
use email_ops_community.Prelude.Text.{Text, txt, text_eq}
use email_ops_community.Autonomy.{Mode}
use email_ops_community.Delivery.{EmailMessageStatus}
use email_ops_community.Email.{Engine, Store, Directory}
use email_ops_community.Email as mail
use email_ops_community.Email.Context as context
use email_ops_community.Email.Phases.{
  compose_prepare, ComposeResult, unchanged, handed_over, forbidden, compose_email,
}
use email_ops_community.Email.Gate.{Sends}
use email_ops_community.Email.Overlap.{compose_email-interrupted}
use email_ops_community.Scheduling.{
  ScheduledSend, ComposeOutcome, composed, failed_result, thrown, State, Context, sent, claimed,
  matching, update_many,
}
use email_ops_community.Scheduling.Payload.{ScheduledSendPayload, Attachment, normalize_payload}
use email_ops_community.Scheduling.Worker.{
  claim, mark_scheduled_send, compose_call, claimable, claim_row, markable, mark_row, has_mailbox,
  due_rows, fire_rows, fire_row, fire_claimed, fire_due_scheduled_sends,
}

abbrev or_nil {ℓ} : {A : Type ℓ} → Option (List A) → List A
or_nil none = []
or_nil (some xs) = xs

abbrev attached : Attachment → mail.Attachment
attached a = record { blob_id = a.blob_id; name = a.name; type = a.type }

-- `composeInput`, with the fields that it leaves out.
abbrev pub mail_input : ScheduledSend → ScheduledSendPayload → context.ComposeInput
mail_input row payload = record {
  contact_id = none;
  to_address = payload.to_address;
  to_addresses = or_nil payload.to_addresses;
  subject = payload.subject;
  body = payload.body;
  body_html = payload.body_html;
  mode = Mode.send;
  in_reply_to_thread_id = payload.in_reply_to_thread_id;
  external_source = txt "email-ops-client";
  external_ref = txt "scheduled-send:" ++ row.id;
  drafted_by = none;
  from_mailbox_account_id = some row.mailbox_id;
  cc = or_nil payload.cc;
  bcc = or_nil payload.bcc;
  attachments = map attached (or_nil payload.attachments);
  in_reply_to_message_id = payload.in_reply_to_message_id;
  references = or_nil payload.references;
  draft_id = payload.draft_id;
  agent_autoreply = false;
  inbound_reply_attestation = none;
  policy_reasons = [];
  transparency_footer = none;
}

-- The test of the worker on the status that it is given.
abbrev of_status : EmailMessageStatus → ComposeOutcome
of_status EmailMessageStatus.failed = failed_result
of_status _ = composed

abbrev pub outcome_of : ComposeResult → ComposeOutcome
outcome_of (unchanged m) = of_status m.status
outcome_of (handed_over r) = if r.accepted then composed else failed_result
outcome_of (forbidden why) = thrown

abbrev pub answering : ComposeOutcome → Context → Context
answering o cx = record cx { compose_email = λ calls c. o }

-- The row has the id and is marked as sent at the time.
abbrev pub IsSent : Text → ℕ → ScheduledSend → Type 0
IsSent id t r = (text_eq r.id id ≡ true) × ((r.state ≡ sent) × (r.sent_at ≡ some t))

-- A row that the claim has changed is marked as sent.
marked-IsSent :
    (now t : ℕ) (row : ScheduledSend) (rows : List ScheduledSend)
    → ltb 0 (matching (claimable row) rows) ≡ true
    → Any (IsSent row.id t) (
        update_many
          (markable row.id)
          (mark_row sent (some t))
          (update_many (claimable row) (claim_row now) rows))
unfolding update_many
marked-IsSent now t row [] h = ground (arith, h)
marked-IsSent now t row (r ∷ rows) h = elim (Bool-cases (claimable row r)) [
  | inl e ↦
      let same : text_eq r.id row.id ≡ true = ground (arith, e) in
      rw (e, same) (inl (same, (refl, refl)))
  | inr e ↦
      let later : ltb 0 (matching (claimable row) rows) ≡ true = ground (arith, e, h) in
      inr (marked-IsSent now t row rows later)
]

fire_claimed-composed :
    (t : ℕ) (cx : Context) (row : ScheduledSend) (payload : ScheduledSendPayload) (st : State)
    → normalize_payload row.payload ≡ some payload
    → has_mailbox cx row ≡ true
    → cx.is_configured ≡ true
    → fire_claimed t (answering composed cx) row st ≡ (
      true,
      mark_scheduled_send row.id sent
          (some t)
          (record st { calls = st.calls ++ compose_call row payload ∷ [] }),
    )
unfolding fire_claimed
fire_claimed-composed t cx row payload st normal own ready =
    rw (normal, fire_claimed, own, ready) refl

-- The sweep that reclaims the only due row, when `composeEmail` answers that the row is composed.
reclaiming_sweep :
    (now t limit : ℕ) (cx : Context) (row : ScheduledSend) (payload : ScheduledSendPayload)
    (st : State)
    → due_rows now limit st.sends ≡ row ∷ []
    → matching (claimable row) st.sends ≡ 1
    → normalize_payload row.payload ≡ some payload
    → has_mailbox cx row ≡ true
    → cx.is_configured ≡ true
    → let sweep = fire_due_scheduled_sends now t (answering composed cx) limit st in
      (sweep.0 ≡ 1) × Any (IsSent row.id t) sweep.1.sends
unfolding fire_due_scheduled_sends fire_rows fire_row
reclaiming_sweep now t limit cx row payload st due won normal own ready =
    let one : ltb 0 (matching (claimable row) st.sends) ≡ true = rw won refl in
    let fired = fire_claimed-composed t cx row payload (claim now row st) normal own ready in
    rw (due, won, fired) (refl, marked-IsSent now t row st.sends one)

-- A worker stops after the first phase of `composeEmail` has left a message for the engine, with the row
-- still CLAIMED: the engine has not been called. Take a later sweep whose only due row this is, whose
-- claim gets it, and for which its payload and its mailbox are good: `composeEmail` gives it that
-- message, still queued, and calls no engine either, but the sweep counts a send and marks the row as
-- sent.
pub interrupted_send-lost :
    (now t limit : ℕ) (dir dir' : Directory) (engine : Engine) (id id' item item' : Text)
    (cx : Context) (row : ScheduledSend) (payload : ScheduledSendPayload) (s : Store) (st : State)
    → let input = mail_input row payload in
      let prep = compose_prepare dir id item row.workspace_id row.created_by input s in
      let again =
        compose_email now dir' engine id' item' row.workspace_id row.created_by input prep.1 in
      let sweep = fire_due_scheduled_sends now t (answering (outcome_of again.0) cx) limit st in
      Sends prep
      → row.state ≡ claimed
      → due_rows now limit st.sends ≡ row ∷ []
      → matching (claimable row) st.sends ≡ 1
      → normalize_payload row.payload ≡ some payload
      → has_mailbox cx row ≡ true
      → cx.is_configured ≡ true
      → (m : mail.EmailMessage) × (again.0 ≡ unchanged m)
        × (m.status ≡ EmailMessageStatus.queued)
        × (prep.1.calls ≡ s.calls)
        × (again.1.calls ≡ s.calls)
        × (sweep.0 ≡ 1)
        × Any (IsSent row.id t) sweep.1.sends
interrupted_send-lost now t limit dir dir' engine id id' item item' cx row payload s st h left due
      won normal own ready =
    let (m, waits, same, e) =
      compose_email-interrupted now dir dir' engine id id' item item' row.workspace_id
        row.created_by row.created_by (mail_input row payload) s h in
    let (counted, marked) =
      reclaiming_sweep now t limit cx row payload st due won normal own ready in
    (
      m,
      ap (λ r. r.0) e,
      waits,
      same,
      ap (λ r. r.1.calls) e ∙ same,
      rw (e, waits) counted,
      rw (e, waits) marked,
    )
