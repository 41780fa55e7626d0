-- ===== src/Scheduling/Worker.antt =====
-- The sweep of backend/src/scheduling/scheduling.service.ts over the sends that are due:
-- `fireDueScheduledSends` and `markScheduledSend`. A row is passed as the sweep has read it, which
-- may be older than the table.
use email_ops_community.Prelude.{
  ℕ, suc, ◌+◌, ◌*◌, leb, ◌==◌, Bool, true, false, ◌&&◌, ◌||◌, Option, none, some, List, [], ◌∷◌,
  ◌++◌, any, keep, take, if◌then◌else◌,
}
use email_ops_community.Prelude.Text.{Text, txt, text_eq}
use email_ops_community.Scheduling.{
  ScheduledSendState, claimed, sent, failed, ScheduledSend, ComposeInput, ComposeCall,
  ComposeOutcome, composed, failed_result, thrown, State, Context, is_pending, is_claimed, opt_eq,
  matching, update_many,
}
use email_ops_community.Scheduling.Payload.{ScheduledSendPayload, normalize_payload}

-- `CLAIM_TTL_MS`.
abbrev pub claim_ttl_ms : ℕ
claim_ttl_ms = 5 * 60 * 1000

abbrev stale : ℕ → Option ℕ → Bool
stale now none = false
stale now (some t) = leb (t + claim_ttl_ms) now

-- The rows that the sweep reads.
abbrev pub is_due : ℕ → ScheduledSend → Bool
is_due now r =
    is_pending r.state && leb r.send_at now || is_claimed r.state && stale now r.claimed_at

unfoldable pub insert_by_send_at : ScheduledSend → List ScheduledSend → List ScheduledSend
insert_by_send_at r [] = r ∷ []
insert_by_send_at r (q ∷ rows) =
    let rest = insert_by_send_at r rows in
    if leb r.send_at q.send_at then r ∷ q ∷ rows else q ∷ rest

unfoldable pub order_by_send_at : List ScheduledSend → List ScheduledSend
unfolding insert_by_send_at
order_by_send_at [] = []
order_by_send_at (r ∷ rows) = insert_by_send_at r (order_by_send_at rows)

unfoldable pub due_rows : ℕ → ℕ → List ScheduledSend → List ScheduledSend
unfolding order_by_send_at
due_rows now limit rows = take limit (order_by_send_at (keep (is_due now) rows))

-- The condition of the claim, on the state and the claim time that were read.
abbrev pub claimable : ScheduledSend → ScheduledSend → Bool
claimable row r =
    text_eq r.id row.id
    && (if is_claimed row.state
        then is_claimed r.state && opt_eq r.claimed_at row.claimed_at
        else is_pending r.state)

abbrev pub claim_row : ℕ → ScheduledSend → ScheduledSend
claim_row now r = record r { state = claimed; claimed_at = some now }

abbrev pub claim : ℕ → ScheduledSend → State → State
claim now row s = record s { sends = update_many (claimable row) (claim_row now) s.sends }

abbrev pub markable : Text → ScheduledSend → Bool
markable id r = text_eq r.id id && is_claimed r.state

abbrev pub mark_row : ScheduledSendState → Option ℕ → ScheduledSend → ScheduledSend
mark_row st sent_at r = record r { state = st; sent_at = sent_at }

abbrev pub mark_scheduled_send : Text → ScheduledSendState → Option ℕ → State → State
mark_scheduled_send id st sent_at s = record s {
  sends = update_many (markable id) (mark_row st sent_at) s.sends;
}

-- `composeInput`.
abbrev pub compose_input : ScheduledSend → ScheduledSendPayload → ComposeInput
compose_input row payload = record {
  payload = payload;
  mode = txt "send";
  external_source = txt "email-ops-client";
  external_ref = txt "scheduled-send:" ++ row.id;
  from_mailbox_account_id = row.mailbox_id;
}

abbrev pub compose_call : ScheduledSend → ScheduledSendPayload → ComposeCall
compose_call row payload = record {
  workspace_id = row.workspace_id;
  created_by = row.created_by;
  input = compose_input row payload;
}

abbrev pub has_mailbox : Context → ScheduledSend → Bool
has_mailbox cx row =
    any
      (λ m.
        text_eq m.id row.mailbox_id
        && text_eq m.workspace_id row.workspace_id
        && text_eq m.provider (txt "stalwart")
        && m.active)
      cx.mailboxes

-- What follows the outcome of `composeEmail`; the send is marked with the clock's time after it.
abbrev pub settle : ℕ → Text → ComposeOutcome → State → Bool × State
settle sent_time id composed s = (true, mark_scheduled_send id sent (some sent_time) s)
settle sent_time id failed_result s = (false, mark_scheduled_send id failed none s)
settle sent_time id thrown s = (false, mark_scheduled_send id failed none s)

abbrev pub send : ℕ → Context → ScheduledSend → ScheduledSendPayload → State → Bool × State
send sent_time cx row payload s =
    let call = compose_call row payload in
    settle sent_time row.id (cx.compose_email s.calls call)
      (record s { calls = s.calls ++ call ∷ [] })

-- The rest of the loop's body once the row is claimed.
unfoldable pub fire_claimed : ℕ → Context → ScheduledSend → State → Bool × State
fire_claimed sent_time cx row s = elim (normalize_payload row.payload) [
  | none ↦ (false, mark_scheduled_send row.id failed none s)
  | some payload ↦
      if has_mailbox cx row && cx.is_configured
      then send sent_time cx row payload s
      else (false, mark_scheduled_send row.id failed none s)
]

-- The body of the loop: whether the send counts, and the state after it.
unfoldable pub fire_row : ℕ → ℕ → Context → ScheduledSend → State → Bool × State
unfolding fire_claimed
fire_row now sent_time cx row s =
    if matching (claimable row) s.sends == 1
    then fire_claimed sent_time cx row (claim now row s)
    else (false, claim now row s)

abbrev add_sent : Bool → ℕ → ℕ
add_sent true n = suc n
add_sent false n = n

unfoldable pub fire_rows : ℕ → ℕ → Context → List ScheduledSend → State → ℕ × State
unfolding fire_row
fire_rows now sent_time cx [] s = (0, s)
fire_rows now sent_time cx (row ∷ rows) s =
    let (counted, s') = fire_row now sent_time cx row s in
    let (n, final) = fire_rows now sent_time cx rows s' in (add_sent counted n, final)

unfoldable pub fire_due_scheduled_sends : ℕ → ℕ → Context → ℕ → State → ℕ × State
unfolding due_rows fire_rows
fire_due_scheduled_sends now sent_time cx limit s =
    fire_rows now sent_time cx (due_rows now limit s.sends) s
