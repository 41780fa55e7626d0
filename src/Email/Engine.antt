-- ===== src/Email/Engine.antt =====
-- Handing a message to the engine: `callEngine`, `stampSendResult`, `resolveReplyHeaders`,
-- `resolveSendMailbox`, `defaultMailbox` and `recordAction` of
-- backend/src/email/email.service.ts.
use email_ops_community.Prelude.{
  ℕ, Bool, true, false, ◌&&◌, Option, none, some, List, [], ◌∷◌, ◌++◌, find, if◌then◌else◌,
}
use email_ops_community.Prelude.Text.{Text, txt, text_eq, is_empty}
use email_ops_community.Mailboxes.{MailboxAccount}
use email_ops_community.Delivery.{EmailMessageStatus, sent, failed}
use email_ops_community.Email.{
  EmailMessage, AgentActionEvent, SendReq, EngineCall, stalwart_send, provider_send,
  EngineSendResult, Engine, Store, Agent, MessageHeaders, Directory, called,
}

abbrev pub is_none {ℓ} : {A : Type ℓ} → List A → Bool
is_none [] = true
is_none (x ∷ xs) = false

-- The refusal of attachments for a mailbox of an external provider.
abbrev pub no_attachments : MailboxAccount → SendReq → EngineSendResult
no_attachments mailbox req = record {
  accepted = false;
  provider_message_id = none;
  thread_id = req.in_reply_to_thread_id;
  lane = none;
  reason = some (
      txt "attachments are not supported for "
      ++ mailbox.provider
      ++ txt " sends yet — nothing was sent");
}

abbrev pub provider_call : MailboxAccount → SendReq → EngineCall
provider_call mailbox req =
    provider_send mailbox.id req.from_address req.to_address req.subject req.body
      req.in_reply_to_thread_id

abbrev pub call_provider : Engine → MailboxAccount → SendReq → Store → EngineSendResult × Store
call_provider engine mailbox req s =
    let r = engine s.calls (provider_call mailbox req) in
    (
      record r { lane = if r.accepted then some mailbox.provider else none },
      called (provider_call mailbox req) s,
    )

abbrev pub call_stalwart : Engine → SendReq → Store → EngineSendResult × Store
call_stalwart engine req s = (engine s.calls (stalwart_send req), called (stalwart_send req) s)

unfoldable pub call_engine :
    Directory → Engine → Option MailboxAccount → SendReq → Store → EngineSendResult × Store
call_engine dir engine none req s = call_stalwart engine req s
call_engine dir engine (some mailbox) req s =
    if dir.handles mailbox
    then if is_none req.attachments
      then call_provider engine mailbox req s
      else (no_attachments mailbox req, s)
    else call_stalwart engine req s

unfoldable pub update_message :
    Text → (EmailMessage → EmailMessage) → List EmailMessage → List EmailMessage
update_message id change [] = []
update_message id change (m ∷ ms) =
    (if text_eq m.id id then change m else m) ∷ update_message id change ms

abbrev pub outcome_status : Bool → EmailMessageStatus
outcome_status accepted = if accepted then sent else failed

abbrev or_else : Option Text → Option Text → Option Text
or_else none o = o
or_else (some t) o = some t

-- The columns that `stampSendResult` writes; an absent thread id leaves the column.
abbrev pub stamped : ℕ → EngineSendResult → EmailMessage → EmailMessage
stamped now result m = record m {
  status = outcome_status result.accepted;
  provider_message_id = result.provider_message_id;
  thread_id = or_else result.thread_id m.thread_id;
  sent_at = if result.accepted then some now else none;
}

abbrev pub stamp_send_result : ℕ → Text → EngineSendResult → Store → Store
stamp_send_result now id result s = record s {
  messages = update_message id (stamped now result) s.messages;
}

abbrev pub record_action : AgentActionEvent → Store → Store
record_action e s = record s { actions = s.actions ++ e ∷ [] }

-- The oldest active mailbox of the workspace that is the default, or else the oldest active one.
unfoldable pub default_mailbox : Directory → Text → Option MailboxAccount
default_mailbox dir workspace_id =
    elim (find (λ m. text_eq m.workspace_id workspace_id && m.is_default && m.active)
      dir.mailboxes) [
        | some m ↦ some m
        | none ↦ find (λ m. text_eq m.workspace_id workspace_id && m.active) dir.mailboxes
      ]

abbrev pub mailbox_by_id : Directory → Text → Text → Option MailboxAccount
mailbox_by_id dir workspace_id id =
    find (λ m. text_eq m.id id && text_eq m.workspace_id workspace_id) dir.mailboxes

abbrev own_mailbox : Directory → Text → Option Text → Option MailboxAccount
own_mailbox dir workspace_id none = none
own_mailbox dir workspace_id (some id) =
    if is_empty id then none else mailbox_by_id dir workspace_id id

abbrev or_mailbox : Option MailboxAccount → Option MailboxAccount → Option MailboxAccount
or_mailbox none o = o
or_mailbox (some m) o = some m

unfoldable pub resolve_send_mailbox : Directory → Text → Option Agent → Option MailboxAccount
unfolding default_mailbox
resolve_send_mailbox dir workspace_id none = default_mailbox dir workspace_id
resolve_send_mailbox dir workspace_id (some a) =
    or_mailbox (own_mailbox dir workspace_id a.mailbox_account_id)
      (default_mailbox dir workspace_id)

abbrev headers_of_row : Directory → MailboxAccount → Option EmailMessage → Option MessageHeaders
headers_of_row dir mailbox none = none
headers_of_row dir mailbox (some m) = elim m.provider_message_id [
  | none ↦ none
  | some pid ↦ if is_empty pid then none else dir.message_headers mailbox.email_address pid
]

unfoldable pub resolve_reply_headers :
    Directory → Option MailboxAccount → Text → Text → Store → Option MessageHeaders
resolve_reply_headers dir none internal_id workspace_id s = none
resolve_reply_headers dir (some mailbox) internal_id workspace_id s =
    elim (dir.message_headers mailbox.email_address internal_id) [
      | some h ↦ some h
      | none ↦
          headers_of_row dir mailbox
            (find (λ m. text_eq m.id internal_id && text_eq m.workspace_id workspace_id) s.messages)
    ]
