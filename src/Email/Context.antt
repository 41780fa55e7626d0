-- ===== src/Email/Context.antt =====
-- `buildAgentComposeContext` of backend/src/email/email.service.ts: what the autonomy matrix is asked
-- about. A failure of the database in it is not modelled.
use email_ops_community.Prelude.{
  suc, Bool, true, false, not, ◌&&◌, ◌||◌, Option, none, some, List, [], ◌∷◌, ◌++◌, map, keep, any,
  take, drop, length, if◌then◌else◌,
}
use email_ops_community.Prelude.Text.{
  Text, text_eq, trim, to_lower_case, last_index_of, strip_at, has_text, is_empty,
}
use email_ops_community.Mailboxes.{MailboxAccount, OwnerKind, human, shared, agent}
use email_ops_community.Autonomy.{
  MailboxClass, user, unknown, AgentComposeContext, parse_recipient_policy, split_recipients, Mode,
  PolicyReason,
}
use email_ops_community.Email.{
  EmailDirection, received_mail, Attachment, EmailMessage, Store, Agent, Directory,
  TrustedCorrespondentScope, address_scope, domain_scope, TrustedCorrespondent,
}
use email_ops_community.Email.Address.{normalize_address}
use email_ops_community.Email.Engine.{is_none}

pub record Footer : Type 0 where
  pub text : Text
  pub html : Text

-- An absent list is the empty one; `drafted_by` and the ids are none where null.
pub record ComposeInput : Type 0 where
  pub contact_id : Option Text
  pub to_address : Text
  pub to_addresses : List Text
  pub subject : Text
  pub body : Text
  pub body_html : Option Text
  pub mode : Mode
  pub in_reply_to_thread_id : Option Text
  pub external_source : Text
  pub external_ref : Text
  pub drafted_by : Option Text
  pub from_mailbox_account_id : Option Text
  pub cc : List Text
  pub bcc : List Text
  pub attachments : List Attachment
  pub in_reply_to_message_id : Option Text
  pub references : List Text
  pub draft_id : Option Text
  pub agent_autoreply : Bool
  pub inbound_reply_attestation : Option Text
  pub policy_reasons : List PolicyReason
  pub transparency_footer : Option Footer

-- The members of a set, each where it came first.
unfoldable pub unique : List Text → List Text
unique [] = []
unique (x ∷ xs) = x ∷ keep (λ y. not (text_eq y x)) (unique xs)

-- `toAddresses?.length ? toAddresses : [toAddress]`.
abbrev pub to_list : Text → List Text → List Text
to_list to [] = to ∷ []
to_list to (a ∷ as_list) = a ∷ as_list

abbrev pub all_recipients : ComposeInput → List Text
all_recipients input = to_list input.to_address input.to_addresses ++ input.cc ++ input.bcc

unfoldable pub normalized_recipients : ComposeInput → List Text
normalized_recipients input =
    keep (λ a. not (is_empty a)) (map normalize_address (all_recipients input))

abbrev linked_to : Text → Text → Agent → Bool
linked_to workspace_id mailbox_id a =
    text_eq a.workspace_id workspace_id
    && a.active
    && (elim a.mailbox_account_id [ none ↦ false | some id ↦ text_eq id mailbox_id ])

abbrev class_by_links : Directory → Text → MailboxAccount → MailboxClass
class_by_links dir workspace_id m =
    if any (linked_to workspace_id m.id) dir.agents
      || any
          (λ j.
            text_eq j.workspace_id workspace_id
            && text_eq j.mailbox_account_id m.id
            && j.agent_active)
          dir.agent_mailboxes
    then MailboxClass.agent
    else user

abbrev class_by_owner : OwnerKind → MailboxClass → MailboxClass
class_by_owner agent links = MailboxClass.agent
class_by_owner human links = links
class_by_owner shared links = links

unfoldable pub mailbox_class_of : Directory → Text → Option MailboxAccount → MailboxClass
mailbox_class_of dir workspace_id none = unknown
mailbox_class_of dir workspace_id (some m) =
    class_by_owner m.owner_kind (class_by_links dir workspace_id m)

abbrev clean_domain : Text → Text
clean_domain d = strip_at (to_lower_case (trim d))

unfoldable pub workspace_domains : Directory → Text → List Text
workspace_domains dir workspace_id =
    keep (λ d. not (is_empty d))
      (map (λ r. clean_domain r.domain)
        (keep (λ r. text_eq r.workspace_id workspace_id) dir.mail_domains))

-- The text after the last '@', the whole text if there is none.
unfoldable pub domain_part : Text → Text
domain_part addr = elim (last_index_of b'@' addr) [ some at ↦ drop (suc at) addr | none ↦ addr ]

abbrev pub is_address : TrustedCorrespondentScope → Bool
is_address address_scope = true
is_address domain_scope = false

abbrev trusted_in : Text → Bool → List Text → List TrustedCorrespondent → List Text
trusted_in workspace_id exact keys rows =
    map (λ r. to_lower_case r.address)
      (keep
        (λ r.
          text_eq r.workspace_id workspace_id
          && (if exact then is_address r.scope else not (is_address r.scope))
          && has_text keys r.address)
        rows)

-- The recipients that are trusted, by their address or by their domain.
unfoldable pub trusted_recipients : Text → List Text → List TrustedCorrespondent → List Text
trusted_recipients workspace_id recipients rows =
    let exact = trusted_in workspace_id true recipients rows in
    let domains =
      trusted_in workspace_id false (keep (λ d. not (is_empty d)) (map domain_part recipients))
        rows in
    keep
      (λ addr.
        has_text exact addr
        || not (is_empty (domain_part addr)) && has_text domains (domain_part addr))
      recipients

abbrev is_received : EmailDirection → Bool
is_received received_mail = true
is_received _ = false

abbrev in_thread : Text → Text → EmailMessage → Bool
in_thread workspace_id thread m =
    text_eq m.workspace_id workspace_id
    && (elim m.thread_id [ none ↦ false | some t ↦ text_eq t thread ])
    && is_received m.direction

abbrev from_one_of : List Text → EmailMessage → Bool
from_one_of external m = elim m.from_address [
  | none ↦ false
  | some a ↦ not (is_empty a) && has_text external (normalize_address a)
]

abbrev attested : List Text → Option Text → Bool
attested external none = false
attested external (some a) = not (is_empty a) && has_text external (normalize_address a)

-- The proof that the mail answers one of its external recipients.
unfoldable pub in_thread_reply : Text → ComposeInput → List Text → List EmailMessage → Bool
in_thread_reply workspace_id input external messages = elim input.in_reply_to_thread_id [
  | none ↦ false
  | some thread ↦
      not (is_empty thread)
      && not (is_none external)
      && (attested external input.inbound_reply_attestation
          || any (from_one_of external) (take 200 (keep (in_thread workspace_id thread) messages)))
]

unfoldable pub build_agent_compose_context :
    Directory → Text → Agent → Option MailboxAccount → ComposeInput → Store → AgentComposeContext
build_agent_compose_context dir workspace_id a mailbox input s =
    let recipients = normalized_recipients input in
    let domains = unique (
      workspace_domains dir workspace_id
      ++ (parse_recipient_policy a.dial.recipient_policy).internal_domains) in
    record {
      mailbox_class = mailbox_class_of dir workspace_id mailbox;
      internal_domains = domains;
      recipients = recipients;
      is_in_thread_reply_to_inbound =
          in_thread_reply workspace_id input (split_recipients recipients domains).1 s.messages;
      attachment_count = length input.attachments;
      trusted_addresses = trusted_recipients workspace_id recipients s.trusted;
      autonomous_send_enabled = dir.autonomous_send_enabled;
    }
