-- ===== src/Scheduling/Payload.antt =====
-- `normalizePayload` of backend/src/scheduling/scheduling.service.ts, its helpers, and the JSON
-- column that keeps its result.
use email_ops_community.Prelude.{
  Bool, not, Option, none, some, List, [], ◌∷◌, String, keep, if◌then◌else◌,
}
use mathlib.Core.Option
use email_ops_community.Prelude.Text.{Text, txt, trim, is_empty}
use email_ops_community.Json.{
  Json, null, str, arr, obj, Items, nil, cons, Fields, end, field, get, as_string, strings,
}

pub record Attachment : Type 0 where
  pub blob_id : Text
  pub name : Text
  pub type : Text

pub record ScheduledSendPayload : Type 0 where
  pub to_address : Text
  pub to_addresses : Option (List Text)
  pub subject : Text
  pub body : Text
  pub body_html : Option Text
  pub cc : Option (List Text)
  pub bcc : Option (List Text)
  pub attachments : Option (List Attachment)
  pub in_reply_to_thread_id : Option Text
  pub in_reply_to_message_id : Option Text
  pub references : Option (List Text)
  pub draft_id : Option Text

-- `v.trim().length > 0`.
abbrev pub has_ink : Text → Bool
has_ink s = not (is_empty (trim s))

abbrev pub or_text : Option Text → Text → Text
or_text none d = d
or_text (some s) d = s

-- A text with ink, or the default.
abbrev pub ink_or : Option Text → Text → Text
ink_or none d = d
ink_or (some s) d = if has_ink s then s else d

-- `out.length ? out : undefined`.
abbrev pub non_empty {ℓ} : {A : Type ℓ} → List A → Option (List A)
non_empty [] = none
non_empty (x ∷ xs) = some (x ∷ xs)

unfoldable pub string_array : Option Json → Option (List Text)
string_array (some (arr items)) = non_empty (keep has_ink (strings items))
string_array _ = none

unfoldable pub attachment : Fields → Attachment
attachment a = record {
  blob_id = or_text (as_string (get "blob_id" a)) [];
  name = ink_or (as_string (get "name" a)) (txt "attachment");
  type = ink_or (as_string (get "type" a)) (txt "application/octet-stream");
}

-- The objects of an array, as attachments.
unfoldable pub attachment_items : Items → List Attachment
attachment_items nil = []
attachment_items (cons (obj a) items) = attachment a ∷ attachment_items items
attachment_items (cons _ items) = attachment_items items

abbrev pub has_blob : Attachment → Bool
has_blob a = not (is_empty a.blob_id)

unfoldable pub attachments : Option Json → Option (List Attachment)
attachments (some (arr items)) = non_empty (keep has_blob (attachment_items items))
attachments _ = none

-- The payload of an object whose trimmed address is at hand.
abbrev pub payload_of : Text → Fields → ScheduledSendPayload
payload_of to o = record {
  to_address = to;
  to_addresses = string_array (get "toAddresses" o);
  subject = or_text (as_string (get "subject" o)) [];
  body = or_text (as_string (get "body" o)) [];
  body_html = as_string (get "bodyHtml" o);
  cc = string_array (get "cc" o);
  bcc = string_array (get "bcc" o);
  attachments = attachments (get "attachments" o);
  in_reply_to_thread_id = as_string (get "inReplyToThreadId" o);
  in_reply_to_message_id = as_string (get "inReplyToMessageId" o);
  references = string_array (get "references" o);
  draft_id = as_string (get "draftId" o);
}

unfoldable pub normalize_payload : Json → Option ScheduledSendPayload
normalize_payload (obj o) =
    let to = trim (or_text (as_string (get "toAddress" o)) []) in
    if is_empty to then none else some (payload_of to o)
normalize_payload _ = none

abbrev pub text_items : List Text → Items
text_items [] = nil
text_items (s ∷ ss) = cons (str s) (text_items ss)

abbrev pub attachment_json : Attachment → Json
attachment_json a =
    obj
      (field "blob_id" (str a.blob_id) (field "name" (str a.name) (field "type" (str a.type) end)))

abbrev pub attachments_items : List Attachment → Items
attachments_items [] = nil
attachments_items (a ∷ rest) = cons (attachment_json a) (attachments_items rest)

-- An object literal; a key whose value is `undefined` is not stored.
abbrev pub fields_of : List (String × Option Json) → Fields
fields_of [] = end
fields_of ((key, none) ∷ entries) = fields_of entries
fields_of ((key, some v) ∷ entries) = field key v (fields_of entries)

-- A null is stored.
abbrev pub or_null : Option Text → Json
or_null none = null
or_null (some s) = str s

abbrev pub texts_json : Option (List Text) → Option Json
texts_json ts = Option.map (λ l. arr (text_items l)) ts

abbrev pub payload_entries : ScheduledSendPayload → List (String × Option Json)
payload_entries p =
    ("toAddress", some (str p.to_address))
    ∷ ("toAddresses", texts_json p.to_addresses)
    ∷ ("subject", some (str p.subject))
    ∷ ("body", some (str p.body))
    ∷ ("bodyHtml", some (or_null p.body_html))
    ∷ ("cc", texts_json p.cc)
    ∷ ("bcc", texts_json p.bcc)
    ∷ ("attachments", Option.map (λ l. arr (attachments_items l)) p.attachments)
    ∷ ("inReplyToThreadId", some (or_null p.in_reply_to_thread_id))
    ∷ ("inReplyToMessageId", some (or_null p.in_reply_to_message_id))
    ∷ ("references", texts_json p.references)
    ∷ ("draftId", some (or_null p.draft_id))
    ∷ []

-- The column `payload` as the create statement of `scheduleSend` writes it.
abbrev pub payload_json : ScheduledSendPayload → Json
payload_json p = obj (fields_of (payload_entries p))
