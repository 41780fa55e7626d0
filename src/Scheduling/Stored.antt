-- ===== src/Scheduling/Stored.antt =====
-- A payload of backend/src/scheduling/scheduling.service.ts read back from its column.
use email_ops_community.Prelude.{
  ◌≡◌, refl, ap, ◌∙◌, Bool, true, false, Option, none, some, List, [], ◌∷◌, arith, All, keep,
  Bool-cases, inl, inr, str_eq, if◌then◌else◌, String,
}
use mathlib.Core.Option
use mathlib.Core.Path.{subst}
use email_ops_community.Prelude.Text.{Text, txt, trim, trim_start, is_space, is_empty}
use email_ops_community.Prelude.Trim.{trim_idem}
use email_ops_community.Json.{
  Json, null, boolean, num, str, arr, obj, Items, nil, cons, Fields, end, field, get, as_string,
  strings,
}
use email_ops_community.Scheduling.Payload.{
  ScheduledSendPayload, Attachment, has_ink, has_blob, or_text, ink_or, non_empty, string_array,
  attachment, attachment_items, attachments, payload_of, normalize_payload, payload_entries,
  fields_of, text_items, attachment_json, attachments_items, or_null, texts_json, payload_json,
}

strings-text_items : (ts : List Text) → strings (text_items ts) ≡ ts
unfolding strings
strings-text_items [] = refl
strings-text_items (t ∷ ts) = ap (λ x. t ∷ x) (strings-text_items ts)

keep-All {ℓ} : {A : Type ℓ} (p : A → Bool) (xs : List A) → All (λ x. p x ≡ true) xs → keep p xs ≡ xs
keep-All p [] h = refl
keep-All p (x ∷ xs) h = rw (h.0, keep) (ap (λ ys. x ∷ ys) (keep-All p xs h.1))

All-kept {ℓ} : {A : Type ℓ} (p : A → Bool) (xs : List A) → All (λ x. p x ≡ true) (keep p xs)
All-kept p [] = tt
All-kept p (x ∷ xs) = elim (Bool-cases (p x)) [
  | inl e ↦ rw (e, keep) (e, All-kept p xs)
  | inr e ↦ rw (e, keep) (All-kept p xs)
]

-- A list of texts as `stringArray` makes it: none, or some texts, each with ink.
abbrev Inked : Option (List Text) → Type 0
Inked none = Unit
Inked (some ts) = (non_empty ts ≡ some ts) × All (λ t. has_ink t ≡ true) ts

non_empty-Inked : (ts : List Text) → All (λ t. has_ink t ≡ true) ts → Inked (non_empty ts)
non_empty-Inked [] h = tt
non_empty-Inked (t ∷ ts) h = (refl, h)

string_array-Inked : (raw : Option Json) → Inked (string_array raw)
unfolding string_array
string_array-Inked (some (arr items)) =
    non_empty-Inked (keep has_ink (strings items)) (All-kept has_ink (strings items))
string_array-Inked (some null) = tt
string_array-Inked (some (boolean b)) = tt
string_array-Inked (some (num n)) = tt
string_array-Inked (some (str s)) = tt
string_array-Inked (some (obj o)) = tt
string_array-Inked none = tt

string_array-texts_json : (ts : Option (List Text)) → Inked ts → string_array (texts_json ts) ≡ ts
unfolding string_array
string_array-texts_json none h = refl
string_array-texts_json (some ts) h =
    ap (λ l. non_empty (keep has_ink l)) (strings-text_items ts)
    ∙ ap non_empty (keep-All has_ink ts h.1)
    ∙ h.0

-- An attachment as `attachments` makes it.
abbrev Fit : Attachment → Type 0
Fit a = (has_blob a ≡ true) × (has_ink a.name ≡ true) × (has_ink a.type ≡ true)

abbrev FitAll : Option (List Attachment) → Type 0
FitAll none = Unit
FitAll (some list) = (non_empty list ≡ some list) × All Fit list

ink_or-ink : (o : Option Text) (d : Text) → has_ink d ≡ true → has_ink (ink_or o d) ≡ true
ink_or-ink none d h = h
ink_or-ink (some s) d h = elim (Bool-cases (has_ink s)) [
  | inl e ↦ rw (e, ink_or) e
  | inr e ↦ rw (e, ink_or) h
]

default_name : has_ink (txt "attachment") ≡ true
unfolding trim trim_start is_space
default_name = refl

default_type : has_ink (txt "application/octet-stream") ≡ true
unfolding trim trim_start is_space
default_type = refl

attachment_items-Fit : (items : Items) → All Fit (keep has_blob (attachment_items items))
unfolding attachment_items attachment
attachment_items-Fit nil = tt
attachment_items-Fit (cons (obj a) items) = elim (Bool-cases (has_blob (attachment a))) [
  | inl e ↦
      rw (e, keep)
        (
          (
            e,
            ink_or-ink (as_string (get "name" a)) (txt "attachment") default_name,
            ink_or-ink (as_string (get "type" a)) (txt "application/octet-stream") default_type,
          ),
          attachment_items-Fit items,
        )
  | inr e ↦ rw (e, keep) (attachment_items-Fit items)
]
attachment_items-Fit (cons null items) = attachment_items-Fit items
attachment_items-Fit (cons (boolean b) items) = attachment_items-Fit items
attachment_items-Fit (cons (num n) items) = attachment_items-Fit items
attachment_items-Fit (cons (str s) items) = attachment_items-Fit items
attachment_items-Fit (cons (arr x) items) = attachment_items-Fit items

non_empty-FitAll : (list : List Attachment) → All Fit list → FitAll (non_empty list)
non_empty-FitAll [] h = tt
non_empty-FitAll (a ∷ list) h = (refl, h)

attachments-FitAll : (raw : Option Json) → FitAll (attachments raw)
unfolding attachments
attachments-FitAll (some (arr items)) =
    non_empty-FitAll (keep has_blob (attachment_items items)) (attachment_items-Fit items)
attachments-FitAll (some null) = tt
attachments-FitAll (some (boolean b)) = tt
attachments-FitAll (some (num n)) = tt
attachments-FitAll (some (str s)) = tt
attachments-FitAll (some (obj o)) = tt
attachments-FitAll none = tt

attachment_again :
    (a : Attachment) → Fit a → (fs : Fields) → attachment_json a ≡ obj fs → attachment fs ≡ a
unfolding attachment get
attachment_again a h fs e =
    let same : field "blob_id" (str a.blob_id)
          (field "name" (str a.name) (field "type" (str a.type) end))
        ≡ fs =
      ground arith in
    rw (← same) (rw (h.1, h.2) refl)

attachment_items_again :
    (list : List Attachment) → All Fit list → attachment_items (attachments_items list) ≡ list
unfolding attachment_items
attachment_items_again [] h = refl
attachment_items_again (a ∷ list) h =
    rw (attachment_again a h.0 _ refl) (ap (λ x. a ∷ x) (attachment_items_again list h.1))

All-blob : (list : List Attachment) → All Fit list → All (λ a. has_blob a ≡ true) list
All-blob [] h = tt
All-blob (a ∷ list) h = (h.0.0, All-blob list h.1)

attachments_again :
    (list : Option (List Attachment))
    → FitAll list
    → attachments (Option.map (λ l. arr (attachments_items l)) list) ≡ list
unfolding attachments
attachments_again none h = refl
attachments_again (some list) h =
    ap (λ l. non_empty (keep has_blob l)) (attachment_items_again list h.1)
    ∙ ap non_empty (keep-All has_blob list (All-blob list h.1))
    ∙ h.0

abbrev or_else : Option Json → Option Json → Option Json
or_else none o = o
or_else (some v) o = some v

or_else-none : (o : Option Json) → or_else o none ≡ o
or_else-none none = refl
or_else-none (some v) = refl

abbrev lookup : String → List (String × Option Json) → Option Json
lookup key [] = none
lookup key ((k, o) ∷ entries) =
    let rest = lookup key entries in if str_eq k key then or_else o rest else rest

get-fields_of :
    (key : String) (entries : List (String × Option Json))
    → get key (fields_of entries) ≡ lookup key entries
unfolding get
get-fields_of key [] = refl
get-fields_of key ((k, none) ∷ entries) = elim (Bool-cases (str_eq k key)) [
  | inl e ↦ rw e (get-fields_of key entries)
  | inr e ↦ rw e (get-fields_of key entries)
]
get-fields_of key ((k, some v) ∷ entries) = elim (Bool-cases (str_eq k key)) [
  | inl e ↦ rw (e, get) refl
  | inr e ↦ rw (e, get) (get-fields_of key entries)
]

as_string-or_null : (o : Option Text) → as_string (some (or_null o)) ≡ o
as_string-or_null none = refl
as_string-or_null (some s) = refl

-- A payload as `normalizePayload` makes it.
abbrev Normal : ScheduledSendPayload → Type 0
Normal p =
    Inked p.to_addresses × Inked p.cc × Inked p.bcc × FitAll p.attachments × Inked p.references

payload_of-Normal : (to : Text) (o : Fields) → Normal (payload_of to o)
payload_of-Normal to o = (
  string_array-Inked (get "toAddresses" o),
  string_array-Inked (get "cc" o),
  string_array-Inked (get "bcc" o),
  attachments-FitAll (get "attachments" o),
  string_array-Inked (get "references" o),
)

texts_again :
    (o : Option Json) (ts : Option (List Text))
    → o ≡ or_else (texts_json ts) none
    → Inked ts
    → string_array o ≡ ts
texts_again o ts e h =
    ap string_array (e ∙ or_else-none (texts_json ts)) ∙ string_array-texts_json ts h

text_again : (o : Option Json) (t : Option Text) → o ≡ some (or_null t) → as_string o ≡ t
text_again o t e = ap as_string e ∙ as_string-or_null t

-- An object with the entries of a payload reads as the payload.
payload_of-entries :
    (p : ScheduledSendPayload) (o : Fields)
    → ((key : String) → get key o ≡ lookup key (payload_entries p))
    → Normal p
    → payload_of p.to_address o ≡ p
payload_of-entries p o g (to, cc, bcc, files, refs) =
    rw
      (
        texts_again (get "toAddresses" o) p.to_addresses (g "toAddresses") to,
        g "subject",
        g "body",
        text_again (get "bodyHtml" o) p.body_html (g "bodyHtml"),
        texts_again (get "cc" o) p.cc (g "cc") cc,
        texts_again (get "bcc" o) p.bcc (g "bcc") bcc,
        ap attachments (g "attachments" ∙ or_else-none _) ∙ attachments_again p.attachments files,
        text_again (get "inReplyToThreadId" o) p.in_reply_to_thread_id (g "inReplyToThreadId"),
        text_again (get "inReplyToMessageId" o) p.in_reply_to_message_id (g "inReplyToMessageId"),
        texts_again (get "references" o) p.references (g "references") refs,
        text_again (get "draftId" o) p.draft_id (g "draftId"),
      )
      refl

normalize_payload-Normal :
    (raw : Json) (p : ScheduledSendPayload)
    → normalize_payload raw ≡ some p
    → Normal p × (trim p.to_address ≡ p.to_address) × (is_empty p.to_address ≡ false)
unfolding normalize_payload
normalize_payload-Normal (obj o) p h =
    let to = trim (or_text (as_string (get "toAddress" o)) []) in
    elim (Bool-cases (is_empty to)) [
      | inl e ↦ ground (arith, e, h)
      | inr e ↦
          let same : payload_of to o ≡ p = ground (arith, e, h) in
          subst
            (λ q. Normal q × (trim q.to_address ≡ q.to_address) × (is_empty q.to_address ≡ false))
            same (payload_of-Normal to o, trim_idem (or_text (as_string (get "toAddress" o)) []), e)
    ]
normalize_payload-Normal null p h = ground arith
normalize_payload-Normal (boolean b) p h = ground arith
normalize_payload-Normal (num n) p h = ground arith
normalize_payload-Normal (str s) p h = ground arith
normalize_payload-Normal (arr x) p h = ground arith

-- What is scheduled is what is sent: the payload that the request was normalized to is read from
-- the column as it was written.
pub normalize_payload-payload_json :
    (raw : Json) (p : ScheduledSendPayload)
    → normalize_payload raw ≡ some p
    → normalize_payload (payload_json p) ≡ some p
unfolding normalize_payload get
normalize_payload-payload_json raw p h =
    let (normal, trimmed, ink) = normalize_payload-Normal raw p h in
    rw (trimmed, ink)
      (ap some (
        payload_of-entries p (fields_of (payload_entries p))
          (λ key. get-fields_of key (payload_entries p)) normal))
