-- ===== src/Email/Contacts.antt =====
-- The address book: `addressEntries` and `rememberContacts` of
-- backend/src/email/email.service.ts.
use email_ops_community.Prelude.{
  ℕ, suc, ◌==◌, Bool, true, false, not, ◌&&◌, ◌||◌, Option, none, some, List, [], ◌∷◌, map, keep,
  any, drop, if◌then◌else◌,
}
use mathlib.Core.List.{reverse}
use email_ops_community.Prelude.Text.{
  Text, text_eq, is_space, trim, trim_start, to_lower_case, is_empty,
}
use email_ops_community.Email.{MailContact, Store}
use email_ops_community.Email.Address.{span, is_email}

pub record Entry : Type 0 where
  pub email : Text
  pub display_name : Option Text

abbrev ink : Text → Option Text
ink s = if is_empty s then none else some s

abbrev skip : ℕ → Text → Text
skip c [] = []
skip c (d ∷ s) = if d == c then s else d ∷ s

-- An '@' with something on both of its sides.
abbrev has_at : Text → Bool
has_at [] = false
has_at (c ∷ s) = any (λ d. d == b'@') (reverse (drop 1 (reverse s)))

-- `/^\s*(?:"?([^"<]*)"?\s*)?<([^<>\s]+@[^<>\s]+)>\s*$/`: the name and the address.
unfoldable pub named_address : Text → Option (Text × Text)
unfolding span
named_address raw =
    let (name, rest) = span (λ c. not (c == b'"' || c == b'<')) (skip b'"' (trim_start raw)) in
    elim (trim_start (skip b'"' rest)) [
      | [] ↦ none
      | open_bracket ∷ more ↦
          let (inner, tail) = span (λ c. not (c == b'<' || c == b'>' || is_space c)) more in
          elim tail [
            | [] ↦ none
            | close_bracket ∷ blank ↦
                if open_bracket == b'<'
                  && close_bracket == b'>'
                  && has_at inner
                  && is_empty (trim_start blank)
                then some (name, inner)
                else none
          ]
    ]

unfoldable pub entry_of : Text → Entry
entry_of raw = elim (named_address raw) [
  | some p ↦ record { email = to_lower_case (trim p.1); display_name = ink (trim p.0) }
  | none ↦ record { email = to_lower_case (trim raw); display_name = none }
]

unfoldable pub address_entries : List Text → List Entry
unfolding entry_of
address_entries addresses = keep (λ e. is_email e.email) (map entry_of addresses)

abbrev is_some : Option Text → Bool
is_some none = false
is_some (some s) = true

abbrev trim_name : Option Text → Option Text
trim_name none = none
trim_name (some s) = ink (trim s)

-- `byEmail.set`, guarded: an address keeps its place, and its name if it has one.
unfoldable pub note_entry : Entry → List Entry → List Entry
note_entry e [] = record { email = e.email; display_name = trim_name e.display_name } ∷ []
note_entry e (x ∷ xs) =
    let rest = note_entry e xs in
    if text_eq x.email e.email
    then (if not (is_some x.display_name) && is_some e.display_name
        then record x { display_name = trim_name e.display_name } ∷ xs
        else x ∷ xs)
    else x ∷ rest

unfoldable pub gather : Text → List Entry → List Entry → List Entry
unfolding note_entry
gather own [] seen = seen
gather own (e ∷ entries) seen =
    let email = to_lower_case (trim e.email) in
    gather own entries (
      if is_empty email || text_eq email own || not (is_email email)
      then seen
      else note_entry (record e { email = email }) seen)

abbrev same_contact : Text → Text → Text → MailContact → Bool
same_contact workspace_id mailbox_id email c =
    text_eq c.workspace_id workspace_id
    && text_eq c.mailbox_account_id mailbox_id
    && text_eq c.email email

abbrev renamed : Option Text → Option Text → Option Text
renamed none old = old
renamed (some n) old = some n

-- The upsert of one entry.
unfoldable pub upsert_contact : Text → Text → Entry → List MailContact → List MailContact
upsert_contact workspace_id mailbox_id e [] =
    record {
      workspace_id = workspace_id;
      mailbox_account_id = mailbox_id;
      email = e.email;
      display_name = e.display_name;
      frequency = 1;
    }
    ∷ []
upsert_contact workspace_id mailbox_id e (c ∷ cs) =
    let rest = upsert_contact workspace_id mailbox_id e cs in
    if same_contact workspace_id mailbox_id e.email c
    then record c {
      display_name = renamed e.display_name c.display_name;
      frequency = suc c.frequency;
    }
      ∷ cs
    else c ∷ rest

unfoldable pub upsert_contacts : Text → Text → List Entry → List MailContact → List MailContact
unfolding upsert_contact
upsert_contacts workspace_id mailbox_id [] cs = cs
upsert_contacts workspace_id mailbox_id (e ∷ es) cs =
    upsert_contacts workspace_id mailbox_id es (upsert_contact workspace_id mailbox_id e cs)

-- `rememberContacts`.
unfoldable pub remember_contacts : Text → Text → Text → List Entry → Store → Store
unfolding gather upsert_contacts
remember_contacts workspace_id mailbox_id mailbox_address entries s = record s {
  contacts =
      upsert_contacts workspace_id mailbox_id
        (gather (to_lower_case (trim mailbox_address)) entries []) s.contacts;
}
