-- ===== src/Mailboxes.antt =====
-- The mailboxes of a workspace and who may act through one: `mayActThroughMailbox`, which
-- backend/src/email/email.service.ts and backend/src/scheduling/scheduling.service.ts both have.
use email_ops_community.Prelude.{
  Bool, true, false, not, ◌||◌, Option, none, some, List, find, if◌then◌else◌,
}
use email_ops_community.Prelude.Text.{Text, text_eq}

pub data OwnerKind : Type 0 where
  human shared agent : OwnerKind

pub record MailboxAccount : Type 0 where
  pub id : Text
  pub workspace_id : Text
  pub email_address : Text
  pub display_name : Option Text
  pub provider : Text
  pub active : Bool
  pub is_default : Bool
  pub postmark_lane : Bool
  pub owner_kind : OwnerKind
  pub owner_key : Option Text

pub record User : Type 0 where
  pub id : Text
  pub keycloak_id : Option Text

abbrev pub is_human : OwnerKind → Bool
is_human human = true
is_human _ = false

abbrev is_key : Option Text → Text → Bool
is_key none k = false
is_key (some o) k = text_eq o k

-- `uc_uid` and `owner_key` are none where the source has null or the empty text.
unfoldable pub may_act_through_mailbox : List User → MailboxAccount → Option Text → Bool
may_act_through_mailbox users mailbox uc_uid =
    if not (is_human mailbox.owner_kind) then true else elim mailbox.owner_key [
      | none ↦ false
      | some key ↦ elim uc_uid [
        | none ↦ false
        | some uid ↦
            if text_eq key uid
            then true
            else elim (find (λ u. is_key u.keycloak_id uid || text_eq u.id uid) users) [
              | none ↦ false
              | some u ↦ is_key u.keycloak_id key || text_eq key u.id
            ]
      ]
    ]
