-- ===== src/Email/Learn.antt =====
-- `learnTrustedCorrespondents` of backend/src/email/email.service.ts: an approval vouches for its
-- external recipients. A failure of the database in it is not modelled.
use email_ops_community.Prelude.{suc, Bool, not, ◌&&◌, List, [], ◌∷◌, map, keep, if◌then◌else◌}
use email_ops_community.Prelude.Text.{Text, text_eq, is_empty}
use email_ops_community.Autonomy.{is_external_recipient}
use email_ops_community.Email.{Store, Directory, TrustedCorrespondent, address_scope}
use email_ops_community.Email.Address.{normalize_address}
use email_ops_community.Email.Context.{unique, workspace_domains, is_address}

abbrev pub same_trust : Text → Text → TrustedCorrespondent → Bool
same_trust workspace_id address r =
    text_eq r.workspace_id workspace_id && is_address r.scope && text_eq r.address address

-- The upsert of one address.
unfoldable pub vouch : Text → Text → List TrustedCorrespondent → List TrustedCorrespondent
vouch workspace_id address [] =
    record {
      workspace_id = workspace_id;
      scope = address_scope;
      address = address;
      approval_count = 1;
    }
    ∷ []
vouch workspace_id address (r ∷ rows) =
    let rest = vouch workspace_id address rows in
    if same_trust workspace_id address r
    then record r { approval_count = suc r.approval_count } ∷ rows
    else r ∷ rest

unfoldable pub vouch_all : Text → List Text → List TrustedCorrespondent → List TrustedCorrespondent
unfolding vouch
vouch_all workspace_id [] rows = rows
vouch_all workspace_id (a ∷ addresses) rows =
    vouch_all workspace_id addresses (vouch workspace_id a rows)

-- The external ones of the recipients, normalized, each once.
unfoldable pub vouched : Directory → Text → List Text → List Text
vouched dir workspace_id raw =
    keep (λ a. is_external_recipient a (workspace_domains dir workspace_id))
      (unique (keep (λ a. not (is_empty a)) (map normalize_address raw)))

unfoldable pub learn_trusted_correspondents : Directory → Text → List Text → Store → Store
unfolding vouch_all vouched
learn_trusted_correspondents dir workspace_id raw s = record s {
  trusted = vouch_all workspace_id (vouched dir workspace_id raw) s.trusted;
}
