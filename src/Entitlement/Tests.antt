-- ===== src/Entitlement/Tests.antt =====
-- The witness of the theorem on backend/src/email/entitlement.ts.
use email_ops_community.Prelude.{◌≡◌, ◌↔◌, ◌⊎◌, true, Option, none, [], ◌∷◌, Any, String}
use email_ops_community.Prelude.Text.{Text, txt}
use email_ops_community.Entitlement.{
  customer_ops_spellings, email_ops_spellings, open_mode, entitlement_mode,
  check_compose_entitlement,
}
use email_ops_community.Entitlement.Gate.{Spells, check_compose_entitlement-Spells}

abbrev no_env : String → Option Text
no_env key = none

check_compose_entitlement-Spells_example :
    ((check_compose_entitlement (txt " CO " ∷ txt "mail" ∷ []) no_env).allowed ≡ true) ↔ (
      (entitlement_mode no_env ≡ open_mode)
      ⊎ (Any (Spells customer_ops_spellings) (txt " CO " ∷ txt "mail" ∷ [])
          × Any (Spells email_ops_spellings) (txt " CO " ∷ txt "mail" ∷ [])))
check_compose_entitlement-Spells_example =
    check_compose_entitlement-Spells (txt " CO " ∷ txt "mail" ∷ []) no_env
