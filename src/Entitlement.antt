-- ===== src/Entitlement.antt =====
-- backend/src/email/entitlement.ts: who may send or draft mail.
pub mod Gate
mod Tests
use email_ops_community.Prelude.{
  Bool, true, false, ◌&&◌, Option, none, some, List, [], ◌∷◌, String, any, map, if◌then◌else◌,
}
use email_ops_community.Prelude.Text.{Text, txt, text_eq, has_text, trim, to_lower_case}

abbrev pub sku_customer_ops : Text
sku_customer_ops = txt "customer-ops"

abbrev pub sku_email_ops : Text
sku_email_ops = txt "email-ops"

-- `SKU_ALIASES`, the spellings of each of the two.
abbrev pub customer_ops_spellings : List Text
customer_ops_spellings = txt "customer-ops" ∷ txt "customer_ops" ∷ txt "customerops" ∷ txt "co" ∷ []

abbrev pub email_ops_spellings : List Text
email_ops_spellings = txt "email-ops" ∷ txt "email_ops" ∷ txt "emailops" ∷ txt "mail" ∷ []

abbrev pub alias_of : Text → Text
alias_of key =
    if has_text customer_ops_spellings key
    then sku_customer_ops
    else if has_text email_ops_spellings key
    then sku_email_ops
    else key

abbrev pub sku_key : Text → Text
sku_key code = to_lower_case (trim code)

unfoldable pub normalize_sku : Text → Text
normalize_sku code = alias_of (sku_key code)

pub data EntitlementMode : Type 0 where
  enforce open_mode : EntitlementMode

pub record EntitlementDecision : Type 0 where
  pub allowed : Bool
  pub mode : EntitlementMode
  pub reason : Text

abbrev or_else : Option Text → Option Text → Option Text
or_else none o = o
or_else (some s) o = some s

abbrev mode_of : Option Text → EntitlementMode
mode_of none = enforce
mode_of (some raw) = if text_eq (to_lower_case (trim raw)) (txt "open") then open_mode else enforce

-- `entitlementMode`, over the environment.
unfoldable pub entitlement_mode : (String → Option Text) → EntitlementMode
entitlement_mode get_env =
    mode_of
      (or_else (get_env "UC_ENTITLEMENT_MODE") (get_env "EMAIL_OPS_CROSS_APP_ENTITLEMENT_MODE"))

abbrev has_both : List Text → Bool
has_both have = has_text have sku_customer_ops && has_text have sku_email_ops

abbrev by_mode : EntitlementMode → EntitlementDecision
by_mode open_mode = record {
  allowed = true;
  mode = open_mode;
  reason = txt "open bootstrap: dual-SKU check bypassed (UC_ENTITLEMENT_MODE=open)";
}
by_mode enforce = record {
  allowed = false;
  mode = enforce;
  reason =
      txt
        "not entitled: sending/drafting mail via Email-Ops requires BOTH customer-ops and email-ops; the caller does not carry both.";
}

unfoldable pub check_compose_entitlement : List Text → (String → Option Text) → EntitlementDecision
unfolding normalize_sku
check_compose_entitlement entitlements get_env =
    if has_both (map normalize_sku entitlements)
    then record {
      allowed = true;
      mode = entitlement_mode get_env;
      reason = txt "entitled: caller carries both customer-ops and email-ops";
    }
    else by_mode (entitlement_mode get_env)
