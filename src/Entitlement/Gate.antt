-- ===== src/Entitlement/Gate.antt =====
-- The gate of backend/src/email/entitlement.ts, told by the spellings of the entitlements.
use email_ops_community.Prelude.{
  ◌≡◌, ◌↔◌, ◌⊎◌, refl, sym, ◌∙◌, inl, inr, Bool, true, false, ◌||◌, Option, List, [], ◌∷◌, arith,
  Any, map, Bool-cases, String,
}
use mathlib.Core.Path.{subst}
use email_ops_community.Prelude.Text.{Text, txt, text_eq, text_eq_iff, has_text}
use email_ops_community.Entitlement.{
  sku_customer_ops, sku_email_ops, customer_ops_spellings, email_ops_spellings, alias_of, sku_key,
  normalize_sku, EntitlementMode, enforce, open_mode, entitlement_mode, has_both, by_mode,
  check_compose_entitlement,
}

-- An entitlement that is written, but for case and blanks around it, in one of the spellings.
abbrev pub Spells : List Text → Text → Type 0
Spells spellings code = has_text spellings (sku_key code) ≡ true

spelled : (s key : Text) → text_eq key s ≡ true → key ≡ s
spelled s key h = (text_eq_iff key s).0 h

-- No text is a spelling of both.
apart :
    (key : Text)
    → has_text customer_ops_spellings key ≡ true
    → has_text email_ops_spellings key ≡ false
unfolding text_eq
apart key h = elim (Bool-cases (text_eq key (txt "customer-ops"))) [
  | inl e ↦ subst (λ k. has_text email_ops_spellings k ≡ false) (sym (spelled _ key e)) refl
  | inr a ↦ elim (Bool-cases (text_eq key (txt "customer_ops"))) [
    | inl e ↦ subst (λ k. has_text email_ops_spellings k ≡ false) (sym (spelled _ key e)) refl
    | inr b ↦ elim (Bool-cases (text_eq key (txt "customerops"))) [
      | inl e ↦ subst (λ k. has_text email_ops_spellings k ≡ false) (sym (spelled _ key e)) refl
      | inr c ↦ elim (Bool-cases (text_eq key (txt "co"))) [
        | inl e ↦ subst (λ k. has_text email_ops_spellings k ≡ false) (sym (spelled _ key e)) refl
        | inr d ↦ ground (arith, a, b, c, d, h)
      ]
    ]
  ]
]

-- The canonical name is a spelling, so a text that is none of the spellings is another one.
canonical :
    (sku : Text) (spellings : List Text) (key : Text)
    → has_text spellings sku ≡ true
    → has_text spellings key ≡ false
    → text_eq sku key ≡ false
canonical sku spellings key h n = elim (Bool-cases (text_eq sku key)) [
  | inl e ↦
      let mine : has_text spellings key ≡ true =
        subst (λ k. has_text spellings k ≡ true) (spelled key sku e) h in
      ground (arith, mine, n)
  | inr e ↦ e
]

customer_alias :
    (key : Text) → text_eq sku_customer_ops (alias_of key) ≡ has_text customer_ops_spellings key
unfolding text_eq
customer_alias key = elim (Bool-cases (has_text customer_ops_spellings key)) [
  | inl c ↦ rw c refl
  | inr c ↦ elim (Bool-cases (has_text email_ops_spellings key)) [
    | inl m ↦ rw (c, m) refl
    | inr m ↦ rw (c, m) (canonical sku_customer_ops customer_ops_spellings key refl c)
  ]
]

email_alias : (key : Text) → text_eq sku_email_ops (alias_of key) ≡ has_text email_ops_spellings key
unfolding text_eq
email_alias key = elim (Bool-cases (has_text customer_ops_spellings key)) [
  | inl c ↦ rw (c, apart key c) refl
  | inr c ↦ elim (Bool-cases (has_text email_ops_spellings key)) [
    | inl m ↦ rw (c, m) refl
    | inr m ↦ rw (c, m) (canonical sku_email_ops email_ops_spellings key refl m)
  ]
]

Any-map :
    (sku : Text) (spellings : List Text)
    → ((key : Text) → text_eq sku (alias_of key) ≡ has_text spellings key)
    → (codes : List Text)
    → (has_text (map normalize_sku codes) sku ≡ true) ↔ Any (Spells spellings) codes
unfolding normalize_sku
Any-map sku spellings f [] = ground arith
Any-map sku spellings f (code ∷ codes) =
    ground (arith, f (sku_key code), Any-map sku spellings f codes)

is_open : EntitlementMode → Bool
is_open enforce = false
is_open open_mode = true

is_open_iff : (mode : EntitlementMode) → (is_open mode ≡ true) ↔ (mode ≡ open_mode)
unfolding is_open
is_open_iff enforce = ground arith
is_open_iff open_mode = ground arith

by_mode-allowed : (mode : EntitlementMode) → (by_mode mode).allowed ≡ is_open mode
unfolding is_open
by_mode-allowed enforce = refl
by_mode-allowed open_mode = refl

check-allowed :
    (entitlements : List Text) (get_env : String → Option Text)
    → (check_compose_entitlement entitlements get_env).allowed
      ≡ (has_both (map normalize_sku entitlements) || is_open (entitlement_mode get_env))
unfolding check_compose_entitlement
check-allowed entitlements get_env = elim (Bool-cases (has_both (map normalize_sku entitlements))) [
  | inl b ↦ rw b refl
  | inr b ↦ rw b (by_mode-allowed (entitlement_mode get_env))
]

-- Mail may be sent or drafted exactly when the mode is open, or the caller holds both products,
-- each in one of its spellings.
pub check_compose_entitlement-Spells :
    (entitlements : List Text) (get_env : String → Option Text)
    → ((check_compose_entitlement entitlements get_env).allowed ≡ true) ↔ (
        (entitlement_mode get_env ≡ open_mode)
        ⊎ (Any (Spells customer_ops_spellings) entitlements
            × Any (Spells email_ops_spellings) entitlements))
check_compose_entitlement-Spells entitlements get_env =
    let (customer, customer') =
      Any-map sku_customer_ops customer_ops_spellings customer_alias entitlements in
    let (email, email') = Any-map sku_email_ops email_ops_spellings email_alias entitlements in
    let (is, mode_is) = is_open_iff (entitlement_mode get_env) in
    let e = check-allowed entitlements get_env in
    (
      (λ h. elim (Bool-cases (has_both (map normalize_sku entitlements))) [
        | inl b ↦ inr (customer (ground (arith, b)), email (ground (arith, b)))
        | inr b ↦ inl (is (ground (arith, sym e ∙ h, b)))
      ]),
      (λ h. elim h [
        | inl o ↦ e ∙ ground (arith, mode_is o)
        | inr (c, m) ↦ e ∙ ground (arith, customer' c, email' m)
      ]),
    )
