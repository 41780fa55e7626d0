-- ===== src/AccessList/Cover.antt =====
-- Who is let in by backend/src/auth/access-list.ts, and with what role.
use email_ops_community.Prelude.{
  ◌≡◌, ◌⊎◌, refl, ◌∙◌, inl, inr, Bool, true, false, ◌||◌, Option, none, some, List, [], ◌∷◌, any,
  Bool-cases, Option-cases, find,
}
use email_ops_community.Prelude.Text.{Text, txt, trim, to_lower_case}
use email_ops_community.AccessList.{
  AccessRule, is_exact, is_wild, domain_of, by_domain, by_rules, get_rules, resolve_user_access,
}

-- A rule covers an address: its pattern is the address, or it is a rule for the address's domain.
abbrev pub Covers : Text → AccessRule → Type 0
Covers lower r =
    ((r.is_domain ≡ false) × (r.pattern ≡ lower))
    ⊎ ((r.is_domain ≡ true) × ((d : Text) × (domain_of lower ≡ some d) × (r.domain ≡ some d)))

find-any {ℓ} :
    {A : Type ℓ} (p : A → Bool) (xs : List A)
    → ((find p xs ≡ none) × (any p xs ≡ false))
      ⊎ ((x : A) × (find p xs ≡ some x) × (any p xs ≡ true))
find-any p [] = inl (refl, refl)
find-any p (x ∷ xs) = elim (Bool-cases (p x)) [
  | inl e ↦ rw (e, find) (inr (x, refl, refl))
  | inr e ↦ rw (e, find) (find-any p xs)
]

any_wild : Option Text → List AccessRule → Bool
any_wild none rules = false
any_wild (some d) rules = any (is_wild d) rules

by_domain-allowed :
    (rules : List AccessRule) (source lower : Text)
    → (by_domain rules source lower).allowed ≡ any_wild (domain_of lower) rules
unfolding by_domain any_wild
by_domain-allowed rules source lower = elim (Option-cases (domain_of lower)) [
  | inl e ↦ rw (e, by_domain, any_wild) refl
  | inr (d, e) ↦ elim (find-any (is_wild d) rules) [
    | inl (f, a) ↦ rw (e, f, a, by_domain, any_wild) refl
    | inr (x, f, a) ↦ rw (e, f, a, by_domain, any_wild) refl
  ]
]

by_rules-allowed :
    (rules : List AccessRule) (source lower : Text)
    → (by_rules rules source lower).allowed
      ≡ (any (is_exact lower) rules || any_wild (domain_of lower) rules)
unfolding by_rules
by_rules-allowed rules source lower = elim (find-any (is_exact lower) rules) [
  | inl (f, a) ↦ rw (f, a, by_rules) (by_domain-allowed rules source lower)
  | inr (x, f, a) ↦ rw (f, a, by_rules) refl
]

wild_by : Option Text → AccessRule → Bool
wild_by none r = false
wild_by (some d) r = is_wild d r

any_wild-nil : (o : Option Text) → any_wild o [] ≡ false
unfolding any_wild
any_wild-nil none = refl
any_wild-nil (some d) = refl

nobody : (source lower : Text) → (by_rules [] source lower).allowed ≡ false
nobody source lower = by_rules-allowed [] source lower ∙ any_wild-nil (domain_of lower)

-- A list that is set and blank lets nobody in.
resolve_user_access-blank :
    (raw_env : Text) (email : Option Text)
    → trim raw_env ≡ []
    → (resolve_user_access (some raw_env) email).allowed ≡ false
unfolding resolve_user_access get_rules
resolve_user_access-blank raw_env none h = refl
resolve_user_access-blank raw_env (some email) h =
    rw (h, get_rules)
      (nobody (txt "explicit-empty EMAIL_OPS_ACCESS_LIST (deny-all)") (to_lower_case email))
