-- ===== src/Email/Address.antt =====
-- Addresses in backend/src/email/email.service.ts and backend/src/email/autonomy.ts: the form
-- `Name <address>`, and the regular expressions that the code tests them with.
use email_ops_community.Prelude.{
  ℕ, ◌==◌, Bool, false, not, ◌&&◌, ◌||◌, Option, none, some, [], ◌∷◌, any, every, drop,
  if◌then◌else◌,
}
use mathlib.Core.List.{reverse}
use email_ops_community.Prelude.Text.{Text, is_space, trim, to_lower_case, is_empty}

-- The text up to the first unit that fails the test, and the rest.
unfoldable pub span : (ℕ → Bool) → Text → Text × Text
span p [] = ([], [])
span p (c ∷ s) = let (a, b) = span p s in if p c then (c ∷ a, b) else ([], c ∷ s)

abbrev has : ℕ → Text → Bool
has c s = any (λ d. d == c) s

-- `/<([^<>]+)>\s*$/` on a trimmed text: what stands between its last '<' and a '>' at its end.
unfoldable pub angled : Text → Option Text
angled s = elim (reverse s) [
  | [] ↦ none
  | c ∷ back ↦
      if not (c == b'>')
      then none
      else let (inner, before) = span (λ d. not (d == b'<' || d == b'>')) back in
        elim before [
          | [] ↦ none
          | d ∷ _ ↦ if d == b'<' && not (is_empty inner) then some (reverse inner) else none
        ]
]

-- `normalizeAddress`.
unfoldable pub normalize_address : Text → Text
unfolding angled
normalize_address raw = elim (angled (trim raw)) [
  | some inner ↦ to_lower_case (trim inner)
  | none ↦ to_lower_case (trim (trim raw))
]

-- `/^[^\s@]+@[^\s@]+\.[^\s@]+$/`.
abbrev plain : ℕ → Bool
plain c = not (is_space c || c == b'@')

-- A dot with something on both of its sides.
dotted : Text → Bool
dotted [] = false
dotted (c ∷ s) = any (λ d. d == b'.') (reverse (drop 1 (reverse s)))

unfoldable pub is_email : Text → Bool
unfolding dotted
is_email s =
    let (local, rest) = span plain s in
    elim rest [
      | [] ↦ false
      | at ∷ domain ↦ at == b'@' && not (is_empty local) && every plain domain && dotted domain
    ]
