-- ===== src/Search.antt =====
-- backend/src/stalwart/search-query.ts: the search box's words and operators, and the filter of the
-- mail engine that they come to.
mod Query
mod Tokens
mod Tests
use email_ops_community.Prelude.{
  ℕ, zero, suc, ◌+◌, ◌-◌, ◌*◌, ◌%◌, ltb, leb, ◌==◌, Bool, true, false, not, ◌&&◌, ◌||◌, Option,
  none, some, List, [], ◌∷◌, ◌++◌, map, any, keep, take, drop, length, if◌then◌else◌,
}
use email_ops_community.Prelude.Text.{
  Text, txt, text_eq, is_space, trim, to_lower_case, has_text, is_empty,
}

abbrev pub double_quote : ℕ
double_quote = 34

abbrev pub single_quote : ℕ
single_quote = 39

-- The text up to the next double quote, and the rest from it on.
unfoldable pub up_to_quote : Text → Text × Text
up_to_quote [] = ([], [])
up_to_quote (c ∷ s) =
    let (inner, rest) = up_to_quote s in
    if c == double_quote then ([], c ∷ s) else (c ∷ inner, rest)

abbrev close_quote : Text × Text → (Text → Text × Text) → Text × Text
close_quote (inner, []) go = (double_quote ∷ inner, [])
close_quote (inner, q ∷ rest) go =
    let (token, left) = go rest in (double_quote ∷ (inner ++ double_quote ∷ token), left)

-- The token at the start of the text, and the rest; the fuel bounds its characters.
unfoldable pub read_token : ℕ → Text → Text × Text
unfolding up_to_quote
read_token zero s = ([], s)
read_token (suc n) [] = ([], [])
read_token (suc n) (c ∷ s) =
    let (token, rest) = read_token n s in
    let quoted = close_quote (up_to_quote s) (read_token n) in
    if is_space c then ([], c ∷ s) else if c == double_quote then quoted else (c ∷ token, rest)

unfoldable pub extract_tokens : ℕ → Text → List Text
unfolding read_token
extract_tokens zero s = []
extract_tokens (suc n) [] = []
extract_tokens (suc n) (c ∷ s) =
    let skipped = extract_tokens n s in
    let (token, rest) = read_token (length (c ∷ s)) (c ∷ s) in
    let others = extract_tokens n rest in if is_space c then skipped else token ∷ others
