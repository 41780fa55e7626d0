-- ===== src/Search/Tokens.antt =====
-- backend/src/stalwart/search-query.ts, extractTokens: the tokens against the text with its outer
-- white space removed.
use email_ops_community.Prelude.{
  ℕ, zero, suc, ◌+◌, ◌≤◌, ◌<◌, ◌==◌, Bool, true, false, not, ◌&&◌, List, [], ◌∷◌, ◌++◌, length,
  length-append, All, if◌then◌else◌, Bool-cases, ◌≡◌, refl, arith, inl, inr, ap, ◌∙◌, sym,
}
use mathlib.Core.Bool.{false≢true}
use mathlib.Core.List.{append_assoc}
use email_ops_community.Prelude.Text.{Text, is_space}
use email_ops_community.Search.{double_quote, up_to_quote, close_quote, read_token, extract_tokens}

-- The text without the white space that stands outside double quotes; `quoted` says whether a quote
-- is open.
unfoldable pub squeeze : Bool → Text → Text
squeeze quoted [] = []
squeeze quoted (c ∷ s) =
    let outside = squeeze false s in
    let inside = squeeze true s in
    let same = if quoted then inside else outside in
    if c == double_quote
    then c ∷ (if quoted then outside else inside)
    else if not quoted && is_space c
    then same
    else c ∷ same

abbrev pub join_all : List Text → Text
join_all [] = []
join_all (t ∷ ts) = t ++ join_all ts

unfoldable pub StartsQuoted : Text → Type 0
StartsQuoted [] = Unit
StartsQuoted (c ∷ s) = (c == double_quote) ≡ true

unfoldable pub UpTo : Text → Text × Text → Type 0
unfolding squeeze StartsQuoted
UpTo s (inner, rest) =
    (squeeze true s ≡ inner ++ squeeze true rest)
    × ((length inner + length rest ≡ length s) × StartsQuoted rest)

unfoldable pub Reads : Text → Text × Text → Type 0
unfolding squeeze
Reads s (token, rest) =
    (squeeze false s ≡ token ++ squeeze false rest) × (length token + length rest ≡ length s)

-- A character that opens no quote is kept inside quotes, and outside them unless it is white space.
squeeze-plain :
    (quoted : Bool) (c : ℕ) (s : Text)
    → (c == double_quote) ≡ false
    → (not quoted && is_space c) ≡ false
    → squeeze quoted (c ∷ s) ≡ c ∷ squeeze quoted s
unfolding squeeze
squeeze-plain false c s e f = rw (e, f) refl
squeeze-plain true c s e f = rw e refl

StartsQuoted-nil : StartsQuoted []
unfolding StartsQuoted
StartsQuoted-nil = tt

StartsQuoted-cons : (c : ℕ) (s : Text) → (c == double_quote) ≡ true → StartsQuoted (c ∷ s)
unfolding StartsQuoted
StartsQuoted-cons c s e = e

UpTo-stop : (s : Text) → StartsQuoted s → UpTo s ([], s)
unfolding UpTo
UpTo-stop s h = (refl, (omega arith, h))

UpTo-more :
    (c : ℕ) (s inner rest : Text)
    → (c == double_quote) ≡ false
    → UpTo s (inner, rest)
    → UpTo (c ∷ s) (c ∷ inner, rest)
unfolding UpTo
UpTo-more c s inner rest e (kept, (sizes, starts)) = (
  squeeze-plain true c s e refl ∙ ap {B = Text} (λ r. c ∷ r) kept,
  (omega (arith, sizes), starts),
)

up_to_quote-UpTo : (s : Text) → UpTo s (up_to_quote s)
unfolding up_to_quote
up_to_quote-UpTo [] = UpTo-stop [] (StartsQuoted-nil)
up_to_quote-UpTo (c ∷ s) = elim (Bool-cases (c == double_quote)) [
  | inl e ↦ rw e (UpTo-stop (c ∷ s) (StartsQuoted-cons c s e))
  | inr e ↦ rw e (UpTo-more c s (up_to_quote s).0 (up_to_quote s).1 e (up_to_quote-UpTo s))
]

code_of_quote : (c : ℕ) → (c == double_quote) ≡ true → c ≡ double_quote
code_of_quote c e = ground (arith, e)

-- A closing quote puts what follows it outside again.
squeeze-closing :
    (q : ℕ) (rest : Text)
    → (q == double_quote) ≡ true
    → squeeze true (q ∷ rest) ≡ double_quote ∷ squeeze false rest
unfolding squeeze
squeeze-closing q rest e = rw e (ap {B = Text} (λ c. c ∷ squeeze false rest) (code_of_quote q e))

-- After the opening quote `s` is left; `go` reads what follows the closing one.
close_quote-Reads :
    (c : ℕ) (s : Text) (r : Text × Text) (go : Text → Text × Text)
    → (c == double_quote) ≡ true
    → UpTo s r
    → ((t : Text) → length t ≤ length s → Reads t (go t))
    → Reads (c ∷ s) (close_quote r go)
unfolding UpTo Reads squeeze StartsQuoted
close_quote-Reads c s (inner, []) go e up h =
    let (kept, (sizes, starts)) = up in
    rw e (rw (code_of_quote c e) (ap {B = Text} (λ r. double_quote ∷ r) kept), omega (arith, sizes))
close_quote-Reads c s (inner, q ∷ rest) go e up h =
    let (kept, (sizes, starts)) = up in
    let (eq, size) = h rest (omega (arith, sizes)) in
    let token = (go rest).0 in
    let inside =
      kept
      ∙ ap {B = Text} (λ r. inner ++ r)
          (squeeze-closing q rest starts ∙ ap {B = Text} (λ r. double_quote ∷ r) eq)
      ∙ sym (append_assoc inner (double_quote ∷ token) (squeeze false (go rest).1)) in
    (
      rw e (rw (code_of_quote c e) (ap {B = Text} (λ r. double_quote ∷ r) inside)),
      omega (arith, sizes, size, length-append inner (double_quote ∷ token)),
    )

Reads-stop : (s : Text) → Reads s ([], s)
unfolding Reads
Reads-stop s = (refl, omega arith)

Reads-more :
    (c : ℕ) (s token rest : Text)
    → is_space c ≡ false
    → (c == double_quote) ≡ false
    → Reads s (token, rest)
    → Reads (c ∷ s) (c ∷ token, rest)
unfolding Reads
Reads-more c s token rest e f (eq, size) =
    (squeeze-plain false c s f e ∙ ap {B = Text} (λ r. c ∷ r) eq, omega (arith, size))

read_token-Reads : (n : ℕ) (s : Text) → length s ≤ n → Reads s (read_token n s)
unfolding read_token
read_token-Reads zero [] h = Reads-stop []
read_token-Reads zero (c ∷ s) h = absurd (omega (arith, h))
read_token-Reads (suc n) [] h = Reads-stop []
read_token-Reads (suc n) (c ∷ s) h =
    let more = read_token-Reads n s (omega (arith, h)) in
    let quoted =
      (λ (t : Text) (g : length t ≤ length s). read_token-Reads n t (omega (arith, g, h))) in
    elim (Bool-cases (is_space c)) [
      | inl e ↦ rw e (Reads-stop (c ∷ s))
      | inr e ↦ elim (Bool-cases (c == double_quote)) [
        | inl f ↦
            rw (e, f)
              (close_quote-Reads c s (up_to_quote s) (read_token n) f (up_to_quote-UpTo s) quoted)
        | inr f ↦ rw (e, f) (Reads-more c s (read_token n s).0 (read_token n s).1 e f more)
      ]
    ]

abbrev pub IsWord : Text → Type 0
IsWord t = 0 < length t

-- A token that starts at a character other than white space holds at least that character.
close_quote-IsWord : (r : Text × Text) (go : Text → Text × Text) → IsWord (close_quote r go).0
close_quote-IsWord (inner, []) go = omega arith
close_quote-IsWord (inner, q ∷ rest) go = omega arith

read_token-IsWord :
    (n c : ℕ) (s : Text) → is_space c ≡ false → IsWord (read_token (suc n) (c ∷ s)).0
unfolding read_token
read_token-IsWord n c s e = elim (Bool-cases (c == double_quote)) [
  | inl f ↦ rw (e, f) (close_quote-IsWord (up_to_quote s) (read_token n))
  | inr f ↦ rw (e, f) (omega arith)
]

quote_is_no_space : (c : ℕ) → is_space c ≡ true → (c == double_quote) ≡ false
unfolding is_space
quote_is_no_space c e = elim (Bool-cases (c == double_quote)) [
  | inl f ↦ absurd (false≢true (sym (ap {B = Bool} is_space (code_of_quote c f)) ∙ e))
  | inr f ↦ f
]

squeeze-space : (c : ℕ) (s : Text) → is_space c ≡ true → squeeze false (c ∷ s) ≡ squeeze false s
unfolding squeeze
squeeze-space c s e = rw (quote_is_no_space c e, e) refl

unfoldable pub Covers : Text → List Text → Type 0
Covers s tokens = (join_all tokens ≡ squeeze false s) × All IsWord tokens

Covers-nil : Covers [] []
unfolding Covers squeeze
Covers-nil = (refl, tt)

Covers-space :
    (c : ℕ) (s : Text) (tokens : List Text)
    → is_space c ≡ true
    → Covers s tokens
    → Covers (c ∷ s) tokens
unfolding Covers
Covers-space c s tokens e (joined, words) = (joined ∙ sym (squeeze-space c s e), words)

Covers-word :
    (s token rest : Text) (tokens : List Text)
    → Reads s (token, rest)
    → IsWord token
    → Covers rest tokens
    → Covers s (token ∷ tokens)
unfolding Covers Reads
Covers-word s token rest tokens (eq, size) word (joined, words) =
    (ap {B = Text} (λ r. token ++ r) joined ∙ sym eq, (word, words))

Reads-size : (s token rest : Text) → Reads s (token, rest) → length token + length rest ≡ length s
unfolding Reads
Reads-size s token rest (eq, size) = size

extract_tokens-word :
    (n c : ℕ) (s : Text)
    → is_space c ≡ false
    → let r = read_token (length (c ∷ s)) (c ∷ s) in
      extract_tokens (suc n) (c ∷ s) ≡ r.0 ∷ extract_tokens n r.1
unfolding extract_tokens
extract_tokens-word n c s e =
    let r = read_token (length (c ∷ s)) (c ∷ s) in
    ap {B = List Text} (λ b. if b then extract_tokens n s else r.0 ∷ extract_tokens n r.1) e

extract_tokens-blank :
    (n c : ℕ) (s : Text) → is_space c ≡ true → extract_tokens (suc n) (c ∷ s) ≡ extract_tokens n s
unfolding extract_tokens
extract_tokens-blank n c s e =
    let r = read_token (length (c ∷ s)) (c ∷ s) in
    ap {B = List Text} (λ b. if b then extract_tokens n s else r.0 ∷ extract_tokens n r.1) e

extract_tokens-nil : (n : ℕ) → extract_tokens n [] ≡ []
unfolding extract_tokens
extract_tokens-nil zero = refl
extract_tokens-nil (suc n) = refl

extract_tokens-Covers : (n : ℕ) (s : Text) → length s ≤ n → Covers s (extract_tokens n s)
extract_tokens-Covers n [] h = rw (extract_tokens-nil n) Covers-nil
extract_tokens-Covers zero (c ∷ s) h = absurd (omega (arith, h))
extract_tokens-Covers (suc n) (c ∷ s) h = elim (Bool-cases (is_space c)) [
  | inl e ↦
      rw (extract_tokens-blank n c s e)
        (Covers-space c s (extract_tokens n s) e (extract_tokens-Covers n s (omega (arith, h))))
  | inr e ↦
      let r = read_token (length (c ∷ s)) (c ∷ s) in
      let reads = read_token-Reads (length (c ∷ s)) (c ∷ s) (omega arith) in
      let word = read_token-IsWord (length s) c s e in
      let shorter = Reads-size (c ∷ s) r.0 r.1 reads in
      rw (extract_tokens-word n c s e) (
        Covers-word (c ∷ s) r.0 r.1 (extract_tokens n r.1) reads word
          (extract_tokens-Covers n r.1 (omega (arith, h, word, shorter))))
]

-- With at least as many rounds as characters the tokens of a text are, joined, the text without the
-- white space outside double quotes, and none of them is empty.
pub extract_tokens-total :
    (n : ℕ) (s : Text)
    → length s ≤ n
    → (join_all (extract_tokens n s) ≡ squeeze false s) × All IsWord (extract_tokens n s)
unfolding Covers
extract_tokens-total n s h = extract_tokens-Covers n s h
