-- ===== src/Search/Tests.antt =====
-- Runs of the search query's functions, and its theorem at a concrete input.
use email_ops_community.Prelude.{some, true, false, [], ◌∷◌, All, ◌≡◌, refl, arith}
use email_ops_community.Prelude.Text.{Text, txt, is_space, trim, to_lower_case, text_eq, index_of}
use email_ops_community.Search.{extract_tokens}
use email_ops_community.Search.Query.{
  parse_operator, from_key, parse_search_query, build_jmap_filter, is_valid_date, all_of, from_is,
  text_is, in_mailbox,
}
use email_ops_community.Search.Tokens.{join_all, squeeze, IsWord, extract_tokens-total}

abbrev quoted_query : Text
quoted_query = txt " subject:\"a b\"  is:unread x"

abbrev plain_query : Text
plain_query = txt "from:ann hi 'yo'"

two_operators :
    extract_tokens 28 quoted_query ≡ txt "subject:\"a b\"" ∷ txt "is:unread" ∷ txt "x" ∷ []
unfolding extract_tokens is_space
two_operators = refl

filter_of_query :
    build_jmap_filter (parse_search_query plain_query) (txt "m1")
    ≡ all_of (text_is (txt "hi yo") ∷ from_is (txt "ann") ∷ in_mailbox (txt "m1") ∷ [])
unfolding build_jmap_filter parse_search_query trim is_space to_lower_case text_eq index_of
filter_of_query = refl

-- The double quote is never closed, and the token is an operator all the same.
open_quote_operator : parse_operator (txt "from:a\"b c") ≡ some (from_key, txt "a\"b c")
unfolding parse_operator to_lower_case text_eq index_of
open_quote_operator = refl

leap_day : is_valid_date (txt "2024-02-29") ≡ true
unfolding is_valid_date
leap_day = refl

no_leap_day : is_valid_date (txt "2023-02-29") ≡ false
unfolding is_valid_date
no_leap_day = refl

extract_tokens-total_example :
    (join_all (extract_tokens 28 quoted_query) ≡ squeeze false quoted_query)
    × All IsWord (extract_tokens 28 quoted_query)
extract_tokens-total_example = extract_tokens-total 28 quoted_query (omega arith)
