-- ===== src/Search/Query.antt =====
-- backend/src/stalwart/search-query.ts, unquote and from parseOperator on: the operators of a query,
-- and the filter of the mail engine that a query comes to.
--
-- `new Date(y, m - 1, d)` rolls a day past the month's end into the next month, and reads a year below
-- 100 as one of the twentieth century; so its parts are the ones given exactly for the dates that
-- `is_valid_date` admits. A mailbox id that is null, undefined or empty is the empty text.
use email_ops_community.Prelude.{
  ℕ, ◌+◌, ◌-◌, ◌*◌, ◌%◌, leb, ◌==◌, Bool, true, false, not, ◌&&◌, ◌||◌, Option, none, some, List,
  [], ◌∷◌, ◌++◌, every, take, drop, length, if◌then◌else◌,
}
use email_ops_community.Prelude.Text.{Text, txt, text_eq, trim, to_lower_case, index_of, is_empty}
use email_ops_community.Search.{double_quote, single_quote, extract_tokens}

-- An operator that the query does not set has the empty value, as no operator is set to it.
pub record ParsedSearch : Type 0 where
  text : Text
  from : Text
  to : Text
  cc : Text
  subject : Text
  has_attachment : Bool
  is_unread : Bool
  is_read : Bool
  is_starred : Bool
  before : Text
  after : Text

pub data Key : Type 0 where
  from_key : Key
  to_key : Key
  cc_key : Key
  subject_key : Key
  has_key : Key
  is_key : Key
  before_key : Key
  after_key : Key

-- The last code unit of `c ∷ s`.
unfoldable pub last_code : ℕ → Text → ℕ
last_code c [] = c
last_code c (d ∷ s) = last_code d s

unfoldable pub without_last : Text → Text
without_last [] = []
without_last (c ∷ []) = []
without_last (c ∷ d ∷ s) = c ∷ without_last (d ∷ s)

-- `s.length >= 2 && s[0] === quote && s[s.length - 1] === quote`.
unfoldable pub wrapped_in : ℕ → Text → Bool
unfolding last_code
wrapped_in quote [] = false
wrapped_in quote (c ∷ []) = false
wrapped_in quote (c ∷ d ∷ s) = c == quote && last_code d s == quote

unfoldable pub unquote : Text → Text
unfolding wrapped_in without_last
unquote s =
    if wrapped_in double_quote s || wrapped_in single_quote s then without_last (drop 1 s) else s

unfoldable pub known_key : Text → Option Key
known_key s =
    if text_eq s (txt "from")
    then some from_key
    else if text_eq s (txt "to")
    then some to_key
    else if text_eq s (txt "cc")
    then some cc_key
    else if text_eq s (txt "subject")
    then some subject_key
    else if text_eq s (txt "has")
    then some has_key
    else if text_eq s (txt "is")
    then some is_key
    else if text_eq s (txt "before")
    then some before_key
    else if text_eq s (txt "after")
    then some after_key
    else none

-- The value opens a quote that it does not close.
unfoldable pub open_quote : Text → Bool
unfolding wrapped_in
open_quote [] = false
open_quote (c ∷ s) = (c == double_quote || c == single_quote) && not (wrapped_in c (c ∷ s))

unfoldable pub operator_value : Key → Text → Option (Key × Text)
unfolding open_quote unquote
operator_value key value =
    if is_empty value || open_quote value
    then none
    else if is_empty (unquote value)
    then none
    else some (key, unquote value)

abbrev operator_of_key : Option Key → Text → Option (Key × Text)
operator_of_key none value = none
operator_of_key (some key) value = operator_value key value

abbrev operator_at : Option ℕ → Text → Option (Key × Text)
operator_at none token = none
operator_at (some colon) token =
    operator_of_key (known_key (to_lower_case (take colon token))) (drop (colon + 1) token)

unfoldable pub parse_operator : Text → Option (Key × Text)
unfolding operator_value known_key
parse_operator token = operator_at (index_of 58 token) token

unfoldable pub is_digit : ℕ → Bool
is_digit c = leb 48 c && leb c 57

-- `Number` of a text of digits.
unfoldable pub number_of : ℕ → Text → ℕ
number_of n [] = n
number_of n (c ∷ s) = number_of (10 * n + (c - 48)) s

unfoldable pub is_leap : ℕ → Bool
is_leap y = y % 4 == 0 && (not (y % 100 == 0) || y % 400 == 0)

unfoldable pub days_in_month : ℕ → ℕ → ℕ
unfolding is_leap
days_in_month y m =
    if m == 2
    then (if is_leap y then 29 else 28)
    else if m == 4 || m == 6 || m == 9 || m == 11
    then 30
    else 31

-- `date.getFullYear() === y && date.getMonth() === m - 1 && date.getDate() === d`.
unfoldable pub calendar_keeps : ℕ → ℕ → ℕ → Bool
unfolding days_in_month
calendar_keeps y m d = leb 100 y && leb d (days_in_month y m)

unfoldable pub is_valid_date : Text → Bool
unfolding is_digit number_of calendar_keeps
is_valid_date (a ∷ b ∷ c ∷ d ∷ h ∷ e ∷ f ∷ k ∷ i ∷ j ∷ []) =
    let y = number_of 0 (a ∷ b ∷ c ∷ d ∷ []) in
    let m = number_of 0 (e ∷ f ∷ []) in
    let day = number_of 0 (i ∷ j ∷ []) in
    every is_digit (a ∷ b ∷ c ∷ d ∷ e ∷ f ∷ i ∷ j ∷ [])
    && h == 45
    && k == 45
    && (leb 1 m && leb m 12 && leb 1 day && leb day 31)
    && calendar_keeps y m day
is_valid_date s = false

-- The query so far and the words of free text, in order.
pub record Reading : Type 0 where
  query : ParsedSearch
  words : List Text

unfoldable pub free_word : Text → Reading → Reading
unfolding unquote
free_word token r = record { query = r.query; words = r.words ++ unquote token ∷ [] }

abbrev with_query : Reading → (ParsedSearch → ParsedSearch) → Reading
with_query r change = record { query = change (r.query); words = r.words }

abbrev set_state : Text → Text → Reading → Reading
set_state value token r =
    let val = to_lower_case value in
    if text_eq val (txt "unread")
    then with_query r (λ q. record q { is_unread = true })
    else if text_eq val (txt "read")
    then with_query r (λ q. record q { is_read = true })
    else if text_eq val (txt "starred") || text_eq val (txt "flagged")
    then with_query r (λ q. record q { is_starred = true })
    else free_word token r

unfoldable pub apply_operator : Option (Key × Text) → Text → Reading → Reading
unfolding free_word is_valid_date
apply_operator none token r = free_word token r
apply_operator (some (from_key, v)) token r = with_query r (λ q. record q { from = v })
apply_operator (some (to_key, v)) token r = with_query r (λ q. record q { to = v })
apply_operator (some (cc_key, v)) token r = with_query r (λ q. record q { cc = v })
apply_operator (some (subject_key, v)) token r = with_query r (λ q. record q { subject = v })
apply_operator (some (has_key, v)) token r =
    if text_eq v (txt "attachment")
    then with_query r (λ q. record q { has_attachment = true })
    else free_word token r
apply_operator (some (is_key, v)) token r = set_state v token r
apply_operator (some (before_key, v)) token r =
    if is_valid_date v then with_query r (λ q. record q { before = v }) else free_word token r
apply_operator (some (after_key, v)) token r =
    if is_valid_date v then with_query r (λ q. record q { after = v }) else free_word token r

unfoldable pub read_tokens : List Text → Reading → Reading
unfolding parse_operator apply_operator
read_tokens [] r = r
read_tokens (token ∷ tokens) r = read_tokens tokens (apply_operator (parse_operator token) token r)

-- `freeText.join(' ')`.
unfoldable pub joined : List Text → Text
joined [] = []
joined (w ∷ []) = w
joined (w ∷ v ∷ ws) = w ++ 32 ∷ joined (v ∷ ws)

abbrev no_query : ParsedSearch
no_query = record {
  text = [];
  from = [];
  to = [];
  cc = [];
  subject = [];
  has_attachment = false;
  is_unread = false;
  is_read = false;
  is_starred = false;
  before = [];
  after = [];
}

abbrev parsed : Reading → ParsedSearch
parsed r = record r.query { text = joined (r.words) }

-- A query that is null, undefined or empty is `[]`.
unfoldable pub parse_search_query : Text → ParsedSearch
unfolding extract_tokens read_tokens joined trim
parse_search_query q =
    let s = trim q in
    parsed (read_tokens (extract_tokens (length s) s) (record { query = no_query; words = [] }))

pub data Condition : Type 0 where
  text_is : Text → Condition
  from_is : Text → Condition
  to_is : Text → Condition
  cc_is : Text → Condition
  subject_is : Text → Condition
  with_attachment : Condition
  not_keyword : Text → Condition
  has_keyword : Text → Condition
  before_time : Text → Condition
  after_time : Text → Condition
  in_mailbox : Text → Condition

pub data JmapFilter : Type 0 where
  no_filter : JmapFilter
  single : Condition → JmapFilter
  all_of : List Condition → JmapFilter

-- `if (value) conditions.push(condition)`, for a text and for a flag.
abbrev pushed : Text → Condition → List Condition → List Condition
pushed value condition rest = if is_empty value then rest else condition ∷ rest

abbrev flagged : Bool → Condition → List Condition → List Condition
flagged flag condition rest = if flag then condition ∷ rest else rest

unfoldable pub conditions_of : ParsedSearch → Text → List Condition
conditions_of p in_mailbox_id = pushed (p.text) (text_is (p.text)) (
    pushed (p.from) (from_is (p.from)) (
      pushed (p.to) (to_is (p.to)) (
        pushed (p.cc) (cc_is (p.cc)) (
          pushed (p.subject) (subject_is (p.subject)) (
            flagged (p.has_attachment) with_attachment (
              flagged (p.is_unread) (not_keyword (txt "$seen")) (
                flagged (p.is_read) (has_keyword (txt "$seen")) (
                  flagged (p.is_starred) (has_keyword (txt "$flagged")) (
                    pushed (p.before) (before_time (p.before ++ txt "T00:00:00Z")) (
                      pushed (p.after) (after_time (p.after ++ txt "T00:00:00Z"))
                        (pushed in_mailbox_id (in_mailbox in_mailbox_id) [])))))))))))

abbrev filter_of : List Condition → JmapFilter
filter_of [] = no_filter
filter_of (c ∷ []) = single c
filter_of (c ∷ d ∷ cs) = all_of (c ∷ d ∷ cs)

unfoldable pub build_jmap_filter : ParsedSearch → Text → JmapFilter
unfolding conditions_of
build_jmap_filter p in_mailbox_id = filter_of (conditions_of p in_mailbox_id)
