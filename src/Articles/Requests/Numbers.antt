-- ===== src/Articles/Requests/Numbers.antt =====
-- Which query parameters are accepted, and as which numbers.
use nest_js_tutorial.Base.{
  ℕ, ◌≤◌, ◌≡◌, refl, ◌∙◌, Option, none, some, decimal, decimal-value, decimal-digits, arith, pos,
}
use nest_js_tutorial.Runtime.{Value, str, undefined, bool, num, arr, obj, null}
use nest_js_tutorial.Articles.Requests.{
  safe_number, parse_query_integer, ArticlePagination, pagination, parse_pagination,
}
use nest_js_tutorial.Articles.List.{ArticleListQueryCriteria, validate_criteria}

parse-decimal : (n k : ℕ) → parse_query_integer (str (decimal n)) k ≡ safe_number n
unfolding parse_query_integer
parse-decimal n k = rw (decimal-digits n, decimal-value n) refl

-- A number up to 2^53 - 1 that is printed in decimal is read as itself.
pub parse_query_integer-decimal :
    (n default_value : ℕ)
    → n ≤ 9007199254740991
    → parse_query_integer (str (decimal n)) default_value ≡ some n
parse_query_integer-decimal n default_value h =
    let safe : safe_number n ≡ some n = ground arith in parse-decimal n default_value ∙ safe

parse_query_integer-safe :
    (v : Value) (k n : ℕ)
    → k ≤ 9007199254740991
    → parse_query_integer v k ≡ some n
    → n ≤ 9007199254740991
unfolding parse_query_integer
parse_query_integer-safe undefined k n h p = ground arith
parse_query_integer-safe (str s) k n h p = ground arith
parse_query_integer-safe null k n h p = cc
parse_query_integer-safe (bool b) k n h p = cc
parse_query_integer-safe (num m) k n h p = cc
parse_query_integer-safe (arr items) k n h p = cc
parse_query_integer-safe (obj fields) k n h p = cc

-- The criteria that a controller makes of the parameters of a request.
abbrev pub paged : ArticlePagination → ArticleListQueryCriteria → ArticleListQueryCriteria
paged p criteria = record criteria { offset = pos p.offset; limit = pos p.limit }

valid-natural :
    (criteria : ArticleListQueryCriteria) (n m : ℕ)
    → n ≤ 9007199254740991
    → 1 ≤ m
    → m ≤ 100
    → validate_criteria (paged (record { offset = n; limit = m }) criteria) ≡ some (n, m)
unfolding validate_criteria
valid-natural criteria n m safe low high = ground arith

accepted :
    (offset limit : Option ℕ) (p : ArticlePagination)
    → pagination offset limit ≡ some p
    → (offset ≡ some p.offset) × (1 ≤ p.limit) × (p.limit ≤ 100)
accepted none limit p h = cc
accepted (some n) none p h = cc
accepted (some n) (some m) p h = (ground arith, ground arith, ground arith)

-- The parameters that are accepted are valid criteria of the query: the service never refuses what the
-- controller lets through.
pub parse_pagination-valid :
    (offset limit : Value) (p : ArticlePagination) (criteria : ArticleListQueryCriteria)
    → parse_pagination offset limit ≡ some p
    → validate_criteria (paged p criteria) ≡ some (p.offset, p.limit)
unfolding parse_pagination
parse_pagination-valid offset limit p criteria h =
    let (read, low, high) =
      accepted (parse_query_integer offset 0) (parse_query_integer limit 20) p h in
    let safe = parse_query_integer-safe offset 0 p.offset (omega arith) read in
    valid-natural criteria p.offset p.limit safe low high

-- What is sent as digits is the page that is asked for, and what is left out is the first page of 20.
pub parse_pagination-decimal :
    (offset limit : ℕ)
    → offset ≤ 9007199254740991
    → 1 ≤ limit
    → limit ≤ 100
    → (parse_pagination (str (decimal offset)) (str (decimal limit))
        ≡ some (record { offset = offset; limit = limit }))
      × (parse_pagination undefined undefined ≡ some (record { offset = 0; limit = 20 }))
unfolding parse_pagination
parse_pagination-decimal offset limit safe low high =
    let small : limit ≤ 9007199254740991 = omega arith in
    let a = parse_query_integer-decimal offset 0 safe in
    let b = parse_query_integer-decimal limit 20 small in
    (rw (a, b) (ground arith), unfold parse_query_integer in refl)
