-- ===== src/Articles/Requests.antt =====
-- The query parameters of the lists (common/dto/article.dto.ts): the transforms of `offset` and
-- `limit`, and the bounds that class-validator checks on their results.
pub mod Numbers
use nest_js_tutorial.Base.{
  ℕ, Bool, true, false, ◌&&◌, Option, none, some, Text, leb, pos, is_safe_integer, is_decimal,
  digits_after, if◌then◌else◌,
}
use nest_js_tutorial.Runtime.{Value, str, undefined, bool, num, arr, obj, null}

-- A number of JavaScript that is a natural number, or NaN.
abbrev pub safe_number : ℕ → Option ℕ
safe_number n = if is_safe_integer (pos n) then some n else none

-- parseQueryInteger; `none` is NaN. A number of digits that is not safe is rounded to one that is not
-- safe.
unfoldable pub parse_query_integer : Value → ℕ → Option ℕ
parse_query_integer undefined default_value = some default_value
parse_query_integer (str s) default_value =
    if is_decimal s then safe_number (digits_after 0 s) else none
parse_query_integer null default_value = none
parse_query_integer (bool b) default_value = none
parse_query_integer (num n) default_value = none
parse_query_integer (arr items) default_value = none
parse_query_integer (obj fields) default_value = none

-- ArticlePaginationDto
pub record ArticlePagination : Type 0 where
  pub offset : ℕ
  pub limit : ℕ

-- `@IsInt() @Min(low) @Max(high)`, which refuse NaN; `@Min(0)` holds of every natural number.
abbrev pub is_within : ℕ → ℕ → ℕ → Bool
is_within low high n = leb low n && leb n high

abbrev pub pagination : Option ℕ → Option ℕ → Option ArticlePagination
pagination none limit = none
pagination (some offset) none = none
pagination (some offset) (some limit) =
    if is_within 1 100 limit then some (record { offset = offset; limit = limit }) else none

-- The validated parameters of a request, by the values of its `offset` and `limit`.
unfoldable pub parse_pagination : Value → Value → Option ArticlePagination
unfolding parse_query_integer
parse_pagination offset limit =
    pagination (parse_query_integer offset 0) (parse_query_integer limit 20)
