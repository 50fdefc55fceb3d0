-- ===== src/Common/Filter.antt =====
-- formatApiException (common/filters/api-exception.filter.ts).
pub mod Laws
use nest_js_tutorial.Base.{
  ℕ, suc, Bool, true, false, not, Option, none, some, Text, codes, ◌==◌, eqb, List, [], ◌∷◌, ◌++◌,
  map, select, if◌then◌else◌,
}
use nest_js_tutorial.Runtime.{
  Exception, Value, Items, Fields, null, undefined, bool, num, str, arr, obj, nil, cons, end, field,
  as_http,
}

-- `Record<string, string[]>`. JavaScript would list the keys that are array indices first; the order
-- of the keys means nothing in a JSON object.
abbrev pub Errors : Type 0
Errors = List (Text × List Text)

-- RealWorldErrors and FormattedApiException
pub record FormattedApiException : Type 0 where
  pub body : Errors
  pub status_code : ℕ

-- The decimal digits of array indices, the last one first.
abbrev next_index : Text → Text
next_index [] = 49 ∷ []
next_index (d ∷ s) = let rest = next_index s in if eqb d 57 then 48 ∷ rest else suc d ∷ s

abbrev reversed : Text → Text → Text
reversed [] t = t
reversed (c ∷ s) t = reversed s (c ∷ t)

abbrev indexed : Text → Items → Fields
indexed i nil = end
indexed i (cons v vs) = field (reversed i []) v (indexed (next_index i) vs)

-- `Object.entries` of what isRecord accepts, which an array is too.
abbrev pub record_entries : Value → Option Fields
record_entries (obj fields) = some fields
record_entries (arr items) = some (indexed (48 ∷ []) items)
record_entries _ = none

unfoldable pub get_field : Text → Fields → Value
get_field name end = undefined
get_field name (field key v rest) = if key == name then v else get_field name rest

-- `value.name` of what isRecord accepts. An array has none of the properties that are read here.
abbrev pub get_property : Text → Value → Value
get_property name (obj fields) = get_field name fields
get_property name _ = undefined

abbrev pub and_then : {A B : Type 0} → Option A → (A → Option B) → Option B
and_then none f = none
and_then (some a) f = f a

abbrev pub strings : Items → Option (List Text)
strings nil = some []
strings (cons (str s) vs) = and_then (strings vs) (λ rest. some (s ∷ rest))
strings (cons _ vs) = none

-- isStringArray
abbrev pub string_array : Value → Option (List Text)
string_array (arr items) = strings items
string_array _ = none

abbrev pub string_arrays : Fields → Option Errors
string_arrays end = some []
string_arrays (field key v rest) =
    and_then (string_array v)
      (λ messages. and_then (string_arrays rest) (λ errors. some ((key, messages) ∷ errors)))

-- getExistingErrors
unfoldable pub get_existing_errors : Value → Option Errors
unfolding get_field
get_existing_errors response =
    and_then (record_entries (get_property (codes "errors") response)) string_arrays

-- `result[name] = messages`
unfoldable pub put_error : Text → List Text → Errors → Errors
put_error name messages [] = (name, messages) ∷ []
put_error name messages ((key, old) ∷ rest) =
    if key == name then (key, messages) ∷ rest else (key, old) ∷ put_error name messages rest

-- `Object.assign(result, others)`
unfoldable pub assign_errors : Errors → Errors → Errors
unfolding put_error
assign_errors result [] = result
assign_errors result ((key, messages) ∷ rest) = assign_errors (put_error key messages result) rest

abbrev pub field_names : Fields → List Text
field_names end = []
field_names (field key v rest) = key ∷ field_names rest

-- `Object.keys(constraints).sort(…).map(…)`: the sort is stable, and isNotEmpty comes first.
abbrev pub is_not_empty : Text → Bool
is_not_empty name = name == codes "isNotEmpty"

abbrev pub cannot_be_blank : Text
cannot_be_blank = codes "can't be blank"

abbrev pub constraint_message : Text → Text
constraint_message name = if is_not_empty name then cannot_be_blank else codes "is invalid"

unfoldable pub constraint_messages : List Text → List Text
constraint_messages names =
    map constraint_message (select is_not_empty names ++ select (λ n. not (is_not_empty n)) names)

-- `prefix ? `${prefix}.${property}` : property`
abbrev pub join_field : Text → Text → Text
join_field [] property = property
join_field (c ∷ prefix) property = (c ∷ prefix) ++ codes "." ++ property

-- What the constraints of an error add, and the prefix of its children.
unfoldable pub put_constraints : Text → Option Fields → Errors → Errors
unfolding put_error constraint_messages
put_constraints name none result = result
put_constraints name (some constraints) result =
    put_error name (constraint_messages (field_names constraints)) result

abbrev pub child_prefix : Text → Text → Option Fields → Text
child_prefix prefix name none = prefix
child_prefix prefix name (some constraints) = name

-- `typeof value === 'string'`, and the string.
abbrev pub is_text : Value → Bool
is_text (str s) = true
is_text _ = false

abbrev pub text_of : Value → Text
text_of (str s) = s
text_of _ = []

-- flattenValidationErrors, from the result so far.
unfoldable mutual
  unfolding put_constraints assign_errors get_field

  pub flatten_errors : Text → Errors → Items → Errors
  flatten_errors prefix result nil = result
  flatten_errors prefix result (cons error errors) =
      flatten_errors prefix (flatten_error prefix result error) errors

  pub flatten_error : Text → Errors → Value → Errors
  flatten_error prefix result (obj fields) =
      let name = join_field prefix (text_of (get_field (codes "property") fields)) in
      let constraints = record_entries (get_field (codes "constraints") fields) in
      let flattened =
        flatten_children (child_prefix prefix name constraints)
          (put_constraints name constraints result) fields in
      if is_text (get_field (codes "property") fields) then flattened else result
  flatten_error prefix result _ = result

  -- The children, where the error has any.
  pub flatten_children : Text → Errors → Fields → Errors
  flatten_children prefix result end = result
  flatten_children prefix result (field key v rest) =
      if key == codes "children"
      then flatten_array prefix result v
      else flatten_children prefix result rest

  pub flatten_array : Text → Errors → Value → Errors
  flatten_array prefix result (arr items) = assign_errors result (flatten_errors prefix [] items)
  flatten_array prefix result _ = result

abbrev pub unless_empty : Errors → Option Errors
unless_empty [] = none
unless_empty (e ∷ es) = some (e ∷ es)

-- What getValidationErrors makes of `response.message`.
unfoldable pub validation_errors : Value → Option Errors
unfolding flatten_errors
validation_errors (arr items) = unless_empty (flatten_errors [] [] items)
validation_errors _ = none

-- getValidationErrors
unfoldable pub get_validation_errors : Value → Option Errors
unfolding validation_errors get_field
get_validation_errors response = validation_errors (get_property (codes "message") response)

abbrev pub body_error : Text → Errors
body_error message = (codes "body", message ∷ []) ∷ []

-- What is made of a response without errors in the expected form.
abbrev pub format_validation : ℕ → Option Errors → FormattedApiException
format_validation status none = record {
  body = body_error (codes "request failed");
  status_code = status;
}
format_validation status (some errors) = record { body = errors; status_code = 422 }

abbrev pub format_response : ℕ → Value → Option Errors → FormattedApiException
format_response status response none = format_validation status (get_validation_errors response)
format_response status response (some errors) = record { body = errors; status_code = status }

abbrev pub format_http : Option (ℕ × Value) → FormattedApiException
format_http none = record { body = body_error (codes "internal server error"); status_code = 500 }
format_http (some (status, response)) =
    format_response status response (get_existing_errors response)

unfoldable pub format_api_exception : Exception → FormattedApiException
unfolding get_existing_errors get_validation_errors
format_api_exception e = format_http (as_http e)
