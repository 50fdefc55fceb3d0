-- ===== src/Common/Filter/Laws.antt =====
-- What the body of an error response can tell.
use nest_js_tutorial.Base.{
  ℕ, ◌≡◌, refl, ap, ◌∙◌, Bool, true, false, ◌&&◌, ◌||◌, Option, none, some, Text, codes, ◌==◌, List,
  [], ◌∷◌, map, all, if◌then◌else◌, Bool-cases, inl, inr, arith,
}
use nest_js_tutorial.Runtime.{
  Exception, Value, Items, Fields, null, undefined, bool, num, str, arr, obj, nil, cons, end, field,
  as_http,
}
use nest_js_tutorial.Common.Filter.{
  Errors, FormattedApiException, record_entries, get_field, get_property, strings, string_arrays,
  get_existing_errors, put_error, assign_errors, field_names, is_not_empty, cannot_be_blank,
  constraint_message, constraint_messages, join_field, put_constraints, child_prefix, is_text,
  text_of, flatten_errors, flatten_error, flatten_children, flatten_array, unless_empty,
  validation_errors, get_validation_errors, format_validation, format_response, format_http,
  format_api_exception,
}

-- `{ errors: errors }` as a value.
abbrev items_of : List Text → Items
items_of [] = nil
items_of (s ∷ rest) = cons (str s) (items_of rest)

abbrev fields_of : Errors → Fields
fields_of [] = end
fields_of ((key, messages) ∷ rest) = field key (arr (items_of messages)) (fields_of rest)

abbrev pub errors_response : Errors → Value
errors_response errors = obj (field (codes "errors") (obj (fields_of errors)) end)

strings-items : (messages : List Text) → strings (items_of messages) ≡ some messages
strings-items [] = refl
strings-items (s ∷ rest) = rw (strings-items rest) refl

string_arrays-fields : (errors : Errors) → string_arrays (fields_of errors) ≡ some errors
string_arrays-fields [] = refl
string_arrays-fields ((key, messages) ∷ rest) =
    rw (strings-items messages, string_arrays-fields rest) refl

-- A response that has the form of the API already is passed on, with its status.
pub format_errors_response :
    (status : ℕ) (errors : Errors)
    → format_api_exception (Exception.http status (errors_response errors))
      ≡ record { body = errors; status_code = status }
unfolding format_api_exception get_existing_errors get_field ◌==◌
format_errors_response status errors =
    ap (format_response status (errors_response errors)) (string_arrays-fields errors)

-- The messages that the filter itself writes.
abbrev pub is_fixed_message : Text → Bool
is_fixed_message s =
    s == cannot_be_blank
    || (s == codes "is invalid"
        || (s == codes "request failed" || s == codes "internal server error"))

abbrev pub has_fixed_messages : Errors → Bool
has_fixed_messages errors = all (λ (key, messages). all is_fixed_message messages) errors

message_fixed :
    (b : Bool) → is_fixed_message (if b then cannot_be_blank else codes "is invalid") ≡ true
unfolding ◌==◌
message_fixed true = refl
message_fixed false = refl

mapped_fixed : (names : List Text) → all is_fixed_message (map constraint_message names) ≡ true
mapped_fixed [] = refl
mapped_fixed (n ∷ names) = rw (message_fixed (is_not_empty n)) (mapped_fixed names)

put_fixed :
    (name : Text) (messages : List Text) (errors : Errors)
    → all is_fixed_message messages ≡ true
    → has_fixed_messages errors ≡ true
    → has_fixed_messages (put_error name messages errors) ≡ true
unfolding put_error
put_fixed name messages [] h k = ground arith
put_fixed name messages ((key, old) ∷ rest) h k = ground (arith, put_fixed name messages rest h)

assign_fixed :
    (errors others : Errors)
    → has_fixed_messages errors ≡ true
    → has_fixed_messages others ≡ true
    → has_fixed_messages (assign_errors errors others) ≡ true
unfolding assign_errors
assign_fixed errors [] h k = h
assign_fixed errors ((key, messages) ∷ rest) h k =
    let parts = both (all is_fixed_message messages) (has_fixed_messages rest) k in
    assign_fixed (put_error key messages errors) rest (put_fixed key messages errors parts.0 h)
      (parts.1)
  where
    both : (a b : Bool) → (a && b) ≡ true → (a ≡ true) × (b ≡ true)
    both true true h = (refl, refl)
    both true false h = cc
    both false b h = cc

constraints_fixed :
    (name : Text) (constraints : Option Fields) (errors : Errors)
    → has_fixed_messages errors ≡ true
    → has_fixed_messages (put_constraints name constraints errors) ≡ true
unfolding put_constraints constraint_messages
constraints_fixed name none errors h = h
constraints_fixed name (some constraints) errors h =
    put_fixed name (constraint_messages (field_names constraints)) errors (mapped_fixed _) h

either_fixed :
    (b : Bool) (xs ys : Errors)
    → has_fixed_messages xs ≡ true
    → has_fixed_messages ys ≡ true
    → has_fixed_messages (if b then xs else ys) ≡ true
either_fixed true xs ys h k = h
either_fixed false xs ys h k = k

mutual
  unfolding flatten_errors

  flatten_fixed :
      (prefix : Text) (result : Errors) (errors : Items)
      → has_fixed_messages result ≡ true
      → has_fixed_messages (flatten_errors prefix result errors) ≡ true
  flatten_fixed prefix result nil h = h
  flatten_fixed prefix result (cons error errors) h =
      flatten_fixed prefix (flatten_error prefix result error) errors
        (error_fixed prefix result error h)

  error_fixed :
      (prefix : Text) (result : Errors) (error : Value)
      → has_fixed_messages result ≡ true
      → has_fixed_messages (flatten_error prefix result error) ≡ true
  error_fixed prefix result (obj fields) h =
      let name = join_field prefix (text_of (get_field (codes "property") fields)) in
      let constraints = record_entries (get_field (codes "constraints") fields) in
      either_fixed (is_text (get_field (codes "property") fields)) _ result
        (children_fixed (child_prefix prefix name constraints) _ fields
          (constraints_fixed name constraints result h))
        h
  error_fixed prefix result null h = h
  error_fixed prefix result undefined h = h
  error_fixed prefix result (bool b) h = h
  error_fixed prefix result (num n) h = h
  error_fixed prefix result (str s) h = h
  error_fixed prefix result (arr items) h = h

  children_fixed :
      (prefix : Text) (result : Errors) (fields : Fields)
      → has_fixed_messages result ≡ true
      → has_fixed_messages (flatten_children prefix result fields) ≡ true
  children_fixed prefix result end h = h
  children_fixed prefix result (field key v rest) h = elim (Bool-cases (key == codes "children")) [
    | inl found ↦ rw found (array_fixed prefix result v h)
    | inr other ↦ rw other (children_fixed prefix result rest h)
  ]

  array_fixed :
      (prefix : Text) (result : Errors) (v : Value)
      → has_fixed_messages result ≡ true
      → has_fixed_messages (flatten_array prefix result v) ≡ true
  array_fixed prefix result (arr items) h =
      assign_fixed result (flatten_errors prefix [] items) h (flatten_fixed prefix [] items refl)
  array_fixed prefix result null h = h
  array_fixed prefix result undefined h = h
  array_fixed prefix result (bool b) h = h
  array_fixed prefix result (num n) h = h
  array_fixed prefix result (str s) h = h
  array_fixed prefix result (obj fields) h = h

unless_empty_fixed :
    (status : ℕ) (errors : Errors)
    → has_fixed_messages errors ≡ true
    → has_fixed_messages (format_validation status (unless_empty errors)).body ≡ true
unfolding ◌==◌
unless_empty_fixed status [] h = refl
unless_empty_fixed status (e ∷ es) h = h

validation_fixed :
    (status : ℕ) (message : Value)
    → has_fixed_messages (format_validation status (validation_errors message)).body ≡ true
unfolding validation_errors ◌==◌
validation_fixed status (arr items) =
    unless_empty_fixed status (flatten_errors [] [] items) (flatten_fixed [] [] items refl)
validation_fixed status null = refl
validation_fixed status undefined = refl
validation_fixed status (bool b) = refl
validation_fixed status (num n) = refl
validation_fixed status (str s) = refl
validation_fixed status (obj fields) = refl

abbrev pub existing_errors : Option (ℕ × Value) → Option Errors
existing_errors none = none
existing_errors (some (status, response)) = get_existing_errors response

http_fixed :
    (o : Option (ℕ × Value))
    → existing_errors o ≡ none
    → has_fixed_messages (format_http o).body ≡ true
unfolding ◌==◌ get_validation_errors
http_fixed none h = refl
http_fixed (some (status, response)) h =
    ap (λ x. has_fixed_messages (format_response status response x).body) h
    ∙ validation_fixed status (get_property (codes "message") response)

-- What the filter answers to an error that is no HttpException.
abbrev pub internal_error : FormattedApiException
internal_error = record {
  body = (codes "body", codes "internal server error" ∷ []) ∷ [];
  status_code = 500;
}

internal_lem : (o : Option (ℕ × Value)) → o ≡ none → format_http o ≡ internal_error
internal_lem none h = refl
internal_lem (some response) h = cc

-- An error that is no HttpException is answered with one fixed body and the status 500; and unless the
-- error is an HttpException whose response has the form of the API, each message of the body is one of
-- four fixed ones.
pub format_api_exception_safe :
    (e : Exception)
    → existing_errors (as_http e) ≡ none
    → (has_fixed_messages (format_api_exception e).body ≡ true)
      × (as_http e ≡ none → format_api_exception e ≡ internal_error)
unfolding format_api_exception
format_api_exception_safe e h = (http_fixed (as_http e) h, internal_lem (as_http e))
