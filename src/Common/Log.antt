-- ===== src/Common/Log.antt =====
-- createRequestFailureLog and its helpers (common/logging/request-failure-log.ts).
pub mod Laws
use nest_js_tutorial.Base.{
  ℕ, Bool, true, false, ◌||◌, Option, none, some, Text, codes, ◌==◌, List, [], ◌∷◌, any,
  if◌then◌else◌,
}
use nest_js_tutorial.Runtime.{
  Exception, Value, Items, Fields, null, undefined, bool, num, str, arr, obj, nil, cons, end, field,
}

-- SENSITIVE_FIELD_NAMES
abbrev pub sensitive_field_names : List Text
sensitive_field_names =
    codes "authorization"
    ∷ codes "author"
    ∷ codes "cookie"
    ∷ codes "email"
    ∷ codes "favorited"
    ∷ codes "firstname"
    ∷ codes "lastname"
    ∷ codes "displayname"
    ∷ codes "title"
    ∷ codes "description"
    ∷ codes "body"
    ∷ codes "taglist"
    ∷ codes "password"
    ∷ codes "passwordhash"
    ∷ codes "token"
    ∷ codes "username"
    ∷ codes "userid"
    ∷ []

abbrev pub redacted_value : Text
redacted_value = codes "[REDACTED]"

-- `String.prototype.toLowerCase` is the parameter `to_lower_case`.
module _ (to_lower_case : Text → Text) where
  -- `SENSITIVE_FIELD_NAMES.has(key.toLowerCase())`
  unfoldable pub is_sensitive : Text → Bool
  is_sensitive key = any (λ name. name == to_lower_case key) sensitive_field_names

  unfoldable mutual
    pub sanitize_value : Value → Value
    sanitize_value null = null
    sanitize_value undefined = undefined
    sanitize_value (bool b) = bool b
    sanitize_value (num n) = num n
    sanitize_value (str s) = str s
    sanitize_value (arr items) = arr (sanitize_items items)
    sanitize_value (obj fields) = obj (sanitize_fields fields)

    pub sanitize_items : Items → Items
    sanitize_items nil = nil
    sanitize_items (cons v vs) = cons (sanitize_value v) (sanitize_items vs)

    pub sanitize_fields : Fields → Fields
    sanitize_fields end = end
    sanitize_fields (field key entry rest) =
        field key (if is_sensitive key then str redacted_value else sanitize_value entry)
          (sanitize_fields rest)

-- RequestForLog
pub record RequestForLog : Type 0 where
  pub body : Value
  pub method : Option Text
  pub params : Value
  pub path : Option Text
  pub query : Value

-- What is logged; the time stands for its ISO string.
pub record RequestFailureLog : Type 0 where
  pub error_category : Text
  pub occurred_at : ℕ
  pub request : Option RequestForLog

-- `error instanceof Error`
abbrev is_error : Exception → Bool
is_error (Exception.thrown_value value) = false
is_error _ = true

-- getErrorDetails
unfoldable pub get_error_details : Exception → Text
get_error_details error = if is_error error then codes "Error" else codes "UnknownError"

module _ (to_lower_case : Text → Text) where
  -- sanitizeRequest
  unfoldable pub sanitize_request : RequestForLog → RequestForLog
  unfolding sanitize_value
  sanitize_request request = record request {
    body = sanitize_value to_lower_case request.body;
    params = sanitize_value to_lower_case request.params;
    query = sanitize_value to_lower_case request.query;
  }

  abbrev pub if_any : Option RequestForLog → Option RequestForLog
  if_any none = none
  if_any (some request) = some (sanitize_request request)

  -- createRequestFailureLog, at the time `now`.
  unfoldable pub create_request_failure_log :
      ℕ → Exception → Option RequestForLog → RequestFailureLog
  unfolding get_error_details sanitize_request
  create_request_failure_log now error request = record {
    error_category = get_error_details error;
    occurred_at = now;
    request = if_any request;
  }
