-- ===== src/Tests/Common.antt =====
-- The filter of errors and the log.
use nest_js_tutorial.Base.{none, ◌≡◌, ◌⊎◌, some, refl, true, codes, [], ◌∷◌, ◌==◌, select}
use nest_js_tutorial.Runtime.{
  Exception, as_http, Value, undefined, str, arr, obj, num, nil, cons, end, field,
}
use nest_js_tutorial.Common.Log.{
  RequestForLog, sanitize_value, is_sensitive, create_request_failure_log,
}
use nest_js_tutorial.Common.Log.Laws.{IsClean, create_request_failure_log_lem}
use nest_js_tutorial.Common.Filter.{
  Errors, format_api_exception, get_existing_errors, get_validation_errors, validation_errors,
  get_field, flatten_errors, put_constraints, put_error, constraint_messages, assign_errors,
}
use nest_js_tutorial.Common.Filter.Laws.{
  has_fixed_messages, internal_error, format_api_exception_safe,
}

abbrev login : Value
login = obj (
    field (codes "user")
      (obj (field (codes "password") (str (codes "secret")) (field (codes "age") (num 3) end))) end)

sanitize_test :
    sanitize_value (λ s. s) login
    ≡ obj (
        field
          (codes "user")
          (obj
            (field (codes "password") (str (codes "[REDACTED]")) (field (codes "age") (num 3) end)))
          end)
unfolding sanitize_value is_sensitive ◌==◌
sanitize_test = refl

abbrev conflict : Errors
conflict = (codes "email", codes "has already been taken" ∷ []) ∷ []

-- `{ message: [{ property: "user", constraints: …, children: [{ property: "email", … }] }] }`
abbrev invalid : Exception
invalid = Exception.http 400 (
    obj (
      field (codes "message")
        (arr (
          cons
            (obj (
              field (codes "property") (str (codes "user")) (
                field (codes "children")
                  (arr (
                    cons
                      (obj (
                        field (codes "property") (str (codes "email")) (
                          field (codes "constraints")
                            (obj (
                              field (codes "isEmail") (str (codes "email must be an email"))
                                (field (codes "isNotEmpty") (str (codes "empty")) end)))
                            end)))
                      nil))
                  end)))
            nil))
        end))

format_safe_example :
    (has_fixed_messages (format_api_exception invalid).body ≡ true)
    × (as_http invalid ≡ none → format_api_exception invalid ≡ internal_error)
unfolding get_existing_errors get_field ◌==◌
format_safe_example = format_api_exception_safe invalid refl

format_test : format_api_exception invalid ≡ record {
  body = (codes "email", codes "can't be blank" ∷ codes "is invalid" ∷ []) ∷ [];
  status_code = 422;
}
unfolding format_api_exception get_existing_errors get_validation_errors validation_errors get_field
    flatten_errors put_constraints put_error constraint_messages assign_errors ◌==◌ select
format_test = refl

abbrev request : RequestForLog
request = record {
  body = login;
  method = some (codes "POST");
  params = undefined;
  path = some (codes "/api/users/login");
  query = undefined;
}

log_example :
    let log = create_request_failure_log (λ s. s) 7 invalid (some request) in
    ((log.error_category ≡ codes "Error") ⊎ (log.error_category ≡ codes "UnknownError"))
    × ((logged : RequestForLog) × (log.request ≡ some logged)
        × IsClean (λ s. s) logged
        × (logged.method ≡ request.method)
        × (logged.path ≡ request.path)
        × (create_request_failure_log (λ s. s) 7 invalid (some logged) ≡ log))
log_example = create_request_failure_log_lem (λ s. s) 7 invalid request
