-- ===== src/Files/Upload.antt =====
-- UserAvatarUploadInterceptor (auth/user-avatar-upload.interceptor.ts): the errors of the upload of a
-- file.
use nest_js_tutorial.Base.{
  ℕ, Bool, false, ◌||◌, ◌&&◌, Option, none, some, Text, codes, ◌==◌, same_option, eqb,
  if◌then◌else◌,
}
use nest_js_tutorial.Runtime.{Exception, Value, M, throw, ◌>>=◌, try_catch, errors_body, as_http}
use nest_js_tutorial.Common.Filter.{get_property, is_text, text_of}

abbrev avatar_error : Text → Exception
avatar_error message = Exception.http 422 (errors_body (codes "avatar") message)

abbrev status_of : Option (ℕ × Value) → Option ℕ
status_of none = none
status_of (some (status, response)) = some status

abbrev has_status : ℕ → Option ℕ → Bool
has_status status none = false
has_status status (some n) = eqb n status

-- isUnexpectedAvatarField: a value with the code LIMIT_UNEXPECTED_FILE.
abbrev unexpected_file : Text
unexpected_file = codes "LIMIT_UNEXPECTED_FILE"

unfoldable pub is_unexpected_avatar_field : Exception → Bool
is_unexpected_avatar_field (Exception.driver driver_error fields) =
    same_option fields.code (some unexpected_file)
is_unexpected_avatar_field (Exception.thrown_value v) =
    is_text (get_property (codes "code") v)
    && text_of (get_property (codes "code") v) == unexpected_file
is_unexpected_avatar_field e = false

-- mapAvatarUploadError
unfoldable pub map_avatar_upload_error : Exception → Exception
unfolding is_unexpected_avatar_field
map_avatar_upload_error e =
    let status = status_of (as_http e) in
    if has_status 413 status
    then avatar_error (codes "is too large")
    else if has_status 400 status || is_unexpected_avatar_field e
    then avatar_error (codes "is invalid")
    else e

-- `intercept`: the upload (multer) and the handler behind it are parameters.
unfoldable pub intercept : {S A B : Type 0} → M S A → (A → M S B) → M S B
unfolding map_avatar_upload_error
intercept upload next = try_catch (upload >>= next) (λ e. throw (map_avatar_upload_error e))
