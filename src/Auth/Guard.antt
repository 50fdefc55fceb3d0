-- ===== src/Auth/Guard.antt =====
-- AuthService.authenticate, AuthTokenGuard and OptionalAuthTokenGuard (auth/auth.service.ts,
-- auth/token-claims.ts, auth/auth-token.guard.ts, auth/optional-auth-token.guard.ts).
pub mod Header
pub mod Laws
use nest_js_tutorial.Base.{
  ℕ, Bool, true, false, not, ◌&&◌, Option, none, some, Text, codes, ◌==◌, eqb, List, [], ◌∷◌,
  is_space, trim, if◌then◌else◌,
}
use nest_js_tutorial.Runtime.{
  Exception, Value, null, undefined, bool, num, str, arr, obj, nil, cons, Outcome, returned, thrown,
  M, pure, throw, throw_if, ◌>>=◌, ◌>>◌, try_catch, errors_body, as_http,
}
use nest_js_tutorial.Common.Filter.{get_property, is_text, text_of}

abbrev pub is_empty : Text → Bool
is_empty [] = true
is_empty (c ∷ s) = false

abbrev pub starts_with_space : Text → Bool
starts_with_space [] = false
starts_with_space (c ∷ s) = is_space c

-- `split(/\s+/)`: the first piece and the others. A run of white space is one separator.
unfoldable pub split_spaces : Text → Text × List Text
split_spaces [] = ([], [])
split_spaces (c ∷ s) =
    let (word, words) = split_spaces s in
    if is_space c
    then (if starts_with_space s then (word, words) else ([], word ∷ words))
    else (c ∷ word, words)

-- `scheme === AUTH_TOKEN_SCHEME && token`
abbrev pub accept : Text → Text → Option Text
accept scheme token = if scheme == codes "Token" && not (is_empty token) then some token else none

abbrev pub token_of : Text × List Text → Option Text
token_of (scheme, []) = none
token_of (scheme, token ∷ []) = accept scheme token
token_of (scheme, token ∷ extra ∷ more) = if is_empty extra then accept scheme token else none

-- getToken
unfoldable pub get_token : Option Text → Option Text
unfolding split_spaces
get_token none = none
get_token (some authorization) = token_of (split_spaces (trim authorization))

-- isNonEmptyString
abbrev is_non_empty_string : Value → Bool
is_non_empty_string v = is_text v && not (is_empty (text_of v))

abbrev is_number : Value → Bool
is_number (num n) = true
is_number _ = false

-- isTokenClaims
unfoldable pub is_token_claims : Value → Bool
is_token_claims v =
    is_non_empty_string (get_property (codes "aud") v)
    && (is_non_empty_string (get_property (codes "iss") v)
        && (is_non_empty_string (get_property (codes "sub") v)
            && (is_non_empty_string (get_property (codes "jti") v)
                && (is_number (get_property (codes "exp") v)
                    && is_number (get_property (codes "iat") v)))))

abbrev pub token_error : Text → Exception
token_error message = Exception.http 401 (errors_body (codes "token") message)

-- The `catch` block of `authenticate`.
abbrev pub authenticate_error : Exception → Exception
authenticate_error Exception.token_deny_list_unavailable = Exception.token_deny_list_unavailable
authenticate_error e = Exception.auth_invalid_token

-- The `catch` block of AuthTokenGuard.
abbrev pub guard_error : Exception → Exception
guard_error Exception.auth_invalid_token = token_error (codes "is invalid")
guard_error e = e

-- `errors.token[0] === 'is missing'`
abbrev first_is_missing : Value → Bool
first_is_missing (arr (cons (str s) rest)) = s == codes "is missing"
first_is_missing _ = false

abbrev is_missing_response : Option (ℕ × Value) → Bool
is_missing_response none = false
is_missing_response (some (status, response)) =
    eqb status 401
    && first_is_missing (get_property (codes "token") (get_property (codes "errors") response))

-- The two services behind the guard: the verification of a token (JWT), and the deny list.
module _ {S : Type 0} (verify : Text → M S Value) (denied : Text → M S Bool) where
  -- AuthService.authenticate
  unfoldable pub authenticate : Text → M S Value
  unfolding is_token_claims
  authenticate token =
      try_catch
        (do
          claims ← verify token
          throw_if (not (is_token_claims claims)) Exception.auth_invalid_token
          refused ← denied (text_of (get_property (codes "jti") claims))
          throw_if refused Exception.auth_invalid_token
          pure claims)
        (λ e. throw (authenticate_error e))

  -- AuthTokenGuard.canActivate, of the token in the header: the claims and the token.
  unfoldable pub activate : Option Text → M S (Value × Text)
  unfolding authenticate
  activate none = throw (token_error (codes "is missing"))
  activate (some token) =
      try_catch (authenticate token >>= λ claims. pure (claims, token)) (λ e. throw (guard_error e))

  unfoldable pub can_activate : Option Text → M S (Value × Text)
  unfolding get_token activate
  can_activate authorization = activate (get_token authorization)

  -- The `catch` of OptionalAuthTokenGuard.
  abbrev pub optional_error : Exception → Exception
  optional_error e = if is_missing_response (as_http e) then token_error (codes "is invalid") else e

  abbrev pub present : M S (Value × Text) → M S (Option (Value × Text))
  present m = m >>= λ auth. pure (some auth)

  -- OptionalAuthTokenGuard.canActivate
  unfoldable pub can_activate_optional : Option Text → M S (Option (Value × Text))
  unfolding can_activate
  can_activate_optional none = pure none
  can_activate_optional (some authorization) =
      try_catch (present (can_activate (some authorization))) (λ e. throw (optional_error e))
