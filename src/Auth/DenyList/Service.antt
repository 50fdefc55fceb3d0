-- ===== src/Auth/DenyList/Service.antt =====
-- TokenDenyListService (auth/token-deny-list.service.ts) over a client that may fail.
pub mod Laws
use nest_js_tutorial.Base.{
  ℕ, ◌-◌, ◌/◌, Bool, true, false, Option, none, some, Text, codes, eqb, if◌then◌else◌,
}
use nest_js_tutorial.Runtime.{
  Exception, Outcome, returned, thrown, M, pure, throw, ◌>>=◌, try_catch,
}
use nest_js_tutorial.Auth.DenyList.{Keys, deny_list_key, set_key, is_present}

-- TokenDenyListClient; `set` is used with the value '1' and the mode 'EX'.
pub record TokenDenyListClient (S : Type 0) : Type 0 where
  pub get : Text → M S (Option Text)
  pub set : Text → Text → ℕ → M S (Unit {0})

abbrev pub is_some : Option Text → Bool
is_some none = false
is_some (some value) = true

module _ {S : Type 0} (client : TokenDenyListClient S) where
  -- deny, at a time in milliseconds, of a token that expires at the second `exp`.
  unfoldable pub deny_token : ℕ → ℕ → Text → M S (Unit {0})
  unfolding deny_list_key
  deny_token now exp jti =
      let ttl_seconds = exp - now / 1000 in
      if eqb ttl_seconds 0
      then pure tt
      else try_catch (client.set (deny_list_key jti) (codes "1") ttl_seconds)
          (λ e. throw Exception.token_deny_list_unavailable)

  -- isDenied
  unfoldable pub is_token_denied : Text → M S Bool
  unfolding deny_list_key
  is_token_denied jti =
      try_catch (client.get (deny_list_key jti) >>= λ value. pure (is_some value))
        (λ e. throw Exception.token_deny_list_unavailable)

-- What Redis documents of its commands, at a time in milliseconds.
abbrev pub value_if : Bool → Option Text
value_if true = some (codes "1")
value_if false = none

abbrev pub redis_client : ℕ → TokenDenyListClient Keys
redis_client now = record {
  get = λ key keys. (returned (value_if (is_present now (keys key))), keys);
  set = λ key value ttl_seconds keys. (returned tt, set_key now key ttl_seconds keys);
}
