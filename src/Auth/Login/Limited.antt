-- ===== src/Auth/Login/Limited.antt =====
-- A login behind the rate limiter: past the limit, it is answered before anything is looked up.
use nest_js_tutorial.Base.{
  ℕ, ◌≤◌, ◌<◌, ◌≡◌, refl, ap, ◌∙◌, Bool, true, Option, none, some, Text, codes, ltb, arith, [], ◌∷◌,
  ◌==◌,
}
use nest_js_tutorial.Runtime.{
  Exception, Outcome, returned, thrown, M, errors_body, recover, after, pure, throw,
}
use nest_js_tutorial.Serializers.{SerializedUser, serialize_user}
use nest_js_tutorial.Database.{User}
use nest_js_tutorial.Auth.Limiter.{
  Counter, Counters, increment, auth_login_max_attempts, auth_login_window_ms, create_login_key,
  consume,
}
use nest_js_tutorial.Auth.Limiter.Laws.{IsConsumed, consume_lem}
use nest_js_tutorial.Auth.Login.{AuthLoginRequest, login, login_response, login_response_error}
use nest_js_tutorial.Common.Filter.{format_api_exception, get_existing_errors, get_field}

-- A counter that is at its limit stays over it until it expires.
over_limit :
    (now : ℕ) (o : Option Counter) (c : Counter)
    → o ≡ some c
    → now < c.expires_at
    → 5 ≤ c.value
    → ltb auth_login_max_attempts (increment now auth_login_window_ms o).value ≡ true
unfolding increment
over_limit now none c e h k = cc
over_limit now (some d) c e h k = ground arith

abbrev pub too_many_requests : Exception
too_many_requests = Exception.http 429 (errors_body (codes "body") (codes "too many requests"))

module _ (hash to_lower_case : Text → Text) (find_by_email : Text → M Counters (Option User))
    (verify_password : Text → Text → M Counters Bool) (issue : Text → M Counters Text) where
  consumed_over :
      (now : ℕ) (email : Text) (ip_address : Option Text) (counters : Counters) (c : Counter)
      → counters (create_login_key hash to_lower_case (codes "email") (to_lower_case email))
        ≡ some c
      → now < c.expires_at
      → 5 ≤ c.value
      → (consume hash to_lower_case now email ip_address counters).0
        ≡ thrown Exception.auth_login_rate_limit
  consumed_over now email ip_address counters c e h k =
      let r = IsConsumed.result (consume_lem hash to_lower_case now email ip_address counters) in
      r ∙ rw (over_limit now _ c e h k) refl

  stopped :
      {A : Type 0} (o : Outcome (Unit {0}) × Counters) (k : Unit {0} → M Counters A)
      → o.0 ≡ thrown Exception.auth_login_rate_limit
      → after o k ≡ (thrown Exception.auth_login_rate_limit, o.1)
  stopped (returned u, s) k h = cc
  stopped (thrown e, s) k h = cc

  abbrev limited_login : ℕ → AuthLoginRequest → M Counters (Text × User)
  limited_login now = login (consume hash to_lower_case now) find_by_email verify_password issue

  login_stopped :
      (now : ℕ) (request : AuthLoginRequest) (counters : Counters)
      → (consume hash to_lower_case now request.email request.ip_address counters).0
        ≡ thrown Exception.auth_login_rate_limit
      → limited_login now request counters ≡ (
        thrown Exception.auth_login_rate_limit,
        (consume hash to_lower_case now request.email request.ip_address counters).1,
      )
  unfolding login
  login_stopped now request counters h =
      stopped (consume hash to_lower_case now request.email request.ip_address counters) _ h

  -- The route of the login with the limiter.
  abbrev pub limited_response : ℕ → AuthLoginRequest → M Counters SerializedUser
  limited_response now =
      login_response (consume hash to_lower_case now) find_by_email verify_password issue

  -- Once five attempts have been counted for an email, in any spelling, a login with it is answered
  -- with 429 until the counter expires, whatever the password and the address; it only counts as
  -- another attempt, and nobody is looked up.
  pub login_limited :
      (now : ℕ) (request : AuthLoginRequest) (counters : Counters) (c : Counter)
      → counters (create_login_key hash to_lower_case (codes "email") (to_lower_case request.email))
        ≡ some c
      → now < c.expires_at
      → 5 ≤ c.value
      → (limited_response now request counters ≡ (
        thrown too_many_requests,
        (consume hash to_lower_case now request.email request.ip_address counters).1,
      ))
        × (format_api_exception too_many_requests ≡ record {
          body = (codes "body", codes "too many requests" ∷ []) ∷ [];
          status_code = 429;
        })
  unfolding login_response login_response_error format_api_exception get_existing_errors get_field
      ◌==◌
  login_limited now request counters c e h k =
      let over = consumed_over now request.email request.ip_address counters c e h k in
      (
        ap
            (λ o.
              recover (after o (λ answer. pure (serialize_user answer.1 answer.0)))
                (λ e. throw (login_response_error e)))
            (login_stopped now request counters over),
        refl,
      )
