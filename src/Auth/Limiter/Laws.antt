-- ===== src/Auth/Limiter/Laws.antt =====
-- What the limit on logins guarantees.
use nest_js_tutorial.Base.{
  ℕ, suc, ◌+◌, ◌-◌, ◌<◌, ◌≡◌, refl, Bool, true, false, not, ap, ◌∙◌, ==_refl, ◌||◌, Option, none,
  some, Text, codes, ◌==◌, ltb, leb, List, [], ◌∷◌, length, if◌then◌else◌, arith, All,
}
use nest_js_tutorial.Runtime.{Exception, Outcome, returned, thrown}
use nest_js_tutorial.Auth.Limiter.{
  auth_login_max_attempts, auth_login_window_ms, Counter, Counters, increment, increment_script,
  is_rate_limited, create_login_key, login_keys, or_unknown, consume,
}

abbrev pub smaller : ℕ → ℕ → ℕ
smaller a b = if leb a b then a else b

-- The effect of an attempt on the counters, and whether it is refused.
pub record IsConsumed (now : ℕ) (email_key ip_key : Text) (counters after : Counters)
    (o : Outcome (Unit {0})) : Type 0 where
  pub counted :
      (key : Text)
      → after key ≡ (
          if key == ip_key
          then some (increment now auth_login_window_ms (counters ip_key))
          else (if key == email_key
              then some (increment now auth_login_window_ms (counters email_key))
              else counters key))
  pub result : o ≡ (
      if ltb auth_login_max_attempts (increment now auth_login_window_ms (counters email_key)).value
        || ltb auth_login_max_attempts (increment now auth_login_window_ms (counters ip_key)).value
      then thrown Exception.auth_login_rate_limit
      else returned tt)

or_same : (b : Bool) → (b || b) ≡ b
or_same true = refl
or_same false = refl

or_false : (b : Bool) → (b || false) ≡ b
or_false true = refl
or_false false = refl

pair_lem :
    (now : ℕ) (e i : Text) (counters : Counters)
    → e == i ≡ false
    → i == e ≡ false
    → let (counts, after) = increment_script now auth_login_window_ms (e ∷ i ∷ []) counters in
      IsConsumed now e i counters after
        (if is_rate_limited counts then thrown Exception.auth_login_rate_limit else returned tt)
unfolding increment_script is_rate_limited
pair_lem now e i counters h k = record {
  counted = λ key. simp k;
  result = simp (
    k,
    or_false (ltb auth_login_max_attempts (increment now auth_login_window_ms (counters i)).value),
  );
}

module _ (hash to_lower_case : Text → Text) where
  keys_differ :
      (a b : Text)
      → (create_login_key hash to_lower_case (codes "email") a
            == create_login_key hash to_lower_case (codes "ip") b
          ≡ false)
        × (create_login_key hash to_lower_case (codes "ip") b
              == create_login_key hash to_lower_case (codes "email") a
            ≡ false)
  unfolding create_login_key ◌==◌
  keys_differ a b = (refl, refl)

  -- An attempt is counted once for its email, in any spelling, and once for its address, also where it
  -- is refused; it is refused if and only if either counter exceeds five.
  pub consume_lem :
      (now : ℕ) (email : Text) (ip_address : Option Text) (counters : Counters)
      → IsConsumed now
          (create_login_key hash to_lower_case (codes "email") (to_lower_case email))
          (create_login_key hash to_lower_case (codes "ip") (or_unknown ip_address))
          counters
          (consume hash to_lower_case now email ip_address counters).1
          (consume hash to_lower_case now email ip_address counters).0
  unfolding consume login_keys
  consume_lem now email ip_address counters =
      let (h, k) = keys_differ (to_lower_case email) (or_unknown ip_address) in
      pair_lem now (create_login_key hash to_lower_case (codes "email") (to_lower_case email))
        (create_login_key hash to_lower_case (codes "ip") (or_unknown ip_address)) counters h k

abbrev is_let_through : Outcome (Unit {0}) → Bool
is_let_through (returned u) = true
is_let_through (thrown e) = false

let_through_if :
    (b : Bool)
    → is_let_through (if b then thrown Exception.auth_login_rate_limit else returned tt) ≡ not b
let_through_if true = refl
let_through_if false = refl

counted_lem :
    (b : Bool) (rest value n : ℕ)
    → b ≡ not (ltb 5 (suc value))
    → rest ≡ smaller n (5 - suc value)
    → (if b then suc rest else rest) ≡ smaller (suc n) (5 - value)
counted_lem true rest value n h k = ground (arith, h, k)
counted_lem false rest value n h k = ground (arith, h, k)

abbrev IsWithin : (expires : ℕ) → List ℕ → Type 0
IsWithin expires = All (λ t. t < expires)

module _ (hash to_lower_case : Text → Text) (email : Text) (ip_address : Option Text) where
  abbrev pub email_key : Text
  email_key = create_login_key hash to_lower_case (codes "email") (to_lower_case email)

  abbrev pub ip_key : Text
  ip_key = create_login_key hash to_lower_case (codes "ip") (or_unknown ip_address)

  -- How many attempts at these times, with this email and from this address, `consume` lets through.
  abbrev pub admitted : List ℕ → Counters → ℕ
  admitted [] counters = 0
  admitted (now ∷ times) counters =
      let o = consume hash to_lower_case now email ip_address counters in
      let rest = admitted times o.1 in if is_let_through o.0 then suc rest else rest

  -- What one attempt makes of the two counters where they are equal.
  consumed :
      (now : ℕ) (counters : Counters) (o : Option Counter)
      → counters email_key ≡ o
      → counters ip_key ≡ o
      → let next = increment now auth_login_window_ms o in
        let r = consume hash to_lower_case now email ip_address counters in
        (r.1 email_key ≡ some next)
        × (r.1 ip_key ≡ some next)
        × (is_let_through r.0 ≡ not (ltb auth_login_max_attempts next.value))
  consumed now counters o h k =
      let (differ, differ') =
        keys_differ hash to_lower_case (to_lower_case email) (or_unknown ip_address) in
      let c = consume_lem hash to_lower_case now email ip_address counters in
      let next = increment now auth_login_window_ms o in
      (
        c.counted email_key ∙ simp (differ, ==_refl email_key, h),
        c.counted ip_key ∙ simp (==_refl ip_key, k),
        ap is_let_through c.result
            ∙ rw (h, k, or_same (ltb auth_login_max_attempts next.value))
                (let_through_if (ltb auth_login_max_attempts next.value)),
      )

  admitted_early :
      (value expires : ℕ) (times : List ℕ) (counters : Counters)
      → counters email_key ≡ some (record { value = value; expires_at = expires })
      → counters ip_key ≡ some (record { value = value; expires_at = expires })
      → IsWithin expires times
      → admitted times counters ≡ smaller (length times) (5 - value)
  unfolding increment
  admitted_early value expires [] counters h k e = ground arith
  admitted_early value expires (now ∷ times) counters h k (early, e) =
      let late : leb expires now ≡ false = ground arith in
      let (a, b, c) =
        consumed now counters (some (record { value = value; expires_at = expires })) h k in
      let a = rw late at a in
      let b = rw late at b in
      let c = rw late at c in
      let rest =
        admitted_early (suc value) expires times
          (consume hash to_lower_case now email ip_address counters).1 a b e in
      counted_lem _ _ value (length times) c rest

  -- Where nothing has been counted for an email or an address yet, `consume` lets five attempts with
  -- them through, if there are as many, and no more, from the first one until 60 seconds after it.
  pub admitted_lem :
      (start : ℕ) (times : List ℕ) (counters : Counters)
      → counters email_key ≡ none
      → counters ip_key ≡ none
      → All (λ t. t < start + 60000) times
      → admitted (start ∷ times) counters ≡ smaller (suc (length times)) 5
  unfolding increment
  admitted_lem start times counters h k e =
      let (a, b, c) = consumed start counters none h k in
      let rest =
        admitted_early 1 (start + 60000) times
          (consume hash to_lower_case start email ip_address counters).1 a b e in
      counted_lem _ _ 0 (length times) c rest
