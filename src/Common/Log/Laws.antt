-- ===== src/Common/Log/Laws.antt =====
-- What the log of a failed request can tell.
use nest_js_tutorial.Base.{
  ℕ, ◌≡◌, ◌⊎◌, some, codes, refl, ap, Bool, true, false, ◌&&◌, ◌||◌, not, Text, ◌==◌, ==_refl,
  if◌then◌else◌, Bool-cases, inl, inr, arith,
}
use nest_js_tutorial.Runtime.{
  Exception, Value, Items, Fields, null, undefined, bool, num, str, arr, obj, nil, cons, end, field,
}
use nest_js_tutorial.Common.Log.{
  RequestForLog, sanitize_request, create_request_failure_log, get_error_details, redacted_value,
  is_sensitive, sanitize_value, sanitize_items, sanitize_fields,
}

abbrev pub is_mask : Value → Bool
is_mask (str s) = s == redacted_value
is_mask _ = false

module _ (to_lower_case : Text → Text) where
  -- No field of a sensitive name, at any depth, has a value of its own.
  unfoldable mutual
    pub is_masked : Value → Bool
    is_masked null = true
    is_masked undefined = true
    is_masked (bool b) = true
    is_masked (num n) = true
    is_masked (str s) = true
    is_masked (arr items) = is_masked_items items
    is_masked (obj fields) = is_masked_fields fields

    pub is_masked_items : Items → Bool
    is_masked_items nil = true
    is_masked_items (cons v vs) = is_masked v && is_masked_items vs

    pub is_masked_fields : Fields → Bool
    is_masked_fields end = true
    is_masked_fields (field key entry rest) =
        (not (is_sensitive to_lower_case key) || is_mask entry)
        && (is_masked entry && is_masked_fields rest)

  mask_lem :
      (s : Bool) (v w : Value)
      → is_masked v ≡ true
      → is_masked (if s then str redacted_value else v) ≡ true
  unfolding is_masked
  mask_lem true v w h = refl
  mask_lem false v w h = h

  shown_lem :
      (s : Bool) (v : Value) → (not s || is_mask (if s then str redacted_value else v)) ≡ true
  shown_lem true v = ==_refl redacted_value
  shown_lem false v = refl

  mutual
    unfolding is_masked sanitize_value

    sanitize_masks : (v : Value) → is_masked (sanitize_value to_lower_case v) ≡ true
    sanitize_masks null = refl
    sanitize_masks undefined = refl
    sanitize_masks (bool b) = refl
    sanitize_masks (num n) = refl
    sanitize_masks (str s) = refl
    sanitize_masks (arr items) = sanitize_masks_items items
    sanitize_masks (obj fields) = sanitize_masks_fields fields

    sanitize_masks_items : (vs : Items) → is_masked_items (sanitize_items to_lower_case vs) ≡ true
    sanitize_masks_items nil = refl
    sanitize_masks_items (cons v vs) = ground (arith, sanitize_masks v, sanitize_masks_items vs)

    sanitize_masks_fields :
        (fs : Fields) → is_masked_fields (sanitize_fields to_lower_case fs) ≡ true
    sanitize_masks_fields end = refl
    sanitize_masks_fields (field key entry rest) =
        let s = is_sensitive to_lower_case key in
        let v = sanitize_value to_lower_case entry in
        rw (shown_lem s v, mask_lem s v v (sanitize_masks entry)) (sanitize_masks_fields rest)

  mutual
    unfolding sanitize_value

    sanitize_twice :
        (v : Value)
        → sanitize_value to_lower_case (sanitize_value to_lower_case v)
          ≡ sanitize_value to_lower_case v
    sanitize_twice null = refl
    sanitize_twice undefined = refl
    sanitize_twice (bool b) = refl
    sanitize_twice (num n) = refl
    sanitize_twice (str s) = refl
    sanitize_twice (arr items) = ap arr (sanitize_twice_items items)
    sanitize_twice (obj fields) = ap obj (sanitize_twice_fields fields)

    sanitize_twice_items :
        (vs : Items)
        → sanitize_items to_lower_case (sanitize_items to_lower_case vs)
          ≡ sanitize_items to_lower_case vs
    sanitize_twice_items nil = refl
    sanitize_twice_items (cons v vs) = cc (sanitize_twice v, sanitize_twice_items vs)

    sanitize_twice_fields :
        (fs : Fields)
        → sanitize_fields to_lower_case (sanitize_fields to_lower_case fs)
          ≡ sanitize_fields to_lower_case fs
    sanitize_twice_fields end = refl
    sanitize_twice_fields (field key entry rest) =
        elim (Bool-cases (is_sensitive to_lower_case key)) [
          | inl hidden ↦
              rw hidden (ap (field key (str redacted_value)) (sanitize_twice_fields rest))
          | inr shown ↦ simp (shown, sanitize_twice entry, sanitize_twice_fields rest)
        ]

  -- A value that has been sanitized for the log has no sensitive field, at any depth, with a value of
  -- its own, and sanitizing it again changes nothing.
  pub sanitize_value_lem :
      (v : Value)
      → (is_masked (sanitize_value to_lower_case v) ≡ true)
        × (sanitize_value to_lower_case (sanitize_value to_lower_case v)
            ≡ sanitize_value to_lower_case v)
  sanitize_value_lem v = (sanitize_masks v, sanitize_twice v)

  category_lem :
      (e : Exception)
      → (get_error_details e ≡ codes "Error") ⊎ (get_error_details e ≡ codes "UnknownError")
  unfolding get_error_details
  category_lem e = ground arith

  -- A request in the log: no sensitive field has a value of its own.
  pub record IsClean (logged : RequestForLog) : Type 0 where
    pub body : is_masked logged.body ≡ true
    pub params : is_masked logged.params ≡ true
    pub query : is_masked logged.query ≡ true

  -- The log of a failed request tells of the error only whether it is an Error; it has the method and
  -- the path of the request, and its body, parameters and query have no sensitive field, at any depth,
  -- with a value of its own; and logging what has been logged changes nothing.
  pub create_request_failure_log_lem :
      (now : ℕ) (e : Exception) (request : RequestForLog)
      → let log = create_request_failure_log to_lower_case now e (some request) in
        ((log.error_category ≡ codes "Error") ⊎ (log.error_category ≡ codes "UnknownError"))
        × ((logged : RequestForLog) × (log.request ≡ some logged)
            × IsClean logged
            × (logged.method ≡ request.method)
            × (logged.path ≡ request.path)
            × (create_request_failure_log to_lower_case now e (some logged) ≡ log))
  unfolding create_request_failure_log sanitize_request
  create_request_failure_log_lem now e request = (
    category_lem e,
    (
      sanitize_request to_lower_case request,
      refl,
      record {
        body = sanitize_masks request.body;
        params = sanitize_masks request.params;
        query = sanitize_masks request.query;
      },
      refl,
      refl,
      simp (
        sanitize_twice request.body,
        sanitize_twice request.params,
        sanitize_twice request.query,
      ),
    ),
  )
