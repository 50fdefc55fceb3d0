-- ===== src/Runtime/Values.antt =====
-- Values of JavaScript that the code inspects with `typeof`, `Array.isArray` and `Object.entries`
-- (common/filters/api-exception.filter.ts, common/logging/request-failure-log.ts).
use nest_js_tutorial.Base.{ℕ, Bool, Text, codes}

mutual
  pub data Value : Type 0 where
    null undefined : Value
    bool : Bool → Value
    num : ℕ → Value
    str : Text → Value
    arr : Items → Value
    obj : Fields → Value

  pub data Items : Type 0 where
    nil : Items
    cons : Value → Items → Items

  -- The own enumerable properties of an object, in their order.
  pub data Fields : Type 0 where
    end : Fields
    field : Text → Value → Fields → Fields

-- `{ errors: { [name]: [message] } }`, the body of every error that the code throws itself.
abbrev pub errors_body : Text → Text → Value
errors_body name message =
    obj (field (codes "errors") (obj (field name (arr (cons (str message) nil)) end)) end)
