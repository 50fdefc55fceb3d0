-- ===== src/Base/Integers.antt =====
-- Integers of JavaScript over the native numbers.
use Prim.Native.Nat.{ℕ}
use mathlib.Core.Bool.{Bool}
use nest_js_tutorial.Base.Booleans.{leb}

-- `negsuc n` is -(n + 1).
pub data ℤ : Type 0 where
  pos negsuc : ℕ → ℤ

-- `Number.isSafeInteger`, of an integer.
abbrev pub is_safe_integer : ℤ → Bool
is_safe_integer (pos n) = leb n 9007199254740991
is_safe_integer (negsuc n) = leb n 9007199254740990
