-- ===== src/Base/Decimals.antt =====
-- Natural numbers as decimal digits: how JavaScript and PostgreSQL print them, and `Number(text)` of a
-- text of digits.
use Prim.Native.Nat.{ℕ, zero, suc, ◌+◌, ◌*◌, ◌-◌, ◌/◌, ◌%◌, ◌≤◌, ◌<◌}
use mathlib.Core.Path.{◌≡◌, refl, ap}
use mathlib.Core.Bool.{Bool, true, false, ◌&&◌}
use mathlib.Core.List.{[], ◌∷◌}
use native.Mathlib.Omega.{arith}
use nest_js_tutorial.Base.Booleans.{ltb, leb, if◌then◌else◌}
use nest_js_tutorial.Base.Texts.{Text}

abbrev pub is_digit : ℕ → Bool
is_digit c = leb 48 c && leb c 57

-- `[0-9]*` over a whole text.
abbrev pub all_digits : Text → Bool
all_digits [] = true
all_digits (c ∷ s) = is_digit c && all_digits s

-- `/^\d+$/.test(text)`
abbrev pub is_decimal : Text → Bool
is_decimal [] = false
is_decimal (c ∷ s) = is_digit c && all_digits s

-- The value of further digits after a number.
abbrev pub digits_after : ℕ → Text → ℕ
digits_after n [] = n
digits_after n (c ∷ s) = digits_after (n * 10 + (c - 48)) s

-- The digits of `n` before a rest; a number has fewer digits than its successor counts.
unfoldable pub decimal_before : ℕ → ℕ → Text → Text
decimal_before zero n rest = rest
decimal_before (suc fuel) n rest =
    let longer = decimal_before fuel (n / 10) ((48 + n % 10) ∷ rest) in
    if ltb n 10 then (48 + n) ∷ rest else longer

unfoldable pub decimal : ℕ → Text
unfolding decimal_before
decimal n = decimal_before (suc n) n []

same_before : (m n : ℕ) (rest : Text) → m ≡ n → digits_after m rest ≡ digits_after n rest
same_before m n rest h = ap (λ k. digits_after k rest) h

decimal_before-value :
    (fuel n : ℕ) (rest : Text)
    → n < fuel
    → digits_after 0 (decimal_before fuel n rest) ≡ digits_after n rest
unfolding decimal_before
decimal_before-value zero n rest h = omega arith
decimal_before-value (suc fuel) n rest h =
    let tens : n / 10 * 10 + (48 + n % 10 - 48) ≡ n = omega arith in
    let units : 0 * 10 + (48 + n - 48) ≡ n = omega arith in
    let smaller : ltb n 10 ≡ false → n / 10 < fuel = λ l. ground arith in
    ground (
      arith,
      same_before (n / 10 * 10 + (48 + n % 10 - 48)) n rest tens,
      same_before (0 * 10 + (48 + n - 48)) n rest units,
      smaller,
      decimal_before-value fuel (n / 10) ((48 + n % 10) ∷ rest),
    )

-- What is printed is read as the same number.
pub decimal-value : (n : ℕ) → digits_after 0 (decimal n) ≡ n
unfolding decimal
decimal-value n = decimal_before-value (suc n) n [] (omega arith)

decimal_before-digits :
    (fuel n : ℕ) (rest : Text)
    → n < fuel
    → all_digits rest ≡ true
    → is_decimal (decimal_before fuel n rest) ≡ true
unfolding decimal_before
decimal_before-digits zero n rest h k = ground arith
decimal_before-digits (suc fuel) n rest h k =
    let low : 48 ≤ 48 + n % 10 = omega arith in
    let high : 48 + n % 10 ≤ 57 = omega arith in
    let smaller : ltb n 10 ≡ false → n / 10 < fuel = λ l. ground arith in
    ground (arith, low, high, smaller, decimal_before-digits fuel (n / 10) ((48 + n % 10) ∷ rest))

pub decimal-digits : (n : ℕ) → is_decimal (decimal n) ≡ true
unfolding decimal
decimal-digits n = decimal_before-digits (suc n) n [] (omega arith) refl
