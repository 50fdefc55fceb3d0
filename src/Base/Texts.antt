-- ===== src/Base/Texts.antt =====
-- Strings of the source as lists of UTF-16 code units, and their equality `===`.
use Prim.Native.Nat.{ℕ}
use Prim.Native.Char.{code}
use Prim.Native.String.{String}
use mathlib.Core.Path.{◌≡◌, refl, ap}
use mathlib.Core.Logic.{◌↔◌}
use mathlib.Core.Bool.{Bool, true, false, ◌&&◌}
use mathlib.Core.Option.{Option, none, some}
use mathlib.Core.List.{List, [], ◌∷◌}
use native.Mathlib.Omega.{arith}
use nest_js_tutorial.Base.Booleans.{eqb}

abbrev pub Text : Type 0
Text = List ℕ

-- A literal of the source; all of them are ASCII.
abbrev pub codes : String → Text
codes String.[] = []
codes (String.◌∷◌ c s) = code c ∷ codes s

infix 50 ◌==◌
unfoldable pub ◌==◌ : Text → Text → Bool
[] == [] = true
[] == (y ∷ ys) = false
(x ∷ xs) == [] = false
(x ∷ xs) == (y ∷ ys) = eqb x y && xs == ys

pub ==_iff : (s t : Text) → (s == t ≡ true) ↔ (s ≡ t)
unfolding ◌==◌
==_iff [] [] = ground arith
==_iff [] (y ∷ ys) = ground arith
==_iff (x ∷ xs) [] = ground arith
==_iff (x ∷ xs) (y ∷ ys) = ground (arith, ==_iff xs ys)

pub ==_refl : (s : Text) → s == s ≡ true
==_refl s = (==_iff s s).1 refl

-- `===` of optional strings.
abbrev pub same_option : Option Text → Option Text → Bool
same_option none none = true
same_option (some s) (some t) = s == t
same_option none (some t) = false
same_option (some s) none = false

pub same_option→eq : (a b : Option Text) → same_option a b ≡ true → a ≡ b
same_option→eq none none h = refl
same_option→eq (some s) (some t) h = ap some ((==_iff s t).0 h)
same_option→eq none (some t) h = cc
same_option→eq (some s) none h = cc
