-- ===== src/Common/Text.antt =====
-- `std::string` as a list of bytes: literals, equality, prefixes, searches, decimal numerals.
use Prim.Native.Nat.{ℕ, zero, suc, ◌+◌, ◌/◌, ◌%◌}
use Prim.Native.Char.{code}
use Prim.Native.String.{String}
use mathlib.Core.Path.{◌≡◌, refl}
use mathlib.Core.Bool.{Bool, true, false, ◌&&◌}
use mathlib.Core.List.{List, [], ◌∷◌, ◌++◌}
use mathlib.Core.Option.{Option, none, some}
use native.Mathlib.Omega.{arith}
use vehicle_detection_system.Common.Tests.{◌==◌, ltb, if◌then◌else◌, ==_iff, ==_refl}

abbrev pub Bytes : Type 0
Bytes = List ℕ

-- The code points of a literal: its bytes, since every literal here is ASCII.
abbrev pub codes : String → Bytes
codes String.[] = []
codes (String.◌∷◌ c s) = code c ∷ codes s

infix 50 ◌≟◌
-- `operator==` of `std::string`.
abbrev pub ◌≟◌ : Bytes → Bytes → Bool
[] ≟ [] = true
[] ≟ (y ∷ ys) = false
(x ∷ xs) ≟ [] = false
(x ∷ xs) ≟ (y ∷ ys) = x == y && xs ≟ ys

pub ≟_refl : (xs : Bytes) → (xs ≟ xs) ≡ true
≟_refl [] = refl
≟_refl (x ∷ xs) = ground (arith, ==_refl x, ≟_refl xs)

pub ≟→eq : (xs ys : Bytes) → (xs ≟ ys) ≡ true → xs ≡ ys
≟→eq [] [] h = refl
≟→eq [] (y ∷ ys) h = cc
≟→eq (x ∷ xs) [] h = cc
≟→eq (x ∷ xs) (y ∷ ys) h = ground (arith, ==_iff x y, ≟→eq xs ys)

-- What is left of a text after a prefix; `none` if it does not begin with that prefix.
abbrev pub after_prefix : Bytes → Bytes → Option Bytes
after_prefix [] s = some s
after_prefix (x ∷ xs) [] = none
after_prefix (x ∷ xs) (c ∷ s) = if x == c then after_prefix xs s else none

-- `std::to_string` and `<<` of an unsigned number. The fuel bounds the number of digits.
abbrev pub digits_fuel : ℕ → ℕ → Bytes
digits_fuel zero n = []
digits_fuel (suc f) n =
    let front = digits_fuel f (n / 10) in (if ltb n 10 then [] else front) ++ (48 + n % 10) ∷ []

unfoldable pub decimal : ℕ → Bytes
decimal n = digits_fuel (suc n) n

-- The text of a stream after a row of `<<`.
unfoldable pub stream : List Bytes → Bytes
stream [] = []
stream (text ∷ texts) = text ++ stream texts
