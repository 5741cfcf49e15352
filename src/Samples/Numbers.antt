-- ===== src/Samples/Numbers.antt =====
-- A small instance of the interface of `double`: the integers and a value that is not a number.
use vehicle_detection_system.Common.{
  ◌≡◌, ◌⊎◌, refl, if◌then◌else◌, ℕ, Bool, true, false, not, ◌++◌, Bytes, codes, All, All-append,
  All-weaken, arith, decimal, suc, leb, ◌+◌, ◌-◌, ◌^◌,
}
use vehicle_detection_system.Common.Decimal.{decimal-IsDigit, IsDigit}
use vehicle_detection_system.Common.Int.{ℤ, pos, negsuc, pos_part, neg_part, ltb_ℤ, show_ℤ, ◌≤ℤ◌}
use vehicle_detection_system.Common.Double.{Double, IsIeee}
use vehicle_detection_system.ParameterJson.Convert.{min_d, upper_exclusive}
use vehicle_detection_system.ParameterJson.Typed.{CastsWithin}
use vehicle_detection_system.Json.EscapeLaws.{IsPlain}
use vehicle_detection_system.Json.LineLaws.{PrintsPlain}
use vehicle_detection_system.Json.PayloadTree.{PrintsFixed}

pub data Number : Type 0 where
  nan : Number
  num : ℤ → Number

abbrev number_lt : Number → Number → Bool
number_lt (num a) (num b) = ltb_ℤ a b
number_lt _ _ = false

abbrev number_le : Number → Number → Bool
number_le (num a) (num b) = not (ltb_ℤ b a)
number_le _ _ = false

abbrev number_is_finite : Number → Bool
number_is_finite nan = false
number_is_finite (num a) = true

abbrev number_to_ℤ : Number → ℤ
number_to_ℤ nan = pos 0
number_to_ℤ (num a) = a

unfoldable pub number_show : Number → Bytes
number_show nan = codes "nan"
number_show (num a) = show_ℤ a

unfoldable pub number_fixed6 : Number → Bytes
number_fixed6 nan = codes "nan"
number_fixed6 (num a) = show_ℤ a ++ codes ".000000"

-- `m - n` as an integer.
abbrev difference : ℕ → ℕ → ℤ
difference m n = if leb n m then pos (m - n) else negsuc (n - m - 1)

abbrev number_add : Number → Number → Number
number_add (num a) (num b) = num (difference (pos_part a + pos_part b) (neg_part a + neg_part b))
number_add _ _ = nan

abbrev number_sub : Number → Number → Number
number_sub (num a) (num b) = num (difference (pos_part a + neg_part b) (neg_part a + pos_part b))
number_sub _ _ = nan

-- The samples use no product and no literal but 0; their numbers are below 10^6.
instance abbrev pub number_double : Double Number
number_double = record {
  literal = λ text. num (pos 0);
  infinity = num (pos 1000000);
  minus_infinity = num (negsuc 1000000);
  lt = number_lt;
  le = number_le;
  eq = number_le;
  add = number_add;
  sub = number_sub;
  mul = λ a b. nan;
  neg = number_sub (num (pos 0));
  is_finite = number_is_finite;
  trunc = λ a. a;
  of_ℤ = num;
  to_ℤ = number_to_ℤ;
  show = number_show;
  fixed6 = number_fixed6;
}

decimal-IsPlain : (n : ℕ) → All IsPlain (decimal n)
decimal-IsPlain n = All-weaken IsDigit IsPlain (λ c d. omega arith) (decimal n) (decimal-IsDigit n)

pub number-PrintsPlain : PrintsPlain Number
unfolding number_fixed6 show_ℤ
number-PrintsPlain nan = omega arith
number-PrintsPlain (num (pos n)) =
    All-append IsPlain (decimal n) (codes ".000000") (decimal-IsPlain n) (omega arith)
number-PrintsPlain (num (negsuc n)) = (
  omega arith,
  All-append IsPlain (decimal (suc n)) (codes ".000000") (decimal-IsPlain (suc n)) (omega arith),
)

pub number-PrintsFixed : PrintsFixed Number
unfolding number_fixed6 show_ℤ
number-PrintsFixed nan h = absurd cc
number-PrintsFixed (num (pos n)) h = record {
  negative = false;
  whole = n;
  digits = codes "000000";
  text = refl;
  digits_lem = omega arith;
  six = refl;
}
number-PrintsFixed (num (negsuc n)) h = record {
  negative = true;
  whole = suc n;
  digits = codes "000000";
  text = refl;
  digits_lem = omega arith;
  six = refl;
}

pub number-IsIeee : IsIeee Number
number-IsIeee = record {
  lt-ordered = ordered_lt;
  le-ordered = ordered_le;
  le_refl = λ a o. o;
  le_trans = trans;
  le_total = total;
  lt-eq-not-le = negation;
  infinity_ordered = refl;
  minus_infinity_ordered = refl;
}
  where
    ordered_lt :
        (a b : Number) → number_lt a b ≡ true → (number_le a a ≡ true) × (number_le b b ≡ true)
    ordered_lt nan b e = absurd (ground arith)
    ordered_lt (num a) nan e = absurd (ground arith)
    ordered_lt (num a) (num b) e = ground arith

    ordered_le :
        (a b : Number) → number_le a b ≡ true → (number_le a a ≡ true) × (number_le b b ≡ true)
    ordered_le nan b e = absurd (ground arith)
    ordered_le (num a) nan e = absurd (ground arith)
    ordered_le (num a) (num b) e = ground arith

    trans : (a b c : Number) → number_le a b ≡ true → number_le b c ≡ true → number_le a c ≡ true
    trans nan b c e k = absurd (ground arith)
    trans (num a) nan c e k = absurd (ground arith)
    trans (num a) (num b) nan e k = absurd (ground arith)
    trans (num a) (num b) (num c) e k = ground arith

    total :
        (a b : Number)
        → number_le a a ≡ true
        → number_le b b ≡ true
        → (number_le a b ≡ true) ⊎ (number_le b a ≡ true)
    total nan b e k = absurd (ground arith)
    total (num a) nan e k = absurd (ground arith)
    total (num a) (num b) e k = ground arith

    negation :
        (a b : Number)
        → number_le a a ≡ true
        → number_le b b ≡ true
        → number_lt a b ≡ (if number_le b a then false else true)
    negation nan b e k = absurd (ground arith)
    negation (num a) nan e k = absurd (ground arith)
    negation (num a) (num b) e k = ground arith

pub number-CastsWithin : CastsWithin Number
number-CastsWithin = record { at_least = at_least; below = below }
  where
    at_least :
        (x : Number)
        → number_is_finite x ≡ true
        → number_le x x ≡ true
        → number_lt x min_d ≡ false
        → negsuc (2 ^ 63 - 1) ≤ℤ number_to_ℤ x
    at_least nan f w h = absurd (ground arith)
    at_least (num a) f w h = ground arith

    below :
        (x : Number)
        → number_is_finite x ≡ true
        → number_le x x ≡ true
        → number_le upper_exclusive x ≡ false
        → number_to_ℤ x ≤ℤ pos (2 ^ 63 - 1)
    below nan f w h = absurd (ground arith)
    below (num a) f w h = ground arith
