-- ===== src/Common/Double.antt =====
-- `double`: the operations that the program applies to it, taken as an interface, and the facts of
-- IEEE 754 that the program relies on.
use mathlib.Core.Path.{◌≡◌}
use mathlib.Core.Logic.{◌⊎◌}
use mathlib.Core.Bool.{Bool, true, false}
use vehicle_detection_system.Common.Text.{Bytes}
use vehicle_detection_system.Common.Int.{ℤ}
use vehicle_detection_system.Common.Tests.{if◌then◌else◌}

pub record Double (D : Type 0) : Type 0 where
  -- A literal of the source, by its text.
  pub literal : Bytes → D
  pub infinity : D
  pub minus_infinity : D
  pub lt : D → D → Bool
  pub le : D → D → Bool
  pub eq : D → D → Bool
  pub add : D → D → D
  pub sub : D → D → D
  pub mul : D → D → D
  pub neg : D → D
  pub is_finite : D → Bool
  pub trunc : D → D
  -- The conversions from and to the integers; the latter is only applied within range.
  pub of_ℤ : ℤ → D
  pub to_ℤ : D → ℤ
  -- `<<` of an `ostream`, and "%.6f" of `snprintf` into a buffer that is large enough.
  pub show : D → Bytes
  pub fixed6 : D → Bytes

-- `std::max` and `std::min`: of two values that compare neither way, the first.
module _ {D : Type 0} ⦃d : Double D⦄ where
  unfoldable pub max : D → D → D
  max a b = if d.lt a b then b else a

  unfoldable pub min : D → D → D
  min a b = if d.lt b a then b else a

-- NaN is the value that is not equal to itself; away from it the order is linear.
pub record IsIeee (D : Type 0) ⦃d : Double D⦄ : Type 0 where
  pub lt-ordered : (a b : D) → d.lt a b ≡ true → (d.eq a a ≡ true) × (d.eq b b ≡ true)
  pub le-ordered : (a b : D) → d.le a b ≡ true → (d.eq a a ≡ true) × (d.eq b b ≡ true)
  pub le_refl : (a : D) → d.eq a a ≡ true → d.le a a ≡ true
  pub le_trans : (a b c : D) → d.le a b ≡ true → d.le b c ≡ true → d.le a c ≡ true
  pub le_total :
      (a b : D) → d.eq a a ≡ true → d.eq b b ≡ true → (d.le a b ≡ true) ⊎ (d.le b a ≡ true)
  pub lt-eq-not-le :
      (a b : D) → d.eq a a ≡ true → d.eq b b ≡ true → d.lt a b ≡ (if d.le b a then false else true)
  pub infinity_ordered : d.eq d.infinity d.infinity ≡ true
  pub minus_infinity_ordered : d.eq d.minus_infinity d.minus_infinity ≡ true
