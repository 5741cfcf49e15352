-- ===== src/Common/Int.antt =====
-- Signed integers over the native numbers: `std::int64_t` values are such integers within bounds.
use Prim.Native.Nat.{ℕ, suc, ◌+◌, ◌-◌, ◌^◌, ◌≤◌, ◌<◌, ◌%◌}
use mathlib.Core.Path.{◌≡◌}
use mathlib.Core.Bool.{Bool}
use mathlib.Core.List.{◌∷◌}
use native.Mathlib.Omega.{arith}
use vehicle_detection_system.Common.Tests.{ltb, if◌then◌else◌}
use vehicle_detection_system.Common.Text.{Bytes, decimal}

-- `negsuc n` is -(n + 1).
pub data ℤ : Type 0 where
  pos : ℕ → ℤ
  negsuc : ℕ → ℤ

abbrev pub pos_part : ℤ → ℕ
pos_part (pos n) = n
pos_part (negsuc n) = 0

abbrev pub neg_part : ℤ → ℕ
neg_part (pos n) = 0
neg_part (negsuc n) = suc n

abbrev pub ltb_ℤ : ℤ → ℤ → Bool
ltb_ℤ a b = ltb (pos_part a + neg_part b) (pos_part b + neg_part a)

infix 50 ◌≤ℤ◌
abbrev pub ◌≤ℤ◌ : ℤ → ℤ → Type 0
a ≤ℤ b = pos_part a + neg_part b ≤ pos_part b + neg_part a

-- The range of `std::int64_t`.
abbrev pub IsInt64 : ℤ → Type 0
IsInt64 (pos n) = n < 2 ^ 63
IsInt64 (negsuc n) = n < 2 ^ 63

-- `<<` of a signed number.
unfoldable pub show_ℤ : ℤ → Bytes
unfolding decimal
show_ℤ (pos n) = decimal n
show_ℤ (negsuc n) = b'-' ∷ decimal (suc n)

-- `static_cast<std::size_t>` of an `std::int64_t`, and back.
unfoldable pub to_size : ℤ → ℕ
to_size (pos n) = n % 2 ^ 64
to_size (negsuc n) = 2 ^ 64 - 1 - n % 2 ^ 64

unfoldable pub of_size : ℕ → ℤ
of_size n = if ltb n (2 ^ 63) then pos n else negsuc (2 ^ 64 - 1 - n)

-- The two casts lose nothing.
pub of_size-to_size : (z : ℤ) → IsInt64 z → of_size (to_size z) ≡ z
unfolding of_size to_size
of_size-to_size (pos n) h = ground arith
of_size-to_size (negsuc n) h = ground arith
