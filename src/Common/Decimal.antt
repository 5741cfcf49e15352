-- ===== src/Common/Decimal.antt =====
-- Decimal numerals: their digits, and the number that they stand for.
use Prim.Native.Nat.{ℕ, zero, suc, ◌+◌, ◌-◌, ◌*◌, ◌/◌, ◌%◌, ◌≤◌, ◌<◌}
use mathlib.Core.Path.{◌≡◌, refl, subst}
use mathlib.Core.Logic.{◌≢◌, inl, inr}
use mathlib.Core.List.{[], ◌∷◌, ◌++◌}
use native.Mathlib.Omega.{arith}
use vehicle_detection_system.Common.Tests.{ltb, Bool-cases, if◌then◌else◌}
use vehicle_detection_system.Common.Lists.{All, All-append, All-weaken, length, length-append}
use vehicle_detection_system.Common.Text.{Bytes, digits_fuel, decimal}
use vehicle_detection_system.Common.Search.{Lacks}

abbrev pub IsDigit : ℕ → Type 0
IsDigit c = (48 ≤ c) × (c ≤ 57)

-- The number that digits stand for, behind `acc`.
unfoldable pub eval : ℕ → Bytes → ℕ
eval acc [] = acc
eval acc (c ∷ s) = eval (acc * 10 + (c - 48)) s

eval-append : (acc : ℕ) (s t : Bytes) → eval acc (s ++ t) ≡ eval (eval acc s) t
unfolding eval
eval-append acc [] t = refl
eval-append acc (c ∷ s) t = eval-append (acc * 10 + (c - 48)) s t

digits-IsDigit : (f n : ℕ) → All IsDigit (digits_fuel f n)
digits-IsDigit zero n = tt
digits-IsDigit (suc f) n = elim (Bool-cases (ltb n 10)) [
  | inl e ↦ rw e (omega arith)
  | inr e ↦ rw e (All-append _ _ _ (digits-IsDigit f (n / 10)) (omega arith))
]

eval-digits : (f n : ℕ) → n < f → eval 0 (digits_fuel f n) ≡ n
unfolding eval
eval-digits zero n h = elim h [ ]
eval-digits (suc f) n h = elim (Bool-cases (ltb n 10)) [
  | inl e ↦ rw e (ground arith)
  | inr e ↦
      rw (e, eval-append 0 (digits_fuel f (n / 10)) _, eval-digits f (n / 10) (ground arith))
        (ground arith)
]

pub decimal-IsDigit : (n : ℕ) → All IsDigit (decimal n)
unfolding decimal
decimal-IsDigit n = digits-IsDigit (suc n) n

pub eval-decimal : (n : ℕ) → eval 0 (decimal n) ≡ n
unfolding decimal
eval-decimal n = eval-digits (suc n) n (omega arith)

decimal-pos : (n : ℕ) → 0 < length (decimal n)
unfolding decimal
decimal-pos n =
    omega
      (arith, length-append (if ltb n 10 then [] else digits_fuel n (n / 10)) ((48 + n % 10) ∷ []))

-- A numeral begins with a digit.
pub decimal-cons : (n : ℕ) → (c : ℕ) × (s : Bytes) × (decimal n ≡ c ∷ s) × IsDigit c
decimal-cons n = go (decimal n) (decimal-pos n) (decimal-IsDigit n)
  where
    go :
        (d : Bytes) → 0 < length d → All IsDigit d → (c : ℕ) × (s : Bytes) × (d ≡ c ∷ s) × IsDigit c
    go [] h all = elim h [ ]
    go (c ∷ s) h (dig, all) = (c, s, refl, dig)

-- A byte below the digits is not in a numeral.
pub Lacks-decimal : (c n : ℕ) → c < 48 → Lacks c (decimal n)
Lacks-decimal c n h =
    All-weaken IsDigit (λ x. x ≢ c) (λ x d. omega arith) (decimal n) (decimal-IsDigit n)

-- The numeral of a positive number begins with another digit than 0.
digits-leading :
    (f n : ℕ) → n < f → 0 < n → (c : ℕ) × (s : Bytes) × (digits_fuel f n ≡ c ∷ s) × (c ≢ 48)
digits-leading zero n h k = elim h [ ]
digits-leading (suc f) n h k = elim (Bool-cases (ltb n 10)) [
  | inl e ↦ (48 + n % 10, [], rw e refl, ground arith)
  | inr e ↦
      let (c, s, same, leads) = digits-leading f (n / 10) (ground arith) (ground arith) in
      (c, s ++ (48 + n % 10) ∷ [], rw (e, same) refl, leads)
]

pub decimal-leading :
    (n : ℕ)
    → 0 < n
    → (c : ℕ) × (s : Bytes) × (decimal n ≡ c ∷ s) × (IsDigit c × All IsDigit s) × (c ≢ 48)
unfolding decimal
decimal-leading n h =
    let (c, s, same, leads) = digits-leading (suc n) n (omega arith) h in
    (c, s, same, subst (All IsDigit) same (decimal-IsDigit n), leads)
