-- ===== src/Json/Numbers.antt =====
-- Numbers by RFC 8259, and that what "%.6f" prints is one.
use vehicle_detection_system.Common.{
  ◌≡◌, refl, ℕ, zero, suc, ◌==◌, leb, Bool, true, false, ◌&&◌, ◌||◌, [], ◌∷◌, ◌++◌, Bytes, codes,
  decimal, length, All, All-append, All-weaken, if◌then◌else◌, arith,
}
use vehicle_detection_system.Common.Decimal.{IsDigit, decimal-IsDigit, decimal-leading}

abbrev pub is_digit : ℕ → Bool
is_digit c = leb b'0' c && leb c b'9'

abbrev is_exponent_mark : ℕ → Bool
is_exponent_mark c = c == b'e' || c == b'E'

-- The rest of a number: behind a digit of the exponent, behind its sign, behind its mark.
exponent_rest : Bytes → Bool
exponent_rest [] = true
exponent_rest (c ∷ s) = is_digit c && exponent_rest s

exponent_digits : Bytes → Bool
exponent_digits [] = false
exponent_digits (c ∷ s) = is_digit c && exponent_rest s

exponent : Bytes → Bool
exponent [] = false
exponent (c ∷ s) =
    if c == b'+' || c == b'-' then exponent_digits s else is_digit c && exponent_rest s

-- Behind a digit of the fraction, and behind the point.
fraction_rest : Bytes → Bool
fraction_rest [] = true
fraction_rest (c ∷ s) =
    let rest = fraction_rest s in if is_digit c then rest else is_exponent_mark c && exponent s

fraction : Bytes → Bool
fraction [] = false
fraction (c ∷ s) = is_digit c && fraction_rest s

-- Behind the integer, behind a digit of it, and at its first digit: it has no 0 in front.
after_int : Bytes → Bool
after_int [] = true
after_int (c ∷ s) = if c == b'.' then fraction s else is_exponent_mark c && exponent s

int_rest : Bytes → Bool
int_rest [] = true
int_rest (c ∷ s) = let rest = int_rest s in if is_digit c then rest else after_int (c ∷ s)

int : Bytes → Bool
int [] = false
int (c ∷ s) = if c == b'0' then after_int s else is_digit c && int_rest s

-- `number = [ minus ] int [ frac ] [ exp ]`.
pub is_number : Bytes → Bool
is_number [] = false
is_number (c ∷ s) = if c == b'-' then int s else int (c ∷ s)

-- A byte that stands in a number.
abbrev pub is_number_byte : ℕ → Bool
is_number_byte c = is_digit c || c == b'-' || c == b'+' || c == b'.' || c == b'e' || c == b'E'

-- What C says "%.6f" prints: a minus for a negative value, the whole part in decimal, a point and six
-- digits.
pub record IsFixed (s : Bytes) : Type 0 where
  pub negative : Bool
  pub whole : ℕ
  pub digits : Bytes
  pub text : s ≡ (if negative then b'-' ∷ [] else []) ++ decimal whole ++ b'.' ∷ digits
  pub digits_lem : All IsDigit digits
  pub six : length digits ≡ 6

-- The token of a number.
abbrev pub IsToken : Bytes → Type 0
IsToken token = (is_number token ≡ true) × All (λ c. is_number_byte c ≡ true) token

fraction_rest-digits : (s : Bytes) → All IsDigit s → fraction_rest s ≡ true
unfolding fraction_rest
fraction_rest-digits [] h = refl
fraction_rest-digits (c ∷ s) (h, hs) = ground (arith, fraction_rest-digits s hs)

fraction-digits : (s : Bytes) → All IsDigit s → length s ≡ 6 → fraction s ≡ true
unfolding fraction
fraction-digits [] h e = absurd (omega arith)
fraction-digits (c ∷ s) (h, hs) e = ground (arith, fraction_rest-digits s hs)

after_int-point : (s : Bytes) → All IsDigit s → length s ≡ 6 → after_int (b'.' ∷ s) ≡ true
unfolding after_int
after_int-point s h e = fraction-digits s h e

int_rest-digits :
    (t s : Bytes) → All IsDigit t → after_int (b'.' ∷ s) ≡ true → int_rest (t ++ b'.' ∷ s) ≡ true
unfolding int_rest
int_rest-digits [] s h e = e
int_rest-digits (c ∷ t) s (h, hs) e = ground (arith, int_rest-digits t s hs e)

int-decimal :
    (n : ℕ) (s : Bytes) → All IsDigit s → length s ≡ 6 → int (decimal n ++ b'.' ∷ s) ≡ true
unfolding int decimal
int-decimal zero s h e = after_int-point s h e
int-decimal (suc n) s h e =
    let (c, t, same, (dig, digs), leads) = decimal-leading (suc n) (omega arith) in
    rw same (ground (arith, int_rest-digits t s digs (after_int-point s h e)))

is_number-int : (s : Bytes) → int s ≡ true → is_number s ≡ true
unfolding is_number int
is_number-int [] h = h
is_number-int (c ∷ s) h = ground arith

bytes_of_digits : (s : Bytes) → All IsDigit s → All (λ c. is_number_byte c ≡ true) s
bytes_of_digits s h = All-weaken IsDigit (λ c. is_number_byte c ≡ true) (λ c d. ground arith) s h

unsigned-IsToken :
    (n : ℕ) (s : Bytes) → All IsDigit s → length s ≡ 6 → IsToken (decimal n ++ b'.' ∷ s)
unsigned-IsToken n s h e = (
  is_number-int _ (int-decimal n s h e),
  All-append _ (decimal n) _ (bytes_of_digits _ (decimal-IsDigit n)) (refl, bytes_of_digits s h),
)

signed-IsToken :
    (negative : Bool) (n : ℕ) (s : Bytes)
    → All IsDigit s
    → length s ≡ 6
    → IsToken ((if negative then b'-' ∷ [] else []) ++ decimal n ++ b'.' ∷ s)
unfolding is_number
signed-IsToken false n s h e = unsigned-IsToken n s h e
signed-IsToken true n s h e = (int-decimal n s h e, (refl, (unsigned-IsToken n s h e).1))

pub IsFixed-IsToken : (s : Bytes) → IsFixed s → IsToken s
IsFixed-IsToken s f = rw (f.text) (signed-IsToken f.negative f.whole f.digits f.digits_lem f.six)

pub zero-IsToken : IsToken (codes "0.0")
unfolding is_number int after_int fraction fraction_rest
zero-IsToken = (refl, (refl, (refl, (refl, tt))))

pub is_number_nil : is_number [] ≡ false
unfolding is_number
is_number_nil = refl
