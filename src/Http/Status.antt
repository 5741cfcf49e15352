-- ===== src/Http/Status.antt =====
-- `parse_status_line` of src/vehicle_detection/src/http_client.cpp, with `std::stoi`.
use vehicle_detection_system.Common.{
  ℕ, ◌+◌, ◌-◌, ◌*◌, ◌^◌, Bool, true, false, ◌||◌, ◌&&◌, Option, none, some, [], ◌∷◌, Bytes, codes,
  take, drop, after_prefix, ltb, leb, ◌==◌, if◌then◌else◌,
}
use vehicle_detection_system.Common.Search.{find, find_crlf}
use vehicle_detection_system.Common.Int.{ℤ, pos, negsuc}

abbrev pub space : ℕ
space = 32

abbrev pub is_digit : ℕ → Bool
is_digit c = leb 48 c && leb c 57

abbrev pub is_space : ℕ → Bool
is_space c = c == space || (leb 9 c && leb c 13)

-- The digits in front of a text, read behind those that gave `acc`.
unfoldable pub read_number : ℕ → Bytes → ℕ
read_number acc [] = acc
read_number acc (c ∷ s) =
    let rest = read_number (acc * 10 + (c - 48)) s in if is_digit c then rest else acc

-- At least one digit.
unfoldable pub read_digits : Bytes → Option ℕ
unfolding read_number
read_digits [] = none
read_digits (c ∷ s) = if is_digit c then some (read_number 0 (c ∷ s)) else none

unfoldable pub skip_spaces : Bytes → Bytes
skip_spaces [] = []
skip_spaces (c ∷ s) = if is_space c then skip_spaces s else c ∷ s

abbrev pub int_limit : ℕ
int_limit = 2 ^ 31

-- `none` is `out_of_range`, or no number to begin with.
unfoldable pub in_int : Bool → Option ℕ → Option ℤ
in_int negative none = none
in_int true (some n) =
    if leb n int_limit then some (if n == 0 then pos 0 else negsuc (n - 1)) else none
in_int false (some n) = if ltb n int_limit then some (pos n) else none

-- Behind the spaces: a sign or none, then digits.
unfoldable pub signed : Bytes → Option ℤ
unfolding in_int read_digits
signed [] = none
signed (c ∷ s) =
    if c == b'-'
    then in_int true (read_digits s)
    else if c == b'+'
    then in_int false (read_digits s)
    else in_int false (read_digits (c ∷ s))

-- `none` is an exception.
unfoldable pub stoi : Bytes → Option ℤ
unfolding skip_spaces signed
stoi s = signed (skip_spaces s)

abbrev pub minus_one : ℤ
minus_one = negsuc 0

abbrev pub or_minus_one : Option ℤ → ℤ
or_minus_one none = minus_one
or_minus_one (some z) = z

-- The text between the first two spaces, or behind the first if there is no other.
unfoldable pub status_code : Bytes → Option Bytes
status_code line = elim (find space line) [
  | none ↦ none
  | some first_space ↦
      let behind = drop (first_space + 1) line in
      elim (find space behind) [ none ↦ some behind | some n ↦ some (take n behind) ]
]

unfoldable pub parse_line : Bytes → ℤ
unfolding status_code stoi
parse_line line = elim (after_prefix (codes "HTTP/") line) [
  | none ↦ minus_one
  | some behind ↦ elim (status_code line) [
    | none ↦ minus_one
    | some code ↦ or_minus_one (stoi code)
  ]
]

unfoldable pub parse_status_line : Bytes → ℤ
unfolding parse_line
parse_status_line buffer = elim (find_crlf buffer) [
  | none ↦ minus_one
  | some eol ↦ parse_line (take eol buffer)
]
