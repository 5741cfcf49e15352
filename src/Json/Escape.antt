-- ===== src/Json/Escape.antt =====
-- `escape_json_string` of src/vehicle_detection/src/detection_json.cpp.
use vehicle_detection_system.Common.{
  ℕ, ◌+◌, ◌/◌, ◌%◌, [], ◌∷◌, ◌++◌, Bytes, ltb, ◌==◌, if◌then◌else◌,
}

abbrev pub quote : ℕ
quote = 34

abbrev pub backslash : ℕ
backslash = 92

-- One digit of "%x".
abbrev pub hex_digit : ℕ → ℕ
hex_digit n = if ltb n 10 then 48 + n else 87 + n

-- The `switch`. A `char` below 0x20 is not negative, so "%04x" prints two zeros and two digits.
unfoldable pub escape_char : ℕ → Bytes
escape_char c =
    if c == quote
    then backslash ∷ quote ∷ []
    else if c == backslash
    then backslash ∷ backslash ∷ []
    else if c == 8
    then backslash ∷ b'b' ∷ []
    else if c == 12
    then backslash ∷ b'f' ∷ []
    else if c == 10
    then backslash ∷ b'n' ∷ []
    else if c == 13
    then backslash ∷ b'r' ∷ []
    else if c == 9
    then backslash ∷ b't' ∷ []
    else if ltb c 32
    then backslash ∷ b'u' ∷ b'0' ∷ b'0' ∷ hex_digit (c / 16) ∷ hex_digit (c % 16) ∷ []
    else c ∷ []

unfoldable pub escape_json_string : Bytes → Bytes
unfolding escape_char
escape_json_string [] = []
escape_json_string (c ∷ input) = escape_char c ++ escape_json_string input
