-- ===== src/Json/EscapeLaws.antt =====
-- `escape_json_string` against a reader of JSON strings, and the bytes that it lets through.
use vehicle_detection_system.Common.{
  ℕ, zero, suc, ◌+◌, ◌-◌, ◌*◌, ◌≤◌, ◌<◌, ◌≡◌, refl, ◌||◌, ◌&&◌, Option, none, some, [], ◌∷◌, ◌++◌,
  Bytes, ltb, leb, ◌==◌, if◌then◌else◌, arith, ◌∙◌, All, All-append, append_assoc, ap,
}
use vehicle_detection_system.Json.Escape.{
  quote, backslash, hex_digit, escape_char, escape_json_string,
}

abbrev pub hex_value : ℕ → Option ℕ
hex_value c =
    if leb 48 c && leb c 57
    then some (c - 48)
    else if leb 97 c && leb c 102
    then some (c - 87)
    else if leb 65 c && leb c 70
    then some (c - 55)
    else none

-- What a letter behind a backslash stands for, `u` aside.
abbrev pub simple_escape : ℕ → Option ℕ
simple_escape c =
    if c == quote || c == backslash || c == b'/'
    then some c
    else if c == b'b'
    then some 8
    else if c == b'f'
    then some 12
    else if c == b'n'
    then some 10
    else if c == b'r'
    then some 13
    else if c == b't'
    then some 9
    else none

abbrev pub push : ℕ → Option (Bytes × Bytes) → Option (Bytes × Bytes)
push c none = none
push c (some (text, rest)) = some (c ∷ text, rest)

-- Where the reader stands: in plain text, behind a backslash, or with `left + 1` hexadecimal digits to
-- come behind those that gave `value`.
pub data Mode : Type 0 where
  plain escaped : Mode
  hex : ℕ → ℕ → Mode

pub data Step : Type 0 where
  close refuse : Step
  emit : ℕ → Step
  move : Mode → Step

abbrev pub emit_opt : Option ℕ → Step
emit_opt none = refuse
emit_opt (some c) = emit c

abbrev pub hex_step : ℕ → ℕ → Option ℕ → Step
hex_step left value none = refuse
hex_step zero value (some v) = if ltb (value * 16 + v) 128 then emit (value * 16 + v) else refuse
hex_step (suc left) value (some v) = move (hex left (value * 16 + v))

-- RFC 8259, section 7, for one byte. Escapes beyond ASCII are refused.
unfoldable pub step : Mode → ℕ → Step
step plain c =
    if c == quote
    then close
    else if c == backslash
    then move escaped
    else if ltb c 32
    then refuse
    else emit c
step escaped c = if c == b'u' then move (hex 3 0) else emit_opt (simple_escape c)
step (hex left value) c = hex_step left value (hex_value c)

-- A string behind its opening quote: its text, and what follows the closing quote.
unfoldable pub read_string : Mode → Bytes → Option (Bytes × Bytes)
unfolding step
read_string m [] = none
read_string m (c ∷ s) = elim (step m c) [
  | close ↦ some ([], s)
  | refuse ↦ none
  | emit b ↦ push b (read_string plain s)
  | move m' ↦ read_string m' s
]

hex_value-hex_digit : (n : ℕ) → n < 16 → hex_value (hex_digit n) ≡ some n
hex_value-hex_digit n h = ground arith

-- Each byte comes back from its escape.
read_string-escape_char :
    (c : ℕ) (rest : Bytes)
    → read_string plain (escape_char c ++ rest) ≡ push c (read_string plain rest)
unfolding read_string escape_char
read_string-escape_char c rest = ground arith

-- For every text, control characters, quotes and backslashes included: escaped and with its closing
-- quote it is read back as the text by a reader of JSON strings, which stops behind that quote.
pub read_string-escape_json_string :
    (text rest : Bytes)
    → read_string plain (escape_json_string text ++ quote ∷ rest) ≡ some (text, rest)
unfolding escape_json_string read_string
read_string-escape_json_string [] rest = refl
read_string-escape_json_string (c ∷ text) rest =
    rw (append_assoc (escape_char c) (escape_json_string text) (quote ∷ rest)) (
      read_string-escape_char c (escape_json_string text ++ quote ∷ rest)
      ∙ ap (push c) (read_string-escape_json_string text rest))

-- A byte that is no control character.
abbrev pub IsPlain : ℕ → Type 0
IsPlain b = 32 ≤ b

escape_char-IsPlain : (c : ℕ) → All IsPlain (escape_char c)
unfolding escape_char
escape_char-IsPlain c = ground arith

pub escape_json_string-IsPlain : (text : Bytes) → All IsPlain (escape_json_string text)
unfolding escape_json_string
escape_json_string-IsPlain [] = tt
escape_json_string-IsPlain (c ∷ text) =
    All-append _ (escape_char c) (escape_json_string text) (escape_char-IsPlain c)
      (escape_json_string-IsPlain text)
