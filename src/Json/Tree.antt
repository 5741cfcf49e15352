-- ===== src/Json/Tree.antt =====
-- JSON values made of numbers, texts, arrays and objects: their text without blanks, and a reader of it by
-- RFC 8259. A number is its token, of the form that the grammar there has.
use vehicle_detection_system.Common.{
  ℕ, zero, suc, ◌==◌, Bool, true, false, Option, none, some, [], ◌∷◌, ◌++◌, Bytes, if◌then◌else◌,
}
use vehicle_detection_system.Json.Escape.{quote, escape_json_string}
use vehicle_detection_system.Json.Numbers.{is_number, is_number_byte}
use vehicle_detection_system.Json.EscapeLaws.{plain, read_string}

mutual
  pub data Tree : Type 0 where
    number : Bytes → Tree
    text : Bytes → Tree
    list : Items → Tree
    struct : Fields → Tree

  pub data Items : Type 0 where
    nil : Items
    cons : Tree → Items → Items

  pub data Fields : Type 0 where
    end : Fields
    field : Bytes → Tree → Fields → Fields

-- A text in its quotes, before what follows.
abbrev pub put_text : Bytes → Bytes → Bytes
put_text s rest = quote ∷ escape_json_string s ++ quote ∷ rest

-- The comma before each entry but the first.
abbrev pub put_comma : Bool → Bytes → Bytes
put_comma first rest = if first then rest else b',' ∷ rest

-- The text of a value, before what follows.
unfoldable mutual
  pub put : Tree → Bytes → Bytes
  put (number token) rest = token ++ rest
  put (text s) rest = put_text s rest
  put (list items) rest = b'[' ∷ put_items true items (b']' ∷ rest)
  put (struct fields) rest = b'{' ∷ put_fields true fields (b'}' ∷ rest)

  pub put_items : Bool → Items → Bytes → Bytes
  put_items first nil rest = rest
  put_items first (cons v items) rest = put_comma first (put v (put_items false items rest))

  pub put_fields : Bool → Fields → Bytes → Bytes
  put_fields first end rest = rest
  put_fields first (field key v fields) rest =
      put_comma first (put_text key (b':' ∷ put v (put_fields false fields rest)))

-- The longest run of bytes that stand in numbers, and what follows.
unfoldable pub span : Bytes → Bytes × Bytes
span [] = ([], [])
span (c ∷ s) =
    let (token, rest) = span s in if is_number_byte c then (c ∷ token, rest) else ([], c ∷ s)

infixl 5 ◌>>?◌
abbrev pub ◌>>?◌ : {A B : Type 0} → Option A → (A → Option B) → Option B
none >>? f = none
some a >>? f = f a

-- What follows a byte, if it is the one expected.
abbrev pub expect : ℕ → Bytes → Option Bytes
expect c [] = none
expect c (x ∷ s) = if x == c then some s else none

-- The reader. The fuel bounds the number of values.
unfoldable mutual
  pub read_value : ℕ → Bytes → Option (Tree × Bytes)
  read_value zero s = none
  read_value (suc f) [] = none
  read_value (suc f) (c ∷ s) =
      let (token, after) = span (c ∷ s) in
      if c == quote
      then (read_string plain s >>? λ (t, rest). some (text t, rest))
      else if c == b'['
      then (read_items f true s >>? λ (items, rest). some (list items, rest))
      else if c == b'{'
      then (read_fields f true s >>? λ (fields, rest). some (struct fields, rest))
      else if is_number token
      then some (number token, after)
      else none

  pub read_items : ℕ → Bool → Bytes → Option (Items × Bytes)
  read_items zero first s = none
  read_items (suc f) first [] = none
  read_items (suc f) first (c ∷ s) =
      if c == b']'
      then some (nil, s)
      else ((if first then some (c ∷ s) else expect b',' (c ∷ s)) >>? λ start.
          read_value f start >>? λ (v, rest).
          read_items f false rest >>? λ (items, last). some (cons v items, last))

  pub read_fields : ℕ → Bool → Bytes → Option (Fields × Bytes)
  read_fields zero first s = none
  read_fields (suc f) first [] = none
  read_fields (suc f) first (c ∷ s) =
      if c == b'}'
      then some (end, s)
      else ((if first then some (c ∷ s) else expect b',' (c ∷ s)) >>? λ start.
          expect quote start >>? λ behind. read_string plain behind >>? λ (key, colon).
          expect b':' colon >>? λ value. read_value f value >>? λ (v, rest).
          read_fields f false rest >>? λ (fields, last). some (field key v fields, last))
