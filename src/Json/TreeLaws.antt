-- ===== src/Json/TreeLaws.antt =====
-- The reader of JSON values gives back what was put.
use vehicle_detection_system.Common.{
  ◌≡◌, refl, ◌∙◌, ℕ, zero, suc, ◌+◌, ◌≤◌, ◌==◌, Bool, true, false, some, [], ◌∷◌, ◌++◌, Bytes, All,
  arith,
}
use vehicle_detection_system.Json.Escape.{quote}
use vehicle_detection_system.Json.EscapeLaws.{read_string-escape_json_string}
use vehicle_detection_system.Json.Numbers.{is_number_byte, is_number_nil, IsToken}
use vehicle_detection_system.Json.Tree.{
  Tree, number, text, list, struct, Items, nil, cons, Fields, end, field, put, put_text, put_items,
  put_fields, span, ◌>>?◌, read_value, read_items, read_fields,
}

abbrev mutual
  pub HasTokens : Tree → Type 0
  HasTokens (number token) = IsToken token
  HasTokens (text s) = Unit
  HasTokens (list items) = ItemsHaveTokens items
  HasTokens (struct fields) = FieldsHaveTokens fields

  pub ItemsHaveTokens : Items → Type 0
  ItemsHaveTokens nil = Unit
  ItemsHaveTokens (cons v items) = HasTokens v × ItemsHaveTokens items

  pub FieldsHaveTokens : Fields → Type 0
  FieldsHaveTokens end = Unit
  FieldsHaveTokens (field key v fields) = HasTokens v × FieldsHaveTokens fields

-- The number of values, with the ends of arrays and objects.
abbrev mutual
  pub size : Tree → ℕ
  size (number token) = 1
  size (text s) = 1
  size (list items) = suc (size_items items)
  size (struct fields) = suc (size_fields fields)

  pub size_items : Items → ℕ
  size_items nil = 1
  size_items (cons v items) = suc (size v + size_items items)

  pub size_fields : Fields → ℕ
  size_fields end = 1
  size_fields (field key v fields) = suc (size v + size_fields fields)

-- What follows a value does not go on with a number.
abbrev pub IsEnd : Bytes → Type 0
IsEnd [] = Unit
IsEnd (c ∷ s) = is_number_byte c ≡ false

span_lem :
    (token rest : Bytes)
    → All (λ c. is_number_byte c ≡ true) token
    → IsEnd rest
    → span (token ++ rest) ≡ (token, rest)
unfolding span
span_lem [] [] h e = refl
span_lem [] (c ∷ rest) h e = rw e refl
span_lem (c ∷ token) rest (h, hs) e = rw (h, span_lem token rest hs e) refl

number_head :
    (c : ℕ)
    → is_number_byte c ≡ true
    → ((c == quote) ≡ false) × ((c == b'[') ≡ false) × ((c == b'{') ≡ false) × ((c == b']') ≡ false)
number_head c h = ground arith

put-head :
    (v : Tree) (rest : Bytes)
    → HasTokens v
    → (c : ℕ) × (s : Bytes) × (put v rest ≡ c ∷ s) × ((c == b']') ≡ false)
unfolding put
put-head (number []) rest (h, hs) = absurd (ground (arith, is_number_nil))
put-head (number (c ∷ token)) rest (h, (hc, hs)) =
    let (_, _, _, e) = number_head c hc in (c, token ++ rest, refl, e)
put-head (text s) rest h = (quote, _, refl, refl)
put-head (list items) rest h = (b'[', _, refl, refl)
put-head (struct fields) rest h = (b'{', _, refl, refl)

-- A first element, which begins no end of an array.
first_item :
    (f : ℕ) (s : Bytes) (c : ℕ) (s' : Bytes)
    → s ≡ c ∷ s'
    → (c == b']') ≡ false
    → read_items (suc f) true s ≡ (
        read_value f s >>? λ (v, rest).
        read_items f false rest >>? λ (items, last). some (cons v items, last))
unfolding read_value
first_item f s c s' e h = rw (e, h) refl

items-IsEnd : (items : Items) (rest : Bytes) → IsEnd (put_items false items (b']' ∷ rest))
unfolding put
items-IsEnd nil rest = refl
items-IsEnd (cons v items) rest = refl

fields-IsEnd : (fields : Fields) (rest : Bytes) → IsEnd (put_fields false fields (b'}' ∷ rest))
unfolding put
fields-IsEnd end rest = refl
fields-IsEnd (field key v fields) rest = refl

number_lem :
    (f : ℕ) (token rest : Bytes)
    → IsToken token
    → IsEnd rest
    → read_value (suc f) (token ++ rest) ≡ some (number token, rest)
unfolding read_value
number_lem f [] rest (h, hs) e = absurd (ground (arith, is_number_nil))
number_lem f (c ∷ token) rest (h, hs) e =
    let (a, b, k, _) = number_head c hs.0 in
    rw (read_value, span_lem (c ∷ token) rest hs e, a, b, k, h) refl

text_lem : (f : ℕ) (s rest : Bytes) → read_value (suc f) (put_text s rest) ≡ some (text s, rest)
unfolding read_value
text_lem f s rest = rw (read_string-escape_json_string s rest) refl

mutual
  unfolding put read_value

  pub read_value-put :
      (f : ℕ) (v : Tree) (rest : Bytes)
      → size v ≤ f
      → HasTokens v
      → IsEnd rest
      → read_value f (put v rest) ≡ some (v, rest)
  read_value-put zero (number token) rest h k e = absurd (omega arith)
  read_value-put zero (text s) rest h k e = absurd (omega arith)
  read_value-put zero (list items) rest h k e = absurd (omega arith)
  read_value-put zero (struct fields) rest h k e = absurd (omega arith)
  read_value-put (suc f) (number token) rest h k e = number_lem f token rest k e
  read_value-put (suc f) (text s) rest h k e = text_lem f s rest
  read_value-put (suc f) (list items) rest h k e =
      rw (read_items-put f true items rest (omega arith) k) refl
  read_value-put (suc f) (struct fields) rest h k e =
      rw (read_fields-put f true fields rest (omega arith) k) refl

  read_items-put :
      (f : ℕ) (first : Bool) (items : Items) (rest : Bytes)
      → size_items items ≤ f
      → ItemsHaveTokens items
      → read_items f first (put_items first items (b']' ∷ rest)) ≡ some (items, rest)
  read_items-put zero first nil rest h k = absurd (omega arith)
  read_items-put zero first (cons v items) rest h k = absurd (omega arith)
  read_items-put (suc f) first nil rest h k = refl
  read_items-put (suc f) true (cons v items) rest h (k, ks) =
      let last = put_items false items (b']' ∷ rest) in
      let (c, s, e, other) = put-head v last k in
      first_item f _ c s e other
      ∙ rw
          (
            read_value-put f v last (omega arith) k (items-IsEnd items rest),
            read_items-put f false items rest (omega arith) ks,
          )
          refl
  read_items-put (suc f) false (cons v items) rest h (k, ks) =
      let last = put_items false items (b']' ∷ rest) in
      rw
        (
          read_value-put f v last (omega arith) k (items-IsEnd items rest),
          read_items-put f false items rest (omega arith) ks,
        )
        refl

  read_fields-put :
      (f : ℕ) (first : Bool) (fields : Fields) (rest : Bytes)
      → size_fields fields ≤ f
      → FieldsHaveTokens fields
      → read_fields f first (put_fields first fields (b'}' ∷ rest)) ≡ some (fields, rest)
  read_fields-put zero first end rest h k = absurd (omega arith)
  read_fields-put zero first (field key v fields) rest h k = absurd (omega arith)
  read_fields-put (suc f) first end rest h k = refl
  read_fields-put (suc f) true (field key v fields) rest h (k, ks) =
      let last = put_fields false fields (b'}' ∷ rest) in
      rw
        (
          read_string-escape_json_string key (b':' ∷ put v last),
          read_value-put f v last (omega arith) k (fields-IsEnd fields rest),
          read_fields-put f false fields rest (omega arith) ks,
        )
        refl
  read_fields-put (suc f) false (field key v fields) rest h (k, ks) =
      let last = put_fields false fields (b'}' ∷ rest) in
      rw
        (
          read_string-escape_json_string key (b':' ∷ put v last),
          read_value-put f v last (omega arith) k (fields-IsEnd fields rest),
          read_fields-put f false fields rest (omega arith) ks,
        )
        refl
