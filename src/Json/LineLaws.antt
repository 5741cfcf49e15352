-- ===== src/Json/LineLaws.antt =====
-- A serialized payload is one line: no control character is in it.
use vehicle_detection_system.Common.{
  ℕ, ◌/◌, Bool, true, false, List, [], ◌∷◌, ◌++◌, Bytes, ltb, stream, arith, All, All-append,
  All-take, All-weaken, decimal, Bool-cases, inl, inr,
}
use vehicle_detection_system.Common.Decimal.{decimal-IsDigit, IsDigit}
use vehicle_detection_system.Common.Int.{ℤ}
use vehicle_detection_system.Common.Double.{Double}
use vehicle_detection_system.Json.Payload.{DetectionJsonItem, DetectionJsonPayload}
use vehicle_detection_system.Json.EscapeLaws.{IsPlain, escape_json_string-IsPlain}
use vehicle_detection_system.Json.Timestamp.{format_iso8601_utc, strftime_iso, padded_three, gmtime}
use vehicle_detection_system.Json.Serialize.{
  buffer_text, format_double, serialize_item, serialize_items, serialize_detections,
}

padded_three-IsPlain : (n : ℕ) → All IsPlain (padded_three n)
unfolding padded_three
padded_three-IsPlain n = elim (Bool-cases (ltb n 1000)) [
  | inl e ↦ rw e (omega arith)
  | inr e ↦ rw e (All-weaken IsDigit IsPlain (λ c d. omega arith) (decimal n) (decimal-IsDigit n))
]

timestamp-IsPlain : (sec : ℤ) (nanosec : ℕ) → All IsPlain (format_iso8601_utc sec nanosec)
unfolding format_iso8601_utc strftime_iso
timestamp-IsPlain sec nanosec =
    let millis = padded_three (nanosec / 1000000) in
    All-append IsPlain (strftime_iso (gmtime sec)) ((b'.' ∷ millis) ++ (b'Z' ∷ [])) (omega arith) (
      omega arith,
      All-append IsPlain millis (b'Z' ∷ []) (padded_three-IsPlain (nanosec / 1000000))
          (omega arith),
    )

stream-IsPlain : (texts : List Bytes) → All (All IsPlain) texts → All IsPlain (stream texts)
unfolding stream
stream-IsPlain [] h = tt
stream-IsPlain (text ∷ texts) (h, hs) = All-append _ text (stream texts) h (stream-IsPlain texts hs)

-- "%.6f" prints no control character.
abbrev pub PrintsPlain : (D : Type 0) ⦃d : Double D⦄ → Type 0
PrintsPlain D ⦃d⦄ = (x : D) → All IsPlain (d.fixed6 x)

module _ {D : Type 0} ⦃d : Double D⦄ (plain : PrintsPlain D) where
  format_double-IsPlain : (x : D) → All IsPlain (format_double x)
  unfolding format_double
  format_double-IsPlain x = elim (Bool-cases (d.is_finite x)) [
    | inl e ↦ rw e (All-take IsPlain buffer_text (d.fixed6 x) (plain x))
    | inr e ↦ rw e (omega arith)
  ]

  serialize_item-IsPlain : (i : DetectionJsonItem D) → All IsPlain (serialize_item i)
  unfolding serialize_item
  serialize_item-IsPlain i =
      stream-IsPlain _ (grind (arith, format_double-IsPlain, escape_json_string-IsPlain))

  serialize_items-IsPlain :
      (first : Bool) (items : List (DetectionJsonItem D))
      → All IsPlain (serialize_items first items)
  unfolding serialize_items
  serialize_items-IsPlain first [] = tt
  serialize_items-IsPlain true (i ∷ items) =
      All-append _ (serialize_item i) _ (serialize_item-IsPlain i)
        (serialize_items-IsPlain false items)
  serialize_items-IsPlain false (i ∷ items) = (
    omega arith,
    All-append _ (serialize_item i) _ (serialize_item-IsPlain i)
        (serialize_items-IsPlain false items),
  )

  -- If "%.6f" prints no control character, a serialized payload holds none: no line break, whatever
  -- the texts in it are.
  pub serialize_detections-IsPlain :
      (p : DetectionJsonPayload D) → All IsPlain (serialize_detections p)
  unfolding serialize_detections
  serialize_detections-IsPlain p =
      stream-IsPlain _
        (grind (arith, escape_json_string-IsPlain, timestamp-IsPlain, serialize_items-IsPlain))
