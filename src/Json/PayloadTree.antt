-- ===== src/Json/PayloadTree.antt =====
-- A serialized payload is read as its JSON value.
use vehicle_detection_system.Common.{
  ◌≡◌, refl, sym, ◌∙◌, ℕ, ◌≤◌, true, some, List, [], ◌∷◌, ◌++◌, append-nil, Bytes, arith, All,
  Bool-cases, inl, inr, ◌<◌, ◌^◌,
}
use vehicle_detection_system.Common.Int.{ℤ, pos_part}
use vehicle_detection_system.Common.Double.{Double}
use vehicle_detection_system.Json.Payload.{DetectionJsonItem, DetectionJsonPayload}
use vehicle_detection_system.Json.Escape.{escape_char, escape_json_string}
use vehicle_detection_system.Json.Timestamp.{format_iso8601_utc}
use vehicle_detection_system.Json.Serialize.{serialize_detections}
use vehicle_detection_system.Json.TimestampText.{form, read_timestamp-format_iso8601_utc}
use vehicle_detection_system.Json.Tree.{list, put, read_value}
use vehicle_detection_system.Json.Numbers.{IsFixed, IsToken, IsFixed-IsToken, zero-IsToken}
use vehicle_detection_system.Json.TreeLaws.{HasTokens, size, read_value-put}
use vehicle_detection_system.Json.PayloadText.{
  number_text, items_tree, payload_tree, onto, onto-stream, IsPrintable, serialize_items_lem,
}

-- A byte of a timestamp: between '-' and 'Z', so that nothing in it is escaped.
abbrev IsBare : ℕ → Type 0
IsBare c = (45 ≤ c) × (c ≤ 90)

bare_char : (c : ℕ) → IsBare c → escape_char c ≡ c ∷ []
unfolding escape_char
bare_char c h = ground arith

bare_lem : (s : Bytes) → All IsBare s → escape_json_string s ≡ s
unfolding escape_json_string
bare_lem [] h = refl
bare_lem (c ∷ s) (h, hs) = rw (bare_char c h, bare_lem s hs) refl

form-IsBare : (s : Bytes) → All IsBare (form s) → All IsBare s
unfolding form
form-IsBare [] h = tt
form-IsBare (c ∷ s) (h, hs) = (ground arith, form-IsBare s hs)

timestamp-IsBare :
    (sec : ℤ) (nanosec : ℕ)
    → pos_part sec < 2 ^ 31
    → nanosec < 1000000000
    → All IsBare (format_iso8601_utc sec nanosec)
timestamp-IsBare sec nanosec small short =
    form-IsBare _ (rw (read_timestamp-format_iso8601_utc sec nanosec small short).0 (omega arith))

-- "%.6f" prints a finite value as C says.
abbrev pub PrintsFixed : (D : Type 0) ⦃d : Double D⦄ → Type 0
PrintsFixed D ⦃d⦄ = (x : D) → d.is_finite x ≡ true → IsFixed (d.fixed6 x)

module _ {D : Type 0} ⦃d : Double D⦄ where
  serialize_detections_lem :
      (p : DetectionJsonPayload D) (rest : Bytes)
      → pos_part p.stamp_sec < 2 ^ 31
      → p.stamp_nanosec < 1000000000
      → IsPrintable p
      → serialize_detections p ++ rest ≡ put (payload_tree p) rest
  unfolding serialize_detections put escape_json_string escape_char onto
  serialize_detections_lem p rest small short fits =
      let bare = timestamp-IsBare p.stamp_sec p.stamp_nanosec small short in
      let items = serialize_items_lem true p.detections (b']' ∷ b'}' ∷ rest) fits in
      rw (bare_lem (format_iso8601_utc p.stamp_sec p.stamp_nanosec) bare, sym items)
        (onto-stream _ rest)

  module _ (tokens : PrintsFixed D) where
    number_text-IsToken : (x : D) → IsToken (number_text x)
    number_text-IsToken x = elim (Bool-cases (d.is_finite x)) [
      | inl e ↦ rw e (IsFixed-IsToken (d.fixed6 x) (tokens x e))
      | inr e ↦ rw e zero-IsToken
    ]

    items-HasTokens : (items : List (DetectionJsonItem D)) → HasTokens (list (items_tree items))
    items-HasTokens [] = tt
    items-HasTokens (i ∷ items) =
        let token = number_text-IsToken in
        (
          (
            tt,
            (
              tt,
              (
                token i.confidence,
                (
                  (token i.center_x, (token i.center_y, (token i.center_z, tt))),
                  ((token i.length, (token i.width, (token i.height, tt))), (token i.yaw, tt)),
                ),
              ),
            ),
          ),
          items-HasTokens items,
        )

    -- If "%.6f" prints what C says, with less than 32 bytes for each number of the payload, and the stamp
    -- is one of `builtin_interfaces/Time` (32-bit seconds, less than 10^9 nanoseconds): a reader of JSON
    -- by RFC 8259, its grammar of numbers included, reads a serialized payload to its end, as the object
    -- with the schema version, the timestamp, the frame and the array of the detections, each with its
    -- texts as they are in the payload, whatever these hold, and with its numbers as "%.6f" prints them,
    -- uncut, or 0.0 for one that is not finite. The fuel of the reader is any bound of the number of
    -- values.
    pub read_value-serialize_detections :
        (p : DetectionJsonPayload D) (f : ℕ)
        → pos_part p.stamp_sec < 2 ^ 31
        → p.stamp_nanosec < 1000000000
        → IsPrintable p
        → size (payload_tree p) ≤ f
        → read_value f (serialize_detections p) ≡ some (payload_tree p, [])
    read_value-serialize_detections p f small short fits enough =
        let same =
          sym (append-nil (serialize_detections p))
          ∙ serialize_detections_lem p [] small short fits in
        rw same (
          read_value-put f (payload_tree p) [] enough
            (tt, (tt, (tt, (items-HasTokens p.detections, tt)))) tt)
