-- ===== src/Json/PayloadText.antt =====
-- The JSON value of a payload, and the text of its items.
use vehicle_detection_system.Common.{
  ◌≡◌, refl, ap, ◌∙◌, Bool, true, false, List, [], ◌∷◌, ◌++◌, append_assoc, Bytes, codes, stream,
  arith, All, length, if◌then◌else◌, take_all, ◌<◌,
}
use vehicle_detection_system.Common.Double.{Double}
use vehicle_detection_system.Json.Payload.{
  payload_schema_version, DetectionJsonItem, DetectionJsonPayload,
}
use vehicle_detection_system.Json.Escape.{escape_char, escape_json_string}
use vehicle_detection_system.Json.Timestamp.{format_iso8601_utc}
use vehicle_detection_system.Json.Serialize.{format_double, serialize_item, serialize_items}
use vehicle_detection_system.Json.Tree.{
  Tree, number, text, list, struct, Items, nil, cons, Fields, end, field, put, put_items,
}

-- The members of an object, by their names.
abbrev pub fields_of : List (Bytes × Tree) → Fields
fields_of [] = end
fields_of ((key, v) ∷ pairs) = field key v (fields_of pairs)

module _ {D : Type 0} ⦃d : Double D⦄ where
  -- The number of a value: what "%.6f" prints of it, all of it; 0.0 for one that is not finite.
  abbrev pub number_text : D → Bytes
  number_text x = if d.is_finite x then d.fixed6 x else codes "0.0"

  abbrev pub decimal_number : D → Tree
  decimal_number x = number (number_text x)

  abbrev pub item_tree : DetectionJsonItem D → Tree
  item_tree i = struct (
      fields_of (
        (codes "id", text i.id)
        ∷ (codes "class", text i.class_label)
        ∷ (codes "confidence", decimal_number i.confidence)
        ∷ (
          codes "center",
          struct (
              fields_of (
                (codes "x", decimal_number i.center_x)
                ∷ (codes "y", decimal_number i.center_y)
                ∷ (codes "z", decimal_number i.center_z)
                ∷ [])),
        )
        ∷ (
          codes "size",
          struct (
              fields_of (
                (codes "length", decimal_number i.length)
                ∷ (codes "width", decimal_number i.width)
                ∷ (codes "height", decimal_number i.height)
                ∷ [])),
        )
        ∷ (codes "yaw", decimal_number i.yaw)
        ∷ []))

  abbrev pub items_tree : List (DetectionJsonItem D) → Items
  items_tree [] = nil
  items_tree (i ∷ items) = cons (item_tree i) (items_tree items)

  abbrev pub payload_tree : DetectionJsonPayload D → Tree
  payload_tree p = struct (
      fields_of (
        (codes "schema_version", text payload_schema_version)
        ∷ (codes "timestamp", text (format_iso8601_utc p.stamp_sec p.stamp_nanosec))
        ∷ (codes "frame_id", text p.frame_id)
        ∷ (codes "detections", list (items_tree p.detections))
        ∷ []))

-- A row of texts before what follows.
unfoldable pub onto : List Bytes → Bytes → Bytes
onto [] rest = rest
onto (t ∷ ts) rest = t ++ onto ts rest

pub onto-stream : (ts : List Bytes) (rest : Bytes) → stream ts ++ rest ≡ onto ts rest
unfolding onto stream
onto-stream [] rest = refl
onto-stream (t ∷ ts) rest = append_assoc t (stream ts) rest ∙ ap (λ r. t ++ r) (onto-stream ts rest)

module _ {D : Type 0} ⦃d : Double D⦄ where
  -- A finite value that "%.6f" prints with less than 32 bytes.
  abbrev pub IsShort : D → Type 0
  IsShort x = if d.is_finite x then length (d.fixed6 x) < 32 else Unit

  abbrev pub numbers : DetectionJsonItem D → List D
  numbers i =
      i.confidence ∷ i.center_x ∷ i.center_y ∷ i.center_z ∷ i.length ∷ i.width ∷ i.height ∷ i.yaw
      ∷ []

  abbrev pub HasShort : DetectionJsonItem D → Type 0
  HasShort i = All IsShort (numbers i)

  -- All numbers of the detections are short.
  abbrev pub IsPrintable : DetectionJsonPayload D → Type 0
  IsPrintable p = All HasShort p.detections

  format_double_lem : (x : D) → IsShort x → format_double x ≡ number_text x
  unfolding format_double
  format_double_lem x h = ground (arith, take_all 31 (d.fixed6 x))

  serialize_item_lem :
      (i : DetectionJsonItem D) (rest : Bytes)
      → HasShort i
      → serialize_item i ++ rest ≡ put (item_tree i) rest
  unfolding serialize_item put escape_json_string escape_char onto
  serialize_item_lem i rest (c, (x, (y, (z, (l, (w, (h, (yaw, _)))))))) =
      rw
        (
          format_double_lem i.confidence c,
          format_double_lem i.center_x x,
          format_double_lem i.center_y y,
          format_double_lem i.center_z z,
          format_double_lem i.length l,
          format_double_lem i.width w,
          format_double_lem i.height h,
          format_double_lem i.yaw yaw,
        )
        (onto-stream _ rest)

  entry_lem :
      (i : DetectionJsonItem D) (items rest follow : Bytes)
      → HasShort i
      → items ++ rest ≡ follow
      → (serialize_item i ++ items) ++ rest ≡ put (item_tree i) follow
  entry_lem i items rest follow h e =
      append_assoc (serialize_item i) items rest
      ∙ ap (λ r. serialize_item i ++ r) e
      ∙ serialize_item_lem i follow h

  pub serialize_items_lem :
      (first : Bool) (items : List (DetectionJsonItem D)) (rest : Bytes)
      → All HasShort items
      → serialize_items first items ++ rest ≡ put_items first (items_tree items) rest
  unfolding serialize_items put
  serialize_items_lem first [] rest h = refl
  serialize_items_lem true (i ∷ items) rest (h, hs) =
      entry_lem i _ rest _ h (serialize_items_lem false items rest hs)
  serialize_items_lem false (i ∷ items) rest (h, hs) =
      ap (λ r. b',' ∷ r) (entry_lem i _ rest _ h (serialize_items_lem false items rest hs))
