-- ===== src/Json/Serialize.antt =====
-- `format_double` and `serialize_detections` of src/vehicle_detection/src/detection_json.cpp.
use vehicle_detection_system.Common.{
  ℕ, Bool, true, false, not, List, [], ◌∷◌, ◌++◌, Bytes, codes, take, stream, if◌then◌else◌,
}
use vehicle_detection_system.Common.Double.{Double}
use vehicle_detection_system.Json.Payload.{
  payload_schema_version, DetectionJsonItem, DetectionJsonPayload,
}
use vehicle_detection_system.Json.Escape.{escape_json_string}
use vehicle_detection_system.Json.Timestamp.{format_iso8601_utc}

-- The bytes that `snprintf` leaves in `char buffer[32]`, its final zero aside.
abbrev pub buffer_text : ℕ
buffer_text = 31

module _ {D : Type 0} ⦃d : Double D⦄ where
  unfoldable pub format_double : D → Bytes
  format_double value =
      if not (d.is_finite value) then codes "0.0" else take buffer_text (d.fixed6 value)

  unfoldable pub serialize_item : DetectionJsonItem D → Bytes
  serialize_item i = stream (
      codes "{\"id\":\""
      ∷ escape_json_string i.id
      ∷ codes "\""
      ∷ codes ",\"class\":\""
      ∷ escape_json_string i.class_label
      ∷ codes "\""
      ∷ codes ",\"confidence\":"
      ∷ format_double i.confidence
      ∷ codes ",\"center\":{\"x\":"
      ∷ format_double i.center_x
      ∷ codes ",\"y\":"
      ∷ format_double i.center_y
      ∷ codes ",\"z\":"
      ∷ format_double i.center_z
      ∷ codes "},\"size\":{\"length\":"
      ∷ format_double i.length
      ∷ codes ",\"width\":"
      ∷ format_double i.width
      ∷ codes ",\"height\":"
      ∷ format_double i.height
      ∷ codes "},\"yaw\":"
      ∷ format_double i.yaw
      ∷ codes "}"
      ∷ [])

  -- The loop, which writes a comma before each item but the first.
  unfoldable pub serialize_items : Bool → List (DetectionJsonItem D) → Bytes
  serialize_items first [] = []
  serialize_items first (i ∷ items) =
      (if first then [] else codes ",") ++ (serialize_item i ++ serialize_items false items)

  unfoldable pub serialize_detections : DetectionJsonPayload D → Bytes
  serialize_detections p = stream (
      codes "{\"schema_version\":\""
      ∷ escape_json_string payload_schema_version
      ∷ codes "\""
      ∷ codes ",\"timestamp\":\""
      ∷ format_iso8601_utc p.stamp_sec p.stamp_nanosec
      ∷ codes "\""
      ∷ codes ",\"frame_id\":\""
      ∷ escape_json_string p.frame_id
      ∷ codes "\""
      ∷ codes ",\"detections\":["
      ∷ serialize_items true p.detections
      ∷ codes "]}"
      ∷ [])
