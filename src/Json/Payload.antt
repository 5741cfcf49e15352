-- ===== src/Json/Payload.antt =====
-- The types of src/vehicle_detection/include/vehicle_detection/detection_json.hpp.
use vehicle_detection_system.Common.{ℕ, List, Bytes, codes}
use vehicle_detection_system.Common.Int.{ℤ}

abbrev pub payload_schema_version : Bytes
payload_schema_version = codes "1.0"

pub record DetectionJsonItem (D : Type 0) : Type 0 where
  pub id : Bytes
  pub class_label : Bytes
  pub confidence : D
  pub center_x : D
  pub center_y : D
  pub center_z : D
  pub length : D
  pub width : D
  pub height : D
  pub yaw : D

-- `stamp_sec` is an `int32_t` and `stamp_nanosec` a `uint32_t`.
pub record DetectionJsonPayload (D : Type 0) : Type 0 where
  pub stamp_sec : ℤ
  pub stamp_nanosec : ℕ
  pub frame_id : Bytes
  pub detections : List (DetectionJsonItem D)
