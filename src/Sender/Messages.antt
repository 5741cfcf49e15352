-- ===== src/Sender/Messages.antt =====
-- `to_json_payload`, and the message that it reads.
use vehicle_detection_system.Common.{ℕ, List, [], ◌∷◌, Bytes, codes, map}
use vehicle_detection_system.Common.Int.{ℤ}
use vehicle_detection_system.Common.Double.{Double, max, min}
use vehicle_detection_system.Json.Payload.{DetectionJsonItem, DetectionJsonPayload}

-- The members of `vision_msgs::msg::Detection3DArray` that the node reads.
pub record Hypothesis (D : Type 0) : Type 0 where
  pub class_id : Bytes
  pub score : D

pub record Vector3 (D : Type 0) : Type 0 where
  pub x : D
  pub y : D
  pub z : D

pub record Detection3D (D : Type 0) : Type 0 where
  pub id : Bytes
  pub results : List (Hypothesis D)
  pub position : Vector3 D
  pub size : Vector3 D

pub record Detection3DArray (D : Type 0) : Type 0 where
  pub sec : ℤ
  pub nanosec : ℕ
  pub frame_id : Bytes
  pub detections : List (Detection3D D)

module _ {D : Type 0} ⦃d : Double D⦄ where
  -- `class_label` and `confidence`: those of the first hypothesis.
  unfoldable pub best : List (Hypothesis D) → Bytes × D
  best [] = ([], d.literal (codes "0.0"))
  best (front ∷ results) = (front.class_id, front.score)

  unfoldable pub to_json_item : Detection3D D → DetectionJsonItem D
  unfolding best
  to_json_item det = record {
    id = det.id;
    class_label = (best det.results).0;
    confidence = (best det.results).1;
    center_x = det.position.x;
    center_y = det.position.y;
    center_z = det.position.z;
    length = max det.size.x det.size.y;
    width = min det.size.x det.size.y;
    height = det.size.z;
    yaw = d.literal (codes "0.0");
  }

  unfoldable pub to_json_payload : Detection3DArray D → DetectionJsonPayload D
  unfolding to_json_item
  to_json_payload msg = record {
    stamp_sec = msg.sec;
    stamp_nanosec = msg.nanosec;
    frame_id = msg.frame_id;
    detections = map to_json_item msg.detections;
  }
