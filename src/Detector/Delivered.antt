-- ===== src/Detector/Delivered.antt =====
-- What reaches the receiver of the payloads, through the topic and `to_json_payload` of
-- src/vehicle_detection/src/detection_sender_node.cpp.
use vehicle_detection_system.Common.{
  ◌≡◌, refl, ℕ, suc, true, List, [], ◌∷◌, map, All, keep, keep-passes, inl, inr, arith,
}
use vehicle_detection_system.Common.Double.{Double}
use vehicle_detection_system.Json.Payload.{DetectionJsonItem, DetectionJsonPayload}
use vehicle_detection_system.Clouds.{
  Point, AxisAlignedBox, VehicleSizeLimits, Pcl, compute_box_dimensions, is_passenger_vehicle,
  extract_clusters,
}
use vehicle_detection_system.Sender.Messages as Received
use vehicle_detection_system.Sender.Messages.{Hypothesis, to_json_item, to_json_payload}
use vehicle_detection_system.Detector.Settings.{Snapshot}
use vehicle_detection_system.Detector.Messages.{
  Header, PointCloud2, Detection3D, Detection3DArray, ObjectHypothesisWithPose, Publication,
  detections, make_detection, mvp_detection_class, mvp_detection_confidence,
}
use vehicle_detection_system.Detector.Node.{Ros, Node, on_cloud, filter_points}
use vehicle_detection_system.Detector.Reports.{
  numbered, boxes, vehicles, report, on_cloud-Implements,
}

module _ {D : Type 0} where
  -- The members of a published message that the subscriber reads.
  unfoldable pub hypothesis : ObjectHypothesisWithPose D → Hypothesis D
  hypothesis h = record { class_id = h.class_id; score = h.score }

  unfoldable pub detection : Detection3D D → Received.Detection3D D
  detection det = record {
    id = det.id;
    results = map hypothesis det.results;
    position = det.center.position;
    size = det.size;
  }

  unfoldable pub received : Detection3DArray D → Received.Detection3DArray D
  received array = record {
    sec = array.header.sec;
    nanosec = array.header.nanosec;
    frame_id = array.header.frame_id;
    detections = map detection array.detections;
  }

module _ {D : Type 0} ⦃d : Double D⦄ where
  -- An item is a car of the fixed confidence, of a size within the limits.
  pub record IsVehicle (limits : VehicleSizeLimits D) (item : DetectionJsonItem D) : Type 0 where
    pub label : item.class_label ≡ mvp_detection_class
    pub confidence : item.confidence ≡ mvp_detection_confidence
    pub min_length : d.le limits.min_length item.length ≡ true
    pub max_length : d.le item.length limits.max_length ≡ true
    pub min_width : d.le limits.min_width item.width ≡ true
    pub max_width : d.le item.width limits.max_width ≡ true
    pub min_height : d.le limits.min_height item.height ≡ true
    pub max_height : d.le item.height limits.max_height ≡ true

  item_of : Header → ℕ → AxisAlignedBox D → DetectionJsonItem D
  item_of header id box = to_json_item (detection (make_detection header id box))

  item-IsVehicle :
      (limits : VehicleSizeLimits D) (header : Header) (id : ℕ) (box : AxisAlignedBox D)
      → is_passenger_vehicle (compute_box_dimensions box) limits ≡ true
      → IsVehicle limits (item_of header id box)
  unfolding is_passenger_vehicle compute_box_dimensions to_json_item detection make_detection
      hypothesis item_of
  item-IsVehicle limits header id box h = record {
    label = refl;
    confidence = refl;
    min_length = ground arith;
    max_length = ground arith;
    min_width = ground arith;
    max_width = ground arith;
    min_height = ground arith;
    max_height = ground arith;
  }

  items_lem :
      (limits : VehicleSizeLimits D) (header : Header) (id : ℕ) (bs : List (AxisAlignedBox D))
      → All (λ b. is_passenger_vehicle (compute_box_dimensions b) limits ≡ true) bs
      → All
          (IsVehicle limits)
          (map to_json_item (map detection (numbered (make_detection header) id bs)))
  unfolding numbered item_of
  items_lem limits header id [] h = tt
  items_lem limits header id (b ∷ bs) (h, hs) =
      (item-IsVehicle limits header id b h, items_lem limits header (suc id) bs hs)

  -- What holds of the payload made from a publication, if it is one of detections.
  abbrev pub Payload : {C : Type 0} → (DetectionJsonPayload D → Type 0) → Publication D C → Type 0
  Payload P (detections array) = P (to_json_payload (received array))
  Payload P _ = Unit

  abbrev pub IsOfVehicles : Snapshot D → DetectionJsonPayload D → Type 0
  IsOfVehicles snap payload =
      (payload.frame_id ≡ snap.target_frame_id)
      × All (IsVehicle snap.vehicle_limits) payload.detections

module _ {D C T : Type 0} ⦃d : Double D⦄ (ros : Ros D C T) (pcl : Pcl D) where
  report-IsOfVehicles :
      (snap : Snapshot D) (header : Header) (cloud : List (Point D))
      → header.frame_id ≡ snap.target_frame_id
      → All (Payload (IsOfVehicles snap)) (report ros pcl snap header cloud)
  unfolding report to_json_payload received vehicles
  report-IsOfVehicles snap header cloud e =
      let points = filter_points pcl snap cloud in
      let found = boxes points (extract_clusters pcl points snap.clustering) in
      let fits = λ (b : AxisAlignedBox D).
        is_passenger_vehicle (compute_box_dimensions b) snap.vehicle_limits in
      let items =
        items_lem snap.vehicle_limits header 1 (keep fits found) (keep-passes fits found) in
      (tt, (tt, ((e, items), (tt, tt))))

  -- Each payload that the sender makes from what the node publishes for a message is in the target frame,
  -- and each of its items is a "car" of confidence 0.8 whose length, width and height, as the sender
  -- computes them, are within the node's size limits.
  pub on_cloud-IsOfVehicles :
      (n : Node D) (msg : PointCloud2 C)
      → All (Payload (IsOfVehicles n.snapshot)) (on_cloud ros pcl n msg)
  on_cloud-IsOfVehicles n msg = elim (on_cloud-Implements ros pcl n msg) [
    | inl (lost, e) ↦ rw e tt
    | inr (m, located, e) ↦ rw e (report-IsOfVehicles n.snapshot _ _ refl)
  ]
