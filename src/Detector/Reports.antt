-- ===== src/Detector/Reports.antt =====
-- What the node is to publish for a message, said without its loops, and that it publishes that.
use vehicle_detection_system.Common.{
  ◌≡◌, refl, sym, ◌∙◌, ℕ, suc, false, List, [], ◌∷◌, ◌++◌, append-nil, append_assoc, map, Bytes,
  codes, length, keep, ◌≟◌, ≟_refl, ≟→eq, ◌≢◌, ◌⊎◌, Bool-cases, inl, inr, ◌+◌, arith,
}
use vehicle_detection_system.Common.Results.{ok, error, Result-cases}
use vehicle_detection_system.Common.Int.{ℤ}
use vehicle_detection_system.Common.Double.{Double}
use vehicle_detection_system.Clouds.{
  Point, AxisAlignedBox, VehicleSizeLimits, Pcl, extract_clusters, compute_aabb,
  compute_box_dimensions, is_passenger_vehicle,
}
use vehicle_detection_system.Detector.Settings.{Snapshot}
use vehicle_detection_system.Detector.Messages.{
  Header, PointCloud2, Detection3D, Marker, delete_all, Publication, filtered, cluster_markers,
  detections, vehicle_markers, make_detection, make_box_marker, cluster_color, vehicle_color,
}
use vehicle_detection_system.Detector.Node.{
  Ros, Node, Frame, mark_clusters, detect, detect_all, localise, filter_points, process, on_cloud,
  publish_filtered, publish_cluster_markers,
}

-- The elements, each with its number.
unfoldable pub numbered {ℓ κ} : {A : Type ℓ} {B : Type κ} → (ℕ → A → B) → ℕ → List A → List B
numbered f k [] = []
numbered f k (x ∷ xs) = f k x ∷ numbered f (suc k) xs

append_one {ℓ} :
    {A : Type ℓ} (xs : List A) (y : A) (ys : List A) → (xs ++ y ∷ []) ++ ys ≡ xs ++ y ∷ ys
append_one xs y ys = append_assoc xs (y ∷ []) ys

module _ {D : Type 0} ⦃d : Double D⦄ where
  unfoldable pub boxes : List (Point D) → List (List ℤ) → List (AxisAlignedBox D)
  boxes cloud clusters = map (compute_aabb cloud) clusters

  -- The boxes within the limits, in their order.
  unfoldable pub vehicles : VehicleSizeLimits D → List (AxisAlignedBox D) → List (AxisAlignedBox D)
  vehicles limits bs = keep (λ b. is_passenger_vehicle (compute_box_dimensions b) limits) bs

  -- The markers of a topic: one that deletes the old ones, and the boxes numbered from 1.
  pub markers :
      Header → Bytes → (ℕ → AxisAlignedBox D → Marker D) → List (AxisAlignedBox D) → List (Marker D)
  markers header ns make bs = delete_all header ns ∷ numbered make 1 bs

  -- The markers of the clusters and of the vehicles.
  abbrev pub cluster_marker : Header → ℕ → AxisAlignedBox D → Marker D
  cluster_marker header id box = make_box_marker header (codes "clusters") id box cluster_color

  abbrev pub vehicle_marker : Header → ℕ → AxisAlignedBox D → Marker D
  vehicle_marker header id box = make_box_marker header (codes "vehicles") id box vehicle_color

  -- The loops, from any state.
  mark_clusters_lem :
      (header : Header) (cloud : List (Point D)) (id : ℕ) (clusters : List (List ℤ))
      (array : List (Marker D))
      → mark_clusters header cloud id clusters array
        ≡ array ++ numbered (cluster_marker header) (suc id) (boxes cloud clusters)
  unfolding mark_clusters numbered boxes
  mark_clusters_lem header cloud id [] array = sym (append-nil array)
  mark_clusters_lem header cloud id (c ∷ clusters) array =
      let m = cluster_marker header (suc id) (compute_aabb cloud c) in
      mark_clusters_lem header cloud (suc id) clusters (array ++ m ∷ []) ∙ append_one array m _

  Frame_ext :
      {i j : ℕ} {a b : List (Detection3D D)} {m n : List (Marker D)}
      → i ≡ j
      → a ≡ b
      → m ≡ n
      → ◌≡◌ {A = Frame D}
          (record { detection_id = i; array = a; markers = m })
          (record { detection_id = j; array = b; markers = n })
  Frame_ext p q r = λ t. record { detection_id = p t; array = q t; markers = r t }

  detect_all_lem :
      (header : Header) (limits : VehicleSizeLimits D) (cloud : List (Point D))
      (clusters : List (List ℤ)) (frame : Frame D)
      → let found = vehicles limits (boxes cloud clusters) in
        detect_all header limits cloud clusters frame ≡ record {
          detection_id = frame.detection_id + length found;
          array = frame.array ++ numbered (make_detection header) (suc frame.detection_id) found;
          markers =
              frame.markers ++ numbered (vehicle_marker header) (suc frame.detection_id) found;
        }
  unfolding detect_all numbered boxes vehicles
  detect_all_lem header limits cloud [] frame =
      Frame_ext (omega arith) (sym (append-nil frame.array)) (sym (append-nil frame.markers))
  detect_all_lem header limits cloud (c ∷ clusters) frame =
      let box = compute_aabb cloud c in
      let id = suc frame.detection_id in
      elim (Bool-cases (is_passenger_vehicle (compute_box_dimensions box) limits)) [
        | inl e ↦
            rw (detect, e)
              (detect_all_lem header limits cloud clusters _
                ∙ Frame_ext (omega arith) (append_one frame.array (make_detection header id box) _)
                    (append_one frame.markers (vehicle_marker header id box) _))
        | inr e ↦ rw (detect, e) (detect_all_lem header limits cloud clusters frame)
      ]

module _ {D C T : Type 0} ⦃d : Double D⦄ (ros : Ros D C T) (pcl : Pcl D) where
  -- The four messages for a cloud, from the boxes of its clusters.
  unfoldable pub report : Snapshot D → Header → List (Point D) → List (Publication D C)
  report snap header cloud =
      let points = filter_points pcl snap cloud in
      let found = boxes points (extract_clusters pcl points snap.clustering) in
      let seen = vehicles snap.vehicle_limits found in
      filtered (record { header = header; content = (ros.to_ros_msg points).content })
      ∷ cluster_markers (markers header (codes "clusters") (cluster_marker header) found)
      ∷ detections
          (record { header = header; detections = numbered (make_detection header) 1 seen })
      ∷ vehicle_markers (markers header (codes "vehicles") (vehicle_marker header) seen)
      ∷ []

  process_lem :
      (snap : Snapshot D) (header : Header) (cloud : List (Point D))
      → process ros pcl snap header cloud ≡ report snap header cloud
  unfolding process report publish_filtered publish_cluster_markers markers
  process_lem snap header cloud =
      let points = filter_points pcl snap cloud in
      let clusters = extract_clusters pcl points snap.clustering in
      rw
        (
          mark_clusters_lem header points 0 clusters (delete_all header (codes "clusters") ∷ []),
          detect_all_lem header snap.vehicle_limits points clusters (record {
            detection_id = 0;
            array = [];
            markers = delete_all header (codes "vehicles") ∷ [];
          }),
        )
        refl

  -- The message in the target frame: the message itself where it is there already, else what tf2 makes
  -- of it.
  pub data Located (snap : Snapshot D) (msg : PointCloud2 C) : PointCloud2 C → Type 0 where
    same : msg.header.frame_id ≡ snap.target_frame_id → Located snap msg msg
    moved :
        (tf : T)
        → msg.header.frame_id ≢ snap.target_frame_id
        → ros.lookup_transform snap.target_frame_id msg.header ≡ ok tf
        → Located snap msg (ros.do_transform msg tf)

  -- No transform to the target frame is known.
  abbrev pub Lost : Snapshot D → PointCloud2 C → Type 0
  Lost snap msg =
      (msg.header.frame_id ≢ snap.target_frame_id)
      × (ex : Bytes) × (ros.lookup_transform snap.target_frame_id msg.header ≡ error ex)

  differs : (a b : Bytes) → (a ≟ b) ≡ false → a ≢ b
  differs a b e h = ground (arith, ≟_refl a)

  localise_lem :
      (snap : Snapshot D) (msg : PointCloud2 C)
      → (Lost snap msg × (ex : Bytes) × (localise ros snap msg ≡ error ex))
        ⊎ ((m : PointCloud2 C) × Located snap msg m × (localise ros snap msg ≡ ok m))
  unfolding localise
  localise_lem snap msg = elim (Bool-cases (msg.header.frame_id ≟ snap.target_frame_id)) [
    | inl e ↦ inr (msg, same (≟→eq _ _ e), rw (localise, e) refl)
    | inr e ↦ elim (Result-cases (ros.lookup_transform snap.target_frame_id msg.header)) [
      | inl (tf, found) ↦
          inr
            (ros.do_transform msg tf, moved tf (differs _ _ e) found, rw (localise, e, found) refl)
      | inr (ex, lost) ↦ inl ((differs _ _ e, ex, lost), ex, rw (localise, e, lost) refl)
    ]
  ]

  -- For each message the node publishes nothing, where the message is in another frame and the lookup of
  -- the transform fails, or the report of the message in the target frame: the filtered points; a
  -- deleting marker and one cube for each cluster; one detection for each cluster whose box is within
  -- the size limits, in their order and numbered from 1; a deleting marker and the cubes of these.
  pub on_cloud-Implements :
      (n : Node D) (msg : PointCloud2 C)
      → (Lost n.snapshot msg × (on_cloud ros pcl n msg ≡ []))
        ⊎ ((m : PointCloud2 C) × Located n.snapshot msg m
            × (on_cloud ros pcl n msg
                ≡ report n.snapshot
                    (record m.header { frame_id = n.snapshot.target_frame_id })
                    (ros.from_ros_msg m)))
  unfolding on_cloud
  on_cloud-Implements n msg = elim (localise_lem n.snapshot msg) [
    | inl (lost, ex, e) ↦ inl (lost, rw (on_cloud, e) refl)
    | inr (m, located, e) ↦ inr (m, located, rw (on_cloud, e) (process_lem n.snapshot _ _))
  ]
