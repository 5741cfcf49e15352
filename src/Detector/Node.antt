-- ===== src/Detector/Node.antt =====
-- The node: its start, its parameter callback and its cloud callback. What tf2 and pcl_conversions do is
-- an argument; a callback runs on a copy of the snapshot, so it is one step.
use vehicle_detection_system.Common.{
  ℕ, suc, not, none, some, List, [], ◌∷◌, ◌++◌, Bytes, codes, ◌≟◌, if◌then◌else◌,
}
use vehicle_detection_system.Common.Results.{Result, ok, error, ◌>>=◌}
use vehicle_detection_system.Common.Int.{ℤ}
use vehicle_detection_system.Common.Double.{Double}
use vehicle_detection_system.Clouds.{
  Point, VehicleSizeLimits, Pcl, voxel_downsample, crop_roi, remove_ground_plane, extract_clusters,
  compute_aabb, compute_box_dimensions, is_passenger_vehicle,
}
use vehicle_detection_system.Detector.Settings.{
  Snapshot, Declared, build_snapshot_from_parameters, enforce_initial_parameters, rejection,
  Parameter, apply_parameters,
}
use vehicle_detection_system.Detector.Messages.{
  Header, PointCloud2, Detection3D, Marker, delete_all, Publication, filtered, cluster_markers,
  detections, vehicle_markers, make_detection, make_box_marker, cluster_color, vehicle_color,
}

-- `lookup_transform` takes the target frame and the message's header, and gives the transform or the
-- text of the `tf2::TransformException`.
pub record Ros (D C T : Type 0) : Type 0 where
  pub lookup_transform : Bytes → Header → Result T
  pub do_transform : PointCloud2 C → T → PointCloud2 C
  pub from_ros_msg : PointCloud2 C → List (Point D)
  pub to_ros_msg : List (Point D) → PointCloud2 C

-- The member that the callbacks share.
pub record Node (D : Type 0) : Type 0 where
  pub snapshot : Snapshot D

-- What the loop over the clusters builds.
pub record Frame (D : Type 0) : Type 0 where
  pub detection_id : ℕ
  pub array : List (Detection3D D)
  pub markers : List (Marker D)

module _ {D : Type 0} ⦃d : Double D⦄ where
  -- The constructor: the exception that it throws, or the node.
  unfoldable pub start : Declared D → Result (Node D)
  unfolding enforce_initial_parameters
  start p =
      let s = build_snapshot_from_parameters p in
      enforce_initial_parameters s >>= λ _. ok (record { snapshot = s })

  -- `result.successful` and `result.reason`, and the node afterwards.
  unfoldable pub on_parameter_change : List (Parameter D) → Node D → Result {0} Unit × Node D
  on_parameter_change params n =
      let candidate = apply_parameters params n.snapshot in
      elim (rejection candidate) [
        | some reason ↦ (error reason, n)
        | none ↦ (ok tt, record n { snapshot = candidate })
      ]

  -- The loop of `publish_cluster_markers`.
  unfoldable pub mark_clusters :
      Header → List (Point D) → ℕ → List (List ℤ) → List (Marker D) → List (Marker D)
  mark_clusters header cloud id [] array = array
  mark_clusters header cloud id (cluster ∷ clusters) array =
      let box = compute_aabb cloud cluster in
      let marker = make_box_marker header (codes "clusters") (suc id) box cluster_color in
      mark_clusters header cloud (suc id) clusters (array ++ marker ∷ [])

  -- The body of the loop over the clusters.
  unfoldable pub detect : Header → VehicleSizeLimits D → List (Point D) → List ℤ → Frame D → Frame D
  detect header limits cloud cluster frame =
      let box = compute_aabb cloud cluster in
      let id = suc frame.detection_id in
      if not (is_passenger_vehicle (compute_box_dimensions box) limits) then frame else record {
        detection_id = id;
        array = frame.array ++ make_detection header id box ∷ [];
        markers =
            frame.markers ++ make_box_marker header (codes "vehicles") id box vehicle_color ∷ [];
      }

  unfoldable pub detect_all :
      Header → VehicleSizeLimits D → List (Point D) → List (List ℤ) → Frame D → Frame D
  unfolding detect
  detect_all header limits cloud [] frame = frame
  detect_all header limits cloud (cluster ∷ clusters) frame =
      detect_all header limits cloud clusters (detect header limits cloud cluster frame)

  unfoldable pub publish_cluster_markers :
      {C : Type 0} → Header → List (Point D) → List (List ℤ) → Publication D C
  unfolding mark_clusters
  publish_cluster_markers header cloud clusters =
      cluster_markers
        (mark_clusters header cloud 0 clusters (delete_all header (codes "clusters") ∷ []))

  -- The points that are clustered.
  unfoldable pub filter_points : Pcl D → Snapshot D → List (Point D) → List (Point D)
  filter_points pcl snap cloud_xyz =
      let downsampled = voxel_downsample pcl cloud_xyz snap.voxel_leaf_size in
      let cropped = crop_roi pcl downsampled snap.roi in
      let ground_result =
        remove_ground_plane pcl cropped snap.ground_distance_threshold snap.clustering.min_size in
      ground_result.non_ground

  module _ {C T : Type 0} (ros : Ros D C T) where
    unfoldable pub publish_filtered : Header → List (Point D) → Publication D C
    publish_filtered header cloud =
        let out = ros.to_ros_msg cloud in filtered (record out { header = header })

    -- The message in the target frame, or the exception of the lookup.
    unfoldable pub localise : Snapshot D → PointCloud2 C → Result (PointCloud2 C)
    localise snap msg =
        if msg.header.frame_id ≟ snap.target_frame_id
        then ok msg
        else (ros.lookup_transform snap.target_frame_id msg.header >>= λ tf.
            ok (ros.do_transform msg tf))

    module _ (pcl : Pcl D) where
      -- What is published for a message whose header is in the target frame, in the order of the calls.
      unfoldable pub process : Snapshot D → Header → List (Point D) → List (Publication D C)
      unfolding filter_points publish_filtered publish_cluster_markers detect_all
      process snap header cloud_xyz =
          let for_clustering = filter_points pcl snap cloud_xyz in
          let clusters = extract_clusters pcl for_clustering snap.clustering in
          let frame = detect_all header snap.vehicle_limits for_clustering clusters (record {
            detection_id = 0;
            array = [];
            markers = delete_all header (codes "vehicles") ∷ [];
          }) in
          publish_filtered header for_clustering
          ∷ publish_cluster_markers header for_clustering clusters
          ∷ detections (record { header = header; detections = frame.array })
          ∷ vehicle_markers frame.markers
          ∷ []

      -- What is published; after a failed lookup, nothing.
      unfoldable pub on_cloud : Node D → PointCloud2 C → List (Publication D C)
      unfolding localise process
      on_cloud n msg = elim (localise n.snapshot msg) [
        | error ex ↦ []
        | ok transformed_msg ↦
            process n.snapshot
              (record transformed_msg.header { frame_id = n.snapshot.target_frame_id })
              (ros.from_ros_msg transformed_msg)
      ]
