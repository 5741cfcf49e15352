-- ===== src/Samples/DetectorRuns.antt =====
-- The detector at a small cloud of two clusters, one of which is a vehicle.
use vehicle_detection_system.Common.{
  ◌≡◌, ◌⊎◌, refl, ℕ, List, [], ◌∷◌, Bytes, codes, All, map, ◌++◌, decimal, ◌≟◌, if◌then◌else◌,
}
use vehicle_detection_system.Common.Results.{ok, error}
use vehicle_detection_system.Common.Int.{pos, negsuc, of_size, to_size}
use vehicle_detection_system.Validation.{
  validate_non_empty_string, validate_positive_double, validate_int_min,
}
use vehicle_detection_system.Clouds.{
  Point, Pcl, extract_clusters, remove_ground_plane, crop_roi, voxel_downsample,
  is_passenger_vehicle, compute_box_dimensions, dx, dy, dz, compute_aabb, extend_all, point_at,
  extend_box,
}
use vehicle_detection_system.Common.Double.{max, min}
use vehicle_detection_system.Detector.Settings.{
  Declared, build_snapshot_from_parameters, Parameter, roi_max_x, cluster_max_size,
}
use vehicle_detection_system.Detector.Messages.{
  PointCloud2, Publication, detections, make_detection,
}
use vehicle_detection_system.Detector.Node.{Ros, Node, start, on_cloud}
use vehicle_detection_system.Detector.Invariant.{IsUsable, run, run-IsUsable}
use vehicle_detection_system.Detector.Reports.{Lost, Located, report, on_cloud-Implements}
use vehicle_detection_system.Detector.Delivered.{Payload, IsOfVehicles, on_cloud-IsOfVehicles}
use vehicle_detection_system.Samples.Numbers.{Number, num, number_double}

abbrev pub declared : Declared Number
declared = record {
  target_frame_id = codes "map";
  voxel_leaf_size = num (pos 1);
  roi_min_x = num (pos 0);
  roi_max_x = num (pos 80);
  roi_min_y = num (negsuc 29);
  roi_max_y = num (pos 30);
  roi_min_z = num (negsuc 2);
  roi_max_z = num (pos 3);
  ground_distance_threshold = num (pos 1);
  cluster_tolerance = num (pos 1);
  cluster_min_size = pos 2;
  cluster_max_size = pos 5000;
  vehicle_min_length = num (pos 2);
  vehicle_max_length = num (pos 6);
  vehicle_min_width = num (pos 1);
  vehicle_max_width = num (pos 3);
  vehicle_min_height = num (pos 1);
  vehicle_max_height = num (pos 3);
}

abbrev pub detector : Node Number
detector = record { snapshot = build_snapshot_from_parameters declared }

starts : start declared ≡ ok detector
unfolding start validate_non_empty_string build_snapshot_from_parameters validate_positive_double
    validate_int_min of_size to_size
starts = refl

-- The second update is refused: no bound may reach its opposite.
abbrev updates : List (List (Parameter Number))
updates = (cluster_max_size (pos 900) ∷ []) ∷ (roi_max_x (num (pos 0)) ∷ []) ∷ []

run-IsUsable_example : IsUsable (run updates detector).snapshot
run-IsUsable_example = run-IsUsable declared updates detector starts

-- The content of a message is its points; a transform shifts nothing.
abbrev pub ros : Ros Number (List (Point Number)) Unit
ros = record {
  lookup_transform = λ target header.
      if header.frame_id ≟ codes "moon" then error (codes "no such frame") else ok tt;
  do_transform = λ msg tf. msg;
  from_ros_msg = λ msg. msg.content;
  to_ros_msg = λ points. record {
    header = record { sec = pos 0; nanosec = 0; frame_id = [] };
    content = points;
  };
}

abbrev pub pcl : Pcl Number
pcl = record {
  to_float = λ a. a;
  voxel_grid = λ leaf points. points;
  crop_box = λ low high points. points;
  segment = λ threshold angle points. [];
  extract = λ negative indices points. points;
  cluster = λ tolerance least most points. (pos 0 ∷ pos 1 ∷ []) ∷ (pos 2 ∷ pos 3 ∷ []) ∷ [];
}

abbrev pub point : ℕ → ℕ → ℕ → Point Number
point x y z = record { x = num (pos x); y = num (pos y); z = num (pos z) }

abbrev pub message : Bytes → PointCloud2 (List (Point Number))
message frame_id = record {
  header = record { sec = pos 7; nanosec = 9; frame_id = frame_id };
  content = point 10 5 0 ∷ point 11 6 0 ∷ point 20 5 0 ∷ point 24 7 2 ∷ [];
}

on_cloud-Implements_example :
    (Lost ros pcl detector.snapshot (message (codes "lidar"))
      × (on_cloud ros pcl detector (message (codes "lidar")) ≡ []))
    ⊎ ((m : PointCloud2 (List (Point Number))) × Located ros pcl detector.snapshot
          (message (codes "lidar"))
          m
        × (on_cloud ros pcl detector (message (codes "lidar"))
            ≡ report ros pcl detector.snapshot
                (record m.header { frame_id = detector.snapshot.target_frame_id })
                (ros.from_ros_msg m)))
on_cloud-Implements_example = on_cloud-Implements ros pcl detector (message (codes "lidar"))

on_cloud-IsOfVehicles_example :
    All
      (Payload (IsOfVehicles detector.snapshot))
      (on_cloud ros pcl detector (message (codes "lidar")))
on_cloud-IsOfVehicles_example = on_cloud-IsOfVehicles ros pcl detector (message (codes "lidar"))

-- A message of an unknown frame gives nothing; of the two clusters one is a vehicle.
publishes_nothing : on_cloud ros pcl detector (message (codes "moon")) ≡ []
unfolding on_cloud build_snapshot_from_parameters
publishes_nothing = refl

abbrev ids : List (Publication Number (List (Point Number))) → List Bytes
ids [] = []
ids (detections array ∷ rest) = map (λ det. det.id) array.detections ++ ids rest
ids (_ ∷ rest) = ids rest

publishes_one : ids (on_cloud ros pcl detector (message (codes "map"))) ≡ codes "1" ∷ []
unfolding on_cloud build_snapshot_from_parameters extract_clusters remove_ground_plane crop_roi
    voxel_downsample to_size is_passenger_vehicle compute_box_dimensions max dx compute_aabb
    extend_all point_at extend_box min dy dz make_detection decimal
publishes_one = refl
