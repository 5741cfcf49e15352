-- ===== src/Detector/Settings.antt =====
-- The node's `Snapshot`, the parameters that change it and the checks that it must pass.
use vehicle_detection_system.Common.{
  Bool, ◌||◌, Option, none, some, List, [], ◌∷◌, Bytes, codes, if◌then◌else◌,
}
use vehicle_detection_system.Common.Results.{Result, ok, error}
use vehicle_detection_system.Common.Int.{ℤ, pos, to_size, of_size}
use vehicle_detection_system.Common.Double.{Double}
use vehicle_detection_system.Validation.{
  validate_non_empty_string, validate_positive_double, validate_int_min, first_failure,
}
use vehicle_detection_system.Clouds.{RoiBounds, EuclideanClusteringParams, VehicleSizeLimits}

pub record Snapshot (D : Type 0) : Type 0 where
  pub target_frame_id : Bytes
  pub voxel_leaf_size : D
  pub roi : RoiBounds D
  pub ground_distance_threshold : D
  pub clustering : EuclideanClusteringParams D
  pub vehicle_limits : VehicleSizeLimits D

-- The values of the parameters, as the node reads them at its start; those that name topics are left
-- out.
pub record Declared (D : Type 0) : Type 0 where
  pub target_frame_id : Bytes
  pub voxel_leaf_size : D
  pub roi_min_x : D
  pub roi_max_x : D
  pub roi_min_y : D
  pub roi_max_y : D
  pub roi_min_z : D
  pub roi_max_z : D
  pub ground_distance_threshold : D
  pub cluster_tolerance : D
  pub cluster_min_size : ℤ
  pub cluster_max_size : ℤ
  pub vehicle_min_length : D
  pub vehicle_max_length : D
  pub vehicle_min_width : D
  pub vehicle_max_width : D
  pub vehicle_min_height : D
  pub vehicle_max_height : D

-- A parameter of an update. rclcpp has checked that its value is of the declared type, so `as_double`
-- and the like return; a name that the callback does not handle is `other`.
pub data Parameter (D : Type 0) : Type 0 where
  target_frame_id other : Bytes → Parameter D
  voxel_leaf_size ground_distance_threshold cluster_tolerance : D → Parameter D
  roi_min_x roi_max_x roi_min_y roi_max_y roi_min_z roi_max_z : D → Parameter D
  cluster_min_size cluster_max_size : ℤ → Parameter D
  vehicle_min_length vehicle_max_length vehicle_min_width vehicle_max_width : D → Parameter D
  vehicle_min_height vehicle_max_height : D → Parameter D

module _ {D : Type 0} where
  unfoldable pub build_snapshot_from_parameters : Declared D → Snapshot D
  build_snapshot_from_parameters p = record {
    target_frame_id = p.target_frame_id;
    voxel_leaf_size = p.voxel_leaf_size;
    roi = record {
      min_x = p.roi_min_x;
      min_y = p.roi_min_y;
      min_z = p.roi_min_z;
      max_x = p.roi_max_x;
      max_y = p.roi_max_y;
      max_z = p.roi_max_z;
    };
    ground_distance_threshold = p.ground_distance_threshold;
    clustering = record {
      tolerance = p.cluster_tolerance;
      min_size = to_size p.cluster_min_size;
      max_size = to_size p.cluster_max_size;
    };
    vehicle_limits = record {
      min_length = p.vehicle_min_length;
      max_length = p.vehicle_max_length;
      min_width = p.vehicle_min_width;
      max_width = p.vehicle_max_width;
      min_height = p.vehicle_min_height;
      max_height = p.vehicle_max_height;
    };
  }

  unfoldable pub apply_parameter : Parameter D → Snapshot D → Snapshot D
  apply_parameter (target_frame_id v) s = record s { target_frame_id = v }
  apply_parameter (voxel_leaf_size v) s = record s { voxel_leaf_size = v }
  apply_parameter (roi_min_x v) s = record s { roi = record s.roi { min_x = v } }
  apply_parameter (roi_max_x v) s = record s { roi = record s.roi { max_x = v } }
  apply_parameter (roi_min_y v) s = record s { roi = record s.roi { min_y = v } }
  apply_parameter (roi_max_y v) s = record s { roi = record s.roi { max_y = v } }
  apply_parameter (roi_min_z v) s = record s { roi = record s.roi { min_z = v } }
  apply_parameter (roi_max_z v) s = record s { roi = record s.roi { max_z = v } }
  apply_parameter (ground_distance_threshold v) s = record s { ground_distance_threshold = v }
  apply_parameter (cluster_tolerance v) s = record s {
    clustering = record s.clustering { tolerance = v };
  }
  apply_parameter (cluster_min_size v) s = record s {
    clustering = record s.clustering { min_size = to_size v };
  }
  apply_parameter (cluster_max_size v) s = record s {
    clustering = record s.clustering { max_size = to_size v };
  }
  apply_parameter (vehicle_min_length v) s = record s {
    vehicle_limits = record s.vehicle_limits { min_length = v };
  }
  apply_parameter (vehicle_max_length v) s = record s {
    vehicle_limits = record s.vehicle_limits { max_length = v };
  }
  apply_parameter (vehicle_min_width v) s = record s {
    vehicle_limits = record s.vehicle_limits { min_width = v };
  }
  apply_parameter (vehicle_max_width v) s = record s {
    vehicle_limits = record s.vehicle_limits { max_width = v };
  }
  apply_parameter (vehicle_min_height v) s = record s {
    vehicle_limits = record s.vehicle_limits { min_height = v };
  }
  apply_parameter (vehicle_max_height v) s = record s {
    vehicle_limits = record s.vehicle_limits { max_height = v };
  }
  apply_parameter (other v) s = s

  unfoldable pub apply_parameters : List (Parameter D) → Snapshot D → Snapshot D
  unfolding apply_parameter
  apply_parameters [] s = s
  apply_parameters (p ∷ params) s = apply_parameters params (apply_parameter p s)

module _ {D : Type 0} ⦃d : Double D⦄ where
  -- `a >= b` of two doubles.
  abbrev ge : D → D → Bool
  ge a b = d.le b a

  -- The two tests of bounds behind the checks of single values.
  unfoldable pub roi_is_empty : RoiBounds D → Bool
  roi_is_empty roi = ge roi.min_x roi.max_x || ge roi.min_y roi.max_y || ge roi.min_z roi.max_z

  unfoldable pub limits_are_empty : VehicleSizeLimits D → Bool
  limits_are_empty limits =
      ge limits.min_length limits.max_length
      || ge limits.min_width limits.max_width
      || ge limits.min_height limits.max_height

  -- The checks, which the start and the parameter callback make in the same order: the first reason
  -- against a snapshot.
  unfoldable pub rejection : Snapshot D → Option Bytes
  unfolding first_failure roi_is_empty limits_are_empty
  rejection s =
      let checks = first_failure (
        validate_non_empty_string (codes "target_frame_id") s.target_frame_id
        ∷ validate_positive_double (codes "voxel_leaf_size") s.voxel_leaf_size
        ∷ validate_positive_double (codes "ground_distance_threshold") s.ground_distance_threshold
        ∷ validate_positive_double (codes "cluster_tolerance") s.clustering.tolerance
        ∷ validate_int_min (codes "cluster_min_size") (of_size s.clustering.min_size) (pos 1)
        ∷ validate_int_min (codes "cluster_max_size") (of_size s.clustering.max_size)
            (of_size s.clustering.min_size)
        ∷ []) in
      elim checks [
        | some reason ↦ some reason
        | none ↦
            if roi_is_empty s.roi
            then some (codes "ROI bounds must satisfy min_* < max_* on all axes")
            else if limits_are_empty s.vehicle_limits
            then some
                (codes "vehicle size bounds must satisfy min_* < max_* for length/width/height")
            else none
      ]

  -- `error` is a thrown `std::invalid_argument`.
  unfoldable pub enforce_initial_parameters : Snapshot D → Result {0} Unit
  unfolding rejection
  enforce_initial_parameters s = elim (rejection s) [ some reason ↦ error reason | none ↦ ok tt ]
