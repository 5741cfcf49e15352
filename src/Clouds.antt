-- ===== src/Clouds.antt =====
-- src/vehicle_detection/src/point_cloud_processing.cpp and its header. The filters, the segmentation and
-- the clustering of PCL are members of the record `Pcl`. A null pointer to a cloud is an empty cloud,
-- which the code treats alike.
use vehicle_detection_system.Common.{
  ℕ, ◌+◌, ◌-◌, ◌^◌, ◌%◌, suc, Bool, true, false, not, ◌&&◌, Option, none, some, List, [], ◌∷◌,
  codes, is_empty, length, get_elem?, ltb, if◌then◌else◌,
}
use vehicle_detection_system.Common.Int.{ℤ, pos, negsuc}
use vehicle_detection_system.Common.Double.{Double, max, min}
pub mod Boxes
pub mod Region
pub mod Crop

-- The coordinates are `float`s, each of which is a `double`.
pub record Point (D : Type 0) : Type 0 where
  pub x : D
  pub y : D
  pub z : D

pub record AxisAlignedBox (D : Type 0) : Type 0 where
  pub min_x : D
  pub min_y : D
  pub min_z : D
  pub max_x : D
  pub max_y : D
  pub max_z : D

pub record VehicleBoxDimensions (D : Type 0) : Type 0 where
  pub length : D
  pub width : D
  pub height : D

pub record VehicleSizeLimits (D : Type 0) : Type 0 where
  pub min_length : D
  pub max_length : D
  pub min_width : D
  pub max_width : D
  pub min_height : D
  pub max_height : D

pub record RoiBounds (D : Type 0) : Type 0 where
  pub min_x : D
  pub min_y : D
  pub min_z : D
  pub max_x : D
  pub max_y : D
  pub max_z : D

pub record EuclideanClusteringParams (D : Type 0) : Type 0 where
  pub tolerance : D
  pub min_size : ℕ
  pub max_size : ℕ

pub record GroundRemovalResult (D : Type 0) : Type 0 where
  pub non_ground : List (Point D)
  pub ground : List (Point D)
  pub succeeded : Bool
  pub inliers : ℕ

-- `to_float` is the conversion to `float`; `segment` gives the inliers of the plane that RANSAC finds
-- within a distance and an angle of the vertical; `extract` the points of some indices, or all others.
pub record Pcl (D : Type 0) : Type 0 where
  pub to_float : D → D
  pub voxel_grid : D → List (Point D) → List (Point D)
  pub crop_box : Point D → Point D → List (Point D) → List (Point D)
  pub segment : D → D → List (Point D) → List ℕ
  pub extract : Bool → List ℕ → List (Point D) → List (Point D)
  pub cluster : D → ℤ → ℤ → List (Point D) → List (List ℤ)

-- `static_cast<int>` of a `std::size_t`.
unfoldable pub to_int : ℕ → ℤ
to_int n = if ltb (n % 2 ^ 32) (2 ^ 31) then pos (n % 2 ^ 32) else negsuc (2 ^ 32 - n % 2 ^ 32 - 1)

module _ {D : Type 0} ⦃d : Double D⦄ where
  unfoldable pub dx : AxisAlignedBox D → D
  dx box = d.sub box.max_x box.min_x

  unfoldable pub dy : AxisAlignedBox D → D
  dy box = d.sub box.max_y box.min_y

  unfoldable pub dz : AxisAlignedBox D → D
  dz box = d.sub box.max_z box.min_z

  abbrev half : D
  half = d.literal (codes "0.5")

  unfoldable pub cx : AxisAlignedBox D → D
  cx box = d.mul half (d.add box.min_x box.max_x)

  unfoldable pub cy : AxisAlignedBox D → D
  cy box = d.mul half (d.add box.min_y box.max_y)

  unfoldable pub cz : AxisAlignedBox D → D
  cz box = d.mul half (d.add box.min_z box.max_z)

  unfoldable pub compute_box_dimensions : AxisAlignedBox D → VehicleBoxDimensions D
  compute_box_dimensions box = record {
    length = max (dx box) (dy box);
    width = min (dx box) (dy box);
    height = dz box;
  }

  unfoldable pub is_passenger_vehicle : VehicleBoxDimensions D → VehicleSizeLimits D → Bool
  is_passenger_vehicle dim limits =
      d.le limits.min_length dim.length
      && d.le dim.length limits.max_length
      && d.le limits.min_width dim.width
      && d.le dim.width limits.max_width
      && d.le limits.min_height dim.height
      && d.le dim.height limits.max_height

  abbrev pub zero_double : D
  zero_double = d.literal (codes "0.0")

  module _ (pcl : Pcl D) where
    unfoldable pub voxel_downsample : List (Point D) → D → List (Point D)
    voxel_downsample input leaf_size =
        if is_empty input
        then []
        else if not (d.lt zero_double leaf_size)
        then input
        else pcl.voxel_grid (pcl.to_float leaf_size) input

    unfoldable pub crop_roi : List (Point D) → RoiBounds D → List (Point D)
    crop_roi input roi =
        let low : Point D = record {
          x = pcl.to_float roi.min_x;
          y = pcl.to_float roi.min_y;
          z = pcl.to_float roi.min_z;
        } in
        let high : Point D = record {
          x = pcl.to_float roi.max_x;
          y = pcl.to_float roi.max_y;
          z = pcl.to_float roi.max_z;
        } in
        if is_empty input then [] else pcl.crop_box low high input

    unfoldable pub remove_ground_plane : List (Point D) → D → ℕ → GroundRemovalResult D
    remove_ground_plane input distance_threshold skip_threshold =
        let nothing : GroundRemovalResult D = record {
          non_ground = [];
          ground = [];
          succeeded = false;
          inliers = 0;
        } in
        let inliers = pcl.segment distance_threshold (d.literal (codes "0.26")) input in
        if is_empty input
        then nothing
        else if ltb (length input) skip_threshold
        then record nothing { non_ground = input }
        else if is_empty inliers
        then record nothing { non_ground = input }
        else record {
          non_ground = pcl.extract true inliers input;
          ground = pcl.extract false inliers input;
          succeeded = true;
          inliers = length inliers;
        }

    unfoldable pub extract_clusters : List (Point D) → EuclideanClusteringParams D → List (List ℤ)
    extract_clusters input params =
        if is_empty input
        then []
        else pcl.cluster params.tolerance (to_int params.min_size) (to_int params.max_size) input

  -- The point of an index; `none` is the `continue`.
  unfoldable pub point_at : List (Point D) → ℤ → Option (Point D)
  point_at cloud (pos i) = get_elem? cloud i
  point_at cloud (negsuc i) = none

  unfoldable pub extend_box : Point D → AxisAlignedBox D → AxisAlignedBox D
  extend_box p box = record {
    min_x = min box.min_x p.x;
    min_y = min box.min_y p.y;
    min_z = min box.min_z p.z;
    max_x = max box.max_x p.x;
    max_y = max box.max_y p.y;
    max_z = max box.max_z p.z;
  }

  unfoldable pub extend_all : List (Point D) → List ℤ → AxisAlignedBox D → AxisAlignedBox D
  extend_all cloud [] box = box
  extend_all cloud (idx ∷ indices) box = elim (point_at cloud idx) [
    | none ↦ extend_all cloud indices box
    | some p ↦ extend_all cloud indices (extend_box p box)
  ]

  abbrev pub empty_box : AxisAlignedBox D
  empty_box = record {
    min_x = d.infinity;
    min_y = d.infinity;
    min_z = d.infinity;
    max_x = d.minus_infinity;
    max_y = d.minus_infinity;
    max_z = d.minus_infinity;
  }

  unfoldable pub compute_aabb : List (Point D) → List ℤ → AxisAlignedBox D
  compute_aabb cloud indices = extend_all cloud indices empty_box
