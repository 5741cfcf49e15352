-- ===== src/Detector/Region.antt =====
-- The region of the points and of the boxes that are published.
use vehicle_detection_system.Common.{◌≡◌, List, [], ◌∷◌, All, ◌⊎◌, inl, inr}
use vehicle_detection_system.Common.Int.{ℤ}
use vehicle_detection_system.Common.Double.{Double, IsIeee}
use vehicle_detection_system.Clouds.{Point, Pcl, extract_clusters, compute_aabb, voxel_downsample}
use vehicle_detection_system.Clouds.Boxes.{used}
use vehicle_detection_system.Clouds.Region.{IsInside, IsEnclosed, IsRegion, compute_aabb-IsEnclosed}
use vehicle_detection_system.Clouds.Crop.{
  CropsWithin, ExtractsFrom, low_of, high_of, crop_roi-IsInside, remove_ground_plane-IsInside,
}
use vehicle_detection_system.Detector.Settings.{Snapshot}
use vehicle_detection_system.Detector.Messages.{Header, PointCloud2}
use vehicle_detection_system.Detector.Node.{Ros, Node, on_cloud, filter_points}
use vehicle_detection_system.Detector.Reports.{report, on_cloud-Implements}

module _ {D : Type 0} ⦃d : Double D⦄ (ieee : IsIeee D) where
  clusters-IsEnclosed :
      (low high : Point D) (cloud : List (Point D)) (clusters : List (List ℤ))
      → IsRegion low high
      → All (IsInside low high) cloud
      → All
          (λ indices.
            All (IsEnclosed low high (compute_aabb cloud indices)) (used ieee cloud indices))
          clusters
  clusters-IsEnclosed low high cloud [] region inside = tt
  clusters-IsEnclosed low high cloud (indices ∷ clusters) region inside = (
    compute_aabb-IsEnclosed ieee low high cloud indices region inside,
    clusters-IsEnclosed low high cloud clusters region inside,
  )

  module _ (pcl : Pcl D) (snap : Snapshot D) where
    -- The corners of the region of interest, rounded to `float`, as PCL gets them.
    abbrev pub low_corner : Point D
    low_corner = low_of pcl snap.roi

    abbrev pub high_corner : Point D
    high_corner = high_of pcl snap.roi

    filter_points-IsInside :
        (cloud : List (Point D))
        → CropsWithin pcl
        → ExtractsFrom pcl
        → All (IsInside low_corner high_corner) (filter_points pcl snap cloud)
    unfolding filter_points
    filter_points-IsInside cloud crops extracts =
        remove_ground_plane-IsInside pcl low_corner high_corner _ _ _ extracts
          (crop_roi-IsInside pcl (voxel_downsample pcl cloud snap.voxel_leaf_size) snap.roi crops)

    -- The points that are clustered lie between the corners. On each axis, the box of each cluster lies
    -- between them too, and around each point that the cluster names.
    pub record IsInRegion (cloud : List (Point D)) : Type 0 where
      pub points : All (IsInside low_corner high_corner) (filter_points pcl snap cloud)
      pub clusters :
          let filtered = filter_points pcl snap cloud in
          All
            (λ indices.
              All
                (IsEnclosed low_corner high_corner (compute_aabb filtered indices))
                (used ieee filtered indices))
            (extract_clusters pcl filtered snap.clustering)

  -- With the order of IEEE 754, where PCL's box filter keeps points of the box only, its extraction only
  -- points that it is given, and the corners of the region compare with the infinities as numbers do, the
  -- node publishes nothing or the report of a cloud of which all filtered points lie between the corners
  -- of the region of interest, which are its bounds rounded to `float`; and on each axis, for each point
  -- that a cluster names, the cluster's box goes from the lower corner or above it to the upper corner or
  -- below it, and has the point.
  pub on_cloud-IsInRegion :
      {C T : Type 0} (ros : Ros D C T) (pcl : Pcl D) (n : Node D) (msg : PointCloud2 C)
      → CropsWithin pcl
      → ExtractsFrom pcl
      → IsRegion (low_corner pcl n.snapshot) (high_corner pcl n.snapshot)
      → (on_cloud ros pcl n msg ≡ [])
        ⊎ ((header : Header) × (cloud : List (Point D)) × (on_cloud ros pcl n msg
              ≡ report ros pcl n.snapshot header cloud)
            × IsInRegion pcl n.snapshot cloud)
  on_cloud-IsInRegion ros pcl n msg crops extracts region =
      elim (on_cloud-Implements ros pcl n msg) [
        | inl (lost, e) ↦ inl e
        | inr (m, located, e) ↦
            let cloud = ros.from_ros_msg m in
            let inside = filter_points-IsInside pcl n.snapshot cloud crops extracts in
            inr (
              _,
              cloud,
              e,
              record { points = inside; clusters = clusters-IsEnclosed _ _ _ _ region inside },
            )
      ]
