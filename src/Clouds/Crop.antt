-- ===== src/Clouds/Crop.antt =====
-- The filters keep what is inside a region.
use vehicle_detection_system.Common.{
  Bool, true, List, [], All, is_empty, length, ltb, if_ind, ℕ, codes,
}
use vehicle_detection_system.Common.Double.{Double}
use vehicle_detection_system.Clouds.{
  Point, RoiBounds, GroundRemovalResult, Pcl, crop_roi, remove_ground_plane,
}
use vehicle_detection_system.Clouds.Region.{IsInside}

module _ {D : Type 0} ⦃d : Double D⦄ where
  -- What PCL documents of its box filter, and of the extraction of indices.
  abbrev pub CropsWithin : Pcl D → Type 0
  CropsWithin pcl =
      (low high : Point D) (points : List (Point D))
      → All (IsInside low high) (pcl.crop_box low high points)

  abbrev pub ExtractsFrom : Pcl D → Type 0
  ExtractsFrom pcl =
      (low high : Point D) (negative : Bool) (indices : List ℕ) (points : List (Point D))
      → All (IsInside low high) points
      → All (IsInside low high) (pcl.extract negative indices points)

  module _ (pcl : Pcl D) where
    abbrev pub low_of : RoiBounds D → Point D
    low_of roi = record {
      x = pcl.to_float roi.min_x;
      y = pcl.to_float roi.min_y;
      z = pcl.to_float roi.min_z;
    }

    abbrev pub high_of : RoiBounds D → Point D
    high_of roi = record {
      x = pcl.to_float roi.max_x;
      y = pcl.to_float roi.max_y;
      z = pcl.to_float roi.max_z;
    }

    pub crop_roi-IsInside :
        (input : List (Point D)) (roi : RoiBounds D)
        → CropsWithin pcl
        → All (IsInside (low_of roi) (high_of roi)) (crop_roi pcl input roi)
    unfolding crop_roi
    crop_roi-IsInside input roi crops =
        if_ind (All (IsInside (low_of roi) (high_of roi))) (is_empty input) []
          (pcl.crop_box (low_of roi) (high_of roi) input) (λ e. tt)
          (λ e. crops (low_of roi) (high_of roi) input)

    pub remove_ground_plane-IsInside :
        (low high : Point D) (input : List (Point D)) (threshold : D) (skip : ℕ)
        → ExtractsFrom pcl
        → All (IsInside low high) input
        → All (IsInside low high) (remove_ground_plane pcl input threshold skip).non_ground
    unfolding remove_ground_plane
    remove_ground_plane-IsInside low high input threshold skip extracts h =
        let inliers = pcl.segment threshold (d.literal (codes "0.26")) input in
        let holds : GroundRemovalResult D → Type 0 = λ r. All (IsInside low high) r.non_ground in
        if_ind holds (is_empty input) _ _ (λ e. tt)
          (λ e.
            if_ind holds (ltb (length input) skip) _ _ (λ small. h)
              (λ large.
                if_ind holds (is_empty inliers) _ _ (λ none_found. h)
                  (λ found. extracts low high true inliers input h)))
