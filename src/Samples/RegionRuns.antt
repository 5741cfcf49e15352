-- ===== src/Samples/RegionRuns.antt =====
-- The detector at a filter that keeps what is in the box.
use vehicle_detection_system.Common.{
  ◌≡◌, refl, true, Bool, ◌&&◌, List, [], ◌⊎◌, All-weaken, keep, keep-passes, codes, arith,
}
use vehicle_detection_system.Clouds.{Point, Pcl}
use vehicle_detection_system.Clouds.Region.{IsInside, IsRegion}
use vehicle_detection_system.Clouds.Crop.{CropsWithin, ExtractsFrom}
use vehicle_detection_system.Detector.Settings.{build_snapshot_from_parameters}
use vehicle_detection_system.Detector.Messages.{Header}
use vehicle_detection_system.Detector.Node.{on_cloud}
use vehicle_detection_system.Detector.Reports.{report}
use vehicle_detection_system.Detector.Region.{
  low_corner, high_corner, IsInRegion, on_cloud-IsInRegion,
}
use vehicle_detection_system.Samples.Numbers.{Number, number_double, number-IsIeee}
use vehicle_detection_system.Samples.DetectorRuns.{detector, ros, pcl, message}

abbrev is_inside : Point Number → Point Number → Point Number → Bool
is_inside low high p =
    number_double.le low.x p.x
    && number_double.le p.x high.x
    && number_double.le low.y p.y
    && number_double.le p.y high.y
    && number_double.le low.z p.z
    && number_double.le p.z high.z

abbrev cropping : Pcl Number
cropping = record pcl { crop_box = λ low high points. keep (is_inside low high) points }

cropping-CropsWithin : CropsWithin cropping
cropping-CropsWithin low high points =
    All-weaken (λ p. is_inside low high p ≡ true) (IsInside low high) (λ p e. ground arith)
      (keep (is_inside low high) points) (keep-passes (is_inside low high) points)

cropping-ExtractsFrom : ExtractsFrom cropping
cropping-ExtractsFrom low high negative indices points h = h

region :
    IsRegion
      (low_corner number-IsIeee cropping detector.snapshot)
      (high_corner number-IsIeee cropping detector.snapshot)
unfolding build_snapshot_from_parameters
region = record {
  min_x = refl;
  max_x = refl;
  min_y = refl;
  max_y = refl;
  min_z = refl;
  max_z = refl;
}

on_cloud-IsInRegion_example :
    (on_cloud ros cropping detector (message (codes "map")) ≡ [])
    ⊎ ((header : Header) × (cloud : List (Point Number)) × (on_cloud ros cropping detector
            (message (codes "map"))
          ≡ report ros cropping detector.snapshot header cloud)
        × IsInRegion number-IsIeee cropping detector.snapshot cloud)
on_cloud-IsInRegion_example =
    on_cloud-IsInRegion number-IsIeee ros cropping detector (message (codes "map"))
      cropping-CropsWithin cropping-ExtractsFrom region
