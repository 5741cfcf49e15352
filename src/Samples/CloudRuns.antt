-- ===== src/Samples/CloudRuns.antt =====
-- The box of a small cluster.
use vehicle_detection_system.Common.{List, [], ◌∷◌, All}
use vehicle_detection_system.Common.Int.{ℤ, pos, negsuc}
use vehicle_detection_system.Clouds.{Point, compute_aabb}
use vehicle_detection_system.Clouds.Boxes.{Holds, used, compute_aabb-Holds}
use vehicle_detection_system.Samples.Numbers.{Number, num, nan, number_double, number-IsIeee}

abbrev cloud : List (Point Number)
cloud =
    record { x = num (pos 3); y = num (negsuc 4); z = nan }
    ∷ record { x = num (pos 1); y = num (pos 2); z = num (pos 5) }
    ∷ []

abbrev indices : List ℤ
indices = pos 1 ∷ pos 7 ∷ negsuc 0 ∷ pos 0 ∷ []

compute_aabb-Holds_example :
    All (Holds number-IsIeee (compute_aabb cloud indices)) (used number-IsIeee cloud indices)
compute_aabb-Holds_example = compute_aabb-Holds number-IsIeee cloud indices
