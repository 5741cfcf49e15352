-- ===== src/Detector/Main.antt =====
-- `main` of src/vehicle_detection/src/vehicle_detector_node.cpp. What the executor throws while it spins, if
-- anything, is an argument.
use vehicle_detection_system.Common.{ℕ}
use vehicle_detection_system.Common.Results.{Result, ok, error, ◌>>=◌}
use vehicle_detection_system.Common.Double.{Double}
use vehicle_detection_system.Detector.Settings.{Declared}
use vehicle_detection_system.Detector.Node.{Node, start}

-- The exit status.
unfoldable pub main : {D : Type 0} ⦃d : Double D⦄ → Declared D → (Node D → Result {0} Unit) → ℕ
unfolding start
main p spin = elim (start p >>= spin) [ error e ↦ 1 | ok _ ↦ 0 ]
