-- ===== src/Loader/Main.antt =====
-- `main` of src/vehicle_detection/src/pcd_loader_node.cpp. What the executor throws while it spins, if
-- anything, is an argument.
use vehicle_detection_system.Common.{ℕ}
use vehicle_detection_system.Common.Results.{Result, ok, error, ◌>>=◌}
use vehicle_detection_system.Common.Double.{Double}
use vehicle_detection_system.Playlist.Types.{FileSystem}
use vehicle_detection_system.Loader.{World, Loader, LoaderParameters, construct}

-- The exit status.
unfoldable pub main :
    {D Cloud Time : Type 0} ⦃d : Double D⦄
    → FileSystem
    → World Cloud Time
    → LoaderParameters D
    → (Loader Cloud Time → Result {0} Unit)
    → ℕ
unfolding construct
main fs w p spin = elim (construct fs w p >>= spin) [ error e ↦ 1 | ok _ ↦ 0 ]
