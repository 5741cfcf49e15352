-- ===== src/Sender/Main.antt =====
-- `main` of src/vehicle_detection/src/detection_sender_node.cpp. What happens while the executor spins is an
-- argument: the exception that it throws, if any, and the node afterwards.
use vehicle_detection_system.Common.{ℕ, Bool, Option, none, some}
use vehicle_detection_system.Common.Results.{Result, ok, error}
use vehicle_detection_system.Writer.{Files}
use vehicle_detection_system.Sender.Settings.{Declared}
use vehicle_detection_system.Sender.Node.{Node, start, shut_down}

-- The exit status, and the node that was destroyed, if there was one.
unfoldable pub main :
    {D : Type 0}
    → Bool
    → Declared
    → Files
    → (Node D → Result {0} Unit × Node D)
    → ℕ × Option (Node D)
unfolding start shut_down
main opens p files spin = elim (start opens p files) [
  | error e ↦ (1, none)
  | ok node ↦
      let (outcome, n) = spin node in
      elim outcome [ error e ↦ (1, some (shut_down n)) | ok _ ↦ (0, some (shut_down n)) ]
]
