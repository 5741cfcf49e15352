-- ===== src/Samples/DeliveryRuns.antt =====
-- The theorems on what the worker takes and posts, at a few events and one server.
use mathlib.Core.List.{Sublist}
use vehicle_detection_system.Sender.Quiet.{IsQuiet, messages}
use vehicle_detection_system.Sender.Saved.{text_of, run_saves}
use vehicle_detection_system.Writer.Lines.{lines, split_lines}
use vehicle_detection_system.Writer.{is_open}
use vehicle_detection_system.Samples.Numbers.{number-PrintsPlain}
use vehicle_detection_system.Samples.SenderRuns.{declared, starts}
use vehicle_detection_system.Sender.Node.{parameters}
use vehicle_detection_system.Sender.Settings.{send_mode}
use vehicle_detection_system.Common.{
  true, false, map, All, ◌≡◌, refl, some, List, [], ◌∷◌, ◌++◌, codes, arith,
}
use vehicle_detection_system.Http.Post.{request}
use vehicle_detection_system.Http.Reader.{read_request, read_request-request, first_line, host_of}
use vehicle_detection_system.Writer.{delivered, append}
use vehicle_detection_system.Sender.Settings.{send_mode_uses_http, send_mode_uses_topic}
use vehicle_detection_system.Sender.Queue.{enqueue_http}
use vehicle_detection_system.Sender.Node.{
  step, take_body, Event, detections, worker_turn, destroyed, run, on_detections, save,
}
use vehicle_detection_system.Sender.History.{offered, taken}
use vehicle_detection_system.Sender.Order.{run-Sublist}
use vehicle_detection_system.Sender.Room.{run_loses_nothing, taken_after_destroyed}
use vehicle_detection_system.Samples.HttpRuns.{target}
use vehicle_detection_system.Samples.SenderRuns.{first_node, message, events}
use vehicle_detection_system.Samples.Numbers.{Number, number_double}

read_request-request_example :
    read_request 9 (request target (codes "{}") ++ codes "POST")
    ≡ some (
      record { request_line = first_line target; host = host_of target; body = codes "{}" },
      codes "POST",
    )
read_request-request_example =
    read_request-request target (codes "{}") 9 (codes "POST") (omega arith) (omega arith)

run-Sublist_example :
    Sublist
      (taken events first_node ++ (run events first_node).queue)
      ([] ++ offered events first_node)
run-Sublist_example = run-Sublist events first_node

abbrev busy : List (Event Number)
busy =
    detections delivered message
    ∷ detections delivered message
    ∷ worker_turn
    ∷ detections delivered message
    ∷ []

run_loses_nothing_example :
    taken busy first_node ++ (run busy first_node).queue ≡ [] ++ offered busy first_node
unfolding run step take_body on_detections enqueue_http save append send_mode_uses_http
    send_mode_uses_topic
run_loses_nothing_example = run_loses_nothing busy first_node refl (omega arith)

taken_after_destroyed_example : taken (destroyed ∷ busy) first_node ≡ []
taken_after_destroyed_example = taken_after_destroyed busy first_node

-- The mode is switched off, and the node is destroyed.
abbrev quiet : List (Event Number)
quiet =
    detections delivered message
    ∷ parameters false (send_mode (codes "disabled") ∷ [])
    ∷ worker_turn
    ∷ detections delivered message
    ∷ destroyed
    ∷ []

quiet-IsQuiet : All IsQuiet quiet
quiet-IsQuiet = (refl, ((tt, tt), (tt, (refl, (tt, tt)))))

run_saves_example :
    lines ((run quiet first_node).files (codes "/r")) ≡ (map text_of (messages quiet), [])
unfolding is_open split_lines
run_saves_example =
    run_saves number-PrintsPlain true declared (λ path. []) [] quiet starts refl refl refl
      quiet-IsQuiet
