-- ===== src/Samples/ReceivedRuns.antt =====
-- From a cloud of two clusters to what the server reads.
use vehicle_detection_system.Common.{
  All, ℕ, ◌≡◌, refl, true, some, List, [], ◌∷◌, Bytes, codes, get_elem?, arith, decimal, stream,
}
use vehicle_detection_system.Common.Double.{max, min}
use vehicle_detection_system.Common.Int.{pos, show_ℤ, to_size}
use vehicle_detection_system.Common.Search.{find, find_crlf}
use vehicle_detection_system.Json.Serialize.{
  serialize_detections, serialize_items, serialize_item, format_double,
}
use vehicle_detection_system.Json.Escape.{escape_json_string}
use vehicle_detection_system.Json.Timestamp.{format_iso8601_utc}
use vehicle_detection_system.Http.Status.{parse_status_line}
use vehicle_detection_system.Http.Post.{Script, http_post_json}
use vehicle_detection_system.Writer.{delivered, append}
use vehicle_detection_system.Clouds.{
  Point, extract_clusters, remove_ground_plane, crop_roi, voxel_downsample, is_passenger_vehicle,
  compute_box_dimensions, dx, dy, dz, cx, cy, cz, compute_aabb, extend_all, point_at, extend_box,
}
use vehicle_detection_system.Sender.Settings.{send_mode_uses_http, send_mode_uses_topic}
use vehicle_detection_system.Sender.Messages.{to_json_payload, to_json_item}
use vehicle_detection_system.Sender.Queue.{enqueue_http}
use vehicle_detection_system.Sender.Worker.{total_attempts}
use vehicle_detection_system.Sender.Node as Sender
use vehicle_detection_system.Sender.Node.{
  step, take_body, worker_turn, post_body, posted, on_detections, save,
}
use vehicle_detection_system.Sender.Texts.{Brings}
use vehicle_detection_system.Sender.Trace.{events_of, events_by}
use vehicle_detection_system.Sender.Thread.{
  System, Outcome, idle, holding, posting, started, worker_move, receives, works, IsReachable,
  begins, moves, is_woken, after_wait, after_post,
}
use vehicle_detection_system.Sender.Posted.{IsDelivered}
use vehicle_detection_system.Json.PayloadText.{IsPrintable}
use vehicle_detection_system.Detector.Settings.{build_snapshot_from_parameters}
use vehicle_detection_system.Detector.Messages.{
  Publication, detections, Detection3DArray, make_detection,
}
use vehicle_detection_system.Detector.Node.{on_cloud}
use vehicle_detection_system.Detector.Delivered.{IsOfVehicles, received, detection, hypothesis}
use vehicle_detection_system.Detector.Received.{IsDetected, outcome-IsOfVehicles}
use vehicle_detection_system.Samples.HttpRuns.{script, good}
use vehicle_detection_system.Samples.SenderRuns.{declared, first_node, starts}
use vehicle_detection_system.Samples.DetectorRuns.{ros, pcl, detector, message}
use vehicle_detection_system.Samples.Numbers.{
  Number, number_double, number-PrintsFixed, number_fixed6,
}

abbrev nothing : Detection3DArray Number
nothing = record { header = record { sec = pos 0; nanosec = 0; frame_id = [] }; detections = [] }

abbrev array_in : List (Publication Number (List (Point Number))) → Detection3DArray Number
array_in [] = nothing
array_in (detections array ∷ rest) = array
array_in (_ ∷ rest) = array_in rest

-- What the detector publishes for the cloud.
abbrev found : Detection3DArray Number
found = array_in (on_cloud ros pcl detector (message (codes "map")))

publishes :
    get_elem? (on_cloud ros pcl detector (message (codes "map"))) 2 ≡ some (detections found)
unfolding on_cloud build_snapshot_from_parameters
publishes = refl

short : IsPrintable (to_json_payload (received found))
unfolding received on_cloud build_snapshot_from_parameters extract_clusters remove_ground_plane
    crop_roi voxel_downsample to_size is_passenger_vehicle compute_box_dimensions max dx
    compute_aabb extend_all point_at extend_box min dy dz make_detection cx cy cz decimal
    number_fixed6 show_ℤ to_json_item to_json_payload hypothesis detection
short = omega arith

is_detected : IsDetected ros pcl detector (received found)
unfolding received on_cloud build_snapshot_from_parameters
is_detected = record {
  cloud = message (codes "map");
  place = 2;
  array = found;
  published = publishes;
  same = refl;
  sendable = ((omega arith, omega arith), short);
}

abbrev body : Bytes
body = serialize_detections (to_json_payload (received found))

-- The sender after the message, and after the worker has taken its body.
abbrev told : Sender.Node Number
told = on_detections delivered (received found) first_node

abbrev emptied : Sender.Node Number
emptied = record told { queue = [] }

abbrev scripts : ℕ → Script
scripts i = script

takes :
    worker_move scripts (record { node = told; phase = idle; outcomes = [] })
    ≡ some (record { node = emptied; phase = holding body; outcomes = [] })
unfolding worker_move is_woken after_wait take_body on_detections save append enqueue_http
    send_mode_uses_http send_mode_uses_topic
takes = refl

abbrev at_work : System Number
at_work = record { node = emptied; phase = posting body first_node.snapshot; outcomes = [] }

copies :
    worker_move scripts (record { node = emptied; phase = holding body; outcomes = [] })
    ≡ some at_work
unfolding worker_move on_detections save send_mode_uses_http send_mode_uses_topic
copies = refl

abbrev outcome_of : Outcome
outcome_of = record {
  body = body;
  snapshot = first_node.snapshot;
  scripts = scripts;
  posting = posted (good, 1);
}

abbrev at_rest : System Number
at_rest = record { node = emptied; phase = idle; outcomes = outcome_of ∷ [] }

posts : worker_move scripts at_work ≡ some at_rest
unfolding worker_move after_post on_detections save send_mode_uses_topic post_body http_post_json
    parse_status_line find_crlf find total_attempts send_mode_uses_http serialize_detections
    to_json_payload stream escape_json_string format_iso8601_utc serialize_items received on_cloud
    build_snapshot_from_parameters extract_clusters remove_ground_plane crop_roi voxel_downsample
    to_size is_passenger_vehicle compute_box_dimensions max dx compute_aabb extend_all point_at
    extend_box min dy dz make_detection cx cy cz decimal serialize_item format_double number_fixed6
    show_ℤ to_json_item hypothesis detection
posts = refl

reached : IsReachable at_rest
reached =
    moves
      (moves
        (moves
          (moves (begins true declared (λ path. []) starts)
            (receives delivered (received found) (started first_node)))
          (works scripts takes))
        (works scripts copies))
      (works scripts posts)

brings : All (Brings (IsDetected ros pcl detector)) (events_of reached)
unfolding events_of events_by reached
brings = (is_detected, (tt, tt))

outcome-IsOfVehicles_example :
    (it : IsDelivered number-PrintsFixed
      (IsDetected ros pcl detector)
      (λ m h. h.sendable)
      outcome_of
      good
      1)
    × IsOfVehicles detector.snapshot (to_json_payload it.message)
outcome-IsOfVehicles_example =
    outcome-IsOfVehicles ros pcl detector number-PrintsFixed reached 0 brings refl refl refl
      (omega arith)
