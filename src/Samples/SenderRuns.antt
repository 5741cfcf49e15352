-- ===== src/Samples/SenderRuns.antt =====
-- The theorems on the sender at a concrete configuration and a few events.
use vehicle_detection_system.Common.{
  ◌⊎◌, ◌≤◌, ℕ, zero, suc, ◌≡◌, ◌<◌, ◌-◌, refl, true, false, some, List, [], ◌∷◌, Bytes, codes,
  length, drop, inl,
}
use vehicle_detection_system.Common.Results.{ok}
use vehicle_detection_system.Common.Int.{pos}
use vehicle_detection_system.Http.Url.{
  parse_http_url, parsed, split_path, with_path, split_authority,
}
use vehicle_detection_system.Http.Post.{HttpPostResult, Script, http_post_json, failure}
use vehicle_detection_system.Common.Search.{find, rfind}
use vehicle_detection_system.Validation.{validate_int_min}
use vehicle_detection_system.Writer.{
  delivered, flush_failed, configure, json_lines, parse_detection_result_format,
}
use vehicle_detection_system.Sender.Settings.{
  Snapshot, Declared, enforce_initial_parameters, build_snapshot_from_parameters, writer_config,
  send_mode, http_retry_count, save_results,
}
use vehicle_detection_system.Sender.Messages.{Detection3DArray}
use vehicle_detection_system.Sender.Queue.{enqueue_all, enqueue_all_lem, max_queue_size}
use vehicle_detection_system.Sender.Worker.{post_loop, post_loop_lem}
use vehicle_detection_system.Sender.Node.{
  Node, start, run, Event, parameters, detections, worker_turn, destroyed,
}
use vehicle_detection_system.Sender.Soundness.{IsSound}
use vehicle_detection_system.Sender.NodeLaws.{run_from_start-IsSound}
use vehicle_detection_system.Samples.HttpRuns.{script, target, good, returns_good}
use vehicle_detection_system.Samples.Numbers.{Number, number_double}

abbrev bodies : List Bytes
bodies = codes "a" ∷ codes "b" ∷ codes "c" ∷ []

enqueue_all_lem_example : enqueue_all bodies [] ≡ drop (length bodies - max_queue_size) bodies
enqueue_all_lem_example = enqueue_all_lem bodies

abbrev pub settings : Snapshot
settings = record {
  send_mode = codes "http";
  http_endpoint_url = codes "http://h:8080/d";
  http_url = target;
  http_url_valid = true;
  http_timeout_ms = pos 100;
  http_retry_count = pos 2;
  http_auth_type = codes "none";
  save_results = true;
  result_output_path = codes "/r";
  result_output_format = codes "jsonl";
}

-- Every name look-up fails, so every attempt does.
abbrev unresolved : ℕ → Script
unresolved i = record { getaddrinfo = inl (codes "no such host"); sends = []; recvs = [] }

abbrev refused : HttpPostResult
refused = failure (codes "getaddrinfo(): no such host")

refuses : (i : ℕ) → (http_post_json (unresolved i) target (codes "{}")).result ≡ some refused
unfolding http_post_json
refuses i = refl

-- The second attempt finds the server.
abbrev mixed : ℕ → Script
mixed zero = unresolved zero
mixed (suc i) = script

abbrev answers : ℕ → HttpPostResult
answers zero = refused
answers (suc i) = good

answered : (i : ℕ) → (http_post_json (mixed i) target (codes "{}")).result ≡ some (answers i)
answered zero = refuses zero
answered (suc i) = returns_good

post_loop_lem_example :
    (k : ℕ) × (k ≤ 2)
    × ((m : ℕ) → m < k → (answers m).ok ≡ false)
    × (((answers k).ok ≡ true) ⊎ (k ≡ 2))
    × (post_loop mixed target (codes "{}") 3 0 (failure []) ≡ some (answers k, suc k))
post_loop_lem_example = post_loop_lem mixed target (codes "{}") answers answered 2 (failure [])

abbrev pub declared : Declared
declared = record {
  send_mode = codes "both";
  http_endpoint_url = codes "http://h:8080/d";
  http_timeout_ms = pos 100;
  http_retry_count = pos 2;
  http_auth_type = codes "none";
  save_results = true;
  result_output_path = codes "/r";
  result_output_format = codes "jsonl";
}

abbrev pub first_node : Node Number
first_node = record {
  snapshot = record settings { send_mode = codes "both" };
  queue = [];
  stop_flag = false;
  worker = true;
  writer = record {
    enabled = true;
    format = json_lines;
    path = codes "/r";
    out = some (codes "/r");
    last_error = [];
  };
  files = λ path. [];
  published = [];
}

pub starts : start true declared (λ path. []) ≡ ok first_node
unfolding start enforce_initial_parameters build_snapshot_from_parameters validate_int_min
    parse_http_url parsed split_path find with_path split_authority rfind
    parse_detection_result_format configure writer_config
starts = refl

abbrev pub message : Detection3DArray Number
message = record { sec = pos 1; nanosec = 0; frame_id = codes "lidar"; detections = [] }

abbrev pub events : List (Event Number)
events =
    detections delivered message
    ∷ worker_turn
    ∷ parameters false (send_mode (codes "disabled") ∷ http_retry_count (pos 0) ∷ [])
    ∷ detections (flush_failed 4) message
    ∷ parameters false (save_results true ∷ [])
    ∷ destroyed
    ∷ worker_turn
    ∷ []

run_from_start-IsSound_example : IsSound (run events first_node)
run_from_start-IsSound_example = run_from_start-IsSound true declared (λ path. []) events starts
