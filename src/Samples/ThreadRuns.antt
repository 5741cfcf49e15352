-- ===== src/Samples/ThreadRuns.antt =====
-- The theorems on the worker's thread and on `main`, at one message and at a bridge without a page.
use vehicle_detection_system.Sender.Texts.{Brings}
use vehicle_detection_system.Common.{
  All, arith, ℕ, ◌≡◌, refl, true, ◌&&◌, some, none, [], ◌∷◌, Bytes, codes, is_empty, decimal,
  stream, if◌then◌else◌,
}
use vehicle_detection_system.Common.Results.{ok, error}
use vehicle_detection_system.Common.Int.{pos, ◌≤ℤ◌}
use vehicle_detection_system.Common.Search.{find, find_crlf}
use vehicle_detection_system.Json.Escape.{escape_json_string}
use vehicle_detection_system.Json.Serialize.{serialize_detections, serialize_items}
use vehicle_detection_system.Json.Timestamp.{format_iso8601_utc}
use vehicle_detection_system.Http.Url.{parsed}
use vehicle_detection_system.Http.Status.{parse_status_line}
use vehicle_detection_system.Http.Post.{Script, http_post_json}
use vehicle_detection_system.Writer.{delivered, append}
use vehicle_detection_system.Sender.Settings.{send_mode_uses_http, send_mode_uses_topic}
use vehicle_detection_system.Sender.Messages.{to_json_payload}
use vehicle_detection_system.Sender.Queue.{enqueue_http}
use vehicle_detection_system.Sender.Worker.{total_attempts}
use vehicle_detection_system.Sender.Node.{Node, on_detections, save, take_body, post_body}
use vehicle_detection_system.Sender.Thread.{
  Outcome, after_post, System, idle, holding, posting, started, worker_move, receives, works,
  IsReachable, begins, moves, is_woken, after_wait,
}
use vehicle_detection_system.Sender.Join.{is_answer, IsJoined, stop-IsJoined}
use vehicle_detection_system.Sender.Posts.{posting-IsFit}
use vehicle_detection_system.Sender.Trace.{
  first_of, events_of, events_by, IsExplained, reachable-IsExplained,
}
use vehicle_detection_system.Sender.Posted.{IsSendable, IsDelivered, outcome-IsReceived}
use vehicle_detection_system.Sender.Node.{posted}
use vehicle_detection_system.Samples.HttpRuns.{good}
use vehicle_detection_system.Samples.Numbers.{number-PrintsFixed}
use vehicle_detection_system.Bridge.Node.{Installation, Declared, construct}
use vehicle_detection_system.Bridge.Server.{fresh_server}
use vehicle_detection_system.Bridge.Main.{binds, main, main_lem}
use vehicle_detection_system.Samples.HttpRuns.{script}
use vehicle_detection_system.Samples.SenderRuns.{declared, first_node, starts, message}
use vehicle_detection_system.Samples.Numbers.{Number, number_double}

abbrev body : Bytes
body = serialize_detections (to_json_payload message)

-- The node after the message, and after the worker has taken its body.
abbrev told : Node Number
told = on_detections delivered message first_node

abbrev emptied : Node Number
emptied = record told { queue = [] }

abbrev scripts : ℕ → Script
scripts i = script

takes :
    worker_move scripts (record { node = told; phase = idle; outcomes = [] })
    ≡ some (record { node = emptied; phase = holding body; outcomes = [] })
unfolding worker_move is_woken after_wait take_body on_detections save append enqueue_http
    send_mode_uses_http send_mode_uses_topic
takes = refl

abbrev at_work : System Number
at_work = record { node = emptied; phase = posting body first_node.snapshot; outcomes = [] }

copies :
    worker_move scripts (record { node = emptied; phase = holding body; outcomes = [] })
    ≡ some at_work
unfolding worker_move on_detections save send_mode_uses_http send_mode_uses_topic
copies = refl

at_work-IsReachable : IsReachable at_work
at_work-IsReachable =
    moves
      (moves
        (moves (begins true declared (λ path. []) starts)
          (receives delivered message (started first_node)))
        (works scripts takes))
      (works scripts copies)

posting-IsFit_example :
    (pos 1 ≤ℤ first_node.snapshot.http_timeout_ms)
    × (pos 0 ≤ℤ first_node.snapshot.http_retry_count)
    × (if send_mode_uses_http first_node.snapshot.send_mode
        then parsed first_node.snapshot.http_endpoint_url ≡ some first_node.snapshot.http_url
        else Unit)
posting-IsFit_example = posting-IsFit at_work body first_node.snapshot at_work-IsReachable refl

-- The attempts succeed at once.
abbrev outcome_of : Outcome
outcome_of = record {
  body = body;
  snapshot = first_node.snapshot;
  scripts = scripts;
  posting = posted (good, 1);
}

abbrev at_rest : System Number
at_rest = record { node = emptied; phase = idle; outcomes = outcome_of ∷ [] }

posts : worker_move scripts at_work ≡ some at_rest
unfolding worker_move after_post post_body http_post_json parse_status_line find_crlf find
    total_attempts send_mode_uses_http serialize_detections to_json_payload stream
    escape_json_string format_iso8601_utc serialize_items decimal on_detections save
    send_mode_uses_topic
posts = refl

at_rest-IsReachable : IsReachable at_rest
at_rest-IsReachable = moves at_work-IsReachable (works scripts posts)

reachable-IsExplained_example :
    IsExplained at_rest (first_of at_rest-IsReachable) (events_of at_rest-IsReachable)
reachable-IsExplained_example = reachable-IsExplained at_rest-IsReachable

brings : All (Brings IsSendable) (events_of at_rest-IsReachable)
unfolding events_of events_by at_rest-IsReachable at_work-IsReachable to_json_payload
brings = ((omega arith, tt), (tt, tt))

outcome-IsReceived_example : IsDelivered number-PrintsFixed IsSendable (λ m h. h) outcome_of good 1
outcome-IsReceived_example =
    outcome-IsReceived number-PrintsFixed IsSendable (λ m h. h) at_rest-IsReachable 0 brings refl
      refl refl (omega arith)

-- The destructor runs during the attempts.
abbrev stopping : System Number
stopping = record {
  node = record first_node { stop_flag = true };
  phase = posting body first_node.snapshot;
  outcomes = [];
}

answers : is_answer (post_body scripts first_node.snapshot body) ≡ true
unfolding is_answer post_body http_post_json parse_status_line find_crlf find total_attempts
    send_mode_uses_http serialize_detections to_json_payload stream escape_json_string
    format_iso8601_utc serialize_items decimal
answers = refl

stop-IsJoined_example : IsJoined scripts stopping
stop-IsJoined_example = stop-IsJoined scripts stopping refl refl answers

-- A package with its page.
abbrev files : Installation
files = record {
  get_package_share_directory = ok (codes "/share");
  append_path = λ base name. base;
  open_file = λ path. some (codes "<html>");
}

abbrev parameters : Declared
parameters = record {
  gui_port = pos 8081;
  host = codes "127.0.0.1";
  target_nodes = codes "/d" ∷ [];
  web_root = [];
  service_timeout_ms = pos 1500;
  service_ready_timeout_ms = pos 200;
}

main_lem_example : main files parameters (binds ∷ []) true ≡ (elim (construct files parameters) [
  | error e ↦ some (1, fresh_server)
  | ok node ↦ if is_empty (binds ∷ []) && true then none else some (0, fresh_server)
])
main_lem_example = main_lem files parameters (binds ∷ []) true
