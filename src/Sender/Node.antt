-- ===== src/Sender/Node.antt =====
-- The node: its members, its callbacks, and the turns of its worker. Each runs by itself: the members
-- that two threads share are behind a mutex.
use vehicle_detection_system.Common.{
  ℕ, Bool, true, false, not, ◌||◌, Option, none, some, List, [], ◌∷◌, ◌++◌, Bytes, codes, ◌≟◌,
  if◌then◌else◌,
}
use vehicle_detection_system.Common.Results.{Result, ok, error, ◌>>=◌}
use vehicle_detection_system.Common.Double.{Double}
use vehicle_detection_system.Json.Serialize.{serialize_detections}
use vehicle_detection_system.Http.Post.{HttpPostResult, Script, failure}
use vehicle_detection_system.Writer.{Writer, new_writer, Files, configure, Delivery, append}
use vehicle_detection_system.Sender.Settings.{
  Snapshot, Declared, build_snapshot_from_parameters, rejection, enforce_initial_parameters,
  Parameter, apply_parameters, writer_config, send_mode_uses_topic, send_mode_uses_http,
}
use vehicle_detection_system.Sender.Messages.{Detection3DArray, to_json_payload}
use vehicle_detection_system.Sender.Queue.{enqueue_http}
use vehicle_detection_system.Sender.Worker.{total_attempts, post_loop}

-- `worker` is whether the thread has been started (`joinable`). `files` is what the disk holds and
-- `published` what went to the publisher.
pub record Node (D : Type 0) : Type 0 where
  pub snapshot : Snapshot
  pub queue : List Bytes
  pub stop_flag : Bool
  pub worker : Bool
  pub writer : Writer
  pub files : Files
  pub published : List (Detection3DArray D)

module _ {D : Type 0} where
  unfoldable pub ensure_http_worker_started : Bytes → Node D → Node D
  ensure_http_worker_started mode n =
      if not (send_mode_uses_http mode)
      then n
      else if n.worker
      then n
      else record n { worker = true }

  -- `opens` is whether the file opens.
  unfoldable pub apply_writer_config : Bool → Snapshot → Node D → Node D
  apply_writer_config opens s n = record n { writer = (configure opens (writer_config s)).1 }

  -- The constructor: the exception that it throws, or the node.
  unfoldable pub start : Bool → Declared → Files → Result (Node D)
  unfolding ensure_http_worker_started apply_writer_config
  start opens p files =
      let s = build_snapshot_from_parameters p in
      let fresh : Node D = record {
        snapshot = s;
        queue = [];
        stop_flag = false;
        worker = false;
        writer = new_writer;
        files = files;
        published = [];
      } in
      enforce_initial_parameters s >>= λ _.
      ok (ensure_http_worker_started s.send_mode (apply_writer_config opens s fresh))

  -- `result.successful` and `result.reason`, and the node afterwards.
  unfoldable pub on_parameter_change : Bool → List Parameter → Node D → Result {0} Unit × Node D
  unfolding ensure_http_worker_started apply_writer_config
  on_parameter_change opens params n =
      let (candidate, writer_inputs_changed) = apply_parameters params (n.snapshot, false) in
      let stored =
        ensure_http_worker_started candidate.send_mode (record n { snapshot = candidate }) in
      elim (rejection candidate) [
        | some reason ↦ (error reason, n)
        | none ↦ (
          ok tt,
          if writer_inputs_changed then apply_writer_config opens candidate stored else stored,
        )
      ]

  unfoldable pub take_front : List Bytes → Node D → Option Bytes × Node D
  take_front [] n = (none, n)
  take_front (front ∷ queue) n = (some front, record n { queue = queue })

  -- The worker's turn with the queue: the body that it takes. On `stop_flag` it drops what is left and
  -- returns; on an empty queue it goes on waiting.
  unfoldable pub take_body : Node D → Option Bytes × Node D
  unfolding take_front
  take_body n = if n.stop_flag then (none, record n { queue = [] }) else take_front n.queue n

  -- The destructor.
  unfoldable pub shut_down : Node D → Node D
  shut_down n = record n { stop_flag = true }

module _ {D : Type 0} ⦃d : Double D⦄ where
  unfoldable pub save : Delivery → Detection3DArray D → Node D → Node D
  save fate msg n =
      let (_, writer, files) = append fate (to_json_payload msg) n.writer n.files in
      if n.snapshot.save_results then record n { writer = writer; files = files } else n

  unfoldable pub on_detections : Delivery → Detection3DArray D → Node D → Node D
  unfolding save
  on_detections fate msg n =
      let saved = save fate msg n in
      let mode = n.snapshot.send_mode in
      let body = serialize_detections (to_json_payload msg) in
      let sent =
        (if send_mode_uses_topic mode
          then record saved { published = saved.published ++ (msg ∷ []) }
          else saved) in
      if mode ≟ codes "disabled"
      then saved
      else if send_mode_uses_http mode
      then record sent { queue = enqueue_http body sent.queue }
      else sent

-- What can happen to a node that has started. The two threads interleave in any order.
pub data Event (D : Type 0) : Type 0 where
  parameters : Bool → List Parameter → Event D
  detections : Delivery → Detection3DArray D → Event D
  worker_turn destroyed : Event D

module _ {D : Type 0} ⦃d : Double D⦄ where
  unfoldable pub step : Event D → Node D → Node D
  step (parameters opens params) n = (on_parameter_change opens params n).1
  step (detections fate msg) n = on_detections fate msg n
  step worker_turn n = (take_body n).1
  step destroyed n = shut_down n

  unfoldable pub run : List (Event D) → Node D → Node D
  unfolding step
  run [] n = n
  run (e ∷ events) n = run events (step e n)

-- What the worker does with a body. `result` is that of the last attempt.
pub data Posting : Type 0 where
  skipped overflows never_returns : Posting
  posted : HttpPostResult × ℕ → Posting

unfoldable pub post_body : (ℕ → Script) → Snapshot → Bytes → Posting
unfolding post_loop
post_body scripts s body =
    if not (send_mode_uses_http s.send_mode) || not s.http_url_valid
    then skipped
    else elim (total_attempts s.http_retry_count) [
      | none ↦ overflows
      | some attempts ↦ elim (post_loop scripts s.http_url body attempts 0 (failure [])) [
        | none ↦ never_returns
        | some out ↦ posted out
      ]
    ]
