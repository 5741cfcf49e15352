-- ===== src/Sender/NodeLaws.antt =====
-- What holds of the node in every state that its callbacks and its worker bring about.
use vehicle_detection_system.Common.{
  if_ind, ◌++◌, ◌≟◌, codes, ◌≤◌, ◌≡◌, Bool, none, List, [], ◌∷◌, Bytes, length, if◌then◌else◌,
  arith,
}
use vehicle_detection_system.Common.Results.{ok}
use vehicle_detection_system.Common.Double.{Double}
use vehicle_detection_system.Json.Serialize.{serialize_detections}
use vehicle_detection_system.Writer.{Files, Delivery}
use vehicle_detection_system.Writer.Laws.{append_lem}
use vehicle_detection_system.Sender.Settings.{Declared, send_mode_uses_http, send_mode_uses_topic}
use vehicle_detection_system.Sender.Messages.{Detection3DArray, to_json_payload}
use vehicle_detection_system.Sender.Queue.{max_queue_size, enqueue_http-le, enqueue_http}
use vehicle_detection_system.Sender.Node.{
  Node, start, Event, parameters, detections, worker_turn, destroyed, step, run, take_front,
  take_body, shut_down, on_detections, save,
}
use vehicle_detection_system.Sender.Soundness.{IsSound, start-IsSound, on_parameter_change-IsSound}

module _ {D : Type 0} where
  with_queue-IsSound :
      (queue : List Bytes) (n : Node D)
      → length queue ≤ max_queue_size
      → IsSound n
      → IsSound (record n { queue = queue })
  with_queue-IsSound queue n short h = record {
    accepted = h.accepted;
    stable = h.stable;
    bounded = short;
    working = h.working;
    saving = h.saving;
  }

  front-IsSound :
      (queue : List Bytes) (n : Node D)
      → length queue ≤ max_queue_size
      → IsSound n
      → IsSound (take_front queue n).1
  unfolding take_front
  front-IsSound [] n short h = h
  front-IsSound (front ∷ queue) n short h = with_queue-IsSound queue n (omega arith) h

  pub take_body-IsSound : (n : Node D) → IsSound n → IsSound (take_body n).1
  unfolding take_body
  take_body-IsSound n h =
      if_ind (λ turn. IsSound turn.1) n.stop_flag (none, record n { queue = [] })
        (take_front n.queue n) (λ e. with_queue-IsSound [] n (omega arith) h)
        (λ e. front-IsSound n.queue n h.bounded h)

  pub shut_down-IsSound : (n : Node D) → IsSound n → IsSound (shut_down n)
  unfolding shut_down
  shut_down-IsSound n h = record {
    accepted = h.accepted;
    stable = h.stable;
    bounded = h.bounded;
    working = h.working;
    saving = h.saving;
  }

module _ {D : Type 0} ⦃d : Double D⦄ where
  save-IsSound :
      (fate : Delivery) (msg : Detection3DArray D) (n : Node D)
      → IsSound n
      → IsSound (save fate msg n)
  unfolding save
  save-IsSound fate msg n h =
      let (stable, _, outcome, _) =
        append_lem fate (to_json_payload msg) n.writer n.files h.stable in
      if_ind IsSound n.snapshot.save_results _ n
        (λ e. record {
          accepted = h.accepted;
          stable = stable;
          bounded = h.bounded;
          working = h.working;
          saving = ground arith;
        })
        (λ e. h)

  publish-IsSound :
      (msgs : List (Detection3DArray D)) (n : Node D)
      → IsSound n
      → IsSound (record n { published = msgs })
  publish-IsSound msgs n h = record {
    accepted = h.accepted;
    stable = h.stable;
    bounded = h.bounded;
    working = h.working;
    saving = h.saving;
  }

  pub on_detections-IsSound :
      (fate : Delivery) (msg : Detection3DArray D) (n : Node D)
      → IsSound n
      → IsSound (on_detections fate msg n)
  unfolding on_detections
  on_detections-IsSound fate msg n h =
      let saved = save fate msg n in
      let sound = save-IsSound fate msg n h in
      let told = publish-IsSound (saved.published ++ (msg ∷ [])) saved sound in
      let body = serialize_detections (to_json_payload msg) in
      let mode = n.snapshot.send_mode in
      let topic = send_mode_uses_topic mode in
      let sent =
        (if topic then record saved { published = saved.published ++ (msg ∷ []) } else saved) in
      let published =
        if_ind IsSound topic (record saved { published = saved.published ++ (msg ∷ []) }) saved
          (λ e. told) (λ e. sound) in
      if_ind IsSound (mode ≟ codes "disabled") saved _ (λ e. sound)
        (λ e.
          if_ind IsSound (send_mode_uses_http mode)
            (record sent { queue = enqueue_http body sent.queue }) sent
            (λ k.
              with_queue-IsSound _ _ (enqueue_http-le body sent.queue published.bounded) published)
            (λ k. published))

  step-IsSound : (e : Event D) (n : Node D) → IsSound n → IsSound (step e n)
  unfolding step
  step-IsSound (parameters opens params) n h = on_parameter_change-IsSound opens params n h
  step-IsSound (detections fate msg) n h = on_detections-IsSound fate msg n h
  step-IsSound worker_turn n h = take_body-IsSound n h
  step-IsSound destroyed n h = shut_down-IsSound n h

  run-IsSound : (events : List (Event D)) (n : Node D) → IsSound n → IsSound (run events n)
  unfolding run
  run-IsSound [] n h = h
  run-IsSound (e ∷ events) n h = run-IsSound events (step e n) (step-IsSound e n h)

  -- If the node starts, then after any sequence of parameter updates, messages, turns of the worker and
  -- a shutdown its snapshot passes the checks, its writer is stable, its queue holds at most 32
  -- bodies, a mode that posts has a worker, and a file is only open while saving is on.
  pub run_from_start-IsSound :
      (opens : Bool) (p : Declared) (files : Files) (events : List (Event D)) {n : Node D}
      → start opens p files ≡ ok n
      → IsSound (run events n)
  run_from_start-IsSound opens p files events {n} e =
      run-IsSound events n (start-IsSound opens p files n e)
