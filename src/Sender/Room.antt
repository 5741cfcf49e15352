-- ===== src/Sender/Room.antt =====
-- What is taken while the queue has room, and after the destructor has run.
use vehicle_detection_system.Common.{
  ◌++◌, ◌<◌, ◌≡◌, refl, sym, ap, ◌∙◌, Bool, true, false, Option, none, List, [], ◌∷◌, Bytes, length,
  leb, if◌then◌else◌, arith, append_assoc, append-nil, if_ind,
}
use vehicle_detection_system.Common.Double.{Double}
use vehicle_detection_system.Json.Serialize.{serialize_detections}
use vehicle_detection_system.Sender.Settings.{send_mode_uses_http}
use vehicle_detection_system.Sender.Messages.{to_json_payload}
use vehicle_detection_system.Sender.Queue.{max_queue_size, enqueue_http}
use vehicle_detection_system.Sender.Node.{
  Node, Event, parameters, detections, worker_turn, destroyed, step, run, take_front, take_body,
  shut_down,
}
use vehicle_detection_system.Sender.History.{
  one, offered_by, taken_by, offered, taken, HasRoom, on_parameter_change-keeps,
  on_detections-keeps, front_lem,
}

module _ {D : Type 0} where
  front_flag :
      (queue : List Bytes) (n : Node D)
      → n.stop_flag ≡ false
      → (take_front queue n).1.stop_flag ≡ false
  unfolding take_front
  front_flag [] n h = h
  front_flag (front ∷ queue) n h = h

enqueue_room :
    (posts : Bool) (body : Bytes) (queue : List Bytes)
    → length queue < max_queue_size
    → (if posts then enqueue_http body queue else queue)
      ≡ queue ++ (if posts then body ∷ [] else [])
unfolding enqueue_http
enqueue_room true body queue h =
    let room : leb max_queue_size (length queue) ≡ false = ground arith in rw room refl
enqueue_room false body queue h = sym (append-nil queue)

module _ {D : Type 0} ⦃d : Double D⦄ where
  turn-keeps :
      (n : Node D)
      → n.stop_flag ≡ false
      → let turn = take_body n in
        (one turn.0 ++ turn.1.queue ≡ n.queue) × (turn.1.stop_flag ≡ false)
  unfolding take_body take_front
  turn-keeps n h =
      if_ind
        (λ (turn : Option Bytes × Node D).
          (one turn.0 ++ turn.1.queue ≡ n.queue) × (turn.1.stop_flag ≡ false))
        n.stop_flag (none, record n { queue = [] }) (take_front n.queue n) (λ e. absurd cc)
        (λ e. (front_lem n.queue n refl, front_flag n.queue n h))

  step-keeps :
      (e : Event D) (n : Node D)
      → n.stop_flag ≡ false
      → HasRoom (e ∷ []) n
      → (taken_by e n ++ (step e n).queue ≡ n.queue ++ offered_by e n)
        × ((step e n).stop_flag ≡ false)
  unfolding step
  step-keeps (parameters opens params) n h room =
      let (queue, flag) = on_parameter_change-keeps opens params n in
      (queue ∙ sym (append-nil n.queue), flag ∙ h)
  step-keeps (detections fate msg) n h room =
      let (queue, flag) = on_detections-keeps fate msg n in
      let body = serialize_detections (to_json_payload msg) in
      (
        queue ∙ enqueue_room (send_mode_uses_http n.snapshot.send_mode) body n.queue room.0,
        flag ∙ h,
      )
  step-keeps worker_turn n h room =
      let (queue, flag) = turn-keeps n h in (queue ∙ sym (append-nil n.queue), flag)
  step-keeps destroyed n h room = elim room [ ]

  HasRoom-parts :
      (e : Event D) (events : List (Event D)) (n : Node D)
      → HasRoom (e ∷ events) n
      → HasRoom (e ∷ []) n × HasRoom events (step e n)
  HasRoom-parts (parameters opens params) events n h = ((h.0, tt), h.1)
  HasRoom-parts (detections fate msg) events n h = ((h.0, tt), h.1)
  HasRoom-parts worker_turn events n h = ((h.0, tt), h.1)
  HasRoom-parts destroyed events n h = elim h [ ]

  -- If the node has not been told to stop, fewer than 32 bodies wait before each event and it is not
  -- destroyed: the bodies that the worker takes, followed by those that still wait, are exactly those that
  -- waited at first, followed by the texts of the messages that came while the mode posts. So none is lost.
  pub run_loses_nothing :
      (events : List (Event D)) (n : Node D)
      → n.stop_flag ≡ false
      → HasRoom events n
      → taken events n ++ (run events n).queue ≡ n.queue ++ offered events n
  unfolding run taken offered
  run_loses_nothing [] n h room = sym (append-nil n.queue)
  run_loses_nothing (e ∷ events) n h room =
      let n' = step e n in
      let (now, later) = HasRoom-parts e events n room in
      let (here, flag) = step-keeps e n h now in
      append_assoc (taken_by e n) (taken events n') (run events n').queue
      ∙ ap (λ r. taken_by e n ++ r) (run_loses_nothing events n' flag later)
      ∙ sym (append_assoc (taken_by e n) n'.queue (offered events n'))
      ∙ ap (λ r. r ++ offered events n') here
      ∙ append_assoc n.queue (offered_by e n) (offered events n')

  step-stopped :
      (e : Event D) (n : Node D)
      → n.stop_flag ≡ true
      → (taken_by e n ≡ []) × ((step e n).stop_flag ≡ true)
  unfolding step take_body shut_down
  step-stopped (parameters opens params) n h =
      (refl, (on_parameter_change-keeps opens params n).1 ∙ h)
  step-stopped (detections fate msg) n h = (refl, (on_detections-keeps fate msg n).1 ∙ h)
  step-stopped worker_turn n h =
      if_ind (λ (turn : Option Bytes × Node D). (one turn.0 ≡ []) × (turn.1.stop_flag ≡ true))
        n.stop_flag (none, record n { queue = [] }) (take_front n.queue n) (λ e. (refl, h))
        (λ e. absurd cc)
  step-stopped destroyed n h = (refl, refl)

  stopped_lem : (events : List (Event D)) (n : Node D) → n.stop_flag ≡ true → taken events n ≡ []
  unfolding taken
  stopped_lem [] n h = refl
  stopped_lem (e ∷ events) n h =
      let (none_now, flag) = step-stopped e n h in
      rw (none_now, stopped_lem events (step e n) flag) refl

  -- Once the destructor has run, the worker takes no body any more, whatever happens then.
  pub taken_after_destroyed :
      (events : List (Event D)) (n : Node D) → taken (destroyed ∷ events) n ≡ []
  unfolding taken step shut_down
  taken_after_destroyed events n = stopped_lem events (shut_down n) refl
