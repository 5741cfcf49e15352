-- ===== src/Sender/Texts.antt =====
-- What the worker takes are texts of messages that came.
use vehicle_detection_system.Common.{
  ◌≡◌, refl, sym, subst, Option, none, List, [], ◌∷◌, Bytes, length, leb, drop, All, All-append,
  All-drop, if_ind,
}
use vehicle_detection_system.Common.Double.{Double}
use vehicle_detection_system.Json.Serialize.{serialize_detections}
use vehicle_detection_system.Sender.Settings.{send_mode_uses_http}
use vehicle_detection_system.Sender.Messages.{Detection3DArray, to_json_payload}
use vehicle_detection_system.Sender.Queue.{enqueue_http, max_queue_size}
use vehicle_detection_system.Sender.Node.{
  Node, Event, detections, parameters, worker_turn, destroyed, step, take_front, take_body,
  shut_down,
}
use vehicle_detection_system.Sender.History.{
  one, taken_by, taken, on_parameter_change-keeps, on_detections-keeps,
}

module _ {D : Type 0} ⦃d : Double D⦄ (Q : Detection3DArray D → Type 0) where
  -- The messages that come are of one kind.
  abbrev pub Brings : Event D → Type 0
  Brings (detections fate msg) = Q msg
  Brings _ = Unit

  abbrev pub IsTextOf : Bytes → Type 0
  IsTextOf body =
      (msg : Detection3DArray D) × Q msg × (body ≡ serialize_detections (to_json_payload msg))

  enqueue_http-All :
      (body : Bytes) (queue : List Bytes)
      → IsTextOf body
      → All IsTextOf queue
      → All IsTextOf (enqueue_http body queue)
  unfolding enqueue_http
  enqueue_http-All body queue h hs =
      All-append IsTextOf _ (body ∷ [])
        (if_ind (All IsTextOf) (leb max_queue_size (length queue)) (drop 1 queue) queue
          (λ e. All-drop IsTextOf 1 queue hs) (λ e. hs))
        (h, tt)

  front-All :
      (queue : List Bytes) (n : Node D)
      → n.queue ≡ queue
      → All IsTextOf queue
      → let turn = take_front queue n in All IsTextOf (one turn.0) × All IsTextOf turn.1.queue
  unfolding take_front
  front-All [] n e h = (tt, subst (All IsTextOf) (sym e) h)
  front-All (front ∷ queue) n e (h, hs) = ((h, tt), hs)

  step-All :
      (e : Event D) (n : Node D)
      → Brings e
      → All IsTextOf n.queue
      → All IsTextOf (taken_by e n) × All IsTextOf (step e n).queue
  unfolding step shut_down take_body
  step-All (parameters opens params) n b h = (tt, rw (on_parameter_change-keeps opens params n).0 h)
  step-All (detections fate msg) n b h =
      let body = serialize_detections (to_json_payload msg) in
      (
        tt,
        rw (on_detections-keeps fate msg n).0 (
            if_ind (All IsTextOf) (send_mode_uses_http n.snapshot.send_mode)
              (enqueue_http body n.queue) n.queue
              (λ e. enqueue_http-All body n.queue (msg, b, refl) h) (λ e. h)),
      )
  step-All worker_turn n b h =
      if_ind
        (λ (turn : Option Bytes × Node D). All IsTextOf (one turn.0) × All IsTextOf turn.1.queue)
        n.stop_flag (none, record n { queue = [] }) (take_front n.queue n) (λ e. (tt, tt))
        (λ e. front-All n.queue n refl h)
  step-All destroyed n b h = (tt, h)

  pub taken-All :
      (events : List (Event D)) (n : Node D)
      → All Brings events
      → All IsTextOf n.queue
      → All IsTextOf (taken events n)
  unfolding taken
  taken-All [] n bs h = tt
  taken-All (e ∷ events) n (b, bs) h =
      let (now, later) = step-All e n b h in
      All-append IsTextOf (taken_by e n) _ now (taken-All events (step e n) bs later)
