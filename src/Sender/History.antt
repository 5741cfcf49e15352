-- ===== src/Sender/History.antt =====
-- What a run of the node puts into its queue and what its worker takes from there.
use vehicle_detection_system.Common.{
  ◌++◌, ◌≟◌, codes, ◌<◌, ◌≡◌, refl, Bool, true, false, Option, none, some, List, [], ◌∷◌, Bytes,
  length, if◌then◌else◌, arith, ≟→eq,
}
use vehicle_detection_system.Common.Double.{Double}
use vehicle_detection_system.Json.Serialize.{serialize_detections}
use vehicle_detection_system.Writer.{Delivery}
use vehicle_detection_system.Sender.Settings.{send_mode_uses_http, Parameter}
use vehicle_detection_system.Sender.Messages.{Detection3DArray, to_json_payload}
use vehicle_detection_system.Sender.Queue.{max_queue_size, enqueue_http}
use vehicle_detection_system.Sender.Node.{
  Node, Event, detections, worker_turn, destroyed, step, take_front, take_body, on_detections, save,
  on_parameter_change, ensure_http_worker_started, apply_writer_config,
}

disabled-posts_not :
    (mode : Bytes) → (mode ≟ codes "disabled") ≡ true → send_mode_uses_http mode ≡ false
unfolding send_mode_uses_http
disabled-posts_not mode h = ground (arith, ≟→eq mode (codes "disabled"))

abbrev pub one : Option Bytes → List Bytes
one none = []
one (some body) = body ∷ []

module _ {D : Type 0} ⦃d : Double D⦄ where
  -- The bodies of an event that the node is to post: the text of a message that comes while the mode
  -- posts.
  abbrev pub offered_by : Event D → Node D → List Bytes
  offered_by (detections fate msg) n =
      if send_mode_uses_http n.snapshot.send_mode
      then serialize_detections (to_json_payload msg) ∷ []
      else []
  offered_by _ n = []

  abbrev pub taken_by : Event D → Node D → List Bytes
  taken_by worker_turn n = one (take_body n).0
  taken_by _ n = []

  -- Over a run, in their order.
  unfoldable pub offered : List (Event D) → Node D → List Bytes
  offered [] n = []
  offered (e ∷ events) n = offered_by e n ++ offered events (step e n)

  unfoldable pub taken : List (Event D) → Node D → List Bytes
  taken [] n = []
  taken (e ∷ events) n = taken_by e n ++ taken events (step e n)

  -- Fewer than 32 bodies wait before each event, and the node is not destroyed.
  abbrev pub HasRoom : List (Event D) → Node D → Type 0
  HasRoom [] n = Unit
  HasRoom (destroyed ∷ events) n = ⊥
  HasRoom (e ∷ events) n = (length n.queue < max_queue_size) × HasRoom events (step e n)

  -- What an update leaves alone.
  pub on_parameter_change-keeps :
      (opens : Bool) (params : List Parameter) (n : Node D)
      → let n' = (on_parameter_change opens params n).1 in
        (n'.queue ≡ n.queue) × (n'.stop_flag ≡ n.stop_flag)
  unfolding on_parameter_change ensure_http_worker_started apply_writer_config
  on_parameter_change-keeps opens params n = ground arith

  pub on_detections-keeps :
      (fate : Delivery) (msg : Detection3DArray D) (n : Node D)
      → let n' = on_detections fate msg n in
        (n'.queue ≡ (
          if send_mode_uses_http n.snapshot.send_mode
          then enqueue_http (serialize_detections (to_json_payload msg)) n.queue
          else n.queue))
        × (n'.stop_flag ≡ n.stop_flag)
  unfolding on_detections save
  on_detections-keeps fate msg n = ground (arith, disabled-posts_not n.snapshot.send_mode)

  pub front_lem :
      (queue : List Bytes) (n : Node D)
      → n.queue ≡ queue
      → let turn = take_front queue n in one turn.0 ++ turn.1.queue ≡ queue
  unfolding take_front
  front_lem [] n e = e
  front_lem (front ∷ queue) n e = refl
