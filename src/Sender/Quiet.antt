-- ===== src/Sender/Quiet.antt =====
-- The events that leave the writer alone, and the messages of a run.
use vehicle_detection_system.Common.{
  ◌≡◌, refl, ◌∙◌, Bool, false, Option, none, List, [], ◌∷◌, Bytes, All, arith, if_ind,
}
use vehicle_detection_system.Common.Double.{Double}
use vehicle_detection_system.Writer.{Delivery, delivered}
use vehicle_detection_system.Sender.Settings.{
  Snapshot, Parameter, apply_parameter, send_mode, http_endpoint_url, http_timeout_ms,
  http_retry_count, http_auth_type, save_results, result_output_path, result_output_format, other,
  apply_parameters,
}
use vehicle_detection_system.Sender.Messages.{Detection3DArray}
use vehicle_detection_system.Sender.Node.{
  Node, Event, parameters, detections, worker_turn, destroyed, on_parameter_change,
  ensure_http_worker_started, apply_writer_config, on_detections, save, take_body, take_front,
}

-- A parameter that is none of the writer's inputs.
abbrev pub IsElsewhere : Parameter → Type 0
IsElsewhere (save_results v) = ⊥
IsElsewhere (result_output_path v) = ⊥
IsElsewhere (result_output_format v) = ⊥
IsElsewhere (send_mode v) = Unit
IsElsewhere (http_endpoint_url v) = Unit
IsElsewhere (http_auth_type v) = Unit
IsElsewhere (http_timeout_ms v) = Unit
IsElsewhere (http_retry_count v) = Unit
IsElsewhere (other v) = Unit

-- An update leaves the writer's inputs alone, and each line reaches the file.
abbrev pub IsQuiet : {D : Type 0} → Event D → Type 0
IsQuiet (parameters opens params) = All IsElsewhere params
IsQuiet (detections fate msg) = fate ≡ delivered
IsQuiet _ = Unit

-- The messages that come in a run.
unfoldable pub messages : {D : Type 0} → List (Event D) → List (Detection3DArray D)
messages [] = []
messages (detections fate msg ∷ events) = msg ∷ messages events
messages (parameters opens params ∷ events) = messages events
messages (worker_turn ∷ events) = messages events
messages (destroyed ∷ events) = messages events

apply_parameter-elsewhere :
    (p : Parameter) (s : Snapshot) (changed : Bool)
    → IsElsewhere p
    → let (s', changed') = apply_parameter p (s, changed) in
      (s'.save_results ≡ s.save_results) × (changed' ≡ changed)
unfolding apply_parameter
apply_parameter-elsewhere (save_results v) s changed h = elim h [ ]
apply_parameter-elsewhere (result_output_path v) s changed h = elim h [ ]
apply_parameter-elsewhere (result_output_format v) s changed h = elim h [ ]
apply_parameter-elsewhere (send_mode v) s changed h = (refl, refl)
apply_parameter-elsewhere (http_endpoint_url v) s changed h = (refl, refl)
apply_parameter-elsewhere (http_auth_type v) s changed h = (refl, refl)
apply_parameter-elsewhere (http_timeout_ms v) s changed h = (refl, refl)
apply_parameter-elsewhere (http_retry_count v) s changed h = (refl, refl)
apply_parameter-elsewhere (other v) s changed h = (refl, refl)

apply_parameters-elsewhere :
    (params : List Parameter) (s : Snapshot) (changed : Bool)
    → All IsElsewhere params
    → let (s', changed') = apply_parameters params (s, changed) in
      (s'.save_results ≡ s.save_results) × (changed' ≡ changed)
unfolding apply_parameters
apply_parameters-elsewhere [] s changed h = (refl, refl)
apply_parameters-elsewhere (p ∷ params) s changed (h, hs) =
    let (s', changed') = apply_parameter p (s, changed) in
    let (a, b) = apply_parameter-elsewhere p s changed h in
    let (c, e) = apply_parameters-elsewhere params s' changed' hs in (c ∙ a, e ∙ b)

module _ {D : Type 0} where
  -- What the writer and its file are, and whether saving is on.
  abbrev pub HasSameFile : Node D → Node D → Type 0
  HasSameFile n m =
      (m.writer ≡ n.writer)
      × (m.files ≡ n.files)
      × (m.snapshot.save_results ≡ n.snapshot.save_results)

  pub update-HasSameFile :
      (opens : Bool) (params : List Parameter) (n : Node D)
      → All IsElsewhere params
      → HasSameFile n (on_parameter_change opens params n).1
  unfolding on_parameter_change ensure_http_worker_started apply_writer_config
  update-HasSameFile opens params n h =
      let (saves, same) = apply_parameters-elsewhere params n.snapshot false h in ground arith

  front-HasSameFile : (queue : List Bytes) (n : Node D) → HasSameFile n (take_front queue n).1
  unfolding take_front
  front-HasSameFile [] n = (refl, refl, refl)
  front-HasSameFile (front ∷ queue) n = (refl, refl, refl)

  pub turn-HasSameFile : (n : Node D) → HasSameFile n (take_body n).1
  unfolding take_body
  turn-HasSameFile n =
      if_ind (λ (turn : Option Bytes × Node D). HasSameFile n turn.1) n.stop_flag
        (none, record n { queue = [] }) (take_front n.queue n) (λ e. (refl, refl, refl))
        (λ e. front-HasSameFile n.queue n)

module _ {D : Type 0} ⦃d : Double D⦄ where
  -- The publisher and the queue come behind the saving.
  pub detections-HasSameFile :
      (fate : Delivery) (msg : Detection3DArray D) (n : Node D)
      → HasSameFile (save fate msg n) (on_detections fate msg n)
  unfolding on_detections save
  detections-HasSameFile fate msg n = ground arith
