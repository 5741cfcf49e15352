-- ===== src/Sender/Kept.antt =====
-- What the operations of the node leave alone.
use vehicle_detection_system.Common.{
  ◌≡◌, refl, Bool, true, false, Option, none, List, [], ◌∷◌, Bytes, arith, if_ind, inl, inr,
}
use vehicle_detection_system.Common.Results.{ok, Result-cases}
use vehicle_detection_system.Common.Double.{Double}
use vehicle_detection_system.Writer.{Delivery, Files}
use vehicle_detection_system.Sender.Settings.{
  Declared, build_snapshot_from_parameters, enforce_initial_parameters, Parameter, apply_parameters,
}
use vehicle_detection_system.Sender.Messages.{Detection3DArray}
use vehicle_detection_system.Sender.Node.{
  Node, start, on_parameter_change, on_detections, save, shut_down, take_body, take_front,
  ensure_http_worker_started, apply_writer_config,
}
use vehicle_detection_system.Sender.Addressed.{IsAddressed, apply_parameters-IsAddressed}

pub update-IsAddressed :
    {D : Type 0} (opens : Bool) (params : List Parameter) (n : Node D)
    → IsAddressed n.snapshot
    → IsAddressed (on_parameter_change opens params n).1.snapshot
unfolding on_parameter_change ensure_http_worker_started apply_writer_config
update-IsAddressed opens params n h =
    let (c, changed) = apply_parameters params (n.snapshot, false) in
    let fine = apply_parameters-IsAddressed params (n.snapshot, false) h in ground arith

-- What the operations leave alone.
module _ {D : Type 0} where
  pub update-worker :
      (opens : Bool) (params : List Parameter) (n : Node D)
      → n.worker ≡ true
      → (on_parameter_change opens params n).1.worker ≡ true
  unfolding on_parameter_change ensure_http_worker_started apply_writer_config
  update-worker opens params n h = ground arith

  front-keeps :
      (queue : List Bytes) (n : Node D)
      → let n' = (take_front queue n).1 in (n'.worker ≡ n.worker) × (n'.snapshot ≡ n.snapshot)
  unfolding take_front
  front-keeps [] n = (refl, refl)
  front-keeps (front ∷ queue) n = (refl, refl)

  pub take_body-keeps :
      (n : Node D) → let n' = (take_body n).1 in (n'.worker ≡ n.worker) × (n'.snapshot ≡ n.snapshot)
  unfolding take_body
  take_body-keeps n =
      if_ind
        (λ (turn : Option Bytes × Node D).
          (turn.1.worker ≡ n.worker) × (turn.1.snapshot ≡ n.snapshot))
        n.stop_flag (none, record n { queue = [] }) (take_front n.queue n) (λ e. (refl, refl))
        (λ e. front-keeps n.queue n)

  pub start-snapshot :
      (opens : Bool) (p : Declared) (files : Files) (n : Node D)
      → start opens p files ≡ ok n
      → n.snapshot ≡ build_snapshot_from_parameters p
  unfolding start ensure_http_worker_started apply_writer_config
  start-snapshot opens p files n e =
      elim (Result-cases (enforce_initial_parameters (build_snapshot_from_parameters p))) [
        | inl (u, found) ↦ ground arith
        | inr (message, found) ↦ absurd (ground arith)
      ]

module _ {D : Type 0} ⦃d : Double D⦄ where
  pub detections-leave :
      (fate : Delivery) (msg : Detection3DArray D) (n : Node D)
      → let n' = on_detections fate msg n in (n'.worker ≡ n.worker) × (n'.snapshot ≡ n.snapshot)
  unfolding on_detections save
  detections-leave fate msg n = ground arith

module _ {D : Type 0} where
  pub shut_down-leaves :
      (n : Node D) → let n' = shut_down n in (n'.worker ≡ n.worker) × (n'.snapshot ≡ n.snapshot)
  unfolding shut_down
  shut_down-leaves n = (refl, refl)
