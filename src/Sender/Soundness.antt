-- ===== src/Sender/Soundness.antt =====
-- The invariant of the node, and that the constructor and the parameter callback keep it.
use vehicle_detection_system.Common.{
  subst, ◌≤◌, ◌≡◌, refl, Bool, true, false, none, List, [], ◌∷◌, Bytes, length, if◌then◌else◌,
  arith, Option-cases, Bool-cases, inl, inr,
}
use vehicle_detection_system.Common.Results.{ok, Then}
use vehicle_detection_system.Writer.{Writer, Files, configure, is_open}
use vehicle_detection_system.Writer.Laws.{IsStable, configure_lem}
use vehicle_detection_system.Sender.Settings.{
  Snapshot, Declared, build_snapshot_from_parameters, enforce_initial_parameters, rejection,
  Parameter, apply_parameter, send_mode, http_endpoint_url, http_timeout_ms, http_retry_count,
  http_auth_type, save_results, result_output_path, result_output_format, other, apply_parameters,
  writer_config, send_mode_uses_http,
}
use vehicle_detection_system.Sender.Queue.{max_queue_size}
use vehicle_detection_system.Sender.Node.{
  Node, start, on_parameter_change, ensure_http_worker_started, apply_writer_config,
}

-- The snapshot passes the checks, the writer is stable, the queue is within its bound, a mode that
-- posts has a worker, and a file is only open while saving is on.
pub record IsSound {D : Type 0} (n : Node D) : Type 0 where
  pub accepted : rejection n.snapshot ≡ none
  pub stable : IsStable n.writer
  pub bounded : length n.queue ≤ max_queue_size
  pub working : (if send_mode_uses_http n.snapshot.send_mode then n.worker ≡ true else Unit)
  pub saving : (if is_open n.writer then n.snapshot.save_results ≡ true else Unit)

-- A file is only open while saving is on.
abbrev SavesOnly : Writer → Bool → Type 0
SavesOnly w on = if is_open w then on ≡ true else Unit

configure-SavesOnly :
    (opens : Bool) (s : Snapshot) → SavesOnly (configure opens (writer_config s)).1 s.save_results
unfolding writer_config
configure-SavesOnly opens s =
    let (_, _, open_iff, _, _) = configure_lem opens (writer_config s) in ground arith

-- An update that changes none of the writer's inputs leaves `save_results` alone.
apply_parameter-saves :
    (p : Parameter) (s : Snapshot) (changed : Bool)
    → let (s', changed') = apply_parameter p (s, changed) in
      if changed' then Unit else (changed ≡ false) × (s'.save_results ≡ s.save_results)
unfolding apply_parameter
apply_parameter-saves (send_mode v) s changed = ground arith
apply_parameter-saves (http_endpoint_url v) s changed = ground arith
apply_parameter-saves (http_timeout_ms v) s changed = ground arith
apply_parameter-saves (http_retry_count v) s changed = ground arith
apply_parameter-saves (http_auth_type v) s changed = ground arith
apply_parameter-saves (save_results v) s changed = tt
apply_parameter-saves (result_output_path v) s changed = tt
apply_parameter-saves (result_output_format v) s changed = tt
apply_parameter-saves (other v) s changed = ground arith

apply_parameters-saves :
    (params : List Parameter) (s : Snapshot) (changed : Bool)
    → let (s', changed') = apply_parameters params (s, changed) in
      if changed' then Unit else (changed ≡ false) × (s'.save_results ≡ s.save_results)
unfolding apply_parameters
apply_parameters-saves [] s changed = ground arith
apply_parameters-saves (p ∷ params) s changed =
    let (s', changed') = apply_parameter p (s, changed) in
    ground (arith, apply_parameter-saves p s changed, apply_parameters-saves params s' changed')

module _ {D : Type 0} where
  started_lem :
      (mode : Bytes) (n : Node D)
      → (b : Bool) × (ensure_http_worker_started mode n ≡ record n { worker = b })
        × (if send_mode_uses_http mode then b ≡ true else Unit)
  unfolding ensure_http_worker_started
  started_lem mode n = elim (Bool-cases (send_mode_uses_http mode)) [
    | inl e ↦ (true, rw e (ground arith), rw e refl)
    | inr e ↦ (n.worker, rw e refl, rw e tt)
  ]

start-Then :
    (D : Type 0)
    → (opens : Bool) (p : Declared) (files : Files) → Then IsSound (start {D = D} opens p files)
unfolding start enforce_initial_parameters apply_writer_config
start-Then D opens p files =
    let s = build_snapshot_from_parameters p in
    elim (Option-cases (rejection s)) [
      | inl fine ↦
          let w = (configure opens (writer_config s)).1 in
          let fresh : Node D = record {
            snapshot = s;
            queue = [];
            stop_flag = false;
            worker = false;
            writer = w;
            files = files;
            published = [];
          } in
          let (b, e, works) = started_lem s.send_mode fresh in
          rw (start, enforce_initial_parameters, fine, e)
            (record {
              accepted = fine;
              stable = (configure_lem opens (writer_config s)).0;
              bounded = omega arith;
              working = works;
              saving = configure-SavesOnly opens s;
            })
      | inr (reason, bad) ↦ rw (start, enforce_initial_parameters, bad) tt
    ]

module _ {D : Type 0} where
  pub start-IsSound :
      (opens : Bool) (p : Declared) (files : Files) (n : Node D)
      → start opens p files ≡ ok n
      → IsSound n
  start-IsSound opens p files n e = subst (Then IsSound) e (start-Then D opens p files)

  -- Both ends of an accepted update.
  accepted-IsSound :
      (opens changed : Bool) (c : Snapshot) (n : Node D)
      → IsSound n
      → rejection c ≡ none
      → (if changed then Unit else (c.save_results ≡ n.snapshot.save_results))
      → let stored = ensure_http_worker_started c.send_mode (record n { snapshot = c }) in
        IsSound (if changed then apply_writer_config opens c stored else stored)
  unfolding apply_writer_config
  accepted-IsSound opens true c n h fine kept =
      let (b, e, works) = started_lem c.send_mode (record n { snapshot = c }) in
      rw e (record {
        accepted = fine;
        stable = (configure_lem opens (writer_config c)).0;
        bounded = h.bounded;
        working = works;
        saving = configure-SavesOnly opens c;
      })
  accepted-IsSound opens false c n h fine kept =
      let (b, e, works) = started_lem c.send_mode (record n { snapshot = c }) in
      rw e (record {
        accepted = fine;
        stable = h.stable;
        bounded = h.bounded;
        working = works;
        saving = rw kept (h.saving);
      })

  pub on_parameter_change-IsSound :
      (opens : Bool) (params : List Parameter) (n : Node D)
      → IsSound n
      → IsSound (on_parameter_change opens params n).1
  unfolding on_parameter_change
  on_parameter_change-IsSound opens params n h =
      let (c, changed) = apply_parameters params (n.snapshot, false) in
      elim (Option-cases (rejection c)) [
        | inl fine ↦
            rw (on_parameter_change, fine)
              (accepted-IsSound opens changed c n h fine
                (ground (arith, apply_parameters-saves params n.snapshot false)))
        | inr (reason, bad) ↦ rw (on_parameter_change, bad) h
      ]
