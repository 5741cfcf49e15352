-- ===== src/Sender/Order.antt =====
-- The order in which bodies leave the queue, whatever the order in which the two threads run.
use mathlib.Core.List.{Sublist, nil-sublist}
use mathlib.Core.List.Sublist
use vehicle_detection_system.Common.{
  ◌++◌, ◌≡◌, refl, sym, none, List, [], ◌∷◌, Bytes, length, leb, drop, append_assoc, append-nil,
  Bool-cases, inl, inr, if_ind,
}
use vehicle_detection_system.Common.Double.{Double}
use vehicle_detection_system.Json.Serialize.{serialize_detections}
use vehicle_detection_system.Sender.Settings.{send_mode_uses_http}
use vehicle_detection_system.Sender.Messages.{to_json_payload}
use vehicle_detection_system.Sender.Queue.{max_queue_size, enqueue_http}
use vehicle_detection_system.Sender.Node.{
  Node, Event, parameters, detections, worker_turn, destroyed, step, run, take_front, take_body,
  shut_down,
}
use vehicle_detection_system.Sender.History.{
  one, offered_by, taken_by, offered, taken, on_parameter_change-keeps, on_detections-keeps,
  front_lem,
}

drop_front : (queue : List Bytes) → Sublist (drop 1 queue) queue
drop_front [] = Sublist.refl []
drop_front (front ∷ queue) = Sublist.cons front (Sublist.refl queue)

enqueue-Sublist :
    (body : Bytes) (queue : List Bytes) → Sublist (enqueue_http body queue) (queue ++ (body ∷ []))
unfolding enqueue_http
enqueue-Sublist body queue =
    Sublist.append
      (if_ind (λ kept. Sublist kept queue) (leb max_queue_size (length queue)) (drop 1 queue) queue
        (λ e. drop_front queue) (λ e. Sublist.refl queue))
      (Sublist.refl (body ∷ []))

module _ {D : Type 0} ⦃d : Double D⦄ where
  same-Sublist : {queue : List Bytes} (n : Node D) → queue ≡ n.queue → Sublist queue (n.queue ++ [])
  same-Sublist n e = rw (e, append-nil n.queue) (Sublist.refl n.queue)

  turn-Sublist :
      (n : Node D) → let turn = take_body n in Sublist (one turn.0 ++ turn.1.queue) (n.queue ++ [])
  unfolding take_body
  turn-Sublist n =
      if_ind (λ turn. Sublist (one turn.0 ++ turn.1.queue) (n.queue ++ [])) n.stop_flag
        (none, record n { queue = [] }) (take_front n.queue n) (λ e. nil-sublist _)
        (λ e. same-Sublist n (front_lem n.queue n refl))

  step-Sublist :
      (e : Event D) (n : Node D)
      → Sublist (taken_by e n ++ (step e n).queue) (n.queue ++ offered_by e n)
  unfolding step shut_down
  step-Sublist (parameters opens params) n =
      same-Sublist n (on_parameter_change-keeps opens params n).0
  step-Sublist (detections fate msg) n =
      let body = serialize_detections (to_json_payload msg) in
      rw (on_detections-keeps fate msg n).0
        (elim (Bool-cases (send_mode_uses_http n.snapshot.send_mode)) [
          | inl e ↦ rw e (enqueue-Sublist body n.queue)
          | inr e ↦ rw e (same-Sublist n refl)
        ])
  step-Sublist worker_turn n = turn-Sublist n
  step-Sublist destroyed n = same-Sublist n refl

  -- In any sequence of messages, updates, turns of the worker and a shutdown: the bodies that the worker
  -- takes, followed by those that still wait, are a sublist of those that waited at first, followed by the
  -- texts of the messages that came while the mode posts. So no body is made up, taken twice or out of the
  -- order in which it came.
  pub run-Sublist :
      (events : List (Event D)) (n : Node D)
      → Sublist (taken events n ++ (run events n).queue) (n.queue ++ offered events n)
  unfolding run taken offered
  run-Sublist [] n = same-Sublist n refl
  run-Sublist (e ∷ events) n =
      let n' = step e n in
      let rest = run-Sublist events n' in
      let here = step-Sublist e n in
      rw
        (
          append_assoc (taken_by e n) (taken events n') (run events n').queue,
          sym (append_assoc n.queue (offered_by e n) (offered events n')),
        )
        (Sublist.trans (Sublist.append (Sublist.refl (taken_by e n)) rest) (
          rw (sym (append_assoc (taken_by e n) n'.queue (offered events n')))
            (Sublist.append here (Sublist.refl (offered events n')))))
