-- ===== src/Sender/Thread.antt =====
-- The thread of `http_worker_loop` beside the node: where it stands, each of its moves, and the moves of the
-- node's own thread. What one of them guards by a mutex is one move.
use vehicle_detection_system.Common.{
  ℕ, zero, suc, Bool, not, ◌||◌, ◌≡◌, Option, none, some, List, [], ◌∷◌, ◌++◌, Bytes, is_empty,
  if◌then◌else◌,
}
use vehicle_detection_system.Common.Double.{Double}
use vehicle_detection_system.Common.Results.{ok}
use vehicle_detection_system.Http.Post.{Script}
use vehicle_detection_system.Writer.{Delivery, Files}
use vehicle_detection_system.Sender.Settings.{Snapshot, Parameter, Declared}
use vehicle_detection_system.Sender.Messages.{Detection3DArray}
use vehicle_detection_system.Sender.Node.{
  Node, start, on_parameter_change, on_detections, shut_down, take_body, post_body, Posting,
  overflows, never_returns,
}

-- Before `wait`; with a body, before `copy_snapshot`; before the attempts; at the end.
pub data Phase : Type 0 where
  idle exited : Phase
  holding : Bytes → Phase
  posting : Bytes → Snapshot → Phase

-- A body with the settings of its attempts, what the system answered to these, and what has become of it.
pub record Outcome : Type 0 where
  pub body : Bytes
  pub snapshot : Snapshot
  pub scripts : ℕ → Script
  pub posting : Posting

-- `outcomes` is what has become of the bodies so far.
pub record System (D : Type 0) : Type 0 where
  pub node : Node D
  pub phase : Phase
  pub outcomes : List Outcome

module _ {D : Type 0} where
  -- The predicate of `wait`.
  unfoldable pub is_woken : Node D → Bool
  is_woken n = n.stop_flag || not (is_empty n.queue)

  unfoldable pub after_wait : System D → Option Bytes × Node D → System D
  after_wait sys (none, n) = record sys { node = n; phase = exited }
  after_wait sys (some body, n) = record sys { node = n; phase = holding body }

  unfoldable pub after_post :
      (ℕ → Script) → System D → Bytes → Snapshot → Posting → Option (System D)
  after_post scripts sys body snap overflows = none
  after_post scripts sys body snap never_returns = none
  after_post scripts sys body snap result =
      let outcome : Outcome = record {
        body = body;
        snapshot = snap;
        scripts = scripts;
        posting = result;
      } in
      some (record sys { phase = idle; outcomes = sys.outcomes ++ outcome ∷ [] })

  -- The thread's next move, with what the system answers to the attempts; `none` if it waits, has ended or
  -- was never started, or if an attempt does not return or the number of attempts overflows.
  unfoldable pub worker_move : (ℕ → Script) → System D → Option (System D)
  unfolding is_woken after_wait take_body post_body after_post
  worker_move scripts sys = elim sys.phase [
    | idle ↦
        if sys.node.worker
        then (if is_woken sys.node then some (after_wait sys (take_body sys.node)) else none)
        else none
    | holding body ↦ some (record sys { phase = posting body sys.node.snapshot })
    | posting body snap ↦ after_post scripts sys body snap (post_body scripts snap body)
    | exited ↦ none
  ]

-- A move of one of the two threads.
pub data Move {D : Type 0} ⦃d : Double D⦄ : System D → System D → Type 0 where
  updates :
      (opens : Bool) (params : List Parameter) (sys : System D)
      → Move sys (record sys { node = (on_parameter_change opens params sys.node).1 })
  receives :
      (fate : Delivery) (msg : Detection3DArray D) (sys : System D)
      → Move sys (record sys { node = on_detections fate msg sys.node })
  stops : (sys : System D) → Move sys (record sys { node = shut_down sys.node })
  works :
      (scripts : ℕ → Script) {sys sys' : System D}
      → worker_move scripts sys ≡ some sys'
      → Move sys sys'

abbrev pub started : {D : Type 0} → Node D → System D
started n = record { node = n; phase = idle; outcomes = [] }

-- From a node that has started, by any moves.
pub data IsReachable {D : Type 0} ⦃d : Double D⦄ : System D → Type 0 where
  begins :
      (opens : Bool) (p : Declared) (files : Files) {n : Node D}
      → start opens p files ≡ ok n
      → IsReachable (started n)
  moves : {sys sys' : System D} → IsReachable sys → Move sys sys' → IsReachable sys'

-- So many moves of the worker, one after the other.
unfoldable pub iterate : {D : Type 0} → (ℕ → Script) → ℕ → System D → Option (System D)
iterate scripts zero sys = some sys
iterate scripts (suc k) sys = elim (worker_move scripts sys) [
  | none ↦ none
  | some next ↦ iterate scripts k next
]
