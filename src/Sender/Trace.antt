-- ===== src/Sender/Trace.antt =====
-- Every interleaving of the two threads is a run of events, one after the other.
use vehicle_detection_system.Common.{
  ℕ, ◌≡◌, refl, sym, ap, ◌∙◌, subst, Option, none, some, List, [], ◌∷◌, ◌++◌, map, Bytes,
  append_assoc, append-nil, arith, Bool-cases, inl, inr,
}
use vehicle_detection_system.Common.Double.{Double}
use vehicle_detection_system.Http.Post.{Script}
use vehicle_detection_system.Sender.Node.{
  Node, Event, parameters, detections, worker_turn, destroyed, step, run, take_body, post_body,
  Posting,
}
use vehicle_detection_system.Sender.Settings.{Snapshot}
use vehicle_detection_system.Sender.History.{one, taken_by, taken}
use vehicle_detection_system.Sender.Posts.{at, after_post-node}
use vehicle_detection_system.Sender.Thread.{
  Outcome, Phase, idle, exited, holding, posting, System, is_woken, after_wait, worker_move, Move,
  updates, receives, stops, works, IsReachable, begins, moves,
}

abbrev pub in_hand : Phase → List Bytes
in_hand idle = []
in_hand exited = []
in_hand (holding body) = body ∷ []
in_hand (posting body snap) = body ∷ []

-- The bodies that are done, and the one in hand.
abbrev pub bodies_of : {D : Type 0} → System D → List Bytes
bodies_of sys = map (λ (o : Outcome). o.body) sys.outcomes ++ in_hand sys.phase

-- Of the worker's moves the first takes a body, and the others leave the node alone.
abbrev pub turn_of : {D : Type 0} → Phase → List (Event D)
turn_of idle = worker_turn ∷ []
turn_of exited = []
turn_of (holding body) = []
turn_of (posting body snap) = []

module _ {D : Type 0} ⦃d : Double D⦄ where
  unfoldable pub events_by : {sys next : System D} → Move sys next → List (Event D)
  events_by (updates opens params sys) = parameters opens params ∷ []
  events_by (receives fate msg sys) = detections fate msg ∷ []
  events_by (stops sys) = destroyed ∷ []
  events_by (works scripts {sys} {sys'} e) = turn_of sys.phase

  unfoldable pub first_of : {sys : System D} → IsReachable sys → Node D
  first_of (begins opens p files {n} e) = n
  first_of (moves r m) = first_of r

  unfoldable pub events_of : {sys : System D} → IsReachable sys → List (Event D)
  unfolding events_by
  events_of (begins opens p files {n} e) = []
  events_of (moves r m) = events_of r ++ events_by m

  run-append : (xs ys : List (Event D)) (n : Node D) → run (xs ++ ys) n ≡ run ys (run xs n)
  unfolding run
  run-append [] ys n = refl
  run-append (x ∷ xs) ys n = run-append xs ys (step x n)

  taken-append :
      (xs ys : List (Event D)) (n : Node D) → taken (xs ++ ys) n ≡ taken xs n ++ taken ys (run xs n)
  unfolding taken run
  taken-append [] ys n = refl
  taken-append (x ∷ xs) ys n =
      ap (λ r. taken_by x n ++ r) (taken-append xs ys (step x n))
      ∙ sym (append_assoc (taken_by x n) (taken xs (step x n)) (taken ys (run xs (step x n))))

  -- The node is that of the run, and the bodies are those that the run takes.
  pub record IsExplained (sys : System D) (first : Node D) (events : List (Event D)) : Type 0 where
    pub node_lem : sys.node ≡ run events first
    pub bodies_lem : bodies_of sys ≡ taken events first

  module _ {sys next : System D} (first : Node D) (events : List (Event D))
      (h : IsExplained sys first events) where
    extend :
        (e : Event D)
        → next.node ≡ step e sys.node
        → bodies_of next ≡ bodies_of sys ++ taken_by e sys.node
        → IsExplained next first (events ++ e ∷ [])
    unfolding run taken
    extend e node bodies = record {
      node_lem = node ∙ ap (step e) h.node_lem ∙ sym (run-append events (e ∷ []) first);
      bodies_lem =
          bodies
          ∙ ap (λ r. r ++ taken_by e sys.node) h.bodies_lem
          ∙ ap (λ m. taken events first ++ taken_by e m) h.node_lem
          ∙ ap (λ r. taken events first ++ r) (sym (append-nil (taken_by e (run events first))))
          ∙ sym (taken-append events (e ∷ []) first);
    }

    same :
        next.node ≡ sys.node
        → bodies_of next ≡ bodies_of sys
        → IsExplained next first (events ++ [])
    same node bodies =
        rw (append-nil events)
          (record { node_lem = node ∙ h.node_lem; bodies_lem = bodies ∙ h.bodies_lem })

  -- A move of the worker from each of its phases.
  module _ (first : Node D) (events : List (Event D)) (scripts : ℕ → Script) where
    after_wait-IsExplained :
        (n : Node D) (out : List Outcome) (o : Option Bytes) (n' : Node D)
        → IsExplained (at n idle out) first events
        → n' ≡ step worker_turn n
        → one o ≡ taken_by worker_turn n
        → IsExplained (after_wait (at n idle out) (o, n')) first (events ++ worker_turn ∷ [])
    unfolding after_wait
    after_wait-IsExplained n out none n' h node bodies = extend first events h worker_turn node (
        ap (λ r. r ++ one none) (sym (append-nil (map (λ (o : Outcome). o.body) out)))
        ∙ ap (λ r. bodies_of (at n idle out) ++ r) bodies)
    after_wait-IsExplained n out (some body) n' h node bodies =
        extend first events h worker_turn node (
          ap (λ r. r ++ one (some body)) (sym (append-nil (map (λ (o : Outcome). o.body) out)))
          ∙ ap (λ r. bodies_of (at n idle out) ++ r) bodies)

    idle-IsExplained :
        (n : Node D) (out : List Outcome) {next : System D}
        → IsExplained (at n idle out) first events
        → worker_move scripts (at n idle out) ≡ some next
        → IsExplained next first (events ++ worker_turn ∷ [])
    unfolding worker_move step
    idle-IsExplained n out {next} h e = elim (Bool-cases n.worker) [
      | inr off ↦ absurd (ground arith)
      | inl on ↦ elim (Bool-cases (is_woken n)) [
        | inr waits ↦ absurd (ground arith)
        | inl woken ↦
            let turn = take_body n in
            let there : after_wait (at n idle out) turn ≡ next = ground arith in
            subst (λ m. IsExplained m first (events ++ worker_turn ∷ [])) there
              (after_wait-IsExplained n out turn.0 turn.1 h refl refl)
      ]
    ]

    done_lem :
        (body : Bytes) (snap : Snapshot) (result : Posting) (out : List Outcome)
        → map
              (λ (o : Outcome). o.body)
              (out
                ++ record { body = body; snapshot = snap; scripts = scripts; posting = result }
                  ∷ [])
            ++ []
          ≡ map (λ (o : Outcome). o.body) out ++ body ∷ []
    done_lem body snap result [] = refl
    done_lem body snap result (o ∷ out) = ap (λ r. o.body ∷ r) (done_lem body snap result out)

    work-IsExplained :
        (n : Node D) (phase : Phase) (out : List Outcome) {next : System D}
        → IsExplained (at n phase out) first events
        → worker_move scripts (at n phase out) ≡ some next
        → IsExplained next first (events ++ turn_of phase)
    unfolding worker_move
    work-IsExplained n idle out h e = idle-IsExplained n out h e
    work-IsExplained n exited out h e = absurd (ground arith)
    work-IsExplained n (holding body) out {next} h e =
        let there : at n (posting body n.snapshot) out ≡ next = ground arith in
        subst (λ m. IsExplained m first (events ++ [])) there (same first events h refl refl)
    work-IsExplained n (posting body snap) out {next} h e =
        let result = post_body scripts snap body in
        subst (λ m. IsExplained m first (events ++ []))
          (after_post-node scripts n body snap out result e)
          (same first events h refl (done_lem body snap result out))

  move-IsExplained :
      (first : Node D) (events : List (Event D)) {sys next : System D} (m : Move sys next)
      → IsExplained sys first events
      → IsExplained next first (events ++ events_by m)
  unfolding events_by step
  move-IsExplained first events (updates opens params sys) h =
      extend first events h (parameters opens params) refl (sym (append-nil (bodies_of sys)))
  move-IsExplained first events (receives fate msg sys) h =
      extend first events h (detections fate msg) refl (sym (append-nil (bodies_of sys)))
  move-IsExplained first events (stops sys) h =
      extend first events h destroyed refl (sym (append-nil (bodies_of sys)))
  move-IsExplained first events (works scripts {sys} {sys'} e) h =
      work-IsExplained first events scripts sys.node sys.phase sys.outcomes h e

  -- Whatever the interleaving of the node's thread and its worker, in the middle of a turn or not: the node
  -- is as after a run of its events, one after the other, and the bodies that the worker is done with,
  -- followed by the one in its hand, are exactly those that it takes in that run.
  pub reachable-IsExplained :
      {sys : System D} (r : IsReachable sys) → IsExplained sys (first_of r) (events_of r)
  unfolding first_of events_of run taken
  reachable-IsExplained (begins opens p files e) = record { node_lem = refl; bodies_lem = refl }
  reachable-IsExplained (moves r m) =
      move-IsExplained (first_of r) (events_of r) m (reachable-IsExplained r)
