-- ===== src/Sender/Posts.antt =====
-- With what settings the worker posts.
use vehicle_detection_system.Common.{
  ◌++◌, ◌∷◌, [], ℕ, ◌≡◌, sym, subst, ◌∙◌, Bool, true, Option, none, some, List, Bytes,
  if◌then◌else◌, arith, Bool-cases, inl, inr,
}
use vehicle_detection_system.Common.Double.{Double}
use vehicle_detection_system.Common.Int.{pos, ◌≤ℤ◌}
use vehicle_detection_system.Http.Url.{parsed}
use vehicle_detection_system.Http.Post.{Script}
use vehicle_detection_system.Sender.Settings.{Snapshot, send_mode_uses_http}
use vehicle_detection_system.Sender.SettingsLaws.{IsAcceptable, rejection_iff}
use vehicle_detection_system.Sender.Node.{
  Node, take_body, post_body, Posting, skipped, overflows, never_returns, posted,
}
use vehicle_detection_system.Sender.Soundness.{IsSound, start-IsSound, on_parameter_change-IsSound}
use vehicle_detection_system.Sender.NodeLaws.{
  take_body-IsSound, shut_down-IsSound, on_detections-IsSound,
}
use vehicle_detection_system.Sender.Thread.{
  Outcome, Phase, idle, exited, holding, posting, System, is_woken, after_wait, after_post,
  worker_move, Move, updates, receives, stops, works, started, IsReachable, begins, moves,
}
use vehicle_detection_system.Sender.Addressed.{IsAddressed, build-IsAddressed}
use vehicle_detection_system.Sender.Kept.{
  update-IsAddressed, update-worker, take_body-keeps, start-snapshot, detections-leave,
  shut_down-leaves,
}

-- The settings with which the worker posts have passed the checks, and name the address of their
-- endpoint; only a thread that has been started holds or posts a body.
abbrev pub IsFitPhase : Phase → Bool → Type 0
IsFitPhase idle started = Unit
IsFitPhase exited started = Unit
IsFitPhase (holding body) started = started ≡ true
IsFitPhase (posting body snap) started = (started ≡ true) × IsAcceptable snap × IsAddressed snap

pub record IsFit {D : Type 0} (sys : System D) : Type 0 where
  pub sound : IsSound sys.node
  pub addressed : IsAddressed sys.node.snapshot
  pub phase_fit : IsFitPhase sys.phase sys.node.worker

IsFitPhase-worker :
    (phase : Phase) (a b : Bool) → (a ≡ true → b ≡ true) → IsFitPhase phase a → IsFitPhase phase b
IsFitPhase-worker idle a b f h = tt
IsFitPhase-worker exited a b f h = tt
IsFitPhase-worker (holding body) a b f h = f h
IsFitPhase-worker (posting body snap) a b f (h, fine, addressed) = (f h, fine, addressed)

module _ {D : Type 0} where
  abbrev pub at : Node D → Phase → List Outcome → System D
  at n phase outcomes = record { node = n; phase = phase; outcomes = outcomes }

  after_wait-IsFit :
      (sys : System D) (o : Option Bytes) (n : Node D)
      → IsSound n
      → IsAddressed n.snapshot
      → n.worker ≡ true
      → IsFit (after_wait sys (o, n))
  unfolding after_wait
  after_wait-IsFit sys none n sound addressed on = record {
    sound = sound;
    addressed = addressed;
    phase_fit = tt;
  }
  after_wait-IsFit sys (some body) n sound addressed on = record {
    sound = sound;
    addressed = addressed;
    phase_fit = on;
  }

  idle-IsFit :
      (scripts : ℕ → Script) (n : Node D) (out : List Outcome) {next : System D}
      → IsFit (at n idle out)
      → worker_move scripts (at n idle out) ≡ some next
      → IsFit next
  unfolding worker_move
  idle-IsFit scripts n out {next} h e = elim (Bool-cases n.worker) [
    | inr off ↦ absurd (ground arith)
    | inl on ↦ elim (Bool-cases (is_woken n)) [
      | inr waits ↦ absurd (ground arith)
      | inl woken ↦
          let turn = take_body n in
          let (worker, snapshot) = take_body-keeps n in
          let same : after_wait (at n idle out) turn ≡ next = ground arith in
          subst IsFit same (
            after_wait-IsFit (at n idle out) turn.0 turn.1 (take_body-IsSound n h.sound)
              (subst IsAddressed (sym snapshot) h.addressed) (worker ∙ on))
    ]
  ]

  pub after_post-node :
      (scripts : ℕ → Script) (n : Node D) (body : Bytes) (snap : Snapshot) (out : List Outcome)
      (result : Posting) {next : System D}
      → after_post scripts (at n (posting body snap) out) body snap result ≡ some next
      → at n idle
          (out ++ record { body = body; snapshot = snap; scripts = scripts; posting = result } ∷ [])
        ≡ next
  unfolding after_post
  after_post-node scripts n body snap out skipped e = ground arith
  after_post-node scripts n body snap out overflows e = absurd (ground arith)
  after_post-node scripts n body snap out never_returns e = absurd (ground arith)
  after_post-node scripts n body snap out (posted o) e = ground arith

  worker_move-IsFit :
      (scripts : ℕ → Script) (n : Node D) (phase : Phase) (out : List Outcome) {next : System D}
      → IsFit (at n phase out)
      → worker_move scripts (at n phase out) ≡ some next
      → IsFit next
  unfolding worker_move
  worker_move-IsFit scripts n idle out h e = idle-IsFit scripts n out h e
  worker_move-IsFit scripts n exited out h e = absurd (ground arith)
  worker_move-IsFit scripts n (holding body) out {next} h e =
      let same : at n (posting body n.snapshot) out ≡ next = ground arith in
      subst IsFit same (record {
        sound = h.sound;
        addressed = h.addressed;
        phase_fit = (h.phase_fit, (rejection_iff n.snapshot).0 h.sound.accepted, h.addressed);
      })
  worker_move-IsFit scripts n (posting body snap) out h e =
      subst IsFit (after_post-node scripts n body snap out (post_body scripts snap body) e)
        (record { sound = h.sound; addressed = h.addressed; phase_fit = tt })

fit_lem :
    (snap : Snapshot)
    → IsAcceptable snap
    → IsAddressed snap
    → (pos 1 ≤ℤ snap.http_timeout_ms)
      × (pos 0 ≤ℤ snap.http_retry_count)
      × (if send_mode_uses_http snap.send_mode
          then parsed snap.http_endpoint_url ≡ some snap.http_url
          else Unit)
fit_lem snap (known, timeout, retries, valid, format) addressed = (timeout, retries, ground arith)

module _ {D : Type 0} ⦃d : Double D⦄ where
  move-IsFit : {sys next : System D} → Move sys next → IsFit sys → IsFit next
  move-IsFit (updates opens params sys) h = record {
    sound = on_parameter_change-IsSound opens params sys.node h.sound;
    addressed = update-IsAddressed opens params sys.node h.addressed;
    phase_fit =
        IsFitPhase-worker sys.phase sys.node.worker _ (update-worker opens params sys.node)
          h.phase_fit;
  }
  move-IsFit (receives fate msg sys) h =
      let (worker, snapshot) = detections-leave fate msg sys.node in
      record {
        sound = on_detections-IsSound fate msg sys.node h.sound;
        addressed = subst IsAddressed (sym snapshot) h.addressed;
        phase_fit = subst (IsFitPhase sys.phase) (sym worker) h.phase_fit;
      }
  move-IsFit (stops sys) h = record {
    sound = shut_down-IsSound sys.node h.sound;
    addressed = subst IsAddressed (sym (shut_down-leaves sys.node).1) h.addressed;
    phase_fit = subst (IsFitPhase sys.phase) (sym (shut_down-leaves sys.node).0) h.phase_fit;
  }
  move-IsFit (works scripts {sys} {sys'} e) h =
      worker_move-IsFit scripts sys.node sys.phase sys.outcomes h e

  pub reachable-IsFit : {sys : System D} → IsReachable sys → IsFit sys
  reachable-IsFit (begins opens p files {n} e) = record {
    sound = start-IsSound opens p files n e;
    addressed = subst IsAddressed (sym (start-snapshot opens p files n e)) (build-IsAddressed p);
    phase_fit = tt;
  }
  reachable-IsFit (moves r m) = move-IsFit m (reachable-IsFit r)

  -- In every state that a started node and its worker can reach, whatever updates, messages and turns have
  -- been before: if the worker is about to post with a snapshot, then this has a timeout of at least 1, a
  -- retry count that is not negative, and, if its mode posts, the address that `parse_http_url` finds in
  -- its endpoint.
  pub posting-IsFit :
      (sys : System D) (body : Bytes) (snap : Snapshot)
      → IsReachable sys
      → sys.phase ≡ posting body snap
      → (pos 1 ≤ℤ snap.http_timeout_ms)
        × (pos 0 ≤ℤ snap.http_retry_count)
        × (if send_mode_uses_http snap.send_mode
            then parsed snap.http_endpoint_url ≡ some snap.http_url
            else Unit)
  posting-IsFit sys body snap r e =
      let (on, acceptable, addressed) =
        subst (λ p. IsFitPhase p sys.node.worker) e (reachable-IsFit r).phase_fit in
      fit_lem snap acceptable addressed
