-- ===== src/Sender/Outcomes.antt =====
-- What the worker is done with: each outcome is that of the attempts for its body, with settings that were
-- accepted.
use vehicle_detection_system.Common.{
  ℕ, ◌≡◌, refl, subst, Option, some, List, Bytes, All, All-append, arith, Bool-cases, inl, inr,
  none,
}
use vehicle_detection_system.Common.Double.{Double}
use vehicle_detection_system.Http.Post.{Script}
use vehicle_detection_system.Sender.SettingsLaws.{IsAcceptable}
use vehicle_detection_system.Sender.Node.{Node, take_body, post_body}
use vehicle_detection_system.Sender.Addressed.{IsAddressed}
use vehicle_detection_system.Sender.Posts.{at, after_post-node, IsFit, IsFitPhase, reachable-IsFit}
use vehicle_detection_system.Sender.Thread.{
  Outcome, Phase, idle, exited, holding, posting, System, is_woken, after_wait, worker_move, Move,
  updates, receives, stops, works, IsReachable, begins, moves,
}

pub record IsPosted (o : Outcome) : Type 0 where
  pub result : o.posting ≡ post_body o.scripts o.snapshot o.body
  pub acceptable : IsAcceptable o.snapshot
  pub addressed : IsAddressed o.snapshot

module _ {D : Type 0} where
  after_wait-outcomes :
      (sys : System D) (o : Option Bytes) (n : Node D)
      → (after_wait sys (o, n)).outcomes ≡ sys.outcomes
  unfolding after_wait
  after_wait-outcomes sys none n = refl
  after_wait-outcomes sys (some body) n = refl

  work-IsPosted :
      (scripts : ℕ → Script) (n : Node D) (phase : Phase) (out : List Outcome) {next : System D}
      → IsFitPhase phase n.worker
      → All IsPosted out
      → worker_move scripts (at n phase out) ≡ some next
      → All IsPosted next.outcomes
  unfolding worker_move
  work-IsPosted scripts n idle out {next} fit h e = elim (Bool-cases n.worker) [
    | inr off ↦ absurd (ground arith)
    | inl on ↦ elim (Bool-cases (is_woken n)) [
      | inr waits ↦ absurd (ground arith)
      | inl woken ↦
          let turn = take_body n in
          let there : after_wait (at n idle out) turn ≡ next = ground arith in
          subst (λ (m : System D). All IsPosted m.outcomes) there
            (rw (after_wait-outcomes (at n idle out) turn.0 turn.1) h)
    ]
  ]
  work-IsPosted scripts n exited out fit h e = absurd (ground arith)
  work-IsPosted scripts n (holding body) out {next} fit h e =
      let there : at n (posting body n.snapshot) out ≡ next = ground arith in
      subst (λ (m : System D). All IsPosted m.outcomes) there h
  work-IsPosted scripts n (posting body snap) out (on, acceptable, addressed) h e =
      subst (λ (m : System D). All IsPosted m.outcomes)
        (after_post-node scripts n body snap out (post_body scripts snap body) e)
        (All-append IsPosted out _ h
          (record { result = refl; acceptable = acceptable; addressed = addressed }, tt))

module _ {D : Type 0} ⦃d : Double D⦄ where
  move-IsPosted :
      {sys next : System D}
      → Move sys next
      → IsFit sys
      → All IsPosted sys.outcomes
      → All IsPosted next.outcomes
  move-IsPosted (updates opens params sys) fit h = h
  move-IsPosted (receives fate msg sys) fit h = h
  move-IsPosted (stops sys) fit h = h
  move-IsPosted (works scripts {sys} {sys'} e) fit h =
      work-IsPosted scripts sys.node sys.phase sys.outcomes fit.phase_fit h e

  pub reachable-IsPosted : {sys : System D} → IsReachable sys → All IsPosted sys.outcomes
  reachable-IsPosted (begins opens p files e) = tt
  reachable-IsPosted (moves r m) = move-IsPosted m (reachable-IsFit r) (reachable-IsPosted r)
