-- ===== src/Sender/Join.antt =====
-- The destructor's `join` comes back.
use vehicle_detection_system.Common.{
  ℕ, suc, ◌+◌, ◌≤◌, ◌≡◌, refl, ◌∙◌, Bool, true, false, some, List, [], ◌∷◌, ◌++◌, Bytes, length,
  length-append, arith,
}
use vehicle_detection_system.Http.Post.{Script}
use vehicle_detection_system.Sender.Settings.{Snapshot}
use vehicle_detection_system.Sender.Node.{
  Node, take_body, post_body, Posting, overflows, never_returns,
}
use vehicle_detection_system.Sender.Thread.{
  Outcome, Phase, idle, exited, holding, posting, System, is_woken, after_wait, after_post,
  worker_move, iterate,
}

-- The attempts come to an end.
unfoldable pub is_answer : Posting → Bool
is_answer overflows = false
is_answer never_returns = false
is_answer _ = true

-- The body that the worker has in hand, if any, is posted in the end.
abbrev pub HasAnswer : {D : Type 0} → (ℕ → Script) → System D → Type 0
HasAnswer scripts sys = elim sys.phase [
  | idle ↦ Unit
  | exited ↦ Unit
  | holding body ↦ is_answer (post_body scripts sys.node.snapshot body) ≡ true
  | posting body snap ↦ is_answer (post_body scripts snap body) ≡ true
]

-- What becomes of a body that is posted with some settings.
abbrev pub outcome : (ℕ → Script) → Bytes → Snapshot → Outcome
outcome scripts body snap = record {
  body = body;
  snapshot = snap;
  scripts = scripts;
  posting = post_body scripts snap body;
}

module _ {D : Type 0} (scripts : ℕ → Script) where
  abbrev at : Node D → Phase → List Outcome → System D
  at n phase outcomes = record { node = n; phase = phase; outcomes = outcomes }

  idle_lem :
      (n : Node D) (out : List Outcome)
      → n.stop_flag ≡ true
      → n.worker ≡ true
      → worker_move scripts (at n idle out) ≡ some (at (record n { queue = [] }) exited out)
  unfolding worker_move is_woken after_wait take_body
  idle_lem n out stop works = ground arith

  posting_lem :
      (n : Node D) (out : List Outcome) (body : Bytes) (snap : Snapshot)
      → is_answer (post_body scripts snap body) ≡ true
      → worker_move scripts (at n (posting body snap) out)
        ≡ some (at n idle (out ++ outcome scripts body snap ∷ []))
  unfolding worker_move after_post is_answer
  posting_lem n out body snap h = ground arith

  holding_lem :
      (n : Node D) (out : List Outcome) (body : Bytes)
      → worker_move scripts (at n (holding body) out) ≡ some (at n (posting body n.snapshot) out)
  unfolding worker_move
  holding_lem n out body = refl

  next_lem :
      (k : ℕ) (sys next : System D)
      → worker_move scripts sys ≡ some next
      → iterate scripts (suc k) sys ≡ iterate scripts k next
  unfolding iterate
  next_lem k sys next e = rw (iterate, e) refl

  -- Where the worker has ended after some of its moves.
  pub record IsJoined (sys : System D) : Type 0 where
    pub moves : ℕ
    pub last : System D
    pub reached : iterate scripts moves sys ≡ some last
    pub bounded : moves ≤ 3
    pub ended : last.phase ≡ exited
    pub one_more : length last.outcomes ≤ length sys.outcomes + 1

  from_idle :
      (n : Node D) (out : List Outcome)
      → n.stop_flag ≡ true
      → n.worker ≡ true
      → iterate scripts 1 (at n idle out) ≡ some (at (record n { queue = [] }) exited out)
  unfolding iterate
  from_idle n out stop works = next_lem 0 _ _ (idle_lem n out stop works)

  from_posting :
      (n : Node D) (out : List Outcome) (body : Bytes) (snap : Snapshot)
      → n.stop_flag ≡ true
      → n.worker ≡ true
      → is_answer (post_body scripts snap body) ≡ true
      → iterate scripts 2 (at n (posting body snap) out)
        ≡ some (at (record n { queue = [] }) exited (out ++ outcome scripts body snap ∷ []))
  from_posting n out body snap stop works h =
      next_lem 1 _ _ (posting_lem n out body snap h) ∙ from_idle n _ stop works

  from_holding :
      (n : Node D) (out : List Outcome) (body : Bytes)
      → n.stop_flag ≡ true
      → n.worker ≡ true
      → is_answer (post_body scripts n.snapshot body) ≡ true
      → iterate scripts 3 (at n (holding body) out)
        ≡ some (at (record n { queue = [] }) exited (out ++ outcome scripts body n.snapshot ∷ []))
  from_holding n out body stop works h =
      next_lem 2 _ _ (holding_lem n out body) ∙ from_posting n out body n.snapshot stop works h

  at-IsJoined :
      (n : Node D) (phase : Phase) (out : List Outcome)
      → n.stop_flag ≡ true
      → n.worker ≡ true
      → HasAnswer scripts (at n phase out)
      → IsJoined (at n phase out)
  unfolding iterate
  at-IsJoined n idle out stop works h = record {
    moves = 1;
    last = at (record n { queue = [] }) exited out;
    reached = from_idle n out stop works;
    bounded = omega arith;
    ended = refl;
    one_more = omega arith;
  }
  at-IsJoined n exited out stop works h = record {
    moves = 0;
    last = at n exited out;
    reached = refl;
    bounded = omega arith;
    ended = refl;
    one_more = omega arith;
  }
  at-IsJoined n (holding body) out stop works h = record {
    moves = 3;
    last = at (record n { queue = [] }) exited (out ++ outcome scripts body n.snapshot ∷ []);
    reached = from_holding n out body stop works h;
    bounded = omega arith;
    ended = refl;
    one_more = omega (arith, length-append out (outcome scripts body n.snapshot ∷ []));
  }
  at-IsJoined n (posting body snap) out stop works h = record {
    moves = 2;
    last = at (record n { queue = [] }) exited (out ++ outcome scripts body snap ∷ []);
    reached = from_posting n out body snap stop works h;
    bounded = omega arith;
    ended = refl;
    one_more = omega (arith, length-append out (outcome scripts body snap ∷ []));
  }

  -- If the destructor has told the worker to stop, the worker was started, and the attempts for the body
  -- that it has in hand, if it has one, come to an end: the worker ends after at most three moves, and
  -- posts no other body on the way, so the `join` of the destructor comes back.
  pub stop-IsJoined :
      (sys : System D)
      → sys.node.stop_flag ≡ true
      → sys.node.worker ≡ true
      → HasAnswer scripts sys
      → IsJoined sys
  stop-IsJoined sys stop works h = at-IsJoined sys.node sys.phase sys.outcomes stop works h
