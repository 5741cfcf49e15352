-- ===== src/Bridge/Server.antt =====
-- The thread of the server: `start_server`, `stop_server` and what the thread itself does. The flag and the
-- thread are what these share.
use vehicle_detection_system.Common.{
  ◌≡◌, refl, Bool, true, false, Option, none, some, if◌then◌else◌, subst,
}

-- The thread of the server: none, before its call of `listen` takes effect, inside it, and ended.
pub data Thread : Type 0 where
  no_thread starting listening ended : Thread

pub record Server : Type 0 where
  pub server_running : Bool
  pub thread : Thread

abbrev pub fresh_server : Server
fresh_server = record { server_running = false; thread = no_thread }

-- `none` is the end of the program: a thread is assigned to one that has not been joined.
unfoldable pub start_server : Server → Option Server
start_server s = if s.server_running then some s else elim s.thread [
  | no_thread ↦ some (record { server_running = true; thread = starting })
  | _ ↦ none
]

-- `listen` binds the port, or returns.
unfoldable pub bind_port : Server → Server
bind_port s = elim s.thread [ starting ↦ record s { thread = listening } | _ ↦ s ]

unfoldable pub listen_returns : Server → Server
listen_returns s = elim s.thread [
  | starting ↦ record { server_running = false; thread = ended }
  | listening ↦ record { server_running = false; thread = ended }
  | _ ↦ s
]

-- A join waits for the end of the thread; `none` is one that waits for ever, since the server was not
-- running when it was to be stopped, and starts to listen then. `binds` is whether the port is bound.
unfoldable pub stop_server : Bool → Server → Option Server
stop_server binds s = elim s.thread [
  | no_thread ↦ some s
  | starting ↦ if binds then none else some (record { server_running = false; thread = no_thread })
  | listening ↦ some (record { server_running = false; thread = no_thread })
  | ended ↦ some (record s { thread = no_thread })
]

-- A step of the node or of the thread; a thread that is not there makes none.
pub data Step : Server → Server → Type 0 where
  starts : {s t : Server} → start_server s ≡ some t → Step s t
  binds : (s : Server) → Step s (bind_port s)
  returns : (s : Server) → Step s (listen_returns s)
  stops : (bound : Bool) {s t : Server} → stop_server bound s ≡ some t → Step s t

-- From the constructor, by any steps.
pub data IsReachable : Server → Type 0 where
  fresh : IsReachable fresh_server
  after : {s t : Server} → IsReachable s → Step s t → IsReachable t

is_active : Thread → Bool
is_active starting = true
is_active listening = true
is_active _ = false

-- The flag is set exactly while the thread is at work.
IsConsistent : Server → Type 0
IsConsistent s = s.server_running ≡ is_active s.thread

some_inj : {A : Type 0} {a b : A} → some a ≡ some b → a ≡ b
some_inj e = cc

-- What holds of the server that a call leaves, if it leaves one.
Leaves : (Server → Type 0) → Option Server → Type 0
Leaves P none = Unit
Leaves P (some t) = P t

Leaves_elim : (P : Server → Type 0) (o : Option Server) (t : Server) → o ≡ some t → Leaves P o → P t
unfolding Leaves
Leaves_elim P none t e h = absurd cc
Leaves_elim P (some u) t e h = subst P (some_inj e) h

start_lem :
    (running : Bool) (th : Thread)
    → running ≡ is_active th
    → Leaves IsConsistent (start_server (record { server_running = running; thread = th }))
unfolding start_server IsConsistent is_active Leaves
start_lem true th h = h
start_lem false no_thread h = refl
start_lem false starting h = tt
start_lem false listening h = tt
start_lem false ended h = tt

stop_lem :
    (bound running : Bool) (th : Thread)
    → running ≡ is_active th
    → Leaves
        (λ t. t ≡ fresh_server)
        (stop_server bound (record { server_running = running; thread = th }))
unfolding stop_server is_active Leaves
stop_lem bound running no_thread h = rw h refl
stop_lem true running starting h = tt
stop_lem false running starting h = refl
stop_lem bound running listening h = refl
stop_lem bound running ended h = rw h refl

thread_lem :
    (running : Bool) (th : Thread)
    → running ≡ is_active th
    → let s : Server = record { server_running = running; thread = th } in
      IsConsistent (bind_port s) × IsConsistent (listen_returns s)
unfolding bind_port listen_returns IsConsistent is_active
thread_lem running no_thread h = (h, h)
thread_lem running starting h = (h, refl)
thread_lem running listening h = (h, refl)
thread_lem running ended h = (h, h)

step-IsConsistent : {s t : Server} → Step s t → IsConsistent s → IsConsistent t
unfolding IsConsistent is_active
step-IsConsistent (starts {s} {t} e) h =
    Leaves_elim IsConsistent _ t e (start_lem s.server_running s.thread h)
step-IsConsistent (binds s) h = (thread_lem s.server_running s.thread h).0
step-IsConsistent (returns s) h = (thread_lem s.server_running s.thread h).1
step-IsConsistent (stops bound {s} {t} e) h =
    let back : t ≡ fresh_server =
      Leaves_elim (λ u. u ≡ fresh_server) _ t e (stop_lem bound s.server_running s.thread h) in
    rw back refl

reachable-IsConsistent : {s : Server} → IsReachable s → IsConsistent s
unfolding IsConsistent is_active
reachable-IsConsistent fresh = refl
reachable-IsConsistent (after r step) = step-IsConsistent step (reachable-IsConsistent r)

-- In every state that the node and its thread can reach: when `stop_server` returns, the server is as it
-- was at first, without a thread and with its flag cleared, so that it can be started again and the
-- destructor finds nothing to join.
pub stop_server-fresh :
    (s t : Server) (bound : Bool) → IsReachable s → stop_server bound s ≡ some t → t ≡ fresh_server
unfolding IsConsistent
stop_server-fresh s t bound r e =
    Leaves_elim (λ u. u ≡ fresh_server) _ t e
      (stop_lem bound s.server_running s.thread (reachable-IsConsistent r))
