-- ===== src/Bridge/Main.antt =====
-- `main` of src/vehicle_detection/src/parameter_bridge_node.cpp, with the destructor of the node. The
-- executor's end, by an exception or not, makes no difference; what the thread of the server does
-- meanwhile is a list of its steps.
use vehicle_detection_system.Common.{
  ℕ, ◌≡◌, refl, Bool, true, false, ◌&&◌, Option, none, some, List, [], ◌∷◌, is_empty, if◌then◌else◌,
  inl, inr, arith,
}
use vehicle_detection_system.Common.Results.{ok, error, Result-cases}
use vehicle_detection_system.Bridge.Node.{Installation, Declared, construct}
use vehicle_detection_system.Bridge.Server.{
  starting, listening, ended, Server, fresh_server, start_server, bind_port, listen_returns,
  stop_server,
}

-- What the thread of the server does by itself: `listen` binds the port, or returns.
pub data ThreadStep : Type 0 where
  binds returns : ThreadStep

unfoldable pub thread_step : ThreadStep → Server → Server
unfolding bind_port listen_returns
thread_step binds s = bind_port s
thread_step returns s = listen_returns s

unfoldable pub thread_steps : List ThreadStep → Server → Server
unfolding thread_step
thread_steps [] s = s
thread_steps (t ∷ ts) s = thread_steps ts (thread_step t s)

-- `none` is a call that does not come back, or the end of the program by `std::terminate`.
infixl 5 ◌>>=?◌
abbrev pub ◌>>=?◌ : {A B : Type 0} → Option A → (A → Option B) → Option B
none >>=? f = none
some a >>=? f = f a

-- The destructor.
unfoldable pub destroy : Bool → Server → Option Server
unfolding stop_server
destroy bound s = stop_server bound s

-- The exit status, and the server at the end. `bound` is whether a thread that has not yet called `listen`
-- binds the port then.
unfoldable pub main : Installation → Declared → List ThreadStep → Bool → Option (ℕ × Server)
unfolding construct start_server thread_steps stop_server destroy
main files p steps bound = elim (construct files p) [
  | error e ↦ some (1, fresh_server)
  | ok node ↦ start_server fresh_server >>=? (λ s.
      stop_server bound (thread_steps steps s) >>=? (λ t. destroy bound t >>=? (λ u. some (0, u))))
]

-- Once the thread is inside `listen`, or has ended, it can be joined.
ended_lem :
    (bound : Bool) (steps : List ThreadStep)
    → stop_server bound (thread_steps steps (record { server_running = false; thread = ended }))
      ≡ some fresh_server
unfolding thread_steps stop_server
ended_lem bound [] = refl
ended_lem bound (binds ∷ steps) = ended_lem bound steps
ended_lem bound (returns ∷ steps) = ended_lem bound steps

listening_lem :
    (bound : Bool) (steps : List ThreadStep)
    → stop_server bound (thread_steps steps (record { server_running = true; thread = listening }))
      ≡ some fresh_server
unfolding thread_steps stop_server
listening_lem bound [] = refl
listening_lem bound (binds ∷ steps) = listening_lem bound steps
listening_lem bound (returns ∷ steps) = ended_lem bound steps

stopped_lem :
    (bound : Bool) (steps : List ThreadStep)
    → stop_server bound (thread_steps steps (record { server_running = true; thread = starting }))
      ≡ (if is_empty steps && bound then none else some fresh_server)
unfolding thread_steps stop_server
stopped_lem true [] = refl
stopped_lem false [] = refl
stopped_lem bound (binds ∷ steps) = listening_lem bound steps
stopped_lem bound (returns ∷ steps) = ended_lem bound steps

-- The program ends with status 1 exactly if the constructor throws. Otherwise it never ends if the
-- executor stops before the thread of the server has called `listen`, which then binds the port; and in
-- every other case, whatever that thread has done, it ends with status 0 and has joined the thread.
pub main_lem :
    (files : Installation) (p : Declared) (steps : List ThreadStep) (bound : Bool)
    → main files p steps bound ≡ (elim (construct files p) [
      | error e ↦ some (1, fresh_server)
      | ok node ↦ if is_empty steps && bound then none else some (0, fresh_server)
    ])
unfolding main start_server stop_server destroy
main_lem files p steps bound = elim (Result-cases (construct files p)) [
  | inr (e, thrown) ↦ rw (main, thrown) refl
  | inl (node, made) ↦ rw (main, made, stopped_lem bound steps) (ground arith)
]
