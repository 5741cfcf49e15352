-- ===== src/Sender/Queue.antt =====
-- `enqueue_http`: the queue of bodies that wait to be posted.
use vehicle_detection_system.Common.{
  ℕ, zero, suc, ◌+◌, ◌-◌, ◌≤◌, ◌≡◌, refl, List, [], ◌∷◌, ◌++◌, Bytes, length, drop, leb,
  if◌then◌else◌, arith, length-append, length-drop, append_assoc, append-nil, Bool-cases, inl, inr,
  true, false,
}

abbrev pub max_queue_size : ℕ
max_queue_size = 32

unfoldable pub enqueue_http : Bytes → List Bytes → List Bytes
enqueue_http body queue =
    (if leb max_queue_size (length queue) then drop 1 queue else queue) ++ (body ∷ [])

unfoldable pub enqueue_all : List Bytes → List Bytes → List Bytes
enqueue_all [] queue = queue
enqueue_all (body ∷ bodies) queue = enqueue_all bodies (enqueue_http body queue)

pub enqueue_http-le :
    (body : Bytes) (queue : List Bytes)
    → length queue ≤ max_queue_size
    → length (enqueue_http body queue) ≤ max_queue_size
unfolding enqueue_http
enqueue_http-le body queue h = ground (
  arith,
  length-append queue (body ∷ []),
  length-append (drop 1 queue) (body ∷ []),
  length-drop 1 queue,
)

drop-append :
    {A : Type 0} (n : ℕ) (xs ys : List A) → n ≤ length xs → drop n (xs ++ ys) ≡ drop n xs ++ ys
drop-append zero xs ys h = refl
drop-append (suc n) [] ys h = absurd (omega arith)
drop-append (suc n) (x ∷ xs) ys h = drop-append n xs ys (omega arith)

drop-one : {A : Type 0} (n : ℕ) (xs : List A) → drop 1 (drop n xs) ≡ drop (suc n) xs
drop-one zero xs = refl
drop-one (suc n) [] = refl
drop-one (suc n) (x ∷ xs) = drop-one n xs

-- The bodies that came so far are `sent`, and the queue holds the last of them, as one more comes.
last_lem :
    (sent : List Bytes) (body : Bytes)
    → enqueue_http body (drop (length sent - max_queue_size) sent)
      ≡ drop (length (sent ++ (body ∷ [])) - max_queue_size) (sent ++ (body ∷ []))
unfolding enqueue_http
last_lem sent body =
    rw (length-append sent (body ∷ []), length-drop (length sent - max_queue_size) sent)
      (elim (Bool-cases (leb max_queue_size (length sent))) [
        | inl e ↦
            let full : leb max_queue_size (length sent - (length sent - max_queue_size)) ≡ true =
              ground arith in
            let next : length sent + 1 - max_queue_size ≡ suc (length sent - max_queue_size) =
              ground arith in
            rw
              (
                full,
                next,
                drop-one (length sent - max_queue_size) sent,
                drop-append (suc (length sent - max_queue_size)) sent (body ∷ []) (ground arith),
              )
              refl
        | inr e ↦
            let none : length sent - max_queue_size ≡ 0 = ground arith in
            let next : length sent + 1 - max_queue_size ≡ 0 = ground arith in
            let room : leb max_queue_size (length sent - 0) ≡ false = ground arith in
            rw (none, next, room) refl
      ])

enqueue_all_from :
    (bodies sent : List Bytes)
    → enqueue_all bodies (drop (length sent - max_queue_size) sent)
      ≡ drop (length (sent ++ bodies) - max_queue_size) (sent ++ bodies)
unfolding enqueue_all
enqueue_all_from [] sent = rw (append-nil sent) refl
enqueue_all_from (body ∷ bodies) sent =
    rw (last_lem sent body) (
      rw (enqueue_all_from bodies (sent ++ (body ∷ [])), append_assoc sent (body ∷ []) bodies) refl)

-- However many bodies are put into an empty queue, it holds the last 32 of them, or all if they are
-- fewer, in the order in which they came.
pub enqueue_all_lem :
    (bodies : List Bytes) → enqueue_all bodies [] ≡ drop (length bodies - max_queue_size) bodies
enqueue_all_lem bodies = enqueue_all_from bodies []
