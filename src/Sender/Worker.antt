-- ===== src/Sender/Worker.antt =====
-- `http_worker_loop`: what the worker does with one body.
use vehicle_detection_system.Common.{
  Bool, ◌==◌, ◌⊎◌, inl, inr, sym, false, Bool-cases, ℕ, zero, suc, ◌+◌, ◌^◌, ◌≤◌, ◌<◌, ◌≡◌, refl,
  subst, ◌∙◌, true, Option, none, some, Bytes, leb, if◌then◌else◌, arith,
}
use vehicle_detection_system.Common.Int.{ℤ, pos, negsuc}
use vehicle_detection_system.Http.Url.{HttpUrl}
use vehicle_detection_system.Http.Post.{HttpPostResult, Script, http_post_json}

-- `std::max<std::int64_t>(1, http_retry_count + 1)`; `none` where the sum is not an `int64_t`, which
-- is undefined behaviour.
unfoldable pub total_attempts : ℤ → Option ℕ
total_attempts (pos n) = if leb (2 ^ 63) (n + 1) then none else some (n + 1)
total_attempts (negsuc n) = some 1

-- The loop over the attempts. `scripts i` is what the system answers to attempt `i`, and `last` the
-- result of the attempt before. With the result comes the number of attempts made; `none` is a call
-- that does not return.
unfoldable pub post_loop :
    (ℕ → Script) → HttpUrl → Bytes → ℕ → ℕ → HttpPostResult → Option (HttpPostResult × ℕ)
post_loop scripts url body zero i last = some (last, i)
post_loop scripts url body (suc left) i last =
    let run = http_post_json (scripts i) url body in
    elim run.result [
      | none ↦ none
      | some r ↦
          let rest = post_loop scripts url body left (suc i) r in
          if r.ok then some (r, suc i) else rest
    ]

-- The first place below `n` where a test holds, if there is one.
first_true :
    (f : ℕ → Bool) (n : ℕ)
    → ((m : ℕ) → m < n → f m ≡ false)
      ⊎ ((k : ℕ) × (k < n) × (f k ≡ true) × ((m : ℕ) → m < k → f m ≡ false))
first_true f zero = inl (λ m h. elim h [ ])
first_true f (suc n) = elim (first_true f n) [
  | inr (k, low, good, bad) ↦ inr (k, omega arith, good, bad)
  | inl none_yet ↦ elim (Bool-cases (f n)) [
    | inl good ↦ inr (n, omega arith, good, none_yet)
    | inr bad ↦ inl (λ m h. elim (Bool-cases (m == n)) [
      | inl e ↦ let same : m ≡ n = ground arith in subst (λ i. f i ≡ false) (sym same) bad
      | inr e ↦ none_yet m (ground arith)
    ])
  ]
]

module _ (scripts : ℕ → Script) (url : HttpUrl) (body : Bytes) (answers : ℕ → HttpPostResult)
    (returns : (i : ℕ) → (http_post_json (scripts i) url body).result ≡ some (answers i)) where
  stop_lem :
      (left i : ℕ) (last : HttpPostResult)
      → (answers i).ok ≡ true
      → post_loop scripts url body (suc left) i last ≡ some (answers i, suc i)
  unfolding post_loop
  stop_lem left i last good = rw (post_loop, returns i, good) refl

  again_lem :
      (left i : ℕ) (last : HttpPostResult)
      → (answers i).ok ≡ false
      → post_loop scripts url body (suc left) i last
        ≡ post_loop scripts url body left (suc i) (answers i)
  unfolding post_loop
  again_lem left i last bad = rw (post_loop, returns i, bad) refl

  success_from :
      (j left i k : ℕ) (last : HttpPostResult)
      → j < left
      → k ≡ i + j
      → (answers k).ok ≡ true
      → ((m : ℕ) → i ≤ m → m < k → (answers m).ok ≡ false)
      → post_loop scripts url body left i last ≡ some (answers k, suc k)
  success_from j zero i k last few e good bad = elim few [ ]
  success_from zero (suc left) i k last few e good bad =
      let same : k ≡ i = omega arith in
      rw (same) (stop_lem left i last (subst (λ n. (answers n).ok ≡ true) same good))
  success_from (suc j) (suc left) i k last few e good bad =
      again_lem left i last (bad i (omega arith) (omega arith))
      ∙ success_from j left (suc i) k (answers i) (omega arith) (omega arith) good
          (λ m low high. bad m (omega arith) high)

  failure_from :
      (left i k : ℕ) (last : HttpPostResult)
      → k ≡ i + left
      → ((m : ℕ) → i ≤ m → m < suc k → (answers m).ok ≡ false)
      → post_loop scripts url body (suc left) i last ≡ some (answers k, suc k)
  unfolding post_loop
  failure_from zero i k last e bad =
      let same : k ≡ i = omega arith in
      rw same (again_lem 0 i last (bad i (omega arith) (omega arith)))
  failure_from (suc left) i k last e bad =
      again_lem (suc left) i last (bad i (omega arith) (omega arith))
      ∙ failure_from left (suc i) k (answers i) (omega arith)
          (λ m low high. bad m (omega arith) high)

  -- If every call returns, attempt `k` is within the number of attempts, succeeds and is the first to
  -- do so, then the loop ends with its result after `k + 1` attempts.
  post_loop_success :
      (attempts k : ℕ) (last : HttpPostResult)
      → k < attempts
      → (answers k).ok ≡ true
      → ((m : ℕ) → m < k → (answers m).ok ≡ false)
      → post_loop scripts url body attempts 0 last ≡ some (answers k, suc k)
  post_loop_success attempts k last few good bad =
      success_from k attempts 0 k last few (omega arith) good (λ m low high. bad m high)

  -- If every call returns and all attempts fail, of which there are `n + 1`, then the loop makes them
  -- all and ends with the result of the last.
  post_loop_failure :
      (n : ℕ) (last : HttpPostResult)
      → ((m : ℕ) → m < suc n → (answers m).ok ≡ false)
      → post_loop scripts url body (suc n) 0 last ≡ some (answers n, suc n)
  post_loop_failure n last bad = failure_from n 0 n last (omega arith) (λ m low high. bad m high)

  -- If every call returns, then of the `n + 1` attempts the loop makes those up to the first that
  -- succeeds, or all of them if none does, and no other; and it ends with the result of the last that it
  -- has made.
  pub post_loop_lem :
      (n : ℕ) (last : HttpPostResult)
      → (k : ℕ) × (k ≤ n)
        × ((m : ℕ) → m < k → (answers m).ok ≡ false)
        × (((answers k).ok ≡ true) ⊎ (k ≡ n))
        × (post_loop scripts url body (suc n) 0 last ≡ some (answers k, suc k))
  post_loop_lem n last = elim (first_true (λ m. (answers m).ok) (suc n)) [
    | inl bad ↦
        (n, omega arith, (λ m h. bad m (omega arith)), inr refl, post_loop_failure n last bad)
    | inr (k, low, good, bad) ↦
        (k, omega arith, bad, inl good, post_loop_success (suc n) k last low good bad)
  ]
