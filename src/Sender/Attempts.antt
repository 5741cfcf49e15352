-- ===== src/Sender/Attempts.antt =====
-- The result of `http_worker_loop` for a body is that of one call of `http_post_json`.
use vehicle_detection_system.Common.{
  ℕ, zero, suc, ◌≡◌, refl, subst, true, false, not, ◌||◌, some, [], Bytes, arith, Option-cases,
  Bool-cases, inl, inr,
}
use mathlib.Core.Option.{some-injective}
use vehicle_detection_system.Http.Url.{HttpUrl}
use vehicle_detection_system.Http.Post.{HttpPostResult, Script, http_post_json, failure}
use vehicle_detection_system.Sender.Settings.{Snapshot, send_mode_uses_http}
use vehicle_detection_system.Sender.Worker.{total_attempts, post_loop}
use vehicle_detection_system.Sender.Node.{post_body, posted}

-- Where the attempts end with a success, the last of them is the one that succeeded.
module _ (scripts : ℕ → Script) (url : HttpUrl) (body : Bytes) where
  abbrev pub LastReturns : HttpPostResult × ℕ → Type 0
  LastReturns (r, k) =
      (j : ℕ) × (k ≡ suc j) × ((http_post_json (scripts j) url body).result ≡ some r)

  post_loop-LastReturns :
      (left i : ℕ) (last : HttpPostResult) {out : HttpPostResult × ℕ}
      → last.ok ≡ false
      → post_loop scripts url body left i last ≡ some out
      → out.0.ok ≡ true
      → LastReturns out
  unfolding post_loop
  post_loop-LastReturns zero i last bad e good = absurd (ground arith)
  post_loop-LastReturns (suc left) i last bad e good =
      elim (Option-cases (http_post_json (scripts i) url body).result) [
        | inl n ↦ absurd (ground arith)
        | inr (r, found) ↦ elim (Bool-cases r.ok) [
          | inl done ↦
              let same : some (r, suc i) ≡ some _ = ground arith in
              subst LastReturns (some-injective _ _ same) (i, refl, found)
          | inr again ↦ post_loop-LastReturns left (suc i) r again (ground arith) good
        ]
      ]

pub post_body-LastReturns :
    (scripts : ℕ → Script) (s : Snapshot) (body : Bytes) {out : HttpPostResult × ℕ}
    → post_body scripts s body ≡ posted out
    → out.0.ok ≡ true
    → LastReturns scripts s.http_url body out
unfolding post_body
post_body-LastReturns scripts s body {out} e good =
    elim (Bool-cases (not (send_mode_uses_http s.send_mode) || not s.http_url_valid)) [
      | inl skips ↦ absurd (ground arith)
      | inr posts ↦ elim (Option-cases (total_attempts s.http_retry_count)) [
        | inl over ↦ absurd (ground arith)
        | inr (attempts, few) ↦
            let first = failure [] in
            elim (Option-cases (post_loop scripts s.http_url body attempts 0 first)) [
              | inl waits ↦ absurd (ground arith)
              | inr (end, found) ↦
                  let same : end ≡ out = ground arith in
                  post_loop-LastReturns scripts s.http_url body attempts 0 first refl
                    (rw same at found) good
            ]
      ]
    ]
