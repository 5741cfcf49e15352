-- ===== src/Http/PostLaws.antt =====
-- What a call of `http_post_json` returns and leaves behind.
use vehicle_detection_system.Common.{
  ◌≡◌, refl, ◌↔◌, true, false, some, List, [], ◌∷◌, ◌++◌, Bytes, is_empty, arith, drop, take, subst,
  ◌≢◌,
}
use vehicle_detection_system.Common.Int.{pos, ◌≤ℤ◌}
use mathlib.Core.Option.{some-injective}
use vehicle_detection_system.Http.Transfer.{
  sent, send_interrupted, send_failed, received, end_of_stream, recv_interrupted, recv_failed,
}
use vehicle_detection_system.Http.Transfer.{
  SendAnswer, RecvAnswer, Progress, finished, waiting, failed, send_all, receive,
}
use vehicle_detection_system.Http.Post.{
  HttpPostResult, Script, failure, judge, after_receive, after_send,
}

-- The code, the verdict and the message of a result agree.
pub record IsConsistent (r : HttpPostResult) : Type 0 where
  pub ok_iff : (r.ok ≡ true) ↔ ((pos 200 ≤ℤ r.status_code) × (r.status_code ≤ℤ pos 299))
  pub error_iff : (r.ok ≡ true) ↔ (r.error ≡ [])

pub failure-IsConsistent : (e : Bytes) → is_empty e ≡ false → IsConsistent (failure e)
failure-IsConsistent [] h = absurd (ground arith)
failure-IsConsistent (x ∷ e) h = record {
  ok_iff = (λ h. absurd (ground arith), λ h. absurd (omega arith));
  error_iff = (λ h. absurd (ground arith), λ h. absurd (ground arith));
}

judge-IsConsistent : (response : Bytes) → IsConsistent (judge response)
unfolding judge
judge-IsConsistent response = record {
  ok_iff = (λ h. ground arith, λ h. ground arith);
  error_iff = (λ h. ground arith, λ h. ground arith);
}

after_receive-IsConsistent :
    (s : Script) (p : Progress × Bytes) {r : HttpPostResult}
    → after_receive p ≡ some r
    → (p.0 ≡ failed [] → ⊥)
    → IsConsistent r
unfolding after_receive
after_receive-IsConsistent s (waiting, response) e n = absurd (ground arith)
after_receive-IsConsistent s (failed [], response) e n = absurd (n refl)
after_receive-IsConsistent s (failed (x ∷ m), response) e n =
    subst IsConsistent (some-injective _ _ e) (failure-IsConsistent (x ∷ m) refl)
after_receive-IsConsistent s (finished, response) e n =
    subst IsConsistent (some-injective _ _ e) (judge-IsConsistent response)

receive-message :
    (answers : List RecvAnswer) (response : Bytes) → (receive answers response).0 ≢ failed []
unfolding receive
receive-message [] response e = cc
receive-message (recv_interrupted ∷ answers) response e = receive-message answers response e
receive-message (end_of_stream ∷ answers) response e = cc
receive-message (recv_failed m ∷ answers) response e = ground arith
receive-message (received c chunk ∷ answers) response e =
    ground (arith, receive-message answers (response ++ c ∷ chunk))

pub send_all-message :
    (answers : List SendAnswer) (left wire : Bytes) → (send_all answers left wire).0 ≢ failed []
unfolding send_all
send_all-message answers [] wire e = cc
send_all-message [] (x ∷ left) wire e = cc
send_all-message (send_interrupted ∷ answers) (x ∷ left) wire e =
    send_all-message answers (x ∷ left) wire e
send_all-message (send_failed m ∷ answers) (x ∷ left) wire e = ground arith
send_all-message (sent n ∷ answers) (x ∷ left) wire e =
    ground (arith, send_all-message answers (drop n (x ∷ left)) (wire ++ take n (x ∷ left)))

pub after_send-IsConsistent :
    (s : Script) (p : Progress) {r : HttpPostResult}
    → after_send s p ≡ some r
    → p ≢ failed []
    → IsConsistent r
unfolding after_send
after_send-IsConsistent s waiting e n = absurd (ground arith)
after_send-IsConsistent s (failed []) e n = absurd (n refl)
after_send-IsConsistent s (failed (x ∷ m)) e n =
    subst IsConsistent (some-injective _ _ e) (failure-IsConsistent (x ∷ m) refl)
after_send-IsConsistent s finished e n =
    after_receive-IsConsistent s (receive s.recvs []) e (receive-message s.recvs [])
