-- ===== src/Http/TransferLaws.antt =====
-- What `send_all` puts on the wire, and what the reading loop takes off it.
use vehicle_detection_system.Common.{
  ℕ, suc, ◌+◌, ◌≤◌, ◌<◌, ◌≡◌, refl, ap, ◌∙◌, ◌↔◌, List, [], ◌∷◌, ◌++◌, Bytes, length, take, drop,
  ◌==◌, arith, append_assoc, take-append-drop, length-append, length-drop, Bool-cases, All, inl,
  inr,
}
use vehicle_detection_system.Http.Transfer.{
  SendAnswer, sent, send_interrupted, send_failed, Progress, finished, send_all, RecvAnswer,
  received, end_of_stream, recv_interrupted, recv_failed, buffer_size, response_limit, receive,
}

-- What is on the wire and what is not make up the text, and the loop has finished exactly when
-- nothing is left.
pub record Accounts (p : Progress) (wire whole : Bytes) : Type 0 where
  pub rest : Bytes
  pub parts : wire ++ rest ≡ whole
  pub complete : (p ≡ finished) ↔ (rest ≡ [])

send_all-Accounts_from :
    (answers : List SendAnswer) (left wire : Bytes)
    → let (p, w) = send_all answers left wire in Accounts p w (wire ++ left)
unfolding send_all
send_all-Accounts_from answers [] wire = record {
  rest = [];
  parts = refl;
  complete = (λ _. refl, λ _. refl);
}
send_all-Accounts_from [] (x ∷ left) wire = record {
  rest = x ∷ left;
  parts = refl;
  complete = (λ e. cc, λ e. cc);
}
send_all-Accounts_from (send_interrupted ∷ answers) (x ∷ left) wire =
    send_all-Accounts_from answers (x ∷ left) wire
send_all-Accounts_from (send_failed e ∷ answers) (x ∷ left) wire = record {
  rest = x ∷ left;
  parts = refl;
  complete = (λ e. cc, λ e. cc);
}
send_all-Accounts_from (sent n ∷ answers) (x ∷ left) wire = elim (Bool-cases (n == 0)) [
  | inl e ↦ rw e (record { rest = x ∷ left; parts = refl; complete = (λ e. cc, λ e. cc) })
  | inr e ↦
      let whole : (wire ++ take n (x ∷ left)) ++ drop n (x ∷ left) ≡ wire ++ x ∷ left =
        append_assoc wire _ _ ∙ ap (λ r. wire ++ r) (take-append-drop n (x ∷ left)) in
      rw e (
        rw whole at
          (send_all-Accounts_from answers (drop n (x ∷ left)) (wire ++ take n (x ∷ left))))
]

-- Whatever the kernel answers, what `send_all` has put on the wire is the beginning of the text, in
-- order and nothing twice; and it finishes without an error exactly when this is the whole text.
pub send_all-Accounts :
    (answers : List SendAnswer) (text : Bytes)
    → let (p, w) = send_all answers text [] in Accounts p w text
send_all-Accounts answers text = send_all-Accounts_from answers text []

-- Answers that take at least one byte, or were interrupted.
abbrev pub MakesProgress : SendAnswer → Type 0
MakesProgress (sent n) = 0 < n
MakesProgress send_interrupted = Unit {0}
MakesProgress (send_failed e) = ⊥

abbrev pub takes : List SendAnswer → ℕ
takes [] = 0
takes (sent n ∷ answers) = suc (takes answers)
takes (_ ∷ answers) = takes answers

-- With no failure among the answers, and as many answers that take at least one byte as the text
-- has bytes, `send_all` finishes, however many interruptions come between.
pub send_all-finished :
    (answers : List SendAnswer) (text wire : Bytes)
    → All MakesProgress answers
    → length text ≤ takes answers
    → (send_all answers text wire).0 ≡ finished
unfolding send_all
send_all-finished answers [] wire h k = refl
send_all-finished [] (x ∷ text) wire h k = elim k [ ]
send_all-finished (send_interrupted ∷ answers) (x ∷ text) wire (h, hs) k =
    send_all-finished answers (x ∷ text) wire hs k
send_all-finished (send_failed e ∷ answers) (x ∷ text) wire (h, hs) k = absurd h
send_all-finished (sent n ∷ answers) (x ∷ text) wire (h, hs) k = elim (Bool-cases (n == 0)) [
  | inl e ↦ absurd (ground arith)
  | inr e ↦ rw e (
      send_all-finished answers (drop n (x ∷ text)) (wire ++ take n (x ∷ text)) hs
        (omega (arith, length-drop n (x ∷ text))))
]

-- A `recv` gives at most what the buffer holds.
abbrev pub FitsBuffer : RecvAnswer → Type 0
FitsBuffer (received c chunk) = length (c ∷ chunk) ≤ buffer_size
FitsBuffer _ = Unit {0}

receive-le_from :
    (answers : List RecvAnswer) (response : Bytes)
    → All FitsBuffer answers
    → length response ≤ response_limit
    → length (receive answers response).1 ≤ response_limit + buffer_size
unfolding receive
receive-le_from [] response h k = omega arith
receive-le_from (recv_interrupted ∷ answers) response (h, hs) k =
    receive-le_from answers response hs k
receive-le_from (end_of_stream ∷ answers) response (h, hs) k = omega arith
receive-le_from (recv_failed e ∷ answers) response (h, hs) k = omega arith
receive-le_from (received c chunk ∷ answers) response (h, hs) k =
    ground (
      arith,
      length-append response (c ∷ chunk),
      receive-le_from answers (response ++ c ∷ chunk) hs,
    )

-- If no `recv` gives more than the buffer of 1024 bytes holds, then however much the server sends,
-- the response that is kept has at most 64 KiB and one buffer.
pub receive-le :
    (answers : List RecvAnswer)
    → All FitsBuffer answers
    → length (receive answers []).1 ≤ response_limit + buffer_size
receive-le answers h = receive-le_from answers [] h (omega arith)
