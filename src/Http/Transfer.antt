-- ===== src/Http/Transfer.antt =====
-- `send_all` and the reading loop of src/vehicle_detection/src/http_client.cpp. Each `send` and `recv`
-- takes its answer from a list; where that ends, the loop is still waiting.
use vehicle_detection_system.Common.{
  ℕ, ◌*◌, List, [], ◌∷◌, ◌++◌, Bytes, codes, length, take, drop, ltb, ◌==◌, if◌then◌else◌,
}

-- `sent n` is the answer `n`; the others are -1, with EINTR or with another error.
pub data SendAnswer : Type 0 where
  sent : ℕ → SendAnswer
  send_interrupted : SendAnswer
  send_failed : Bytes → SendAnswer

-- How a loop over system calls stands: it has returned, with an error or without, or it waits.
pub data Progress : Type 0 where
  finished waiting : Progress
  failed : Bytes → Progress

-- `left` is what is not sent yet, and `wire` what the kernel has taken.
unfoldable pub send_all : List SendAnswer → Bytes → Bytes → Progress × Bytes
send_all answers [] wire = (finished, wire)
send_all [] (x ∷ left) wire = (waiting, wire)
send_all (send_interrupted ∷ answers) (x ∷ left) wire = send_all answers (x ∷ left) wire
send_all (send_failed e ∷ answers) (x ∷ left) wire = (failed (codes "send(): " ++ e), wire)
send_all (sent n ∷ answers) (x ∷ left) wire =
    let next = send_all answers (drop n (x ∷ left)) (wire ++ take n (x ∷ left)) in
    if n == 0 then (failed (codes "send(): peer closed connection"), wire) else next

-- `received` holds a chunk of at least one byte.
pub data RecvAnswer : Type 0 where
  received : ℕ → Bytes → RecvAnswer
  end_of_stream recv_interrupted : RecvAnswer
  recv_failed : Bytes → RecvAnswer

abbrev pub buffer_size : ℕ
buffer_size = 1024

abbrev pub response_limit : ℕ
response_limit = 64 * 1024

unfoldable pub receive : List RecvAnswer → Bytes → Progress × Bytes
receive [] response = (waiting, response)
receive (recv_interrupted ∷ answers) response = receive answers response
receive (end_of_stream ∷ answers) response = (finished, response)
receive (recv_failed e ∷ answers) response = (failed (codes "recv(): " ++ e), response)
receive (received c chunk ∷ answers) response =
    let longer = response ++ c ∷ chunk in
    let next = receive answers longer in
    if ltb response_limit (length longer) then (finished, longer) else next
