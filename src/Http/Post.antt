-- ===== src/Http/Post.antt =====
-- `http_post_json` of src/vehicle_detection/src/http_client.cpp.
use vehicle_detection_system.Common.{
  ℕ, ◌⊎◌, inl, inr, Bool, false, not, ◌&&◌, Option, none, some, List, [], ◌∷◌, ◌++◌, Bytes, codes,
  decimal, is_empty, length, ◌≟◌, if◌then◌else◌,
}
use vehicle_detection_system.Common.Int.{ℤ, pos, ltb_ℤ}
use vehicle_detection_system.Http.Url.{HttpUrl, default_port}
use vehicle_detection_system.Http.Status.{parse_status_line, minus_one}
use vehicle_detection_system.Http.Connect.{
  AddressScript, FdEvent, closed, Connection, connect_with_timeout,
}
use vehicle_detection_system.Http.Transfer.{
  SendAnswer, RecvAnswer, Progress, finished, waiting, failed, send_all, receive,
}

pub record HttpPostResult : Type 0 where
  pub ok : Bool
  pub status_code : ℤ
  pub error : Bytes

-- What the system answers during one call: the addresses, or the text of `gai_strerror`; then what
-- the chosen socket does.
pub record Script : Type 0 where
  pub getaddrinfo : Bytes ⊎ List AddressScript
  pub sends : List SendAnswer
  pub recvs : List RecvAnswer

-- `result` is `none` while the call waits. `wire` is what the peer was sent.
pub record PostRun : Type 0 where
  pub result : Option HttpPostResult
  pub events : List FdEvent
  pub wire : Bytes

-- The loop over the addresses, to the first that connects; `last_error` is that of the one before.
unfoldable pub connect_any : List AddressScript → Bytes → Connection
unfolding connect_with_timeout
connect_any [] last_error = record { outcome = inr last_error; events = [] }
connect_any (a ∷ addresses) last_error =
    let c = connect_with_timeout a in
    elim c.outcome [
      | inl sock ↦ c
      | inr e ↦
          let rest = connect_any addresses e in record rest { events = c.events ++ rest.events }
    ]

abbrev pub crlf : Bytes
crlf = 13 ∷ 10 ∷ []

-- A line of the request with its end.
abbrev pub line : Bytes → Bytes → Bytes
line text rest = text ++ (crlf ++ rest)

unfoldable pub request : HttpUrl → Bytes → Bytes
request url body =
    let port_suffix = if not (url.port ≟ default_port) then codes ":" ++ url.port else [] in
    line (codes "POST " ++ (url.path ++ codes " HTTP/1.1")) (
      line (codes "Host: " ++ (url.host ++ port_suffix)) (
        line (codes "User-Agent: vehicle_detection/1.0.0") (
          line (codes "Content-Type: application/json") (
            line (codes "Content-Length: " ++ decimal (length body))
              (line (codes "Connection: close") (line (codes "Accept: */*") (line [] body)))))))

abbrev pub failure : Bytes → HttpPostResult
failure e = record { ok = false; status_code = minus_one; error = e }

-- What the response comes to.
unfoldable pub judge : Bytes → HttpPostResult
judge response =
    let status = parse_status_line response in
    let good = not (ltb_ℤ status (pos 200)) && ltb_ℤ status (pos 300) in
    if ltb_ℤ status (pos 0)
    then record { ok = false; status_code = status; error = codes "invalid HTTP response" }
    else record {
      ok = good;
      status_code = status;
      error = (if not good then codes "non-2xx response" else []);
    }

unfoldable pub after_receive : Progress × Bytes → Option HttpPostResult
unfolding judge
after_receive (waiting, response) = none
after_receive (failed e, response) = some (failure e)
after_receive (finished, response) = some (judge response)

unfoldable pub after_send : Script → Progress → Option HttpPostResult
unfolding after_receive receive
after_send s waiting = none
after_send s (failed e) = some (failure e)
after_send s finished = after_receive (receive s.recvs [])

-- `ScopedFd` closes the descriptor when the call returns.
abbrev pub close_at_return : ℕ → Option HttpPostResult → List FdEvent
close_at_return sock none = []
close_at_return sock (some r) = closed sock ∷ []

unfoldable pub http_post_json : Script → HttpUrl → Bytes → PostRun
unfolding connect_any request send_all after_send
http_post_json s url body = elim s.getaddrinfo [
  | inl e ↦ record {
    result = some (failure (codes "getaddrinfo(): " ++ e));
    events = [];
    wire = [];
  }
  | inr addresses ↦
      let c = connect_any addresses [] in
      elim c.outcome [
        | inr e ↦ record {
          result = some (failure (if is_empty e then codes "connect failed" else e));
          events = c.events;
          wire = [];
        }
        | inl sock ↦
            let (progress, wire) = send_all s.sends (request url body) [] in
            let result = after_send s progress in
            record {
              result = result;
              events = c.events ++ close_at_return sock result;
              wire = wire;
            }
      ]
]
