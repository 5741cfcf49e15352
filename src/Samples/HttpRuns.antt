-- ===== src/Samples/HttpRuns.antt =====
-- The theorems on the HTTP client at concrete URLs, answers and calls.
use vehicle_detection_system.Common.{
  ◌↔◌, ◌≡◌, refl, true, none, some, [], ◌∷◌, ◌++◌, codes, arith, decimal, inl, inr,
}
use vehicle_detection_system.Common.Search.{find, find_crlf}
use vehicle_detection_system.Common.Int.{pos}
use vehicle_detection_system.Http.Url.{HttpUrl, parse_http_url}
use vehicle_detection_system.Http.UrlLaws.{UrlText, address, meaning}
use vehicle_detection_system.Http.UrlExact.{Means, parse_http_url_iff}
use vehicle_detection_system.Http.Status.{parse_status_line}
use vehicle_detection_system.Http.Connect.{AddressScript, ready, timed_out}
use vehicle_detection_system.Http.TransferLaws.{receive-le}
use vehicle_detection_system.Common.{length, ◌≤◌, ◌+◌}
use vehicle_detection_system.Http.Transfer.{
  recv_interrupted, response_limit, buffer_size, receive, sent, send_interrupted, received,
  end_of_stream, send_all,
}
use vehicle_detection_system.Http.TransferLaws.{Accounts, send_all-Accounts}
use vehicle_detection_system.Http.Post.{HttpPostResult, Script, http_post_json}
use vehicle_detection_system.Http.PostLaws.{IsConsistent}
use vehicle_detection_system.Http.Descriptors.{AllClosed}
use vehicle_detection_system.Http.PostEnds.{http_post_json-IsConsistent, http_post_json-AllClosed}

abbrev nowhere : HttpUrl
nowhere = record { host = []; port = []; path = [] }

abbrev bracketed : UrlText
bracketed = record { host = address (codes "::1"); port = some (codes "8080"); tail = none }

parse_http_url_iff_example :
    (parse_http_url (codes "http://[::1]:8080") nowhere ≡ (true, meaning bracketed))
    ↔ Means (codes "http://[::1]:8080") (meaning bracketed)
parse_http_url_iff_example =
    parse_http_url_iff (codes "http://[::1]:8080") nowhere (meaning bracketed)

send_all-Accounts_example :
    let (p, w) = send_all (sent 2 ∷ send_interrupted ∷ sent 1 ∷ []) (codes "abcd") [] in
    Accounts p w (codes "abcd")
send_all-Accounts_example =
    send_all-Accounts (sent 2 ∷ send_interrupted ∷ sent 1 ∷ []) (codes "abcd")

-- The first address times out and the second connects; the request goes out at once, and the answer is
-- 200.
abbrev late : AddressScript
late = record {
  socket = inl 5;
  fcntl_get = none;
  fcntl_set = none;
  connect = none;
  select = timed_out;
  so_error = none;
  fcntl_restore = none;
}

abbrev pub script : Script
script = record {
  getaddrinfo = inr (late ∷ record late { select = ready } ∷ []);
  sends = sent 1000 ∷ [];
  recvs = received b'H' (codes "TTP/1.1 200 OK" ++ 13 ∷ 10 ∷ []) ∷ end_of_stream ∷ [];
}

abbrev pub target : HttpUrl
target = record { host = codes "h"; port = codes "8080"; path = codes "/d" }

abbrev pub good : HttpPostResult
good = record { ok = true; status_code = pos 200; error = [] }

pub returns_good : (http_post_json script target (codes "{}")).result ≡ some good
unfolding http_post_json decimal parse_status_line find_crlf find
returns_good = refl

http_post_json-IsConsistent_example : IsConsistent good
http_post_json-IsConsistent_example =
    http_post_json-IsConsistent script target (codes "{}") returns_good

http_post_json-AllClosed_example : AllClosed (http_post_json script target (codes "{}")).events
http_post_json-AllClosed_example = http_post_json-AllClosed script target (codes "{}") returns_good

receive-le_example :
    length (receive (received b'a' (codes "bc") ∷ recv_interrupted ∷ end_of_stream ∷ []) []).1
    ≤ response_limit + buffer_size
receive-le_example =
    receive-le (received b'a' (codes "bc") ∷ recv_interrupted ∷ end_of_stream ∷ []) (omega arith)
