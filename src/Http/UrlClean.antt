-- ===== src/Http/UrlClean.antt =====
-- A byte that is not in a URL, and not in what a URL leaves out, is not in what `parse_http_url` gives.
use vehicle_detection_system.Common.{
  ℕ, ◌≡◌, ◌≢◌, sym, subst, Option, none, some, [], ◌∷◌, ◌++◌, Bytes, All-parts, arith,
}
use vehicle_detection_system.Common.Search.{Lacks}
use vehicle_detection_system.Http.Url.{HttpUrl, scheme, parsed, close_bracket}
use vehicle_detection_system.Http.UrlLaws.{
  Host, name, address, UrlText, render_host, render_port, render_tail, render, host_text, port_text,
  path_text, meaning,
}
use vehicle_detection_system.Http.UrlExact.{parsed-Means}
use vehicle_detection_system.Http.Reader.{HasNoReturn}

host_lem : (h : Host) → Lacks 13 (render_host h) → Lacks 13 (host_text h)
host_lem (name h) l = l
host_lem (address h) (first, l) = (All-parts (λ x. x ≢ 13) h (close_bracket ∷ []) l).0

port_lem : (p : Option Bytes) → Lacks 13 (render_port p) → Lacks 13 (port_text p)
port_lem none l = omega arith
port_lem (some p) (first, l) = l

tail_lem : (t : Option Bytes) → Lacks 13 (render_tail t) → Lacks 13 (path_text t)
tail_lem none l = omega arith
tail_lem (some t) l = l

meaning-HasNoReturn : (t : UrlText) → Lacks 13 (render t) → HasNoReturn (meaning t)
unfolding render meaning
meaning-HasNoReturn t l =
    let authority = render_host t.host ++ render_port t.port in
    let apart = All-parts (λ (x : ℕ). x ≢ 13) in
    let (first, rest) = apart scheme (authority ++ render_tail t.tail) l in
    let (both, tail) = apart authority (render_tail t.tail) rest in
    let (host, port) = apart (render_host t.host) (render_port t.port) both in
    (tail_lem t.tail tail, host_lem t.host host, port_lem t.port port)

pub parsed-HasNoReturn :
    (url : Bytes) {u : HttpUrl} → parsed url ≡ some u → Lacks 13 url → HasNoReturn u
parsed-HasNoReturn url e l =
    let (t, fine, eq, same) = parsed-Means url e in
    subst HasNoReturn (sym same) (meaning-HasNoReturn t (subst (Lacks 13) eq l))
