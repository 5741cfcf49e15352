-- ===== src/Http/UrlLaws.antt =====
-- `parse_http_url` reads back what a URL is made of.
use vehicle_detection_system.Common.{
  ℕ, ◌+◌, ◌≡◌, refl, Bool, true, false, Option, none, some, [], ◌∷◌, ◌++◌, Bytes, codes, is_empty,
  length, ltb, ◌==◌, arith, ap, ◌∙◌, append-nil, append_assoc, All-append, length-append, suc,
}
use vehicle_detection_system.Common.Search.{
  find, Lacks, find-none, find-append, rfind-none, rfind-append, take-length-append,
  drop-length-append, drop-suc-length, drop_two_more, get_elem?-next,
}
use native.Mathlib.Numerals.{add-one, add-two, sub-one}
use vehicle_detection_system.Http.Url.{
  HttpUrl, scheme, default_port, slash, colon, open_bracket, close_bracket, is_at, split_path,
  split_bracketed, split_plain, split_authority, with_path, parsed, parse_http_url,
}

-- The host of a URL: a name, or an address in brackets.
pub data Host : Type 0 where
  name : Bytes → Host
  address : Bytes → Host

-- A URL by its parts. The port and the path may be left out; `tail` is the path behind its slash.
pub record UrlText : Type 0 where
  pub host : Host
  pub port : Option Bytes
  pub tail : Option Bytes

abbrev pub render_host : Host → Bytes
render_host (name h) = h
render_host (address h) = open_bracket ∷ (h ++ close_bracket ∷ [])

abbrev pub render_port : Option Bytes → Bytes
render_port none = []
render_port (some p) = colon ∷ p

abbrev pub render_tail : Option Bytes → Bytes
render_tail none = []
render_tail (some t) = slash ∷ t

unfoldable pub render : UrlText → Bytes
render u = scheme ++ ((render_host u.host ++ render_port u.port) ++ render_tail u.tail)

abbrev pub host_text : Host → Bytes
host_text (name h) = h
host_text (address h) = h

abbrev pub port_text : Option Bytes → Bytes
port_text none = default_port
port_text (some p) = p

abbrev pub path_text : Option Bytes → Bytes
path_text none = codes "/"
path_text (some t) = slash ∷ t

-- What the text stands for.
unfoldable pub meaning : UrlText → HttpUrl
meaning u = record { host = host_text u.host; port = port_text u.port; path = path_text u.tail }

-- A name is not empty, holds no colon and no slash, and does not begin with a bracket. An address is
-- not empty and holds no closing bracket and no slash.
abbrev pub IsHost : Host → Type 0
IsHost (name h) =
    (is_empty h ≡ false) × (is_at h 0 open_bracket ≡ false) × Lacks colon h × Lacks slash h
IsHost (address h) = (is_empty h ≡ false) × Lacks close_bracket h × Lacks slash h

abbrev pub IsPort : Option Bytes → Type 0
IsPort none = Unit {0}
IsPort (some p) = (is_empty p ≡ false) × Lacks colon p × Lacks slash p

pub split_path_lem :
    (a : Bytes) (t : Option Bytes)
    → Lacks slash a
    → split_path (a ++ render_tail t) ≡ (a, path_text t)
unfolding split_path
split_path_lem a none h = rw append-nil (rw (find-none slash a h, split_path))
split_path_lem a (some t) h =
    rw (find-append slash a t h, split_path, take-length-append, drop-length-append)

-- What tells the port from the host: without a port there is no colon, and no port holds one.
abbrev pub IsPlain : Bytes → Option Bytes → Type 0
IsPlain h none = Lacks colon h
IsPlain h (some p) = Lacks colon p

IsHost-IsPlain : (h : Bytes) (p : Option Bytes) → Lacks colon h → IsPort p → IsPlain h p
IsHost-IsPlain h none l q = l
IsHost-IsPlain h (some p) l q = q.1

pub split_plain_lem :
    (h : Bytes) (p : Option Bytes)
    → IsPlain h p
    → split_plain (h ++ render_port p) ≡ (h, port_text p)
unfolding split_plain
split_plain_lem h none l = rw append-nil (rw (rfind-none colon h l, split_plain))
split_plain_lem h (some p) l =
    rw (rfind-append colon h p l, split_plain, take-length-append, add-one) (rw drop-suc-length)

colon_behind :
    (h p : Bytes)
    → is_at (open_bracket ∷ (h ++ close_bracket ∷ colon ∷ p)) (suc (suc (length h))) colon ≡ true
colon_behind h p =
    ap (λ (o : Option ℕ). elim o as (λ _. Bool) [ none ↦ false | some x ↦ x == colon ])
      (get_elem?-next h close_bracket colon p)

pub split_bracketed_lem :
    (h : Bytes) (p : Option Bytes)
    → Lacks close_bracket h
    → split_bracketed (open_bracket ∷ (h ++ close_bracket ∷ render_port p)) ≡ some (h, port_text p)
unfolding split_bracketed find
split_bracketed_lem h none l =
    let long : ltb (suc (length h) + 1) (suc (length (h ++ close_bracket ∷ []))) ≡ false =
      ground (arith, length-append h (close_bracket ∷ [])) in
    rw (find-append close_bracket h [] l, split_bracketed, long, sub-one, take-length-append)
split_bracketed_lem h (some p) l =
    let tail = colon ∷ p in
    let long : ltb (suc (length h) + 1) (suc (length (h ++ close_bracket ∷ tail))) ≡ true =
      ground (arith, length-append h (close_bracket ∷ tail)) in
    rw (find-append close_bracket h tail l, split_bracketed, long, sub-one, take-length-append)
      (rw (add-one, add-two) (rw (colon_behind h p, drop_two_more)))

pub is_empty-append : (xs ys : Bytes) → is_empty xs ≡ false → is_empty (xs ++ ys) ≡ false
is_empty-append [] ys h = absurd (ground arith)
is_empty-append (x ∷ xs) ys h = refl

split_authority_lem :
    (h : Host) (p : Option Bytes)
    → IsHost h
    → IsPort p
    → split_authority (render_host h ++ render_port p) ≡ some (host_text h, port_text p)
unfolding split_authority
split_authority_lem (name []) p ok q = absurd (ground arith)
split_authority_lem (name (x ∷ h)) p ok q =
    rw ok.1 (ap some (split_plain_lem (x ∷ h) p (IsHost-IsPlain (x ∷ h) p ok.2 q)))
split_authority_lem (address h) p ok q = rw append_assoc (split_bracketed_lem h p ok.1)

in_brackets : (h : Bytes) → Lacks slash h → Lacks slash (h ++ close_bracket ∷ [])
in_brackets h l = All-append _ h (close_bracket ∷ []) l (omega arith, tt)

Lacks-slash :
    (h : Host) (p : Option Bytes)
    → IsHost h
    → IsPort p
    → Lacks slash (render_host h ++ render_port p)
Lacks-slash (name h) none ok q = All-append _ h [] ok.3 tt
Lacks-slash (name h) (some p) ok q = All-append _ h (colon ∷ p) ok.3 (omega arith, q.2)
Lacks-slash (address h) none ok q = (omega arith, All-append _ _ [] (in_brackets h ok.2) tt)
Lacks-slash (address h) (some p) ok q =
    (omega arith, All-append _ _ (colon ∷ p) (in_brackets h ok.2) (omega arith, q.2))

authority-filled :
    (h : Host) (p : Option Bytes) → IsHost h → is_empty (render_host h ++ render_port p) ≡ false
authority-filled (name h) p ok = is_empty-append h _ ok.0
authority-filled (address h) p ok = refl

with_path_lem :
    (h : Host) (p : Option Bytes) (path : Bytes)
    → IsHost h
    → IsPort p
    → with_path path (some (host_text h, port_text p))
      ≡ some (record { host = host_text h; port = port_text p; path = path })
unfolding with_path
with_path_lem (name h) none path ok q = rw ok.0
with_path_lem (name h) (some p) path ok q = rw (ok.0, q.0)
with_path_lem (address h) none path ok q = rw ok.0
with_path_lem (address h) (some p) path ok q = rw (ok.0, q.0)

-- Past the scheme, with an authority that is not empty.
pub parsed_lem :
    (rest a path : Bytes)
    → split_path rest ≡ (a, path)
    → is_empty rest ≡ false
    → is_empty a ≡ false
    → parsed (scheme ++ rest) ≡ with_path path (split_authority a)
unfolding parsed
parsed_lem rest a path e filled filled' = rw (e, filled, filled', parsed)

-- A URL put together from a host, a port and a path, of which the last two may be left out, is read
-- back as these, with port 80 and path "/" in their place, whatever `*out` held before. The host is
-- a name, not empty, without colon or slash and not beginning with `[`, or a bracketed address, not
-- empty and without `]` or slash; a port is not empty and holds no colon or slash.
pub parse_http_url-render :
    (u : UrlText) (out : HttpUrl)
    → IsHost u.host
    → IsPort u.port
    → parse_http_url (render u) out ≡ (true, meaning u)
unfolding parse_http_url render meaning
parse_http_url-render u out h q =
    let a = render_host u.host ++ render_port u.port in
    let filled = authority-filled u.host u.port h in
    let e : parsed (render u) ≡ some (meaning u) =
      parsed_lem (a ++ render_tail u.tail) a (path_text u.tail)
        (split_path_lem a u.tail (Lacks-slash u.host u.port h q))
        (is_empty-append a (render_tail u.tail) filled) filled
      ∙ ap (with_path (path_text u.tail)) (split_authority_lem u.host u.port h q)
      ∙ with_path_lem u.host u.port (path_text u.tail) h q in
    rw (e, parse_http_url)
