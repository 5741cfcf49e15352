-- ===== src/Http/UrlUsable.antt =====
-- What `parse_http_url` gives can be posted to.
use vehicle_detection_system.Common.{
  if◌then◌else◌, ◌≡◌, refl, true, false, Option, none, some, Bytes, is_empty, after_prefix, arith,
  Option-cases, inl, inr,
}
use vehicle_detection_system.Common.Search.{find, find-drop}
use vehicle_detection_system.Http.Url.{
  HttpUrl, scheme, slash, is_at, split_path, split_authority, with_path, parsed, parse_http_url,
}

-- What can be posted to: a host, a port, and a path from the root.
pub record IsUsable (u : HttpUrl) : Type 0 where
  pub has_host : is_empty u.host ≡ false
  pub has_port : is_empty u.port ≡ false
  pub has_path : is_at u.path 0 slash ≡ true

split_path-rooted : (rest : Bytes) → is_at (split_path rest).1 0 slash ≡ true
unfolding split_path
split_path-rooted rest = elim (Option-cases (find slash rest)) [
  | inl e ↦ rw (e, split_path)
  | inr (i, e) ↦ let (t, d) = find-drop slash rest e in rw (e, split_path) (rw (d, is_at))
]

with_path-IsUsable :
    (path : Bytes) (o : Option (Bytes × Bytes)) {u : HttpUrl}
    → is_at path 0 slash ≡ true
    → with_path path o ≡ some u
    → IsUsable u
unfolding with_path
with_path-IsUsable path none rooted e = absurd (ground arith)
with_path-IsUsable path (some (host, port)) rooted e = ground arith

parsed-IsUsable : (url : Bytes) {u : HttpUrl} → parsed url ≡ some u → IsUsable u
unfolding parsed
parsed-IsUsable url e = elim (Option-cases (after_prefix scheme url)) [
  | inl n ↦ absurd (ground arith)
  | inr (rest, a) ↦
      let (authority, path) = split_path rest in
      let found : with_path path (split_authority authority) ≡ some _ = ground arith in
      with_path-IsUsable path (split_authority authority) (split_path-rooted rest) found
]

-- Where the call succeeds, the result has a host, a port and a path from the root; where it fails,
-- `*out` is as it was.
pub parse_http_url-IsUsable :
    (url : Bytes) (out : HttpUrl)
    → let (done, u) = parse_http_url url out in if done then IsUsable u else (u ≡ out)
unfolding parse_http_url
parse_http_url-IsUsable url out = elim (Option-cases (parsed url)) [
  | inl e ↦ rw (parse_http_url, e) refl
  | inr (u, e) ↦ rw (parse_http_url, e) (parsed-IsUsable url e)
]
