-- ===== src/Http/Url.antt =====
-- `parse_http_url` of src/vehicle_detection/src/http_client.cpp.
use vehicle_detection_system.Common.{
  ℕ, ◌+◌, ◌-◌, Bool, true, false, not, ◌||◌, Option, none, some, Bytes, codes, is_empty, length,
  take, drop, get_elem?, after_prefix, ltb, ◌==◌, if◌then◌else◌,
}
use vehicle_detection_system.Common.Search.{find, rfind}

pub record HttpUrl : Type 0 where
  pub host : Bytes
  pub port : Bytes
  pub path : Bytes

abbrev pub scheme : Bytes
scheme = codes "http://"

abbrev pub default_port : Bytes
default_port = codes "80"

abbrev pub slash : ℕ
slash = b'/'

abbrev pub colon : ℕ
colon = b':'

abbrev pub open_bracket : ℕ
open_bracket = b'['

abbrev pub close_bracket : ℕ
close_bracket = b']'

-- The test of a byte at a position, which is false beyond the end.
abbrev pub is_at : Bytes → ℕ → ℕ → Bool
is_at s i c = elim (get_elem? s i) [ none ↦ false | some x ↦ x == c ]

-- `authority` and `path`
unfoldable pub split_path : Bytes → Bytes × Bytes
split_path rest = elim (find slash rest) [
  | none ↦ (rest, codes "/")
  | some i ↦ (take i rest, drop i rest)
]

-- `host` and `port` of an authority that begins with `[`
unfoldable pub split_bracketed : Bytes → Option (Bytes × Bytes)
split_bracketed authority = elim (find close_bracket authority) [
  | none ↦ none
  | some end ↦
      let host = take (end - 1) (drop 1 authority) in
      if ltb (end + 1) (length authority)
      then (if not (is_at authority (end + 1) colon)
          then none
          else some (host, drop (end + 2) authority))
      else some (host, default_port)
]

-- `host` and `port` of any other
unfoldable pub split_plain : Bytes → Bytes × Bytes
split_plain authority = elim (rfind colon authority) [
  | none ↦ (authority, default_port)
  | some i ↦ (take i authority, drop (i + 1) authority)
]

unfoldable pub split_authority : Bytes → Option (Bytes × Bytes)
unfolding split_bracketed split_plain
split_authority authority =
    if is_at authority 0 open_bracket
    then split_bracketed authority
    else some (split_plain authority)

unfoldable pub with_path : Bytes → Option (Bytes × Bytes) → Option HttpUrl
with_path path none = none
with_path path (some (host, port)) =
    if is_empty host || is_empty port
    then none
    else some (record { host = host; port = port; path = path })

-- The members that the call sets; `none` is the answer `false`.
unfoldable pub parsed : Bytes → Option HttpUrl
parsed url = elim (after_prefix scheme url) [
  | none ↦ none
  | some rest ↦
      let (authority, path) = split_path rest in
      if is_empty rest
      then none
      else if is_empty authority
      then none
      else with_path path (split_authority authority)
]

-- The answer, and what `*out` is afterwards.
unfoldable pub parse_http_url : Bytes → HttpUrl → Bool × HttpUrl
parse_http_url url out = elim (parsed url) [ none ↦ (false, out) | some u ↦ (true, u) ]
