-- ===== src/Http/Reader.antt =====
-- A reader of HTTP requests, as a server has one, and what it reads of `request`.
use vehicle_detection_system.Common.{
  ℕ, zero, suc, ◌≤◌, ◌≡◌, refl, ◌∙◌, ap, not, Option, none, some, List, [], ◌∷◌, ◌++◌, Bytes, codes,
  decimal, take, drop, length, leb, is_empty, after_prefix, ◌≟◌, if◌then◌else◌, arith, append_assoc,
  All, All-append, if_ind, length-append, true, ◌≢◌, ◌<◌, false,
}
use vehicle_detection_system.Common.Search.{
  find_crlf, find_crlf-append, Lacks, take-length-append, drop-length-append, drop_two_more,
}
use vehicle_detection_system.Common.Decimal.{eval, eval-decimal, Lacks-decimal}
use vehicle_detection_system.Http.Url.{HttpUrl, default_port}
use vehicle_detection_system.Http.Post.{line, request}

-- What a server is asked.
pub record Asked : Type 0 where
  pub request_line : Bytes
  pub host : Bytes
  pub body : Bytes

abbrev pub prepend : Bytes → Option (List Bytes × Bytes) → Option (List Bytes × Bytes)
prepend text none = none
prepend text (some (texts, rest)) = some (text ∷ texts, rest)

-- The lines up to the first that is empty, and what comes behind it; `none` if there is no such line
-- among the next `f`.
unfoldable pub read_lines : ℕ → Bytes → Option (List Bytes × Bytes)
read_lines zero s = none
read_lines (suc f) s = elim (find_crlf s) [
  | none ↦ none
  | some i ↦
      let later = prepend (take i s) (read_lines f (drop (suc (suc i)) s)) in
      if is_empty (take i s) then some ([], drop (suc (suc i)) s) else later
]

-- What stands behind a name, in the first line that begins with it.
unfoldable pub value_of : Bytes → List Bytes → Option Bytes
value_of name [] = none
value_of name (text ∷ texts) = elim (after_prefix name text) [
  | some value ↦ some value
  | none ↦ value_of name texts
]

-- The head, and a body of as many bytes as the head tells; then what follows.
unfoldable pub with_head : Option (List Bytes × Bytes) → Option (Asked × Bytes)
with_head none = none
with_head (some ([], rest)) = none
with_head (some (first ∷ texts, rest)) = elim (value_of (codes "Host: ") texts) [
  | none ↦ none
  | some host ↦ elim (value_of (codes "Content-Length: ") texts) [
    | none ↦ none
    | some digits ↦
        let n = eval 0 digits in
        if leb n (length rest)
        then some (record { request_line = first; host = host; body = take n rest }, drop n rest)
        else none
  ]
]

unfoldable pub read_request : ℕ → Bytes → Option (Asked × Bytes)
unfolding read_lines with_head
read_request f s = with_head (read_lines f s)

-- A line that is not the last of the head.
abbrev IsLine : Bytes → Type 0
IsLine text = (is_empty text ≡ false) × Lacks 13 text

read_line_lem :
    (f : ℕ) (text rest : Bytes)
    → IsLine text
    → read_lines (suc f) (line text rest) ≡ prepend text (read_lines f rest)
unfolding read_lines
read_line_lem f text rest (h, lacks) =
    rw
      (
        read_lines,
        find_crlf-append text rest lacks,
        take-length-append text (13 ∷ 10 ∷ rest),
        drop_two_more text 13 10 rest,
        h,
      )
      refl

abbrev lines_onto : List Bytes → Bytes → Bytes
lines_onto [] end = end
lines_onto (text ∷ texts) end = line text (lines_onto texts end)

lines_onto-append :
    (texts : List Bytes) (end rest : Bytes)
    → lines_onto texts end ++ rest ≡ lines_onto texts (end ++ rest)
lines_onto-append [] end rest = refl
lines_onto-append (text ∷ texts) end rest =
    append_assoc text (13 ∷ 10 ∷ lines_onto texts end) rest
    ∙ ap (line text) (lines_onto-append texts end rest)

read_lines-lines_onto :
    (f : ℕ) (texts : List Bytes) (rest : Bytes)
    → length texts < f
    → All IsLine texts
    → read_lines f (lines_onto texts (line [] rest)) ≡ some (texts, rest)
unfolding read_lines find_crlf
read_lines-lines_onto zero texts rest few h = elim few [ ]
read_lines-lines_onto (suc f) [] rest few h = refl
read_lines-lines_onto (suc f) (text ∷ texts) rest few (h, hs) =
    read_line_lem f text (lines_onto texts (line [] rest)) h
    ∙ ap (prepend text) (read_lines-lines_onto f texts rest (omega arith) hs)

-- What the request says of the host.
abbrev pub host_of : HttpUrl → Bytes
host_of url = url.host ++ (if not (url.port ≟ default_port) then codes ":" ++ url.port else [])

abbrev pub first_line : HttpUrl → Bytes
first_line url = codes "POST " ++ (url.path ++ codes " HTTP/1.1")

-- No field of the address holds a carriage return.
abbrev pub HasNoReturn : HttpUrl → Type 0
HasNoReturn url = Lacks 13 url.path × Lacks 13 url.host × Lacks 13 url.port

module _ (url : HttpUrl) (body : Bytes) where
  abbrev heads : List Bytes
  heads =
      first_line url
      ∷ (codes "Host: " ++ host_of url)
      ∷ codes "User-Agent: vehicle_detection/1.0.0"
      ∷ codes "Content-Type: application/json"
      ∷ (codes "Content-Length: " ++ decimal (length body))
      ∷ codes "Connection: close"
      ∷ codes "Accept: */*"
      ∷ []

  with_head_lem :
      (rest : Bytes)
      → with_head (some (heads, body ++ rest))
        ≡ some (record { request_line = first_line url; host = host_of url; body = body }, rest)
  unfolding with_head value_of
  with_head_lem rest =
      let whole : leb (length body) (length (body ++ rest)) ≡ true =
        ground (arith, length-append body rest) in
      rw
        (
          with_head,
          eval-decimal (length body),
          whole,
          take-length-append body rest,
          drop-length-append body rest,
        )
        refl

  heads-IsLine : HasNoReturn url → All IsLine heads
  heads-IsLine (path, host, port) =
      let joined = All-append (λ (x : ℕ). x ≢ 13) in
      let port_suffix =
        if_ind (Lacks 13) (not (url.port ≟ default_port)) (codes ":" ++ url.port) []
          (λ e. joined (codes ":") url.port (omega arith) port) (λ e. tt) in
      (
        (
          refl,
          joined (codes "POST ") (url.path ++ codes " HTTP/1.1") (omega arith)
              (joined url.path (codes " HTTP/1.1") path (omega arith)),
        ),
        (
          (
            refl,
            joined (codes "Host: ") (host_of url) (omega arith)
                (joined url.host _ host port_suffix),
          ),
          (
            (refl, omega arith),
            (
              (refl, omega arith),
              (
                (
                  refl,
                  joined (codes "Content-Length: ") (decimal (length body)) (omega arith)
                      (Lacks-decimal 13 (length body) (omega arith)),
                ),
                ((refl, omega arith), ((refl, omega arith), tt)),
              ),
            ),
          ),
        ),
      )

  -- If the address has no carriage return in its fields: a server that reads the lines of the head up to
  -- the empty one, of which it accepts at least seven before that, and then as many bytes as the head
  -- tells, reads the request to its end. It finds the method with the path, the host with the port where
  -- that is not the default, and the body, byte by byte, and leaves what follows.
  pub read_request-request :
      (f : ℕ) (rest : Bytes)
      → 8 ≤ f
      → HasNoReturn url
      → read_request f (request url body ++ rest)
        ≡ some (record { request_line = first_line url; host = host_of url; body = body }, rest)
  unfolding request read_request
  read_request-request f rest enough clean =
      ap (read_request f) (lines_onto-append heads (line [] body) rest)
      ∙ ap with_head
          (read_lines-lines_onto f heads (body ++ rest) (omega arith) (heads-IsLine clean))
      ∙ with_head_lem rest
