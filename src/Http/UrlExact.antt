-- ===== src/Http/UrlExact.antt =====
-- `parse_http_url` accepts exactly the URLs of the grammar, and says what they stand for.
use vehicle_detection_system.Common.{
  ◌≡◌, ◌↔◌, refl, sym, ◌∙◌, ap, subst, true, false, ◌||◌, Option, none, some, [], ◌∷◌, ◌++◌, Bytes,
  is_empty, after_prefix, arith, append-nil, Bool-cases, Option-cases, inl, inr,
}
use vehicle_detection_system.Common.Search.{find, Lacks}
use vehicle_detection_system.Http.Url.{
  HttpUrl, scheme, slash, split_path, split_authority, with_path, parsed, parse_http_url,
}
use vehicle_detection_system.Http.UrlLaws.{
  Host, UrlText, render_host, render_port, render_tail, render, host_text, port_text, path_text,
  meaning, split_path_lem, parsed_lem,
}
use vehicle_detection_system.Http.UrlGrammar.{HasParts, IsUrl, split_authority_lem, parsed-render}
use vehicle_detection_system.Http.UrlParts.{
  Authority, made_of, refused, authority, find-split, find-Lacks, after_prefix-eq,
}

with_path-parts :
    (path host port : Bytes) {u : HttpUrl}
    → with_path path (some (host, port)) ≡ some u
    → (is_empty host ≡ false)
      × (is_empty port ≡ false)
      × (u ≡ record { host = host; port = port; path = path })
unfolding with_path
with_path-parts path host port e = elim (Bool-cases (is_empty host || is_empty port)) [
  | inl bad ↦ absurd (ground arith)
  | inr fine ↦ ground arith
]

-- A URL of the grammar, and what it stands for.
abbrev pub Means : Bytes → HttpUrl → Type 0
Means url u = (t : UrlText) × IsUrl t × (url ≡ render t) × (u ≡ meaning t)

made_of-Means :
    (h : Host) (p tail : Option Bytes) {u : HttpUrl}
    → Lacks slash (render_host h ++ render_port p)
    → HasParts h p
    → with_path (path_text tail) (split_authority (render_host h ++ render_port p)) ≡ some u
    → Means (scheme ++ ((render_host h ++ render_port p) ++ render_tail tail)) u
unfolding render meaning
made_of-Means h p tail clean parts e =
    let (has_host, has_port, same) =
      with_path-parts (path_text tail) (host_text h) (port_text p)
        (ap (with_path (path_text tail)) (sym (split_authority_lem h p parts)) ∙ e) in
    (
      record { host = h; port = p; tail = tail },
      record { has_host = has_host; has_port = has_port; no_slash = clean; parts = parts },
      refl,
      same,
    )

authority-Means :
    (a : Bytes) (tail : Option Bytes) {u : HttpUrl}
    → Authority a
    → Lacks slash a
    → with_path (path_text tail) (split_authority a) ≡ some u
    → Means (scheme ++ (a ++ render_tail tail)) u
unfolding with_path
authority-Means a tail (refused none_there) clean e = absurd (ground arith)
authority-Means a tail {u} (made_of h p eq parts) clean e =
    subst (λ r. Means (scheme ++ (r ++ render_tail tail)) u) (sym eq)
      (made_of-Means h p tail (subst (Lacks slash) eq clean) parts
        (subst (λ r. with_path (path_text tail) (split_authority r) ≡ some u) eq e))

-- Any text is one without a slash, and a path if it has one.
split_rest :
    (rest : Bytes)
    → (a : Bytes) × (tail : Option Bytes) × (rest ≡ a ++ render_tail tail) × Lacks slash a
split_rest rest = elim (Option-cases (find slash rest)) [
  | inl n ↦ (rest, none, sym (append-nil rest), find-Lacks slash rest n)
  | inr (i, f) ↦ let (a, t, eq, l) = find-split slash rest f in (a, some t, eq, l)
]

rest-Means :
    (a : Bytes) (tail : Option Bytes) {u : HttpUrl}
    → Lacks slash a
    → parsed (scheme ++ (a ++ render_tail tail)) ≡ some u
    → Means (scheme ++ (a ++ render_tail tail)) u
unfolding parsed split_path find
rest-Means [] none clean e = absurd (ground arith)
rest-Means [] (some t) clean e = absurd (ground arith)
rest-Means (x ∷ a) tail clean e =
    let whole =
      parsed_lem ((x ∷ a) ++ render_tail tail) (x ∷ a) (path_text tail)
        (split_path_lem (x ∷ a) tail clean) refl refl in
    authority-Means (x ∷ a) tail (authority (x ∷ a)) clean (sym whole ∙ e)

pub parsed-Means : (url : Bytes) {u : HttpUrl} → parsed url ≡ some u → Means url u
unfolding parsed
parsed-Means url {u} e = elim (Option-cases (after_prefix scheme url)) [
  | inl n ↦ absurd (ground arith)
  | inr (rest, found) ↦
      let (a, tail, eq, clean) = split_rest rest in
      let same : url ≡ scheme ++ (a ++ render_tail tail) =
        after_prefix-eq scheme url found ∙ ap (λ r. scheme ++ r) eq in
      subst (λ r. Means r u) (sym same)
        (rest-Means a tail clean (subst (λ r. parsed r ≡ some u) same e))
]

-- The call succeeds with `u` exactly if the text is a URL of the grammar that stands for `u`: "http://",
-- then a host or an address in brackets, then, if they are there, a port behind a colon and a path from
-- its slash. Neither the host nor the port is empty; the first slash begins the path; a host that is not
-- in brackets does not begin with one, and its port begins behind its last colon; an address ends with
-- the first closing bracket. What is left out stands for port 80 and path "/". Otherwise the call fails.
pub parse_http_url_iff :
    (url : Bytes) (out u : HttpUrl) → (parse_http_url url out ≡ (true, u)) ↔ Means url u
unfolding parse_http_url
parse_http_url_iff url out u = (sound, complete)
  where
    sound : parse_http_url url out ≡ (true, u) → Means url u
    sound e = elim (Option-cases (parsed url)) [
      | inl n ↦ absurd (ground arith)
      | inr (v, found) ↦
          let same : v ≡ u = ground arith in subst (Means url) same (parsed-Means url found)
    ]

    complete : Means url u → parse_http_url url out ≡ (true, u)
    complete (t, fine, eq, same) =
        let there : parsed url ≡ some u =
          ap parsed eq ∙ parsed-render t fine ∙ ap some (sym same) in
        rw (there, parse_http_url) refl
