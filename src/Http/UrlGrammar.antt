-- ===== src/Http/UrlGrammar.antt =====
-- The grammar of the URLs that `parse_http_url` accepts, and that it accepts them.
use vehicle_detection_system.Common.{
  ◌≡◌, refl, ◌∙◌, ap, false, Option, none, some, [], ◌∷◌, ◌++◌, Bytes, is_empty, append_assoc,
}
use vehicle_detection_system.Common.Search.{Lacks}
use vehicle_detection_system.Http.Url.{
  slash, open_bracket, close_bracket, is_at, split_authority, with_path, parsed,
}
use vehicle_detection_system.Http.UrlLaws.{
  Host, name, address, UrlText, render_host, render_port, render_tail, render, host_text, port_text,
  path_text, meaning, IsPlain, split_path_lem, split_plain_lem, split_bracketed_lem,
  is_empty-append, parsed_lem,
}

-- A plain host does not begin with a bracket; without a port it holds no colon, and its port holds none.
-- An address in brackets holds no closing bracket.
abbrev pub HasParts : Host → Option Bytes → Type 0
HasParts (name h) p = (is_at h 0 open_bracket ≡ false) × IsPlain h p
HasParts (address h) p = Lacks close_bracket h

-- Neither the host nor the port is empty, and the first slash begins the path.
pub record IsUrl (u : UrlText) : Type 0 where
  pub has_host : is_empty (host_text u.host) ≡ false
  pub has_port : is_empty (port_text u.port) ≡ false
  pub no_slash : Lacks slash (render_host u.host ++ render_port u.port)
  pub parts : HasParts u.host u.port

pub split_authority_lem :
    (h : Host) (p : Option Bytes)
    → HasParts h p
    → split_authority (render_host h ++ render_port p) ≡ some (host_text h, port_text p)
unfolding split_authority
split_authority_lem (name []) none (first, plain) = ap some (split_plain_lem [] none plain)
split_authority_lem (name []) (some p) (first, plain) = ap some (split_plain_lem [] (some p) plain)
split_authority_lem (name (x ∷ h)) p (first, plain) =
    rw first (ap some (split_plain_lem (x ∷ h) p plain))
split_authority_lem (address h) p l = rw append_assoc (split_bracketed_lem h p l)

authority-filled :
    (h : Host) (p : Option Bytes)
    → is_empty (host_text h) ≡ false
    → is_empty (render_host h ++ render_port p) ≡ false
authority-filled (name h) p ok = is_empty-append h _ ok
authority-filled (address h) p ok = refl

pub parsed-render : (u : UrlText) → IsUrl u → parsed (render u) ≡ some (meaning u)
unfolding render meaning with_path
parsed-render u h =
    let a = render_host u.host ++ render_port u.port in
    let filled = authority-filled u.host u.port h.has_host in
    parsed_lem (a ++ render_tail u.tail) a (path_text u.tail) (split_path_lem a u.tail h.no_slash)
      (is_empty-append a (render_tail u.tail) filled) filled
    ∙ ap (with_path (path_text u.tail)) (split_authority_lem u.host u.port h.parts)
    ∙ rw (with_path, h.has_host, h.has_port) refl
