-- ===== src/Sender/Addressed.antt =====
-- A snapshot's address is that of its endpoint parameter.
use vehicle_detection_system.Common.{
  ◌≡◌, refl, Bool, some, List, [], ◌∷◌, if◌then◌else◌, Option-cases, inl, inr,
}
use vehicle_detection_system.Http.Url.{parse_http_url, parsed}
use vehicle_detection_system.Sender.Settings.{
  Snapshot, Declared, build_snapshot_from_parameters, Parameter, apply_parameter, send_mode,
  http_endpoint_url, http_timeout_ms, http_retry_count, http_auth_type, save_results,
  result_output_path, result_output_format, other, apply_parameters,
}

-- Where the snapshot says that its address is valid, it is the address of its endpoint.
abbrev pub IsAddressed : Snapshot → Type 0
IsAddressed s = if s.http_url_valid then parsed s.http_endpoint_url ≡ some s.http_url else Unit

apply_parameter-IsAddressed :
    (p : Parameter) (state : Snapshot × Bool)
    → IsAddressed state.0
    → IsAddressed (apply_parameter p state).0
unfolding apply_parameter parse_http_url
apply_parameter-IsAddressed (send_mode v) (s, changed) h = h
apply_parameter-IsAddressed (http_endpoint_url v) (s, changed) h = elim (Option-cases (parsed v)) [
  | inl e ↦ rw (apply_parameter, parse_http_url, e) tt
  | inr (u, e) ↦ rw (apply_parameter, parse_http_url, e) refl
]
apply_parameter-IsAddressed (http_auth_type v) (s, changed) h = h
apply_parameter-IsAddressed (result_output_path v) (s, changed) h = h
apply_parameter-IsAddressed (result_output_format v) (s, changed) h = h
apply_parameter-IsAddressed (other v) (s, changed) h = h
apply_parameter-IsAddressed (http_timeout_ms v) (s, changed) h = h
apply_parameter-IsAddressed (http_retry_count v) (s, changed) h = h
apply_parameter-IsAddressed (save_results v) (s, changed) h = h

pub apply_parameters-IsAddressed :
    (params : List Parameter) (state : Snapshot × Bool)
    → IsAddressed state.0
    → IsAddressed (apply_parameters params state).0
unfolding apply_parameters
apply_parameters-IsAddressed [] state h = h
apply_parameters-IsAddressed (p ∷ params) state h =
    apply_parameters-IsAddressed params (apply_parameter p state)
      (apply_parameter-IsAddressed p state h)

pub build-IsAddressed : (p : Declared) → IsAddressed (build_snapshot_from_parameters p)
unfolding build_snapshot_from_parameters parse_http_url
build-IsAddressed p = elim (Option-cases (parsed p.http_endpoint_url)) [
  | inl e ↦ rw (build_snapshot_from_parameters, parse_http_url, e) tt
  | inr (u, e) ↦ rw (build_snapshot_from_parameters, parse_http_url, e) refl
]
