-- ===== src/Sender/Settings.antt =====
-- The node's `Snapshot`, the parameters that change it and the checks that it must pass.
use vehicle_detection_system.Common.{
  Bool, true, not, ◌||◌, ◌&&◌, Option, none, some, List, [], ◌∷◌, Bytes, codes, ◌≟◌, if◌then◌else◌,
}
use vehicle_detection_system.Common.Results.{Result, ok, error}
use vehicle_detection_system.Common.Int.{ℤ, pos}
use vehicle_detection_system.Validation.{validate_int_min, first_failure}
use vehicle_detection_system.Http.Url.{HttpUrl, parse_http_url}
use vehicle_detection_system.Writer.{
  json_lines, DetectionResultWriterConfig, parse_detection_result_format,
}

pub record Snapshot : Type 0 where
  pub send_mode : Bytes
  pub http_endpoint_url : Bytes
  pub http_url : HttpUrl
  pub http_url_valid : Bool
  pub http_timeout_ms : ℤ
  pub http_retry_count : ℤ
  pub http_auth_type : Bytes
  pub save_results : Bool
  pub result_output_path : Bytes
  pub result_output_format : Bytes

unfoldable pub is_known_send_mode : Bytes → Bool
is_known_send_mode mode =
    mode ≟ codes "disabled"
    || mode ≟ codes "ros_topic"
    || mode ≟ codes "http"
    || mode ≟ codes "both"

unfoldable pub send_mode_uses_topic : Bytes → Bool
send_mode_uses_topic mode = mode ≟ codes "ros_topic" || mode ≟ codes "both"

unfoldable pub send_mode_uses_http : Bytes → Bool
send_mode_uses_http mode = mode ≟ codes "http" || mode ≟ codes "both"

-- The values of the parameters, as the node reads them at its start.
pub record Declared : Type 0 where
  pub send_mode : Bytes
  pub http_endpoint_url : Bytes
  pub http_timeout_ms : ℤ
  pub http_retry_count : ℤ
  pub http_auth_type : Bytes
  pub save_results : Bool
  pub result_output_path : Bytes
  pub result_output_format : Bytes

abbrev pub no_url : HttpUrl
no_url = record { host = []; port = []; path = [] }

unfoldable pub build_snapshot_from_parameters : Declared → Snapshot
build_snapshot_from_parameters p =
    let (valid, url) = parse_http_url p.http_endpoint_url no_url in
    record {
      send_mode = p.send_mode;
      http_endpoint_url = p.http_endpoint_url;
      http_url = url;
      http_url_valid = valid;
      http_timeout_ms = p.http_timeout_ms;
      http_retry_count = p.http_retry_count;
      http_auth_type = p.http_auth_type;
      save_results = p.save_results;
      result_output_path = p.result_output_path;
      result_output_format = p.result_output_format;
    }

-- The checks, which the start and the parameter callback make in the same order: the first reason
-- against a snapshot.
unfoldable pub rejection : Snapshot → Option Bytes
unfolding is_known_send_mode send_mode_uses_http first_failure
rejection s =
    let checks = first_failure (
      validate_int_min (codes "http_timeout_ms") s.http_timeout_ms (pos 1)
      ∷ validate_int_min (codes "http_retry_count") s.http_retry_count (pos 0)
      ∷ []) in
    let fmt_check = (parse_detection_result_format s.result_output_format json_lines).0 in
    if not (is_known_send_mode s.send_mode)
    then some (codes "send_mode must be one of: disabled, ros_topic, http, both")
    else elim checks [
      | some reason ↦ some reason
      | none ↦
          if send_mode_uses_http s.send_mode && not s.http_url_valid
          then some (codes "http_endpoint_url must be a valid http:// URL")
          else if not fmt_check.ok
          then some fmt_check.reason
          else none
    ]

-- `error` is a thrown `std::invalid_argument`.
unfoldable pub enforce_initial_parameters : Snapshot → Result {0} Unit
unfolding rejection
enforce_initial_parameters s = elim (rejection s) [ some reason ↦ error reason | none ↦ ok tt ]

-- A parameter of an update. rclcpp has checked that its value is of the declared type, so `as_string`
-- and the like return; a name that the callback does not handle is `other`.
pub data Parameter : Type 0 where
  send_mode http_endpoint_url http_auth_type result_output_path result_output_format other :
      Bytes → Parameter
  http_timeout_ms http_retry_count : ℤ → Parameter
  save_results : Bool → Parameter

-- The candidate, and `writer_inputs_changed`.
unfoldable pub apply_parameter : Parameter → Snapshot × Bool → Snapshot × Bool
apply_parameter (send_mode v) (s, changed) = (record s { send_mode = v }, changed)
apply_parameter (http_endpoint_url v) (s, changed) =
    let (valid, url) = parse_http_url v s.http_url in
    (record s { http_endpoint_url = v; http_url_valid = valid; http_url = url }, changed)
apply_parameter (http_timeout_ms v) (s, changed) = (record s { http_timeout_ms = v }, changed)
apply_parameter (http_retry_count v) (s, changed) = (record s { http_retry_count = v }, changed)
apply_parameter (http_auth_type v) (s, changed) = (record s { http_auth_type = v }, changed)
apply_parameter (save_results v) (s, changed) = (record s { save_results = v }, true)
apply_parameter (result_output_path v) (s, changed) = (record s { result_output_path = v }, true)
apply_parameter (result_output_format v) (s, changed) =
    (record s { result_output_format = v }, true)
apply_parameter (other v) (s, changed) = (s, changed)

unfoldable pub apply_parameters : List Parameter → Snapshot × Bool → Snapshot × Bool
unfolding apply_parameter
apply_parameters [] state = state
apply_parameters (p ∷ params) state = apply_parameters params (apply_parameter p state)

-- What `apply_writer_config` hands to the writer.
unfoldable pub writer_config : Snapshot → DetectionResultWriterConfig
writer_config s = record {
  enabled = s.save_results;
  path = s.result_output_path;
  format = (parse_detection_result_format s.result_output_format json_lines).1;
}
