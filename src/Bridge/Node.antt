-- ===== src/Bridge/Node.antt =====
-- The node: its constructor and the routes of its server. The default header of the server is
-- left out.
use vehicle_detection_system.Common.{
  ℕ, ltb, ◌-◌, ◌%◌, ◌^◌, true, not, Option, none, some, List, [], ◌∷◌, ◌++◌, map, Bytes, codes,
  is_empty, if◌then◌else◌,
}
use vehicle_detection_system.Common.Results.{Result, ok, error, ◌>>=◌, ◌>>◌}
use vehicle_detection_system.Common.Int.{ℤ, pos, negsuc, ltb_ℤ, show_ℤ}
use vehicle_detection_system.Common.Double.{Double}
use vehicle_detection_system.Validation.{validate_non_empty_string, validate_int_min, first_failure}
use vehicle_detection_system.ParameterJson.Value.{
  Json, boolean, string, array, object, of_list, make_object, Nlohmann,
}
use vehicle_detection_system.Bridge.Client.{ParametersClient, Bridge}
use vehicle_detection_system.Bridge.Update.{post_outcome, response_of, error_json}
use vehicle_detection_system.Bridge.Overview.{get_parameters_json}

-- The values of the parameters, as they are set.
pub record Declared : Type 0 where
  pub gui_port : ℤ
  pub host : Bytes
  pub target_nodes : List Bytes
  pub web_root : Bytes
  pub service_timeout_ms : ℤ
  pub service_ready_timeout_ms : ℤ

-- `static_cast<int>` of an `std::int64_t`.
unfoldable pub signed32 : ℕ → ℤ
signed32 n = if ltb n (2 ^ 31) then pos n else negsuc (2 ^ 32 - 1 - n)

unfoldable pub narrow : ℤ → ℤ
unfolding signed32
narrow (pos n) = signed32 (n % 2 ^ 32)
narrow (negsuc n) = signed32 (2 ^ 32 - 1 - n % 2 ^ 32)

-- The members that the parameters are stored in.
unfoldable pub stored : Declared → Declared
unfolding narrow
stored p = record p {
  gui_port = narrow p.gui_port;
  service_timeout_ms = narrow p.service_timeout_ms;
  service_ready_timeout_ms = narrow p.service_ready_timeout_ms;
}

-- The share directory of the package (or what the look-up throws), the path of a name below a directory,
-- and the content of a file that opens.
pub record Installation : Type 0 where
  pub get_package_share_directory : Result Bytes
  pub append_path : Bytes → Bytes → Bytes
  pub open_file : Bytes → Option Bytes

abbrev pub gui_file_name : Bytes
gui_file_name = codes "parameter_gui.html"

unfoldable pub read_text_file : Installation → Bytes → Result Bytes
read_text_file files path = elim (files.open_file path) [
  | none ↦ error (codes "failed to open Web GUI file: " ++ path)
  | some content ↦ ok content
]

unfoldable pub resolve_web_root : Installation → Bytes → Result Bytes
resolve_web_root files configured =
    if not (is_empty configured)
    then ok configured
    else (files.get_package_share_directory >>= λ share_dir.
        ok (files.append_path share_dir (codes "web")))

unfoldable pub enforce_parameters : Declared → Result {0} Unit
unfolding first_failure show_ℤ
enforce_parameters p =
    let checks = first_failure (
      validate_non_empty_string (codes "host") p.host
      ∷ validate_int_min (codes "gui_port") p.gui_port (pos 1)
      ∷ validate_int_min (codes "service_timeout_ms") p.service_timeout_ms (pos 1)
      ∷ validate_int_min (codes "service_ready_timeout_ms") p.service_ready_timeout_ms (pos 0)
      ∷ []) in
    elim checks [
      | some reason ↦ error reason
      | none ↦
          if ltb_ℤ (pos 65535) p.gui_port
          then error (
              codes "parameter 'gui_port' must be <= 65535 (got "
              ++ (show_ℤ p.gui_port ++ codes ")"))
          else if is_empty p.target_nodes
          then error (codes "parameter 'target_nodes' must contain at least one node name")
          else ok tt
    ]

-- The constructor: the exception that it throws, or the members. Each target node gets a client.
unfoldable pub construct : Installation → Declared → Result Bridge
unfolding stored enforce_parameters resolve_web_root read_text_file
construct files declared =
    let p = stored declared in
    enforce_parameters p
    >> (resolve_web_root files p.web_root >>= λ web_root.
        read_text_file files (files.append_path web_root gui_file_name) >>= λ gui_html. ok (record {
          gui_port = p.gui_port;
          host = p.host;
          target_nodes = p.target_nodes;
          web_root = web_root;
          gui_html = gui_html;
          service_timeout_ms = p.service_timeout_ms;
          service_ready_timeout_ms = p.service_ready_timeout_ms;
          param_clients = p.target_nodes;
        }))

pub data Request : Type 0 where
  get_root get_health get_parameters : Request
  post_parameters : Bytes → Request

pub record Response : Type 0 where
  pub status : ℕ
  pub content : Bytes
  pub content_type : Bytes

module _ {D : Type 0} ⦃d : Double D⦄ (nlohmann : Nlohmann D) where
  -- `set_content(body.dump(), …)`.
  unfoldable pub send_json : ℕ → Json D → Result Response
  send_json status body = nlohmann.dump body >>= λ text.
      ok (record { status = status; content = text; content_type = codes "application/json" })

  unfoldable pub health_json : Bytes → Bridge → Json D
  unfolding make_object
  health_json node_name bridge = object (
      make_object (
        (codes "ok", boolean true)
        ∷ (codes "node", string node_name)
        ∷ (codes "target_nodes", array (of_list (map string bridge.target_nodes)))
        ∷ []))

  module _ (node_name : Bytes) (bridge : Bridge) (clients : Bytes → ParametersClient D) where
    -- The handlers; an `error` is an exception that leaves one.
    unfoldable pub handle : Request → Result Response
    unfolding send_json health_json get_parameters_json post_outcome response_of
    handle get_root = ok (record {
      status = 200;
      content = bridge.gui_html;
      content_type = codes "text/html; charset=utf-8";
    })
    handle get_health = send_json 200 (health_json node_name bridge)
    handle get_parameters = send_json 200 (get_parameters_json bridge clients)
    handle (post_parameters body) =
        let (status, json) = response_of (post_outcome nlohmann bridge clients body) in
        send_json status json

    -- With the exception handler of the server.
    unfoldable pub serve : Request → Result Response
    unfolding handle error_json
    serve request = elim (handle request) [
      | ok response ↦ ok response
      | error detail ↦ send_json 500 (error_json detail)
    ]
