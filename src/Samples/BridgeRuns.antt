-- ===== src/Samples/BridgeRuns.antt =====
-- The bridge at a request, an overview and a row of steps of its server.
use vehicle_detection_system.Common.{
  ◌^◌, ◌+◌, ◌≡◌, refl, suc, ap, true, false, some, List, [], ◌∷◌, map, All, Bytes, codes, length,
  subst,
}
use vehicle_detection_system.Common.Int.{pos}
use vehicle_detection_system.Bridge.Node.{narrow}
use vehicle_detection_system.ParameterJson.Value.{
  Json, boolean, number_unsigned, Parameter, integer_value,
}
use vehicle_detection_system.ParameterJson.Convert.{json_to_parameter_value}
use vehicle_detection_system.Bridge.Client.{
  ready, ParameterDescriptor, SetParametersResult, ParametersClient, Bridge,
}
use vehicle_detection_system.Bridge.Update.{prepare, no_progress, Outcome, post_outcome, answered}
use vehicle_detection_system.Bridge.Accounts.{AnswersAll, Settles, post_outcome-Settles}
use vehicle_detection_system.Bridge.Sent.{IsDeclared, sent-IsDeclared}
use vehicle_detection_system.Bridge.Overview.{snapshot_node}
use vehicle_detection_system.Bridge.Shown.{Tells, snapshot_node-Tells}
use vehicle_detection_system.Bridge.Server.{
  Server, fresh_server, starting, listening, start_server, bind_port, stop_server, IsReachable,
  fresh, after, starts, binds, stop_server-fresh,
}
use vehicle_detection_system.Samples.Numbers.{Number, number_double, number-CastsWithin}
use vehicle_detection_system.Samples.ParameterJsonRuns.{nlohmann, request}

abbrev bridge : Bridge
bridge = record {
  gui_port = pos 8081;
  host = codes "127.0.0.1";
  target_nodes = codes "/d" ∷ [];
  web_root = codes "/web";
  gui_html = codes "<html>";
  service_timeout_ms = pos 1500;
  service_ready_timeout_ms = pos 200;
  param_clients = codes "/d" ∷ [];
}

abbrev descriptor : ParameterDescriptor
descriptor = record { type = 2; description = []; additional_constraints = []; read_only = false }

abbrev accept : Parameter Number → SetParametersResult
accept p = record { successful = true; reason = [] }

-- A node with the one parameter "gain".
abbrev client : ParametersClient Number
client = record {
  wait_for_service = λ ms. true;
  list_parameters = λ ms. ready (codes "gain" ∷ []);
  get_parameters =
      λ ms names. ready (record { name = codes "gain"; value = integer_value (pos 7) } ∷ []);
  describe_parameters = λ ms names. ready (descriptor ∷ []);
  set_parameters = λ ms params. ready (map accept params);
}

length-map : {A B : Type 0} (f : A → B) (xs : List A) → length (map f xs) ≡ length xs
length-map f [] = refl
length-map f (x ∷ xs) = ap suc (length-map f xs)

ready_inj : {A : Type 0} {a b : A} → ready a ≡ ready b → a ≡ b
ready_inj e = cc

client-AnswersAll : (node : Bytes) → AnswersAll client
client-AnswersAll node ms params results e =
    subst (λ rs. length rs ≡ length params) (ready_inj e) (length-map accept params)

post_outcome-Settles_example :
    Settles nlohmann bridge
      (λ node. client)
      request
      (codes "gain")
      (post_outcome nlohmann bridge (λ node. client) request)
post_outcome-Settles_example =
    post_outcome-Settles nlohmann bridge (λ node. client) client-AnswersAll (codes "gain") request

-- What the request leads to.
abbrev changed : Outcome Number → List Bytes × List Bytes
changed (answered target p) = (p.updated, map (λ (name, reason). name) p.rejected)
changed _ = ([], [])

changes_one :
    changed (post_outcome nlohmann bridge (λ node. client) request)
    ≡ (codes "gain" ∷ [], codes "zeal" ∷ [])
unfolding post_outcome json_to_parameter_value
changes_one = refl

abbrev asked : List (Bytes × Json Number)
asked = (codes "gain", number_unsigned 2) ∷ (codes "zeal", boolean true) ∷ []

sent-IsDeclared_example :
    All
      (IsDeclared number-CastsWithin nlohmann (descriptor ∷ []) asked)
      (prepare nlohmann (descriptor ∷ []) 0 asked no_progress).to_set
sent-IsDeclared_example =
    sent-IsDeclared number-CastsWithin nlohmann (descriptor ∷ []) asked (tt, (tt, tt))

snapshot_node-Tells_example :
    Tells bridge client (codes "/d") (snapshot_node bridge (λ node. client) (codes "/d"))
snapshot_node-Tells_example = snapshot_node-Tells bridge (λ node. client) (codes "/d")

abbrev started : Server
started = record { server_running = true; thread = starting }

start_fresh : start_server fresh_server ≡ some started
unfolding start_server
start_fresh = refl

abbrev running : Server
running = record { server_running = true; thread = listening }

running-IsReachable : IsReachable running
unfolding bind_port
running-IsReachable = after (after fresh (starts start_fresh)) (binds started)

stops_running : stop_server true running ≡ some fresh_server
unfolding stop_server
stops_running = refl

stop_server-fresh_example : fresh_server ≡ fresh_server
stop_server-fresh_example =
    stop_server-fresh running fresh_server true running-IsReachable stops_running

-- A port beyond the range of int is narrowed.
narrow_port : narrow (pos (2 ^ 32 + 8081)) ≡ pos 8081
unfolding narrow
narrow_port = refl
