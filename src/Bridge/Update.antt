-- ===== src/Bridge/Update.antt =====
-- `handle_post_parameters`. What nlohmann::json and the client of the target do is an argument. A value
-- that was parsed can be dumped, so the log line of an update throws nothing.
use vehicle_detection_system.Common.{
  ℕ, suc, Bool, true, false, not, ◌==◌, Option, none, some, List, [], ◌∷◌, ◌++◌, map, Bytes, codes,
  is_empty, get_elem?, if◌then◌else◌,
}
use vehicle_detection_system.Common.Results.{ok, error}
use vehicle_detection_system.Common.Double.{Double}
use vehicle_detection_system.Validation.{is_member}
use vehicle_detection_system.ParameterJson.Value.{
  Json, boolean, string, array, object, Members, members, of_list, get_member, make_object,
  Nlohmann, Parameter,
}
use vehicle_detection_system.ParameterJson.Convert.{json_to_parameter_value}
use vehicle_detection_system.Bridge.Client.{
  ready, timed_out, raised, ParameterDescriptor, SetParametersResult, ParametersClient, Bridge,
}

-- The locals of the handler. A rejected name stands with its reason.
pub record Progress (D : Type 0) : Type 0 where
  pub updated : List Bytes
  pub rejected : List (Bytes × Bytes)
  pub overall_ok : Bool
  pub to_set : List (Parameter D)
  pub to_set_names : List Bytes

-- An error response, or the lists of an answer of the named node.
pub data Outcome (D : Type 0) : Type 0 where
  refused : ℕ → Bytes → Outcome D
  answered : Bytes → Progress D → Outcome D

module _ {D : Type 0} where
  abbrev pub no_progress : Progress D
  no_progress = record {
    updated = [];
    rejected = [];
    overall_ok = true;
    to_set = [];
    to_set_names = [];
  }

  unfoldable pub reject : Bytes → Bytes → Progress D → Progress D
  reject name reason p = record p {
    rejected = p.rejected ++ (name, reason) ∷ [];
    overall_ok = false;
  }

  -- The node and the parameters of a payload of the expected form.
  unfoldable pub read_payload : Json D → Option (Bytes × Members D)
  read_payload (object ms) = elim (get_member (codes "node") ms) [
    | some (string target) ↦ elim (get_member (codes "parameters") ms) [
      | some (object params) ↦ some (target, params)
      | _ ↦ none
    ]
    | _ ↦ none
  ]
  read_payload payload = none

  -- The loop over the results of `set_parameters`, as far as both lists go.
  unfoldable pub record_results : List SetParametersResult → List Bytes → Progress D → Progress D
  unfolding reject
  record_results [] names p = p
  record_results (r ∷ results) [] p = p
  record_results (r ∷ results) (name ∷ names) p =
      let reason = if is_empty r.reason then codes "rejected by node" else r.reason in
      let next =
        if r.successful
        then record p { updated = p.updated ++ name ∷ [] }
        else reject name reason p in
      record_results results names next

  unfoldable pub set_prepared : Bridge → ParametersClient D → Bytes → Progress D → Outcome D
  unfolding record_results
  set_prepared bridge client target p =
      if is_empty p.to_set
      then answered target p
      else elim (client.set_parameters bridge.service_timeout_ms p.to_set) [
        | timed_out ↦ refused 504 (codes "set_parameters timed out for '" ++ (target ++ codes "'"))
        | raised e ↦ refused 502 (codes "set_parameters failed: " ++ e)
        | ready results ↦ answered target (record_results results p.to_set_names p)
      ]

module _ {D : Type 0} ⦃d : Double D⦄ (nlohmann : Nlohmann D) where
  -- The body of the loop over the names.
  unfoldable pub prepare_one : Option ParameterDescriptor → Bytes → Json D → Progress D → Progress D
  unfolding reject
  prepare_one none name raw p = reject name (codes "parameter is not declared on the target node") p
  prepare_one (some descriptor) name raw p =
      if descriptor.type == 0
      then reject name (codes "parameter is not declared on the target node") p
      else elim (json_to_parameter_value nlohmann raw descriptor.type) [
        | error e ↦ reject name e p
        | ok value ↦ record p {
          to_set = p.to_set ++ record { name = name; value = value } ∷ [];
          to_set_names = p.to_set_names ++ name ∷ [];
        }
      ]

  unfoldable pub prepare :
      List ParameterDescriptor → ℕ → List (Bytes × Json D) → Progress D → Progress D
  unfolding prepare_one
  prepare descriptors i [] p = p
  prepare descriptors i ((name, raw) ∷ items) p =
      prepare descriptors (suc i) items (prepare_one (get_elem? descriptors i) name raw p)

  module _ (bridge : Bridge) where
    -- With the names of a request that is well formed, for a node whose service is there.
    unfoldable pub update_parameters :
        ParametersClient D → Bytes → List (Bytes × Json D) → Outcome D
    unfolding prepare set_prepared
    update_parameters client target items =
        let names = map (λ (key, v). key) items in
        if is_empty names
        then refused 400 (codes "'parameters' object is empty")
        else elim (client.describe_parameters bridge.service_timeout_ms names) [
          | timed_out ↦
              refused 504 (codes "describe_parameters timed out for '" ++ (target ++ codes "'"))
          | raised e ↦ refused 502 (codes "describe_parameters failed: " ++ e)
          | ready descriptors ↦
              set_prepared bridge client target (prepare descriptors 0 items no_progress)
        ]

    -- The handler but for the text of its response; `clients` has the client of each node.
    unfoldable pub post_outcome : (Bytes → ParametersClient D) → Bytes → Outcome D
    unfolding read_payload update_parameters is_member
    post_outcome clients body = elim (nlohmann.parse body) [
      | error e ↦ refused 400 (codes "invalid JSON: " ++ e)
      | ok payload ↦ elim (read_payload payload) [
        | none ↦
            refused 400
              (codes "expected JSON of the form {\"node\": \"/...\", \"parameters\": {...}}")
        | some (target, params) ↦
            if not (is_member target bridge.param_clients)
            then refused 503 (codes "node '" ++ (target ++ codes "' is not in target_nodes"))
            else if not ((clients target).wait_for_service bridge.service_ready_timeout_ms)
            then refused 503
                (codes "parameter service for '" ++ (target ++ codes "' is not available"))
            else update_parameters (clients target) target (members params)
      ]
    ]

module _ {D : Type 0} where
  -- The body of the response.
  abbrev rejection_json : Bytes × Bytes → Json D
  rejection_json (name, reason) =
      object (make_object ((codes "name", string name) ∷ (codes "reason", string reason) ∷ []))

  unfoldable pub error_json : Bytes → Json D
  unfolding make_object
  error_json msg =
      object (make_object ((codes "ok", boolean false) ∷ (codes "error", string msg) ∷ []))

  -- The status and the body of the response.
  unfoldable pub response_of : Outcome D → ℕ × Json D
  unfolding make_object error_json
  response_of (refused status msg) = (status, error_json msg)
  response_of (answered target p) = (
    200,
    object (
        make_object (
          (codes "ok", boolean p.overall_ok)
          ∷ (codes "node", string target)
          ∷ (codes "updated", array (of_list (map string p.updated)))
          ∷ (codes "rejected", array (of_list (map rejection_json p.rejected)))
          ∷ [])),
  )
