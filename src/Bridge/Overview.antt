-- ===== src/Bridge/Overview.antt =====
-- `snapshot_node` and `handle_get_parameters`: the parameters of the target nodes as JSON.
use vehicle_detection_system.Common.{
  ℕ, suc, true, false, not, Option, none, some, List, [], ◌∷◌, map, Bytes, codes, is_empty,
  get_elem?, if◌then◌else◌,
}
use vehicle_detection_system.Common.Int.{ℤ}
use vehicle_detection_system.Validation.{is_member}
use vehicle_detection_system.ParameterJson.Value.{
  Json, boolean, string, array, object, of_list, make_object, assign, Parameter,
}
use vehicle_detection_system.ParameterJson.Convert.{parameter_to_json}
use vehicle_detection_system.Bridge.Client.{
  ready, timed_out, raised, ParameterDescriptor, ParametersClient, Bridge,
}

module _ {D : Type 0} where
  -- The entry of a parameter, with what its descriptor says.
  unfoldable pub describe : Option ParameterDescriptor → Json D → Json D
  unfolding assign
  describe none entry = entry
  describe (some desc) entry =
      let described =
        if is_empty desc.description
        then entry
        else assign (codes "description") (string desc.description) entry in
      let constrained =
        if is_empty desc.additional_constraints
        then described
        else assign (codes "constraints") (string desc.additional_constraints) described in
      assign (codes "read_only") (boolean desc.read_only) constrained

  -- The loop over the values.
  unfoldable pub entries : List ParameterDescriptor → ℕ → List (Parameter D) → List (Json D)
  unfolding describe parameter_to_json
  entries descriptors i [] = []
  entries descriptors i (value ∷ values) =
      describe (get_elem? descriptors i) (parameter_to_json value)
      ∷ entries descriptors (suc i) values

  -- `out` at first, and with an error.
  unfoldable pub unavailable : Bytes → Json D
  unfolding make_object
  unavailable node_name = object (
      make_object (
        (codes "name", string node_name)
        ∷ (codes "available", boolean false)
        ∷ (codes "parameters", array (of_list []))
        ∷ []))

  unfoldable pub with_error : Bytes → Bytes → Json D
  unfolding assign unavailable
  with_error node_name message = assign (codes "error") (string message) (unavailable node_name)

  unfoldable pub with_parameters : Bytes → List (Json D) → Json D
  unfolding assign unavailable
  with_parameters node_name params =
      assign (codes "parameters") (array (of_list params))
        (assign (codes "available") (boolean true) (unavailable node_name))

  -- The answers of the service, once it is there.
  unfoldable pub ask : ℤ → ParametersClient D → Bytes → Json D
  unfolding with_error with_parameters entries unavailable assign
  ask ms client node_name = elim (client.list_parameters ms) [
    | timed_out ↦ with_error node_name (codes "list_parameters timed out")
    | raised e ↦ with_error node_name e
    | ready names ↦
        if is_empty names
        then assign (codes "available") (boolean true) (unavailable node_name)
        else elim (client.get_parameters ms names) [
          | timed_out ↦ with_error node_name (codes "get_parameters timed out")
          | raised e ↦ with_error node_name e
          | ready values ↦ elim (client.describe_parameters ms names) [
            | raised e ↦ with_error node_name e
            | timed_out ↦ with_parameters node_name (entries [] 0 values)
            | ready descriptors ↦ with_parameters node_name (entries descriptors 0 values)
          ]
        ]
  ]

  module _ (bridge : Bridge) (clients : Bytes → ParametersClient D) where
    unfoldable pub snapshot_node : Bytes → Json D
    unfolding with_error is_member ask
    snapshot_node node_name =
        let client = clients node_name in
        if not (is_member node_name bridge.param_clients)
        then with_error node_name (codes "no client")
        else if not (client.wait_for_service bridge.service_ready_timeout_ms)
        then with_error node_name (codes "parameter service not available")
        else ask bridge.service_timeout_ms client node_name

    unfoldable pub get_parameters_json : Json D
    unfolding snapshot_node make_object
    get_parameters_json = object (
        make_object (
          (codes "ok", boolean true)
          ∷ (codes "nodes", array (of_list (map snapshot_node bridge.target_nodes)))
          ∷ []))
