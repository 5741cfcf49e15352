-- ===== src/Bridge/Shown.antt =====
-- What the overview of a node says.
use vehicle_detection_system.Common.{arith}
use vehicle_detection_system.Bridge.Client.{timed_out, raised}
use vehicle_detection_system.Common.{
  ◌≡◌, refl, ◌⊎◌, inl, inr, true, false, not, List, [], Bytes, codes, is_empty, if◌then◌else◌,
  if_ind, Bool-cases,
}
use vehicle_detection_system.Common.Int.{ℤ}
use vehicle_detection_system.Validation.{is_member}
use vehicle_detection_system.ParameterJson.Value.{Json, boolean, assign, Parameter}
use vehicle_detection_system.Bridge.Client.{
  Answer-cases, ready, ParameterDescriptor, ParametersClient, Bridge,
}
use vehicle_detection_system.Bridge.Overview.{
  entries, unavailable, with_error, with_parameters, ask, snapshot_node,
}
use vehicle_detection_system.Bridge.Entries.{
  entries-AreEntries, IsFailure, IsList, with_error-IsFailure, none-IsList, with_parameters-IsList,
}

module _ {D : Type 0} where
  -- The parameters that the services of the node give.
  abbrev pub Gives : ℤ → ParametersClient D → List (Parameter D) → Type 0
  Gives ms client values =
      (names : List Bytes) × (client.list_parameters ms ≡ ready names)
      × (if is_empty names then values ≡ [] else client.get_parameters ms names ≡ ready values)

  -- Why the overview of a node is an error.
  pub data Silence (bridge : Bridge) (client : ParametersClient D) (node_name : Bytes)
      : Type 0 where
    no_client : is_member node_name bridge.param_clients ≡ false → Silence bridge client node_name
    no_service :
        client.wait_for_service bridge.service_ready_timeout_ms ≡ false
        → Silence bridge client node_name
    list_late :
        client.list_parameters bridge.service_timeout_ms ≡ timed_out
        → Silence bridge client node_name
    list_raised :
        (message : Bytes)
        → client.list_parameters bridge.service_timeout_ms ≡ raised message
        → Silence bridge client node_name
    get_late :
        (names : List Bytes)
        → client.get_parameters bridge.service_timeout_ms names ≡ timed_out
        → Silence bridge client node_name
    get_raised :
        (names : List Bytes) (message : Bytes)
        → client.get_parameters bridge.service_timeout_ms names ≡ raised message
        → Silence bridge client node_name
    describe_raised :
        (names : List Bytes) (message : Bytes)
        → client.describe_parameters bridge.service_timeout_ms names ≡ raised message
        → Silence bridge client node_name

  abbrev pub Tells : Bridge → ParametersClient D → Bytes → Json D → Type 0
  Tells bridge client node_name out =
      (Silence bridge client node_name × IsFailure node_name out)
      ⊎ ((values : List (Parameter D)) × Gives bridge.service_timeout_ms client values
          × IsList node_name values out)

  fails-Tells :
      (bridge : Bridge) (client : ParametersClient D) (node_name : Bytes) {out : Json D}
      (message : Bytes)
      → Silence bridge client node_name
      → out ≡ with_error node_name message
      → Tells bridge client node_name out
  fails-Tells bridge client node_name message why same =
      rw same (inl (why, with_error-IsFailure node_name message))

  -- Once the service has answered with values.
  values-Tells :
      (bridge : Bridge) (client : ParametersClient D) (node_name : Bytes)
      (values : List (Parameter D))
      → Gives bridge.service_timeout_ms client values
      → (descriptors : List ParameterDescriptor)
      → Tells bridge client node_name (with_parameters node_name (entries descriptors 0 values))
  values-Tells bridge client node_name values given descriptors = inr (
    values,
    given,
    with_parameters-IsList node_name values _ (entries-AreEntries descriptors 0 values),
  )

  listed-Tells :
      (bridge : Bridge) (client : ParametersClient D) (node_name : Bytes) (names : List Bytes)
      → client.list_parameters bridge.service_timeout_ms ≡ ready names
      → is_empty names ≡ false
      → Tells bridge client node_name (ask bridge.service_timeout_ms client node_name)
  unfolding ask
  listed-Tells bridge client node_name names e some_name =
      let out = ask bridge.service_timeout_ms client node_name in
      elim (Answer-cases (client.get_parameters bridge.service_timeout_ms names)) [
        | inl f ↦
            fails-Tells bridge client node_name (codes "get_parameters timed out")
              (get_late names f) (rw (ask, e, some_name, f) refl)
        | inr (inl (message, f)) ↦
            fails-Tells bridge client node_name message (get_raised names message f)
              (rw (ask, e, some_name, f) refl)
        | inr (inr (values, f)) ↦
            let given : Gives bridge.service_timeout_ms client values =
              (names, e, rw some_name f) in
            elim (Answer-cases (client.describe_parameters bridge.service_timeout_ms names)) [
              | inl g ↦
                  let same : out ≡ with_parameters node_name (entries [] 0 values) =
                    rw (ask, e, some_name, f, g) refl in
                  rw same (values-Tells bridge client node_name values given [])
              | inr (inl (message, g)) ↦
                  fails-Tells bridge client node_name message (describe_raised names message g)
                    (rw (ask, e, some_name, f, g) refl)
              | inr (inr (descriptors, g)) ↦
                  let same : out ≡ with_parameters node_name (entries descriptors 0 values) =
                    rw (ask, e, some_name, f, g) refl in
                  rw same (values-Tells bridge client node_name values given descriptors)
            ]
      ]

  ask-Tells :
      (bridge : Bridge) (client : ParametersClient D) (node_name : Bytes)
      → Tells bridge client node_name (ask bridge.service_timeout_ms client node_name)
  unfolding ask
  ask-Tells bridge client node_name =
      let out = ask bridge.service_timeout_ms client node_name in
      elim (Answer-cases (client.list_parameters bridge.service_timeout_ms)) [
        | inl e ↦
            fails-Tells bridge client node_name (codes "list_parameters timed out") (list_late e)
              (rw (ask, e) refl)
        | inr (inl (message, e)) ↦
            fails-Tells bridge client node_name message (list_raised message e) (rw (ask, e) refl)
        | inr (inr (names, e)) ↦ elim (Bool-cases (is_empty names)) [
          | inl no_name ↦
              let same : out ≡ assign (codes "available") (boolean true) (unavailable node_name) =
                rw (ask, e, no_name) refl in
              rw same (inr ([], (names, e, rw no_name refl), none-IsList node_name))
          | inr some_name ↦ listed-Tells bridge client node_name names e some_name
        ]
      ]

  -- The overview of a node either gives an error, and the node as not available and without parameters,
  -- and then the node has no client or no service, or a call of its services is late or throws; or it
  -- gives the node as available and without an error, and its list has one entry for each parameter that
  -- the services of the node give, in their order, with the name and the value of the parameter.
  pub snapshot_node-Tells :
      (bridge : Bridge) (clients : Bytes → ParametersClient D) (node_name : Bytes)
      → Tells bridge (clients node_name) node_name (snapshot_node bridge clients node_name)
  unfolding snapshot_node
  snapshot_node-Tells bridge clients node_name =
      let tells = Tells bridge (clients node_name) node_name in
      if_ind tells (not (is_member node_name bridge.param_clients)) _ _
        (λ e. inl (no_client (ground arith), with_error-IsFailure node_name _))
        (λ e.
          if_ind tells (not ((clients node_name).wait_for_service bridge.service_ready_timeout_ms))
            _ _ (λ f. inl (no_service (ground arith), with_error-IsFailure node_name _))
            (λ f. ask-Tells bridge (clients node_name) node_name))
