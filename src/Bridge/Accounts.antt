-- ===== src/Bridge/Accounts.antt =====
-- What becomes of each name of an update.
use vehicle_detection_system.Common.{
  ◌≡◌, refl, ◌∙◌, ℕ, ◌+◌, not, true, false, none, some, List, Bytes, is_empty, length, if_ind,
  Option-cases, inl, inr, arith,
}
use vehicle_detection_system.Common.Results.{ok, error, Result-cases}
use vehicle_detection_system.Common.Int.{ℤ}
use vehicle_detection_system.Common.Double.{Double}
use vehicle_detection_system.Validation.{is_member}
use vehicle_detection_system.ParameterJson.Value.{Json, Members, members, Nlohmann, Parameter}
use vehicle_detection_system.Bridge.Client.{
  Answer-cases, ready, timed_out, raised, SetParametersResult, ParametersClient, Bridge,
}
use vehicle_detection_system.Bridge.Update.{
  Progress, Outcome, refused, answered, no_progress, read_payload, prepare, set_prepared,
  update_parameters, post_outcome,
}
use vehicle_detection_system.Bridge.Counting.{
  names_of, occurrences, answers, held, IsTidy, none_lem, prepare_lem, record_results_lem,
}

-- rclcpp answers `set_parameters` with one result for each parameter.
abbrev pub AnswersAll : {D : Type 0} → ParametersClient D → Type 0
AnswersAll {D} client =
    (ms : ℤ) (params : List (Parameter D)) (results : List SetParametersResult)
    → client.set_parameters ms params ≡ ready results
    → length results ≡ length params

-- Why an update of a node whose service is there fails, with its status.
pub data Failure {D : Type 0} (ms : ℤ) (client : ParametersClient D) (names : List Bytes)
    : ℕ → Type 0 where
  no_names : is_empty names ≡ true → Failure ms client names 400
  describe_late : client.describe_parameters ms names ≡ timed_out → Failure ms client names 504
  describe_raised :
      (message : Bytes)
      → client.describe_parameters ms names ≡ raised message
      → Failure ms client names 502
  set_late :
      (params : List (Parameter D))
      → client.set_parameters ms params ≡ timed_out
      → Failure ms client names 504
  set_raised :
      (params : List (Parameter D)) (message : Bytes)
      → client.set_parameters ms params ≡ raised message
      → Failure ms client names 502

-- A request: its body, the node that it names, and the parameters.
pub record IsRequest {D : Type 0} (nlohmann : Nlohmann D) (body node : Bytes) (params : Members D)
    : Type 0 where
  pub payload : Json D
  pub parsed : nlohmann.parse body ≡ ok payload
  pub expected : read_payload payload ≡ some (node, params)

module _ {D : Type 0} (nlohmann : Nlohmann D) (bridge : Bridge)
    (clients : Bytes → ParametersClient D) (body : Bytes) where
  -- Why a request is refused, with its status.
  pub data Refusal : ℕ → Type 0 where
    not_json : (message : Bytes) → nlohmann.parse body ≡ error message → Refusal 400
    not_expected :
        (payload : Json D)
        → nlohmann.parse body ≡ ok payload
        → read_payload payload ≡ none
        → Refusal 400
    no_client :
        (node : Bytes) (params : Members D)
        → IsRequest nlohmann body node params
        → is_member node bridge.param_clients ≡ false
        → Refusal 503
    no_service :
        (node : Bytes) (params : Members D)
        → IsRequest nlohmann body node params
        → (clients node).wait_for_service bridge.service_ready_timeout_ms ≡ false
        → Refusal 503
    failed :
        {status : ℕ} (node : Bytes) (params : Members D)
        → IsRequest nlohmann body node params
        → Failure bridge.service_timeout_ms (clients node) (names_of (members params)) status
        → Refusal status

  -- An outcome of a request: an error with its reason, or an answer that is complete for the request.
  abbrev pub Settles : Bytes → Outcome D → Type 0
  Settles x (refused status msg) = Refusal status
  Settles x (answered target p) =
      (params : Members D) × IsRequest nlohmann body target params
      × (occurrences x p.updated + occurrences x (names_of p.rejected)
          ≡ occurrences x (names_of (members params)))
      × (is_empty p.rejected ≡ p.overall_ok)

module _ {D : Type 0} ⦃d : Double D⦄ (nlohmann : Nlohmann D) (bridge : Bridge)
    (clients : Bytes → ParametersClient D) (all : (node : Bytes) → AnswersAll (clients node))
    (x : Bytes) where
  -- An answer tells of each name once, and its flag whether one is rejected.
  abbrev IsComplete : List (Bytes × Json D) → Progress D → Type 0
  IsComplete items p =
      (answers x p ≡ occurrences x (names_of items)) × (is_empty p.rejected ≡ p.overall_ok)

  abbrev IsAnswer : List (Bytes × Json D) → Bytes → Outcome D → Type 0
  IsAnswer items node (refused status msg) =
      Failure bridge.service_timeout_ms (clients node) (names_of items) status
  IsAnswer items node (answered target p) = (target ≡ node) × IsComplete items p

  set_prepared-IsAnswer :
      (items : List (Bytes × Json D)) (node : Bytes) (p : Progress D)
      → held x p ≡ occurrences x (names_of items)
      → IsTidy p
      → IsAnswer items node (set_prepared bridge (clients node) node p)
  unfolding set_prepared
  set_prepared-IsAnswer items node p h (fits, same) =
      if_ind (IsAnswer items node) (is_empty p.to_set) _ _
        (λ none_left.
          (refl, (omega (arith, h, none_lem x p.to_set p.to_set_names none_left same), fits)))
        (λ some_left.
          elim (Answer-cases ((clients node).set_parameters bridge.service_timeout_ms p.to_set)) [
            | inl e ↦ rw e (set_late p.to_set e)
            | inr (inl (message, e)) ↦ rw e (set_raised p.to_set message e)
            | inr (inr (results, e)) ↦
                let (total, flag) =
                  record_results_lem x results p.to_set_names p
                    (all node bridge.service_timeout_ms p.to_set results e ∙ same) fits in
                rw e (refl, (total ∙ h, flag))
          ])

  update_parameters-IsAnswer :
      (items : List (Bytes × Json D)) (node : Bytes)
      → IsAnswer items node (update_parameters nlohmann bridge (clients node) node items)
  unfolding update_parameters occurrences
  update_parameters-IsAnswer items node =
      let names = names_of items in
      if_ind (IsAnswer items node) (is_empty names) _ _ no_names (λ e.
        elim (Answer-cases ((clients node).describe_parameters bridge.service_timeout_ms names)) [
          | inl c ↦ rw c (describe_late c)
          | inr (inl (message, c)) ↦ rw c (describe_raised message c)
          | inr (inr (descriptors, c)) ↦
              let (total, tidy) =
                prepare_lem nlohmann x descriptors 0 items no_progress (refl, refl) in
              rw c (
                set_prepared-IsAnswer items node (prepare nlohmann descriptors 0 items no_progress)
                  (omega (arith, total)) tidy)
        ])

  Settles_lem :
      (body node : Bytes) (params : Members D) (o : Outcome D)
      → IsRequest nlohmann body node params
      → IsAnswer (members params) node o
      → Settles nlohmann bridge clients body x o
  Settles_lem body node params (refused status msg) r h = failed node params r h
  Settles_lem body node params (answered target p) r (same, (total, flag)) =
      (params, rw same r, total, flag)

  -- If each service answers one result for each parameter that it is to set: a request is refused only for
  -- a reason, with the status of that reason (400 for a body that is no JSON, has not the expected form or
  -- has no parameters; 503 for a node without a client or a service; 504 and 502 where describing or
  -- setting is late or throws); or it is answered, and each name among its parameters stands in "updated"
  -- and "rejected" together as often as in the request, no other name does, and "ok" is true exactly if
  -- none is rejected.
  pub post_outcome-Settles :
      (body : Bytes)
      → Settles nlohmann bridge clients body x (post_outcome nlohmann bridge clients body)
  unfolding post_outcome
  post_outcome-Settles body = elim (Result-cases (nlohmann.parse body)) [
    | inr (message, e) ↦ rw (post_outcome, e) (not_json message e)
    | inl (payload, e) ↦ elim (Option-cases (read_payload payload)) [
      | inl r ↦ rw (post_outcome, e, r) (not_expected payload e r)
      | inr ((node, params), r) ↦
          let request : IsRequest nlohmann body node params = record {
            payload = payload;
            parsed = e;
            expected = r;
          } in
          let settles = Settles nlohmann bridge clients body x in
          rw (post_outcome, e, r)
            (if_ind settles (not (is_member node bridge.param_clients)) _ _
              (λ c. no_client node params request (ground arith))
              (λ c.
                if_ind settles
                  (not ((clients node).wait_for_service bridge.service_ready_timeout_ms)) _ _
                  (λ c'. no_service node params request (ground arith))
                  (λ c'.
                    Settles_lem body node params _ request
                      (update_parameters-IsAnswer (members params) node))))
    ]
  ]
