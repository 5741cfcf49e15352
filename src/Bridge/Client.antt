-- ===== src/Bridge/Client.antt =====
-- What the bridge meets outside: the parameter services of another node, through
-- `rclcpp::AsyncParametersClient`.
use vehicle_detection_system.Common.{ℕ, Bool, List, Bytes, ◌≡◌, refl, ◌⊎◌, inl, inr}
use vehicle_detection_system.Common.Int.{ℤ}
use vehicle_detection_system.ParameterJson.Value.{Parameter}

-- A call whose future is waited for: its value in time, no value in time, or an exception.
pub data Answer (A : Type 0) : Type 0 where
  ready : A → Answer A
  timed_out : Answer A
  raised : Bytes → Answer A

-- The members of `rcl_interfaces::msg::ParameterDescriptor` that the bridge reads.
pub record ParameterDescriptor : Type 0 where
  pub type : ℕ
  pub description : Bytes
  pub additional_constraints : Bytes
  pub read_only : Bool

pub record SetParametersResult : Type 0 where
  pub successful : Bool
  pub reason : Bytes

-- The numbers are the milliseconds to wait.
pub record ParametersClient (D : Type 0) : Type 0 where
  pub wait_for_service : ℤ → Bool
  pub list_parameters : ℤ → Answer (List Bytes)
  pub get_parameters : ℤ → List Bytes → Answer (List (Parameter D))
  pub describe_parameters : ℤ → List Bytes → Answer (List ParameterDescriptor)
  pub set_parameters : ℤ → List (Parameter D) → Answer (List SetParametersResult)

-- The members of the node that its handlers read. `param_clients` has the names that have a client.
pub record Bridge : Type 0 where
  pub gui_port : ℤ
  pub host : Bytes
  pub target_nodes : List Bytes
  pub web_root : Bytes
  pub gui_html : Bytes
  pub service_timeout_ms : ℤ
  pub service_ready_timeout_ms : ℤ
  pub param_clients : List Bytes

pub Answer-cases :
    {A : Type 0} (answer : Answer A)
    → (answer ≡ timed_out)
      ⊎ ((message : Bytes) × (answer ≡ raised message))
      ⊎ ((a : A) × (answer ≡ ready a))
Answer-cases timed_out = inl refl
Answer-cases (raised message) = inr (inl (message, refl))
Answer-cases (ready a) = inr (inr (a, refl))
