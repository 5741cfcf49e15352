-- ===== src/Detector/Received.antt =====
-- From a cloud at the detector to what the server reads: src/vehicle_detection/src/vehicle_detector_node.cpp,
-- the topic, src/vehicle_detection/src/detection_sender_node.cpp and http_client.cpp together.
use vehicle_detection_system.Common.{ℕ, ◌≡◌, sym, subst, true, some, All, All-get_elem?, get_elem?}
use vehicle_detection_system.Common.Double.{Double}
use vehicle_detection_system.Json.PayloadTree.{PrintsFixed}
use vehicle_detection_system.Http.Post.{HttpPostResult}
use vehicle_detection_system.Common.Search.{Lacks}
use vehicle_detection_system.Clouds.{Pcl}
use vehicle_detection_system.Sender.Messages as Received
use vehicle_detection_system.Sender.Messages.{to_json_payload}
use vehicle_detection_system.Sender.Node.{posted}
use vehicle_detection_system.Sender.Texts.{Brings}
use vehicle_detection_system.Sender.Posted.{IsSendable, IsDelivered, outcome-IsReceived}
use vehicle_detection_system.Sender.Thread.{Outcome, System, IsReachable}
use vehicle_detection_system.Sender.Trace.{events_of}
use vehicle_detection_system.Detector.Messages.{PointCloud2, Detection3DArray, detections}
use vehicle_detection_system.Detector.Node.{Ros, Node, on_cloud}
use vehicle_detection_system.Detector.Delivered.{
  received, Payload, IsOfVehicles, on_cloud-IsOfVehicles,
}

module _ {D C T : Type 0} ⦃d : Double D⦄ (ros : Ros D C T) (pcl : Pcl D) (detector : Node D) where
  -- A message that the detector publishes for some cloud, with a stamp as ROS has it and numbers that
  -- "%.6f" prints with less than 32 bytes.
  pub record IsDetected (msg : Received.Detection3DArray D) : Type 0 where
    pub cloud : PointCloud2 C
    pub place : ℕ
    pub array : Detection3DArray D
    pub published : get_elem? (on_cloud ros pcl detector cloud) place ≡ some (detections array)
    pub same : msg ≡ received array
    pub sendable : IsSendable msg

  detected-IsOfVehicles :
      (msg : Received.Detection3DArray D)
      → IsDetected msg
      → IsOfVehicles detector.snapshot (to_json_payload msg)
  detected-IsOfVehicles msg h =
      let P = IsOfVehicles detector.snapshot in
      subst (λ m. P (to_json_payload m)) (sym h.same)
        (All-get_elem? (Payload P) (on_cloud ros pcl detector h.cloud) h.place
          (on_cloud-IsOfVehicles ros pcl detector h.cloud) h.published)

  module _ (tokens : PrintsFixed D) where
    -- If every message that comes to the sender is one that the detector publishes, with a stamp as ROS has
    -- it and numbers that "%.6f" prints as C says, with less than 32 bytes, the worker is done with a body
    -- and has ended with the success `r` after `k` attempts, and the endpoint had no carriage return: the
    -- last of these attempts, which gave `r`, has put on the wire a request whose body reads as the
    -- payload of one of these messages, and this is in the detector's target frame and has only cars of
    -- sizes within the detector's limits. The sender may have been updated, and its threads interleaved,
    -- in any way.
    pub outcome-IsOfVehicles :
        {sys : System D} (reached : IsReachable sys) (i : ℕ) {o : Outcome} {r : HttpPostResult}
        {k : ℕ}
        → All (Brings IsDetected) (events_of reached)
        → get_elem? sys.outcomes i ≡ some o
        → o.posting ≡ posted (r, k)
        → r.ok ≡ true
        → Lacks 13 o.snapshot.http_endpoint_url
        → (it : IsDelivered tokens IsDetected (λ m h. h.sendable) o r k) × IsOfVehicles
            detector.snapshot
            (to_json_payload it.message)
    outcome-IsOfVehicles reached i bring found post good clean =
        let it =
          outcome-IsReceived tokens IsDetected (λ m h. h.sendable) reached i bring found post good
            clean in
        (it, detected-IsOfVehicles it.message it.received.kind)
