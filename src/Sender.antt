-- ===== src/Sender.antt =====
-- src/vehicle_detection/src/detection_sender_node.cpp: the node that saves, publishes and posts the
-- detections.
pub mod Settings
pub mod SettingsLaws
pub mod Messages
pub mod MessageLaws
pub mod Queue
pub mod Worker
pub mod Node
pub mod Soundness
pub mod NodeLaws
pub mod History
pub mod Order
pub mod Room
pub mod Attempts
pub mod Texts
pub mod Thread
pub mod Addressed
pub mod Kept
pub mod Posts
pub mod Join
pub mod Quiet
pub mod Saved
pub mod Trace
pub mod Outcomes
pub mod Posted
pub mod Main
