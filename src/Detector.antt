-- ===== src/Detector.antt =====
-- src/vehicle_detection/src/vehicle_detector_node.cpp: the node that finds vehicles in point clouds.
pub mod Settings
pub mod Messages
pub mod Node
pub mod Region
pub mod Reports
pub mod Invariant
pub mod Delivered
pub mod Received
pub mod Main
