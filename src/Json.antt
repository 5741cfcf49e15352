-- ===== src/Json.antt =====
-- src/vehicle_detection/src/detection_json.cpp and its header: detections as one line of JSON.
pub mod Payload
pub mod Escape
pub mod EscapeLaws
pub mod Timestamp
pub mod TimestampLaws
pub mod TimestampText
pub mod Serialize
pub mod Numbers
pub mod Tree
pub mod TreeLaws
pub mod PayloadText
pub mod PayloadTree
pub mod LineLaws
