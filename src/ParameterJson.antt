-- ===== src/ParameterJson.antt =====
-- src/vehicle_detection/src/parameter_json.cpp: the conversions between ROS parameters and JSON values.
pub mod Value
pub mod Convert
pub mod RoundTrip
pub mod Typed
