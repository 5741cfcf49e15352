-- ===== src/Bridge.antt =====
-- src/vehicle_detection/src/parameter_bridge_node.cpp: the node that shows and sets the parameters of other
-- nodes over HTTP.
pub mod Client
pub mod Update
pub mod Counting
pub mod Accounts
pub mod Sent
pub mod Overview
pub mod Entries
pub mod Shown
pub mod Server
pub mod Node
pub mod Main
