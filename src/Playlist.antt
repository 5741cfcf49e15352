-- ===== src/Playlist.antt =====
-- src/vehicle_detection/src/pcd_playlist.cpp and its header: which PCD files a loader plays.
pub mod Wildcard
pub mod Types
pub mod Resolve
pub mod Files
pub mod Directory
