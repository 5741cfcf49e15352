-- ===== src/Http.antt =====
-- src/vehicle_detection/src/http_client.cpp and its header: a POST of JSON over a plain socket.
pub mod Url
pub mod UrlLaws
pub mod UrlGrammar
pub mod UrlParts
pub mod UrlExact
pub mod UrlUsable
pub mod Status
pub mod StatusLaws
pub mod Connect
pub mod Transfer
pub mod TransferLaws
pub mod Post
pub mod Descriptors
pub mod PostLaws
pub mod PostEnds
pub mod Reader
pub mod UrlClean
