-- ===== src/Playlist/Wildcard.antt =====
-- `wildcard_match` of src/vehicle_detection/src/pcd_playlist.cpp.
-- A position `p` or `t` is the list of the bytes from there on; `star_p` is kept as the pattern behind
-- the star, with `star_t` beside it, and `none` stands for `npos`.
pub mod Loop
pub mod Spec
pub mod Total
pub mod Correct
