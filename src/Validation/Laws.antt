-- ===== src/Validation/Laws.antt =====
-- What each check of parameter_validation.cpp accepts.
use vehicle_detection_system.Common.{◌≡◌, refl, ◌↔◌, true, none, List, [], ◌∷◌, Bytes, All, arith}
use vehicle_detection_system.Common.Int.{ℤ, ◌≤ℤ◌}
use vehicle_detection_system.Playlist.Types.{FileSystem}
use vehicle_detection_system.Playlist.Files.{IsEntry}
use vehicle_detection_system.Validation.{
  validate_existing_file, ValidationResult, validate_int_min, first_failure,
}

pub validate_int_min_iff :
    (name : Bytes) (value least : ℤ)
    → ((validate_int_min name value least).ok ≡ true) ↔ (least ≤ℤ value)
unfolding validate_int_min
validate_int_min_iff name value least = (λ h. ground arith, λ h. ground arith)

pub first_failure_iff :
    (rs : List ValidationResult) → (first_failure rs ≡ none) ↔ All (λ r. r.ok ≡ true) rs
unfolding first_failure
first_failure_iff [] = (λ h. tt, λ h. refl)
first_failure_iff (r ∷ rs) = (
  λ h. (ground arith, (first_failure_iff rs).0 (ground arith)),
  λ (h, hs). rw h ((first_failure_iff rs).1 hs),
)

-- `validate_existing_file` succeeds exactly for the paths that the playlist accepts as entries: not
-- empty, there, and no directory.
pub validate_existing_file_iff :
    (fs : FileSystem) (name path : Bytes)
    → ((validate_existing_file fs name path).ok ≡ true) ↔ IsEntry fs path
unfolding validate_existing_file
validate_existing_file_iff fs name path = (λ h. ground arith, λ h. ground arith)
