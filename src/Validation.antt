-- ===== src/Validation.antt =====
-- src/vehicle_detection/src/parameter_validation.cpp and its header: the checks of parameter values.
use vehicle_detection_system.Common.{
  Bool, true, false, not, ◌||◌, ◌&&◌, Option, none, some, List, [], ◌∷◌, ◌++◌, Bytes, codes,
  is_empty, ◌≟◌, if◌then◌else◌,
}
use vehicle_detection_system.Common.Int.{ℤ, ltb_ℤ, show_ℤ}
use vehicle_detection_system.Common.Double.{Double}
use vehicle_detection_system.Playlist.Types.{FileSystem}
use vehicle_detection_system.Playlist.Resolve.{is_set}
pub mod Laws

pub record ValidationResult : Type 0 where
  pub ok : Bool
  pub reason : Bytes

abbrev pub success : ValidationResult
success = record { ok = true; reason = [] }

abbrev pub failure : Bytes → ValidationResult
failure reason = record { ok = false; reason = reason }

-- "parameter 'name'" and what follows.
abbrev about : Bytes → Bytes → Bytes
about name rest = codes "parameter '" ++ (name ++ rest)

unfoldable pub validate_non_empty_string : Bytes → Bytes → ValidationResult
validate_non_empty_string name value =
    if is_empty value then failure (about name (codes "' must not be empty")) else success

unfoldable pub validate_existing_file : FileSystem → Bytes → Bytes → ValidationResult
unfolding validate_non_empty_string
validate_existing_file fs name path =
    let r = validate_non_empty_string name path in
    let (there, ec) = fs.exists path in
    if not r.ok
    then r
    else if is_set ec || not there
    then failure (about name (codes "' references missing file: " ++ path))
    else if fs.is_directory path
    then failure (about name (codes "' must be a file, not a directory: " ++ path))
    else success

module _ {D : Type 0} ⦃d : Double D⦄ where
  unfoldable pub validate_positive_double : Bytes → D → ValidationResult
  validate_positive_double name value =
      if not (d.lt (d.literal (codes "0.0")) value)
      then failure (about name (codes "' must be > 0.0 (got " ++ (d.show value ++ codes ")")))
      else success

  unfoldable pub validate_double_range : Bytes → D → D → D → ValidationResult
  validate_double_range name value min_inclusive max_inclusive =
      if d.lt value min_inclusive || d.lt max_inclusive value
      then failure (
          about name (
            codes "' must be in ["
            ++ (d.show min_inclusive
                ++ (codes ", "
                    ++ (d.show max_inclusive
                        ++ (codes "] (got " ++ (d.show value ++ codes ")")))))))
      else success

unfoldable pub validate_int_min : Bytes → ℤ → ℤ → ValidationResult
unfolding show_ℤ
validate_int_min name value min_inclusive =
    if ltb_ℤ value min_inclusive
    then failure (
        about name (
          codes "' must be >= "
          ++ (show_ℤ min_inclusive ++ (codes " (got " ++ (show_ℤ value ++ codes ")")))))
    else success

-- `std::find` over the allowed values.
unfoldable pub is_member : Bytes → List Bytes → Bool
is_member value [] = false
is_member value (a ∷ allowed) = a ≟ value || is_member value allowed

unfoldable pub join : Bool → List Bytes → Bytes
join first [] = []
join first (a ∷ allowed) = (if first then [] else codes ", ") ++ (a ++ join false allowed)

unfoldable pub validate_enum : Bytes → Bytes → List Bytes → ValidationResult
unfolding is_member join
validate_enum name value allowed =
    if not (is_member value allowed)
    then failure (
        about name (
          codes "' must be one of {"
          ++ (join true allowed ++ (codes "} (got '" ++ (value ++ codes "')")))))
    else success

-- The loops `for (r : checks) if (!r.ok) …`: the first failure, or none.
unfoldable pub first_failure : List ValidationResult → Option Bytes
first_failure [] = none
first_failure (r ∷ rs) = if r.ok then first_failure rs else some r.reason
