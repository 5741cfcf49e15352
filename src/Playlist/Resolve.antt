-- ===== src/Playlist/Resolve.antt =====
-- `resolve_pcd_playlist` of src/vehicle_detection/src/pcd_playlist.cpp.
use vehicle_detection_system.Common.{
  ℕ, ◌+◌, Bool, true, false, not, ◌||◌, Option, none, some, List, [], ◌∷◌, ◌++◌, Bytes, codes,
  decimal, is_empty, if◌then◌else◌,
}
use vehicle_detection_system.Common.Results.{Result, ok, error}
use vehicle_detection_system.Common.Order.{sort}
use vehicle_detection_system.Playlist.Types.{
  PcdPlaylistSource, PcdPlaylistInputs, PcdPlaylistResolution, DirEntry, FileSystem,
}
use vehicle_detection_system.Playlist.Wildcard.Loop.{wildcard_match}

-- `reason`; the other members keep their initialisers.
unfoldable pub fail : Bytes → PcdPlaylistResolution
fail reason = record {
  ok = false;
  reason = reason;
  entries = [];
  source = PcdPlaylistSource.pcd_file;
}

unfoldable pub succeed : PcdPlaylistSource → List Bytes → PcdPlaylistResolution
succeed source entries = record { ok = true; reason = []; entries = entries; source = source }

abbrev pub is_set {ℓ} : {A : Type ℓ} → Option A → Bool
is_set none = false
is_set (some a) = true

module _ (fs : FileSystem) where
  -- `some reason` is the answer `false` with that reason.
  unfoldable pub ensure_regular_file : Bytes → Option Bytes
  ensure_regular_file path =
      let (there, ec) = fs.exists path in
      if not there || is_set ec
      then some (codes "PCD entry does not exist: " ++ path)
      else if fs.is_directory path
      then some (codes "PCD entry is a directory, expected file: " ++ path)
      else none

  -- The loop over `pcd_files` from index `i` on.
  unfoldable pub collect_files : ℕ → List Bytes → List Bytes → Result (List Bytes)
  unfolding ensure_regular_file
  collect_files i [] entries = ok entries
  collect_files i (p ∷ files) entries =
      let rest = collect_files (i + 1) files (entries ++ p ∷ []) in
      if is_empty p
      then error (codes "pcd_files[" ++ (decimal i ++ codes "] is empty"))
      else elim (ensure_regular_file p) [ some reason ↦ error reason | none ↦ rest ]

-- The loop over `directory_iterator(dir, ec)`. What its increment and `is_regular_file` throw is left out.
unfoldable pub scan :
    PcdPlaylistInputs → Option Bytes → List DirEntry → List Bytes → Result (List Bytes)
scan inputs ec [] entries = ok entries
scan inputs (some message) (d ∷ ds) entries =
    error
      (codes "failed to scan pcd_directory '" ++ (inputs.pcd_directory ++ (codes "': " ++ message)))
scan inputs none (d ∷ ds) entries =
    let next = scan inputs none ds in
    if not d.is_regular_file
    then next entries
    else if not (wildcard_match inputs.pcd_glob d.filename)
    then next entries
    else next (entries ++ d.path ∷ [])

unfoldable pub no_match_reason : PcdPlaylistInputs → Bytes
no_match_reason inputs =
    codes "no files matched pcd_glob '"
    ++ (inputs.pcd_glob ++ (codes "' under pcd_directory '" ++ (inputs.pcd_directory ++ codes "'")))

unfoldable pub sort_entries : PcdPlaylistInputs → List Bytes → PcdPlaylistResolution
unfolding succeed fail no_match_reason
sort_entries inputs entries =
    if is_empty entries
    then fail (no_match_reason inputs)
    else succeed PcdPlaylistSource.pcd_directory (sort entries)

module _ (fs : FileSystem) where
  unfoldable pub resolve_files : PcdPlaylistInputs → PcdPlaylistResolution
  unfolding collect_files succeed fail
  resolve_files inputs = elim (collect_files fs 0 inputs.pcd_files []) [
    | ok entries ↦ succeed PcdPlaylistSource.pcd_files entries
    | error reason ↦ fail reason
  ]

  unfoldable pub resolve_directory : PcdPlaylistInputs → PcdPlaylistResolution
  unfolding scan sort_entries
  resolve_directory inputs =
      let (there, ec) = fs.exists inputs.pcd_directory in
      let (scan_ec, listing) = fs.directory_iterator inputs.pcd_directory in
      if is_empty inputs.pcd_glob
      then fail (codes "pcd_glob must not be empty when pcd_directory is set")
      else if not there || is_set ec
      then fail (codes "pcd_directory does not exist: " ++ inputs.pcd_directory)
      else if not (fs.is_directory inputs.pcd_directory)
      then fail (codes "pcd_directory is not a directory: " ++ inputs.pcd_directory)
      else elim (scan inputs scan_ec listing []) [
        | error reason ↦ fail reason
        | ok entries ↦ sort_entries inputs entries
      ]

  unfoldable pub resolve_file : PcdPlaylistInputs → PcdPlaylistResolution
  unfolding ensure_regular_file succeed fail
  resolve_file inputs = elim (ensure_regular_file fs inputs.pcd_file) [
    | some reason ↦ fail reason
    | none ↦ succeed PcdPlaylistSource.pcd_file (inputs.pcd_file ∷ [])
  ]

  unfoldable pub resolve_pcd_playlist : PcdPlaylistInputs → PcdPlaylistResolution
  unfolding resolve_files resolve_directory resolve_file
  resolve_pcd_playlist inputs =
      if not (is_empty inputs.pcd_files)
      then resolve_files inputs
      else if not (is_empty inputs.pcd_directory)
      then resolve_directory inputs
      else if not (is_empty inputs.pcd_file)
      then resolve_file inputs
      else fail (codes "no PCD source configured: set pcd_file, pcd_files, or pcd_directory")
