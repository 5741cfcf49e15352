-- ===== src/Playlist/Directory.antt =====
-- `resolve_pcd_playlist` where `pcd_directory` is scanned.
use mathlib.Core.List.{Perm}
use mathlib.Core.List.Perm
use vehicle_detection_system.Common.{
  ◌≡◌, refl, sym, true, false, not, none, some, List, [], ◌∷◌, ◌++◌, Bytes, is_empty, All, arith,
  append-nil, append_assoc, Bool-cases, false≢true, ◌∙◌, inl, inr,
}
use vehicle_detection_system.Common.Results.{ok}
use vehicle_detection_system.Common.Order.{IsSorted, sort-IsSorted, sort-perm}
use vehicle_detection_system.Playlist.Types.{PcdPlaylistInputs, DirEntry, FileSystem, IsStandard}
use vehicle_detection_system.Playlist.Resolve.{
  scan, sort_entries, resolve_pcd_playlist, fail, no_match_reason,
}
use vehicle_detection_system.Playlist.Wildcard.Loop.{wildcard_match}
use vehicle_detection_system.Playlist.Wildcard.Spec.{Matches}
use vehicle_detection_system.Playlist.Wildcard.Correct.{StarFree, wildcard_match_iff}

-- What the header asks of a directory entry.
pub record IsChosen (glob : Bytes) (d : DirEntry) : Type 0 where
  pub regular : d.is_regular_file ≡ true
  pub matching : Matches glob d.filename

-- The paths of the chosen entries, in the order of the listing.
pub data Selected (glob : Bytes) : List DirEntry → List Bytes → Type 0 where
  nothing : Selected glob [] []
  chosen :
      {d : DirEntry} {ds : List DirEntry} {paths : List Bytes}
      → IsChosen glob d
      → Selected glob ds paths
      → Selected glob (d ∷ ds) (d.path ∷ paths)
  passed :
      {d : DirEntry} {ds : List DirEntry} {paths : List Bytes}
      → ¬ IsChosen glob d
      → Selected glob ds paths
      → Selected glob (d ∷ ds) paths

abbrev pub StarFreeNames : List DirEntry → Type 0
StarFreeNames = All λ d. StarFree d.filename

scan-Selected :
    (inputs : PcdPlaylistInputs) (ds : List DirEntry) (entries : List Bytes)
    → StarFreeNames ds
    → (paths : List Bytes) × Selected inputs.pcd_glob ds paths
      × (scan inputs none ds entries ≡ ok (entries ++ paths))
unfolding scan
scan-Selected inputs [] entries free = ([], nothing, rw append-nil)
scan-Selected inputs (d ∷ ds) entries (name, free) =
    let (paths, sel, eq) = scan-Selected inputs ds entries free in
    elim (Bool-cases d.is_regular_file) [
      | inr e ↦ (paths, passed (λ c. false≢true (sym e ∙ c.regular)) sel, rw e eq)
      | inl e ↦ elim (Bool-cases (wildcard_match inputs.pcd_glob d.filename)) [
        | inr m ↦ (
          paths,
          passed (λ c. false≢true (sym m ∙ (wildcard_match_iff _ _ name).1 c.matching)) sel,
          rw (e, m) eq,
        )
        | inl m ↦
            let (paths', sel', eq') = scan-Selected inputs ds (entries ++ d.path ∷ []) free in
            (
              d.path ∷ paths',
              chosen (record { regular = e; matching = (wildcard_match_iff _ _ name).0 m }) sel',
              rw (e, m) (rw (append_assoc entries (d.path ∷ []) paths') at eq'),
            )
      ]
    ]

sort_entries_lem :
    (inputs : PcdPlaylistInputs) (paths : List Bytes)
    → let r = sort_entries inputs paths in
      (r.ok ≡ not (is_empty paths)) × IsSorted r.entries × Perm r.entries paths
unfolding sort_entries
sort_entries_lem inputs [] = (refl, tt, Perm.refl [])
sort_entries_lem inputs (p ∷ ps) = (refl, sort-IsSorted (p ∷ ps), sort-perm (p ∷ ps))

module _ (fs : FileSystem) where
  -- The inputs name a directory that is there, and no list of files.
  pub record NamesDirectory (inputs : PcdPlaylistInputs) : Type 0 where
    pub no_files : inputs.pcd_files ≡ []
    pub named : is_empty inputs.pcd_directory ≡ false
    pub glob : is_empty inputs.pcd_glob ≡ false
    pub present : (fs.exists inputs.pcd_directory).0 ≡ true
    pub no_error : (fs.exists inputs.pcd_directory).1 ≡ none
    pub directory : fs.is_directory inputs.pcd_directory ≡ true

  -- Past the guards the outcome is that of the scan.
  resolve_directory_lem :
      (inputs : PcdPlaylistInputs) (paths : List Bytes)
      → NamesDirectory inputs
      → let (ec, listing) = fs.directory_iterator inputs.pcd_directory in
        scan inputs ec listing [] ≡ ok paths
        → resolve_pcd_playlist fs inputs ≡ sort_entries inputs paths
  unfolding resolve_pcd_playlist
  resolve_directory_lem inputs paths n s =
      ground (arith, n.no_files, n.named, n.glob, n.present, n.no_error, n.directory)

  -- With `pcd_files` empty, `pcd_glob` and `pcd_directory` set, the latter a directory that is
  -- there, its scan free of errors, and no `*` in a file name: the call succeeds exactly when some
  -- entry is a regular file whose name matches `pcd_glob`, and the playlist is the paths of all
  -- such entries, each as often as it is listed, in ascending order.
  pub resolve_pcd_directory :
      (inputs : PcdPlaylistInputs)
      → NamesDirectory inputs
      → (fs.directory_iterator inputs.pcd_directory).0 ≡ none
      → let listing = (fs.directory_iterator inputs.pcd_directory).1 in
        StarFreeNames listing
        → let r = resolve_pcd_playlist fs inputs in
          (paths : List Bytes) × Selected inputs.pcd_glob listing paths
          × (r.ok ≡ not (is_empty paths))
          × IsSorted r.entries
          × Perm r.entries paths
  resolve_pcd_directory inputs n clean free =
      let (paths, sel, eq) = scan-Selected inputs _ [] free in
      let e = resolve_directory_lem inputs paths n (rw clean eq) in
      let (filled, sorted, same) = sort_entries_lem inputs paths in
      (paths, sel, rw e filled, rw e sorted, rw e same)

  -- With `pcd_files` empty, `pcd_glob` and `pcd_directory` set, the latter a directory that is
  -- there: if the scan itself fails, and the iterator is then empty as the standard says, the
  -- message of the failure is lost, and the reason is that no file matched.
  pub resolve_pcd_directory_unreadable :
      (inputs : PcdPlaylistInputs)
      → NamesDirectory inputs
      → IsStandard fs
      → {message : Bytes} → (fs.directory_iterator inputs.pcd_directory).0 ≡ some message
      → resolve_pcd_playlist fs inputs ≡ fail (no_match_reason inputs)
  unfolding sort_entries scan
  resolve_pcd_directory_unreadable inputs n std e =
      let empty = std.end_on_error inputs.pcd_directory e in
      resolve_directory_lem inputs [] n (rw (e, empty) refl)
