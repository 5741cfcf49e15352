-- ===== src/Samples/PlaylistRuns.antt =====
-- The theorems on the playlist at concrete patterns, directories and files.
use vehicle_detection_system.Common.{
  ◌≡◌, ◌≢◌, ◌↔◌, refl, true, false, none, some, List, [], ◌∷◌, Bytes, codes, is_empty, All, arith,
  ◌≟◌, if◌then◌else◌, ◌||◌,
}
use vehicle_detection_system.Playlist.Types.{
  PcdPlaylistSource, PcdPlaylistInputs, DirEntry, FileSystem, IsStandard,
}
use vehicle_detection_system.Playlist.Resolve.{resolve_pcd_playlist, fail, no_match_reason}
use vehicle_detection_system.Playlist.Files.{IsEntry, resolve_pcd_files}
use vehicle_detection_system.Playlist.Directory.{NamesDirectory, resolve_pcd_directory_unreadable}
use vehicle_detection_system.Playlist.Wildcard.Loop.{run, wildcard_match}
use vehicle_detection_system.Playlist.Wildcard.Spec.{Matches, star}
use vehicle_detection_system.Playlist.Wildcard.Total.{run-ne-none}
use vehicle_detection_system.Playlist.Wildcard.Correct.{
  wildcard_match_iff, wildcard_match-star_text,
}

abbrev entry : Bytes → Bytes → DirEntry
entry path name = record { path = path; filename = name; is_regular_file = true }

-- A directory "d" with two clouds and a text, and a directory "x" that cannot be read.
abbrev pub disk : FileSystem
disk = record {
  exists = λ p. (true, none);
  is_directory = λ p. p ≟ codes "d" || p ≟ codes "x";
  directory_iterator = λ p.
      if p ≟ codes "d"
      then (
        none,
        entry (codes "d/b.pcd") (codes "b.pcd")
            ∷ entry (codes "d/n.txt") (codes "n.txt")
            ∷ entry (codes "d/a.pcd") (codes "a.pcd")
            ∷ [],
      )
      else (some (codes "denied"), []);
}

abbrev inputs_of : List Bytes → Bytes → Bytes → PcdPlaylistInputs
inputs_of files dir file = record {
  pcd_file = file;
  pcd_files = files;
  pcd_directory = dir;
  pcd_glob = codes "*.pcd";
}

run-ne-none_example : run (codes "a*b?") (codes "axxbby") ≢ none
run-ne-none_example = run-ne-none (codes "a*b?") (codes "axxbby")

wildcard_match_iff_example :
    (wildcard_match (codes "*.pcd") (codes "a.b.pcd") ≡ true)
    ↔ Matches (codes "*.pcd") (codes "a.b.pcd")
wildcard_match_iff_example = wildcard_match_iff (codes "*.pcd") (codes "a.b.pcd") (ground arith)

star_accepts : wildcard_match (codes "*.pcd") (codes "a.pcd") ≡ true
unfolding wildcard_match
star_accepts = refl

wildcard_match-star_text_example :
    (wildcard_match (star ∷ []) (codes "*a") ≡ false) × Matches (star ∷ []) (codes "*a")
wildcard_match-star_text_example = wildcard_match-star_text b'a' []

resolve_pcd_files_example :
    let r = resolve_pcd_playlist disk (inputs_of (codes "a" ∷ codes "b" ∷ []) (codes "d") []) in
    ((r.ok ≡ true) ↔ All (IsEntry disk) (codes "a" ∷ codes "b" ∷ []))
    × (if r.ok
        then (r.entries ≡ codes "a" ∷ codes "b" ∷ []) × (r.source ≡ PcdPlaylistSource.pcd_files)
        else Unit)
resolve_pcd_files_example =
    resolve_pcd_files disk (inputs_of (codes "a" ∷ codes "b" ∷ []) (codes "d") []) refl

names :
    (dir : Bytes)
    → is_empty dir ≡ false
    → disk.is_directory dir ≡ true
    → NamesDirectory disk (inputs_of [] dir [])
names dir named there = record {
  no_files = refl;
  named = named;
  glob = refl;
  present = refl;
  no_error = refl;
  directory = there;
}

disk-IsStandard : IsStandard disk
disk-IsStandard = record { end_on_error = λ dir e. ground arith }

resolve_pcd_directory_unreadable_example :
    resolve_pcd_playlist disk (inputs_of [] (codes "x") [])
    ≡ fail (no_match_reason (inputs_of [] (codes "x") []))
resolve_pcd_directory_unreadable_example =
    resolve_pcd_directory_unreadable disk (inputs_of [] (codes "x") [])
      (names (codes "x") refl refl) disk-IsStandard refl
