-- ===== src/Playlist/Files.antt =====
-- `resolve_pcd_playlist` where files are named: `pcd_files`, and the single `pcd_file`.
use vehicle_detection_system.Common.{
  if_both, if◌then◌else◌, ℕ, ◌+◌, ◌≡◌, ◌↔◌, inl, inr, true, false, none, List, [], ◌∷◌, ◌++◌, Bytes,
  is_empty, All, arith, append-nil, append_assoc, Bool-cases, Option-cases,
}
use vehicle_detection_system.Common.Results.{ok, Result-cases}
use vehicle_detection_system.Playlist.Types.{PcdPlaylistSource, PcdPlaylistInputs, FileSystem}
use vehicle_detection_system.Playlist.Resolve.{
  ensure_regular_file, collect_files, resolve_files, resolve_pcd_playlist,
}

module _ (fs : FileSystem) where
  -- What the header asks of an entry: it exists and is no directory.
  pub record IsPlayable (path : Bytes) : Type 0 where
    pub present : (fs.exists path).0 ≡ true
    pub no_error : (fs.exists path).1 ≡ none
    pub no_directory : fs.is_directory path ≡ false

  ensure_regular_file-IsPlayable :
      (path : Bytes) → (ensure_regular_file fs path ≡ none) ↔ IsPlayable path
  unfolding ensure_regular_file
  ensure_regular_file-IsPlayable path = (λ h. ground arith, λ h. ground arith)

  abbrev pub IsEntry : Bytes → Type 0
  IsEntry path = (is_empty path ≡ false) × IsPlayable path

  collect_files-ok :
      (i : ℕ) (files entries : List Bytes)
      → All IsEntry files
      → collect_files fs i files entries ≡ ok (entries ++ files)
  unfolding collect_files
  collect_files-ok i [] entries h = rw append-nil
  collect_files-ok i (p ∷ files) entries ((named, playable), hs) = ground (
    arith,
    (ensure_regular_file-IsPlayable p).1 playable,
    collect_files-ok (i + 1) files (entries ++ p ∷ []) hs,
    append_assoc entries (p ∷ []) files,
  )

  collect_files-All :
      (i : ℕ) (files entries out : List Bytes)
      → collect_files fs i files entries ≡ ok out
      → All IsEntry files
  unfolding collect_files
  collect_files-All i [] entries out h = tt
  collect_files-All i (p ∷ files) entries out h = elim (Bool-cases (is_empty p)) [
    | inl e ↦ absurd (ground arith)
    | inr e ↦ elim (Option-cases (ensure_regular_file fs p)) [
      | inr (reason, r) ↦ absurd (ground arith)
      | inl r ↦ (
        (e, (ensure_regular_file-IsPlayable p).0 r),
        collect_files-All (i + 1) files (entries ++ p ∷ []) out (rw (e, r, collect_files) at h),
      )
    ]
  ]

  resolve_files_lem :
      (inputs : PcdPlaylistInputs)
      → is_empty inputs.pcd_files ≡ false
      → resolve_pcd_playlist fs inputs ≡ resolve_files fs inputs
  unfolding resolve_pcd_playlist
  resolve_files_lem inputs h = rw h

  -- With `pcd_files` set, and whatever else is set, the call succeeds exactly when each of these is not
  -- the empty text, exists and is no directory. It then plays them as they are listed.
  pub resolve_pcd_files :
      (inputs : PcdPlaylistInputs)
      → is_empty inputs.pcd_files ≡ false
      → let r = resolve_pcd_playlist fs inputs in
        ((r.ok ≡ true) ↔ All IsEntry inputs.pcd_files)
        × (if r.ok
            then (r.entries ≡ inputs.pcd_files) × (r.source ≡ PcdPlaylistSource.pcd_files)
            else Unit)
  unfolding resolve_files
  resolve_pcd_files inputs h = rw (resolve_files_lem inputs h) (
    (
      λ e. elim (Result-cases (collect_files fs 0 inputs.pcd_files [])) [
        | inl (out, c) ↦ collect_files-All 0 inputs.pcd_files [] out c
        | inr (reason, c) ↦ absurd (ground arith)
      ],
      λ all. rw (collect_files-ok 0 inputs.pcd_files [] all, resolve_files),
    ),
    if_both (resolve_files fs inputs).ok
        (λ e. elim (Result-cases (collect_files fs 0 inputs.pcd_files [])) [
          | inl (out, c) ↦
              let same =
                collect_files-ok 0 inputs.pcd_files []
                  (collect_files-All 0 inputs.pcd_files [] out c) in
              ground (arith, same)
          | inr (reason, c) ↦ absurd (ground arith)
        ])
        (λ e. tt),
  )

  -- With neither `pcd_files` nor `pcd_directory` set, the call succeeds exactly when `pcd_file` is
  -- not the empty text, exists and is no directory, and then plays just that file.
  pub resolve_pcd_file :
      (inputs : PcdPlaylistInputs)
      → inputs.pcd_files ≡ []
      → inputs.pcd_directory ≡ []
      → let r = resolve_pcd_playlist fs inputs in
        ((r.ok ≡ true) ↔ IsEntry inputs.pcd_file)
        × (if r.ok
            then (r.entries ≡ inputs.pcd_file ∷ []) × (r.source ≡ PcdPlaylistSource.pcd_file)
            else Unit)
  unfolding resolve_pcd_playlist
  resolve_pcd_file inputs no_files no_dir =
      let entry = ensure_regular_file-IsPlayable inputs.pcd_file in
      ((λ e. ground (arith, entry), λ e. ground (arith, entry)), ground (arith, entry))
