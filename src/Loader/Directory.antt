-- ===== src/Loader/Directory.antt =====
-- From a directory to what is published: src/vehicle_detection/src/pcd_playlist.cpp and
-- src/vehicle_detection/src/pcd_loader_node.cpp together.
use mathlib.Core.List.{Perm}
use native.Mathlib.Nat.{zero-mod}
use vehicle_detection_system.Common.{
  false, ℕ, ◌<◌, ◌≡◌, refl, sym, ap, ◌∙◌, subst, true, false, none, some, List, [], ◌∷◌, ◌++◌,
  Bytes, length, get_elem?, All, arith, Option-cases, inl, inr, All-weaken,
}
use vehicle_detection_system.Common.Order.{IsSorted}
use vehicle_detection_system.Common.Results.{ok, Result-cases}
use vehicle_detection_system.Common.Double.{Double}
use vehicle_detection_system.Playlist.Types.{PcdPlaylistInputs, FileSystem}
use vehicle_detection_system.Playlist.Resolve.{resolve_pcd_playlist}
use vehicle_detection_system.Playlist.Directory.{
  Selected, StarFreeNames, NamesDirectory, resolve_pcd_directory,
}
use vehicle_detection_system.Loader.{
  PointCloud, World, Loader, LoaderParameters, resolve_pcd_path, load_index, initial, construct,
  run, enforce_parameters,
}
use vehicle_detection_system.Loader.Invariant.{load_index-HasSamePlace}
use vehicle_detection_system.Loader.Playback.{Loads, IsPlaying, rounds, run_loop}

-- The inputs that the node hands to `resolve_pcd_playlist`.
abbrev pub inputs_of : {D : Type 0} → LoaderParameters D → PcdPlaylistInputs
inputs_of p = record {
  pcd_file = p.pcd_file;
  pcd_files = p.pcd_files;
  pcd_directory = p.pcd_directory;
  pcd_glob = p.pcd_glob;
}

module _ {Cloud Time : Type 0} (content : Bytes → Cloud) (playlist : List Bytes) where
  -- Each entry loads, and its cloud is that of its path.
  abbrev pub LoadsAs : World Cloud Time → Type 0
  LoadsAs w =
      (i : ℕ) (path : Bytes)
      → get_elem? playlist i ≡ some path
      → (c : PointCloud Cloud Time) × (w.load_pcd_file (resolve_pcd_path w path) ≡ some c)
        × (c.body ≡ content path)

module _ {Cloud : Type 0} (content : Bytes → Cloud) (playlist : List Bytes) where
  abbrev pub cloud_at : ℕ → Cloud
  cloud_at i = elim (get_elem? playlist i) [ none ↦ content [] | some path ↦ content path ]

  LoadsAs-Loads :
      {Time : Type 0} (w : World Cloud Time)
      → LoadsAs content playlist w
      → Loads playlist cloud_at w
  LoadsAs-Loads w h i path e =
      let (c, found, same) = h i path e in (c, found, rw (cloud_at, e) same)

module _ {D Cloud Time : Type 0} ⦃d : Double D⦄ (fs : FileSystem) (w : World Cloud Time)
    (p : LoaderParameters D) where
  enforced_lem :
      {out : List Bytes × Bytes}
      → enforce_parameters fs p ≡ ok out
      → let resolution = resolve_pcd_playlist fs (inputs_of p) in
        (resolution.ok ≡ true) × (out.0 ≡ resolution.entries)
  unfolding enforce_parameters
  enforced_lem e = ground arith

  -- What a constructor that succeeds leaves.
  record IsFirstState (s : Loader Cloud Time) : Type 0 where
    resolved : (resolve_pcd_playlist fs (inputs_of p)).ok ≡ true
    entries : s.playlist ≡ (resolve_pcd_playlist fs (inputs_of p)).entries
    filled : 0 < length s.playlist
    loop_lem : s.loop ≡ p.loop
    frame_lem : s.input_frame_id ≡ p.input_frame_id
    index_lem : s.current_index ≡ 0
    running : s.cancelled ≡ false
    fresh : s.published ≡ []
    holds :
        (content : Bytes → Cloud)
        → LoadsAs content s.playlist w
        → IsPlaying s.playlist (cloud_at content s.playlist) s

  first_load :
      (playlist : List Bytes) {m : PointCloud Cloud Time}
      → let s = load_index w 0 (initial p playlist) in
        s.cached_msg ≡ some m → (0 < length s.playlist) × (s.published ≡ [])
  unfolding load_index initial
  first_load [] e = absurd (ground arith)
  first_load (path ∷ rest) e = ground arith

  first_holds :
      (playlist : List Bytes) (content : Bytes → Cloud)
      → LoadsAs content playlist w
      → let s = load_index w 0 (initial p playlist) in
        IsPlaying playlist (cloud_at content playlist) s
  unfolding load_index initial
  first_holds [] content loads = record { same_playlist = refl; holds = tt }
  first_holds (path ∷ rest) content loads = let (c, found, same) = loads 0 path refl in ground arith

  IsFirstState-of :
      (playlist : List Bytes) {m : PointCloud Cloud Time}
      → (resolve_pcd_playlist fs (inputs_of p)).ok ≡ true
      → playlist ≡ (resolve_pcd_playlist fs (inputs_of p)).entries
      → (load_index w 0 (initial p playlist)).cached_msg ≡ some m
      → IsFirstState (load_index w 0 (initial p playlist))
  unfolding initial
  IsFirstState-of playlist good same loaded =
      let s = load_index w 0 (initial p playlist) in
      let place = load_index-HasSamePlace w 0 (initial p playlist) in
      let (filled, fresh) = first_load playlist loaded in
      record {
        resolved = good;
        entries = place.playlist_eq ∙ same;
        filled = filled;
        loop_lem = place.loop_eq;
        frame_lem = place.frame_eq;
        index_lem = place.index_eq;
        running = place.cancelled_eq;
        fresh = fresh;
        holds = λ content loads.
            subst (λ l. IsPlaying l (cloud_at content l) s) (sym place.playlist_eq)
              (first_holds playlist content
                (subst (λ l. LoadsAs content l w) place.playlist_eq loads));
      }

  construct-IsFirstState : (s : Loader Cloud Time) → construct fs w p ≡ ok s → IsFirstState s
  unfolding construct
  construct-IsFirstState s e = elim (Result-cases (enforce_parameters fs p)) [
    | inr (reason, c) ↦ absurd (ground arith)
    | inl ((playlist, source), c) ↦
        elim (Option-cases (load_index w 0 (initial p playlist)).cached_msg) [
          | inl none_yet ↦ absurd (ground arith)
          | inr (m, loaded) ↦
              let there : load_index w 0 (initial p playlist) ≡ s = ground arith in
              let (good, same) = enforced_lem c in
              subst IsFirstState there (IsFirstState-of playlist good same loaded)
        ]
  ]

  -- The parameters name a directory that is there, whose scan is free of errors and whose file names hold
  -- no `*`, with `loop` and the periodic timer. If the constructor succeeds and each file of the playlist
  -- loads as its content then and whenever the timer fires: the playlist is not empty and holds the
  -- paths of exactly those entries that are regular files with a name that matches `pcd_glob`, in
  -- ascending order, and each firing publishes one message, under the frame of the parameters and the
  -- time of the firing, with the contents of the files in this order, and after the last the first
  -- again, without end.
  pub plays_directory :
      (content : Bytes → Cloud) (ws : List (World Cloud Time)) {s : Loader Cloud Time}
      → NamesDirectory fs (inputs_of p)
      → (fs.directory_iterator p.pcd_directory).0 ≡ none
      → StarFreeNames (fs.directory_iterator p.pcd_directory).1
      → p.publish_once ≡ false
      → p.loop ≡ true
      → construct fs w p ≡ ok s
      → All (LoadsAs content s.playlist) (w ∷ ws)
      → (paths : List Bytes) × Selected p.pcd_glob (fs.directory_iterator p.pcd_directory).1 paths
        × IsSorted s.playlist
        × Perm s.playlist paths
        × (0 < length s.playlist)
        × ((run p ws s).published
            ≡ rounds s.playlist (cloud_at content s.playlist) p.input_frame_id 0 ws)
  plays_directory content ws {s} names clean free periodic loops made (first, later) =
      let h = construct-IsFirstState s made in
      let (paths, selected, good, sorted, same) =
        resolve_pcd_directory fs (inputs_of p) names clean free in
      let bodies = cloud_at content s.playlist in
      let loads =
        All-weaken (LoadsAs content s.playlist) (Loads s.playlist bodies)
          (λ v l. LoadsAs-Loads content s.playlist v l) ws later in
      let played =
        run_loop s.playlist bodies p periodic ws s 0 loads (h.holds content first) h.filled
          (h.loop_lem ∙ loops) h.running (h.index_lem ∙ sym (zero-mod (length s.playlist))) in
      (
        paths,
        selected,
        subst IsSorted (sym h.entries) sorted,
        subst (λ l. Perm l paths) (sym h.entries) same,
        h.filled,
        played
            ∙ ap (λ r. r ++ rounds s.playlist bodies s.input_frame_id 0 ws) h.fresh
            ∙ ap (λ frame. rounds s.playlist bodies frame 0 ws) h.frame_lem,
      )
