-- ===== src/Loader/Construct.antt =====
-- The loader from its constructor on.
use vehicle_detection_system.Common.{◌≡◌, inl, inr, some, List, [], ◌∷◌, Bytes, arith, Option-cases}
use vehicle_detection_system.Common.Results.{ok, Result-cases}
use vehicle_detection_system.Common.Double.{Double}
use vehicle_detection_system.Playlist.Types.{FileSystem}
use vehicle_detection_system.Loader.{
  PointCloud, World, Loader, LoaderParameters, load_index, initial, construct, callback, run,
  enforce_parameters,
}
use vehicle_detection_system.Loader.Invariant.{
  IsWellFormed, tick_publish-IsWellFormed, publish_first-IsWellFormed,
}

module _ {D Cloud Time : Type 0} ⦃d : Double D⦄ where
  callback-IsWellFormed :
      (p : LoaderParameters D) (w : World Cloud Time) (s : Loader Cloud Time)
      → IsWellFormed s
      → IsWellFormed (callback p w s)
  unfolding callback
  callback-IsWellFormed p w s v =
      ground (arith, tick_publish-IsWellFormed w s v, publish_first-IsWellFormed w s v)

  -- A first load that fills the cache has found an entry.
  first_load-IsWellFormed :
      (w : World Cloud Time) (p : LoaderParameters D) (playlist : List Bytes)
      {m : PointCloud Cloud Time}
      → (load_index w 0 (initial p playlist)).cached_msg ≡ some m
      → IsWellFormed (load_index w 0 (initial p playlist))
  unfolding load_index initial
  first_load-IsWellFormed w p [] e = absurd (ground arith)
  first_load-IsWellFormed w p (path ∷ rest) e = ground arith

  construct-IsWellFormed :
      (fs : FileSystem) (w : World Cloud Time) (p : LoaderParameters D) (s : Loader Cloud Time)
      → construct fs w p ≡ ok s
      → IsWellFormed s
  unfolding construct
  construct-IsWellFormed fs w p s e = elim (Result-cases (enforce_parameters fs p)) [
    | inr (reason, c) ↦ absurd (ground arith)
    | inl ((playlist, source), c) ↦
        elim (Option-cases (load_index w 0 (initial p playlist)).cached_msg) [
          | inl none_yet ↦ absurd (ground arith)
          | inr (m, loaded) ↦
              let same : load_index w 0 (initial p playlist) ≡ s = ground arith in
              rw same at (first_load-IsWellFormed w p playlist loaded)
        ]
  ]

  run_from :
      (p : LoaderParameters D) (ws : List (World Cloud Time)) (s : Loader Cloud Time)
      → IsWellFormed s
      → IsWellFormed (run p ws s)
  unfolding run
  run_from p [] s v = v
  run_from p (w ∷ ws) s v = run_from p ws (callback p w s) (callback-IsWellFormed p w s v)

  -- If the constructor succeeds, the loader is well formed then and after every sequence of firings
  -- of its timer, in whatever worlds these happen.
  pub run-IsWellFormed :
      (fs : FileSystem) (w : World Cloud Time) (p : LoaderParameters D) {s : Loader Cloud Time}
      → construct fs w p ≡ ok s
      → (ws : List (World Cloud Time)) → IsWellFormed (run p ws s)
  run-IsWellFormed fs w p {s} e ws = run_from p ws s (construct-IsWellFormed fs w p s e)
