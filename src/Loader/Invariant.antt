-- ===== src/Loader/Invariant.antt =====
-- The cache of the loader and its index stay in order.
use vehicle_detection_system.Common.{
  ℕ, ◌≤◌, ◌<◌, ◌≡◌, inl, inr, true, false, ◌||◌, Option, none, some, is_empty, length, get_elem?,
  lt_of_get_elem?, leb, arith, Bool-cases, Option-cases,
}
use vehicle_detection_system.Playlist.Resolve.{is_set}
use vehicle_detection_system.Loader.{
  World, Loader, load_index, publish_cached, advance, tick_publish, publish_first,
}

abbrev IsBelow : Option ℕ → ℕ → Type 0
IsBelow none n = Unit {0}
IsBelow (some i) n = i < n

module _ {Cloud Time : Type 0} where
  -- The cached index and message are there together, and the index is that of an entry. The next
  -- index is at most the number of entries, and below it while the timer runs.
  pub record IsWellFormed (s : Loader Cloud Time) : Type 0 where
    pub together : is_set s.cached_index ≡ is_set s.cached_msg
    pub index_below : IsBelow s.cached_index (length s.playlist)
    pub next_le : s.current_index ≤ length s.playlist
    pub running : s.cancelled ≡ false → s.current_index < length s.playlist

  load_index-IsWellFormed :
      (w : World Cloud Time) (idx : ℕ) (s : Loader Cloud Time)
      → IsWellFormed s
      → IsWellFormed (load_index w idx s)
  unfolding load_index
  load_index-IsWellFormed w idx s v = elim (Option-cases (get_elem? s.playlist idx)) [
    | inl e ↦ ground arith
    | inr (path, e) ↦ ground (arith, lt_of_get_elem? s.playlist idx e)
  ]

  publish_cached-IsWellFormed :
      (w : World Cloud Time) (s : Loader Cloud Time)
      → IsWellFormed s
      → IsWellFormed (publish_cached w s)
  unfolding publish_cached
  publish_cached-IsWellFormed w s v = ground arith

  advance-IsWellFormed :
      (s : Loader Cloud Time)
      → IsWellFormed s
      → s.current_index < length s.playlist
      → IsWellFormed (advance s)
  unfolding advance
  advance-IsWellFormed s v h = ground arith

  -- Loading and publishing leave the parameters, the index and the timer alone.
  pub record HasSamePlace (s t : Loader Cloud Time) : Type 0 where
    pub playlist_eq : t.playlist ≡ s.playlist
    pub loop_eq : t.loop ≡ s.loop
    pub frame_eq : t.input_frame_id ≡ s.input_frame_id
    pub index_eq : t.current_index ≡ s.current_index
    pub cancelled_eq : t.cancelled ≡ s.cancelled

  pub load_index-HasSamePlace :
      (w : World Cloud Time) (idx : ℕ) (s : Loader Cloud Time) → HasSamePlace s (load_index w idx s)
  unfolding load_index
  load_index-HasSamePlace w idx s = ground arith

  pub publish_cached-HasSamePlace :
      (w : World Cloud Time) (s : Loader Cloud Time) → HasSamePlace s (publish_cached w s)
  unfolding publish_cached
  publish_cached-HasSamePlace w s = ground arith

  pub tick_publish-IsWellFormed :
      (w : World Cloud Time) (s : Loader Cloud Time)
      → IsWellFormed s
      → IsWellFormed (tick_publish w s)
  unfolding tick_publish
  tick_publish-IsWellFormed w s v =
      let loaded = load_index w s.current_index s in
      let a = load_index-HasSamePlace w s.current_index s in
      let b = publish_cached-HasSamePlace w loaded in
      let ok =
        publish_cached-IsWellFormed w loaded (load_index-IsWellFormed w s.current_index s v) in
      elim (Bool-cases (is_empty s.playlist || leb (length s.playlist) s.current_index)) [
        | inl e ↦ rw e v
        | inr e ↦ rw e (
            advance-IsWellFormed (publish_cached w loaded) ok
              (rw (b.index_eq, a.index_eq, b.playlist_eq, a.playlist_eq) (ground arith)))
      ]

  pub publish_first-IsWellFormed :
      (w : World Cloud Time) (s : Loader Cloud Time)
      → IsWellFormed s
      → IsWellFormed (publish_first w s)
  unfolding publish_first
  publish_first-IsWellFormed w s v =
      let stopped = record s { cancelled = true } in
      publish_cached-IsWellFormed w (load_index w 0 stopped)
        (load_index-IsWellFormed w 0 stopped (ground arith))
