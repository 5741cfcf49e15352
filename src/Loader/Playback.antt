-- ===== src/Loader/Playback.antt =====
-- What the loader publishes, tick by tick.
use vehicle_detection_system.Common.{
  ℕ, suc, ◌+◌, ◌-◌, ◌%◌, ◌<◌, ◌≡◌, refl, ◌∙◌, ap, not, true, false, ◌&&◌, Option, some, List, [],
  ◌∷◌, ◌++◌, Bytes, length, take, take_nil, get_elem?, get_elem?-lt, leb, if◌then◌else◌, arith,
  append_assoc, append-nil, All,
}
use vehicle_detection_system.Common.Double.{Double}
use native.Mathlib.Nat.{mod-lt, mod-add-mod, mod-eq_of_lt, mod-eq-sub-mod, le_refl}
use native.Mathlib.Decide.{dec_lt}
use vehicle_detection_system.Loader.{
  LoaderParameters, callback, run, PointCloud, World, Loader, resolve_pcd_path, tick_publish, fire,
}

mod_self : (n : ℕ) → 0 < n → n % n ≡ 0
mod_self n h = omega (arith, mod-eq-sub-mod (le_refl n), mod-eq_of_lt h)

next_round : (k n : ℕ) → 0 < n → (if leb n (k % n + 1) then 0 else k % n + 1) ≡ (k + 1) % n
next_round k n h = elim (dec_lt (k % n + 1) n) [
  | yes below ↦ ground (arith, mod-add-mod k n 1, mod-eq_of_lt below)
  | no above ↦
      let last : k % n + 1 ≡ n = omega (arith, mod-lt k h) in
      ground (arith, mod-add-mod k n 1, mod_self n h, ap (λ (x : ℕ). x % n) last)
]

module _ {Cloud Time : Type 0} where
  module _ (playlist : List Bytes) (bodies : ℕ → Cloud) where
    -- Every entry loads, the one at index `i` as `bodies i`.
    abbrev pub Loads : World Cloud Time → Type 0
    Loads w =
        (i : ℕ) (path : Bytes)
        → get_elem? playlist i ≡ some path
        → (c : PointCloud Cloud Time) × (w.load_pcd_file (resolve_pcd_path w path) ≡ some c)
          × (c.body ≡ bodies i)

    -- The cached message, if there is one, is what its index loads, under the node's frame.
    abbrev CacheHolds : Bytes → Option ℕ → Option (PointCloud Cloud Time) → Type 0
    CacheHolds frame (some i) (some m) = (m.body ≡ bodies i) × (m.frame_id ≡ frame)
    CacheHolds frame _ _ = Unit {0}

    pub record IsPlaying (s : Loader Cloud Time) : Type 0 where
      pub same_playlist : s.playlist ≡ playlist
      pub holds : CacheHolds s.input_frame_id s.cached_index s.cached_msg

    abbrev pub message : World Cloud Time → Bytes → ℕ → PointCloud Cloud Time
    message w frame i = record { frame_id = frame; stamp = w.now; body = bodies i }

    -- One tick at an entry publishes it, under the node's frame and the tick's time, and goes on to
    -- the next; from the last entry to the first, or to the end.
    tick_one :
        (w : World Cloud Time) (s : Loader Cloud Time)
        → Loads w
        → IsPlaying s
        → s.current_index < length playlist
        → let t = tick_publish w s in
          let at_end = leb (length playlist) (s.current_index + 1) in
          (t.published ≡ s.published ++ message w s.input_frame_id s.current_index ∷ [])
          × IsPlaying t
          × (t.input_frame_id ≡ s.input_frame_id)
          × (t.loop ≡ s.loop)
          × (t.current_index ≡ (if at_end && s.loop then 0 else s.current_index + 1))
          × (t.cancelled ≡ (if at_end && not s.loop then true else s.cancelled))
    unfolding tick_publish
    tick_one w s loads v h =
        let (path, e) = get_elem?-lt playlist s.current_index h in
        let (c, l, b) = loads s.current_index path e in ground (arith, v.same_playlist, v.holds)

    -- One message for each world, the entries taken in turn from number `k` on, without end.
    pub rounds : Bytes → ℕ → List (World Cloud Time) → List (PointCloud Cloud Time)
    rounds frame k [] = []
    rounds frame k (w ∷ ws) = message w frame (k % length playlist) ∷ rounds frame (k + 1) ws

    module _ {D : Type 0} ⦃d : Double D⦄ (p : LoaderParameters D)
        (periodic : p.publish_once ≡ false) where
      callback_running :
          (w : World Cloud Time) (s : Loader Cloud Time)
          → s.cancelled ≡ false
          → callback p w s ≡ tick_publish w s
      unfolding callback fire
      callback_running w s c = ground (arith, periodic)

      callback_stopped :
          (w : World Cloud Time) (s : Loader Cloud Time) → s.cancelled ≡ true → callback p w s ≡ s
      unfolding callback fire
      callback_stopped w s c = ground (arith, periodic)

      run_stopped :
          (ws : List (World Cloud Time)) (s : Loader Cloud Time)
          → s.cancelled ≡ true
          → run p ws s ≡ s
      unfolding run
      run_stopped [] s c = refl
      run_stopped (w ∷ ws) s c = ap (run p ws) (callback_stopped w s c) ∙ run_stopped ws s c

      run_running :
          (w : World Cloud Time) (ws : List (World Cloud Time)) (s : Loader Cloud Time)
          → s.cancelled ≡ false
          → run p (w ∷ ws) s ≡ run p ws (tick_publish w s)
      unfolding run
      run_running w ws s c = ap (run p ws) (callback_running w s c)

      -- For a node with the periodic timer and `loop`, a playlist that is not empty, and files that
      -- load as `bodies` whenever the timer fires: from a running state whose next index is `k`
      -- modulo the number of entries, and whose cache holds what it should, each firing publishes
      -- one message, under the node's frame and the time of the firing; the entries come in turn
      -- from number `k` on, and after the last the first again, without end.
      pub run_loop :
          (ws : List (World Cloud Time)) (s : Loader Cloud Time) (k : ℕ)
          → All Loads ws
          → IsPlaying s
          → 0 < length playlist
          → s.loop ≡ true
          → s.cancelled ≡ false
          → s.current_index ≡ k % length playlist
          → (run p ws s).published ≡ s.published ++ rounds s.input_frame_id k ws
      unfolding run rounds
      run_loop [] s k loads v n l c e = rw append-nil
      run_loop (w ∷ ws) s k (load, loads) v n l c e =
          let here : s.current_index < length playlist = omega (arith, mod-lt k n) in
          let t = tick_publish w s in
          let (out, v', f, l', i, c') = tick_one w s load v here in
          let rest =
            run_loop ws t (k + 1) loads v' n (l' ∙ l) (ground arith)
              (rw (i, e, l) (ground (arith, next_round k (length playlist) n))) in
          rw (run_running w ws s c, rest, out, f, e) (append_assoc s.published _ _)

      -- For a node with the periodic timer and without `loop`, and files that load as `bodies`
      -- whenever the timer fires: from a state that is cancelled exactly if its index is at the
      -- end, and whose cache holds what it should, the entries left are published once each, in
      -- order, and then nothing more, however often the timer would have fired.
      pub run_once :
          (ws : List (World Cloud Time)) (s : Loader Cloud Time)
          → All Loads ws
          → IsPlaying s
          → s.loop ≡ false
          → s.cancelled ≡ leb (length playlist) s.current_index
          → let left = length playlist - s.current_index in
            (run p ws s).published
            ≡ s.published ++ rounds s.input_frame_id s.current_index (take left ws)
      unfolding run rounds
      run_once [] s loads v l c = rw take_nil (rw append-nil)
      run_once (w ∷ ws) s (load, loads) v l c = elim (dec_lt s.current_index (length playlist)) [
        | no above ↦
            let none_left : length playlist - s.current_index ≡ 0 = omega arith in
            rw (run_stopped (w ∷ ws) s (ground arith), none_left) (rw append-nil)
        | yes below ↦
            let going : s.cancelled ≡ false = ground arith in
            let t = tick_publish w s in
            let (out, v', f, l', i, c') = tick_one w s load v below in
            let i' : t.current_index ≡ s.current_index + 1 = ground arith in
            let rest = run_once ws t loads v' (l' ∙ l) (ground arith) in
            let more : length playlist - s.current_index
                ≡ suc (length playlist - (s.current_index + 1)) =
              omega arith in
            rw (run_running w ws s going, rest, out, f, i', more, mod-eq_of_lt below)
              (append_assoc s.published _ _)
      ]
