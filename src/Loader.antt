-- ===== src/Loader.antt =====
-- src/vehicle_detection/src/pcd_loader_node.cpp: the node that plays the files of a playlist.
-- The node's members are the record `Loader`; `published` is the trace of what went to the publisher.
-- What a callback sees of the world (the clock, the files) is an argument of type `World`.
use vehicle_detection_system.Common.{
  ℕ, ◌+◌, ◌≡◌, Bool, true, false, not, ◌||◌, ◌&&◌, Option, none, some, List, [], ◌∷◌, ◌++◌, Bytes,
  codes, is_empty, length, get_elem?, leb, ◌==◌, if◌then◌else◌,
}
use vehicle_detection_system.Common.Results.{Result, ok, error}
use vehicle_detection_system.Common.Double.{Double}
use vehicle_detection_system.Validation.{
  validate_non_empty_string, validate_positive_double, first_failure,
}
use vehicle_detection_system.Playlist.Types.{
  PcdPlaylistSource, to_string, PcdPlaylistInputs, PcdPlaylistResolution, FileSystem,
}
use vehicle_detection_system.Playlist.Resolve.{resolve_pcd_playlist, is_set}
pub mod Invariant
pub mod Playback
pub mod Construct
pub mod Directory
pub mod Main

-- `sensor_msgs::msg::PointCloud2`: the header's two members, and the rest, which `moveFromPCL` fills.
pub record PointCloud (Cloud Time : Type 0) : Type 0 where
  pub frame_id : Bytes
  pub stamp : Time
  pub body : Cloud

-- What the node asks of PCL, the file system and the clock. `load_pcd_file` is `none` where
-- `loadPCDFile` does not return 0; `absolute` is `none` where it sets its `error_code`.
pub record World (Cloud Time : Type 0) : Type 0 where
  pub now : Time
  pub is_absolute : Bytes → Bool
  pub absolute : Bytes → Option Bytes
  pub load_pcd_file : Bytes → Option (PointCloud Cloud Time)

pub record Loader (Cloud Time : Type 0) : Type 0 where
  pub playlist : List Bytes
  pub loop : Bool
  pub input_frame_id : Bytes
  pub current_index : ℕ
  pub cached_index : Option ℕ
  pub cached_msg : Option (PointCloud Cloud Time)
  -- Whether the timer that drives the node has been cancelled.
  pub cancelled : Bool
  pub published : List (PointCloud Cloud Time)

-- What follows a publication: the next index, round to the first, or the end.
unfoldable pub advance : {Cloud Time : Type 0} → Loader Cloud Time → Loader Cloud Time
advance s =
    let next = s.current_index + 1 in
    if leb (length s.playlist) next
    then (if s.loop
        then record s { current_index = 0 }
        else record s { current_index = next; cancelled = true })
    else record s { current_index = next }

module _ {Cloud Time : Type 0} (w : World Cloud Time) where
  unfoldable pub resolve_pcd_path : Bytes → Bytes
  resolve_pcd_path raw =
      if w.is_absolute raw then raw else elim (w.absolute raw) [ none ↦ raw | some abs ↦ abs ]

  -- `cached_index_ && *cached_index_ == idx && cached_msg_`
  unfoldable pub is_cached : ℕ → Loader Cloud Time → Bool
  is_cached idx s = elim s.cached_index [
    | none ↦ false
    | some cached ↦ cached == idx && is_set s.cached_msg
  ]

  -- The load itself, for the path `playlist_[idx]`.
  unfoldable pub reload : ℕ → Bytes → Loader Cloud Time → Loader Cloud Time
  unfolding resolve_pcd_path
  reload idx raw_path s = elim (w.load_pcd_file (resolve_pcd_path raw_path)) [
    | none ↦ record s { cached_index = none; cached_msg = none }
    | some cloud ↦ record s {
      cached_index = some idx;
      cached_msg = some (record cloud { frame_id = s.input_frame_id });
    }
  ]

  unfoldable pub load_index : ℕ → Loader Cloud Time → Loader Cloud Time
  unfolding is_cached reload
  load_index idx s = elim (get_elem? s.playlist idx) [
    | none ↦ s
    | some raw_path ↦ if is_cached idx s then s else reload idx raw_path s
  ]

  -- The stamp is set in the cached message itself.
  unfoldable pub publish_cached : Loader Cloud Time → Loader Cloud Time
  publish_cached s = elim s.cached_msg [
    | none ↦ s
    | some msg ↦
        let stamped = record msg { stamp = w.now } in
        record s { cached_msg = some stamped; published = s.published ++ stamped ∷ [] }
  ]

  unfoldable pub tick_publish : Loader Cloud Time → Loader Cloud Time
  unfolding load_index publish_cached advance
  tick_publish s =
      if is_empty s.playlist || leb (length s.playlist) s.current_index
      then s
      else advance (publish_cached (load_index s.current_index s))

  -- The callback of `one_shot_timer_`.
  unfoldable pub publish_first : Loader Cloud Time → Loader Cloud Time
  unfolding load_index publish_cached
  publish_first s = publish_cached (load_index 0 (record s { cancelled = true }))

-- A cancelled timer fires no more.
unfoldable pub fire :
    {Cloud Time : Type 0}
    → (Loader Cloud Time → Loader Cloud Time)
    → Loader Cloud Time
    → Loader Cloud Time
fire callback s = if s.cancelled then s else callback s

-- The node's parameters.
pub record LoaderParameters (D : Type 0) : Type 0 where
  pub pcd_file : Bytes
  pub pcd_files : List Bytes
  pub pcd_directory : Bytes
  pub pcd_glob : Bytes
  pub loop : Bool
  pub input_frame_id : Bytes
  pub input_points_topic : Bytes
  pub publish_once : Bool
  pub publish_rate_hz : D

module _ {D : Type 0} ⦃d : Double D⦄ (fs : FileSystem) where
  -- The playlist and the word for its source, or the message of the exception.
  unfoldable pub enforce_parameters : LoaderParameters D → Result (List Bytes × Bytes)
  unfolding to_string
  enforce_parameters p =
      let checks = first_failure (
        validate_non_empty_string (codes "input_frame_id") p.input_frame_id
        ∷ validate_non_empty_string (codes "input_points_topic") p.input_points_topic
        ∷ validate_non_empty_string (codes "pcd_glob") p.pcd_glob
        ∷ validate_positive_double (codes "publish_rate_hz") p.publish_rate_hz
        ∷ []) in
      let resolution = resolve_pcd_playlist fs (record {
        pcd_file = p.pcd_file;
        pcd_files = p.pcd_files;
        pcd_directory = p.pcd_directory;
        pcd_glob = p.pcd_glob;
      }) in
      elim checks [
        | some reason ↦ error reason
        | none ↦
            if not resolution.ok
            then error resolution.reason
            else ok (resolution.entries, to_string resolution.source)
      ]

abbrev pub front : List Bytes → Bytes
front [] = []
front (p ∷ ps) = p

module _ {D Cloud Time : Type 0} ⦃d : Double D⦄ where
  -- The state before the first load.
  unfoldable pub initial : LoaderParameters D → List Bytes → Loader Cloud Time
  initial p playlist = record {
    playlist = playlist;
    loop = p.loop;
    input_frame_id = p.input_frame_id;
    current_index = 0;
    cached_index = none;
    cached_msg = none;
    cancelled = false;
    published = [];
  }

  -- The constructor: the first entry has to load. What follows it are the publisher and the timer.
  unfoldable pub construct :
      FileSystem → World Cloud Time → LoaderParameters D → Result (Loader Cloud Time)
  unfolding enforce_parameters load_index initial
  construct fs w p = elim (enforce_parameters fs p) [
    | error reason ↦ error reason
    | ok (playlist, source) ↦
        let s = load_index w 0 (initial p playlist) in
        elim s.cached_msg [
          | none ↦ error (codes "failed to load first PCD entry: " ++ front playlist)
          | some msg ↦ ok s
        ]
  ]

  -- The timer's callback that the constructor chooses.
  unfoldable pub callback :
      LoaderParameters D → World Cloud Time → Loader Cloud Time → Loader Cloud Time
  unfolding fire tick_publish publish_first
  callback p w = if p.publish_once then fire (publish_first w) else fire (tick_publish w)

  -- The executor, as the sequence of the worlds in which the timer fires.
  unfoldable pub run :
      LoaderParameters D → List (World Cloud Time) → Loader Cloud Time → Loader Cloud Time
  run p [] s = s
  run p (w ∷ ws) s = run p ws (callback p w s)
