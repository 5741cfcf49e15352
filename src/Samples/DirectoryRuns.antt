-- ===== src/Samples/DirectoryRuns.antt =====
-- The loader at a directory of two clouds.
use mathlib.Core.List.{Perm}
use vehicle_detection_system.Common.{
  ℕ, ◌<◌, ◌≡◌, refl, true, false, none, some, List, [], ◌∷◌, Bytes, codes, arith, length, ◌≟◌,
  if◌then◌else◌,
}
use vehicle_detection_system.Common.Order.{IsSorted, sort}
use vehicle_detection_system.Common.Results.{ok}
use vehicle_detection_system.Common.Int.{pos}
use vehicle_detection_system.Validation.{
  first_failure, validate_non_empty_string, validate_positive_double,
}
use vehicle_detection_system.Playlist.Directory.{Selected, NamesDirectory}
use vehicle_detection_system.Playlist.Resolve.{resolve_pcd_playlist}
use vehicle_detection_system.Playlist.Wildcard.Loop.{wildcard_match}
use vehicle_detection_system.Loader.{
  PointCloud, World, Loader, LoaderParameters, construct, run, resolve_pcd_path,
}
use vehicle_detection_system.Loader.Playback.{rounds}
use vehicle_detection_system.Loader.Directory.{inputs_of, LoadsAs, cloud_at, plays_directory}
use vehicle_detection_system.Samples.Numbers.{Number, num, number_double}
use vehicle_detection_system.Samples.PlaylistRuns.{disk}

abbrev entries : List Bytes
entries = codes "d/a.pcd" ∷ codes "d/b.pcd" ∷ []

-- A cloud is named by a number, and so is an instant.
abbrev content : Bytes → ℕ
content path = if path ≟ codes "d/a.pcd" then 7 else 8

abbrev cloud_of : Bytes → PointCloud ℕ ℕ
cloud_of path = record { frame_id = []; stamp = 0; body = content path }

abbrev world : ℕ → World ℕ ℕ
world time = record {
  now = time;
  is_absolute = λ p. true;
  absolute = λ p. none;
  load_pcd_file = λ p. some (cloud_of p);
}

abbrev parameters : LoaderParameters Number
parameters = record {
  pcd_file = [];
  pcd_files = [];
  pcd_directory = codes "d";
  pcd_glob = codes "*.pcd";
  loop = true;
  input_frame_id = codes "lidar";
  input_points_topic = codes "/points";
  publish_once = false;
  publish_rate_hz = num (pos 2);
}

abbrev started : Loader ℕ ℕ
started = record {
  playlist = entries;
  loop = true;
  input_frame_id = codes "lidar";
  current_index = 0;
  cached_index = some 0;
  cached_msg = some (record { frame_id = codes "lidar"; stamp = 0; body = 7 });
  cancelled = false;
  published = [];
}

constructs : construct disk (world 0) parameters ≡ ok started
unfolding construct first_failure validate_non_empty_string validate_positive_double
    resolve_pcd_playlist wildcard_match sort
constructs = refl

names : NamesDirectory disk (inputs_of parameters)
names = record {
  no_files = refl;
  named = refl;
  glob = refl;
  present = refl;
  no_error = refl;
  directory = refl;
}

loads : (time : ℕ) → LoadsAs content entries (world time)
unfolding resolve_pcd_path
loads time i path e = (cloud_of path, refl, refl)

plays_directory_example :
    (paths : List Bytes) × Selected (codes "*.pcd") (disk.directory_iterator (codes "d")).1 paths
    × IsSorted entries
    × Perm entries paths
    × (0 < length entries)
    × ((run parameters (world 1 ∷ world 2 ∷ world 3 ∷ []) started).published
        ≡ rounds entries
            (cloud_at content entries)
            (codes "lidar")
            0
            (world 1 ∷ world 2 ∷ world 3 ∷ []))
plays_directory_example =
    plays_directory disk (world 0) parameters content (world 1 ∷ world 2 ∷ world 3 ∷ []) names refl
      (ground arith) refl refl constructs (loads 0, (loads 1, (loads 2, (loads 3, tt))))
