-- ===== src/Samples/LoaderRuns.antt =====
-- The theorems on the loader at two entries and a few ticks.
use mathlib.Core.Option.{some-injective}
use vehicle_detection_system.Common.{
  ℕ, zero, suc, ap, sym, ◌≡◌, refl, true, false, none, some, List, [], ◌∷◌, Bytes, codes, arith,
  ◌≟◌, if◌then◌else◌, Bool,
}
use vehicle_detection_system.Common.Results.{ok}
use vehicle_detection_system.Common.Int.{pos}
use vehicle_detection_system.Validation.{
  first_failure, validate_non_empty_string, validate_positive_double,
}
use vehicle_detection_system.Playlist.Resolve.{resolve_pcd_playlist}
use vehicle_detection_system.Playlist.Types.{FileSystem}
use vehicle_detection_system.Loader.{
  PointCloud, World, Loader, LoaderParameters, construct, run, resolve_pcd_path,
}
use vehicle_detection_system.Loader.Invariant.{IsWellFormed}
use vehicle_detection_system.Loader.Construct.{run-IsWellFormed}
use vehicle_detection_system.Loader.Playback.{Loads, IsPlaying}
use vehicle_detection_system.Samples.Numbers.{Number, num, number_double}

-- A cloud is named by a number, and so is an instant.
abbrev world : ℕ → World ℕ ℕ
world time = record {
  now = time;
  is_absolute = λ p. true;
  absolute = λ p. none;
  load_pcd_file =
      λ p. some (record { frame_id = []; stamp = 0; body = (if p ≟ codes "/a" then 0 else 1) });
}

abbrev entries : List Bytes
entries = codes "/a" ∷ codes "/b" ∷ []

abbrev bodies : ℕ → ℕ
bodies zero = 0
bodies (suc i) = 1

abbrev parameters_of : Bool → LoaderParameters Number
parameters_of loop = record {
  pcd_file = [];
  pcd_files = entries;
  pcd_directory = [];
  pcd_glob = codes "*";
  loop = loop;
  input_frame_id = codes "lidar";
  input_points_topic = codes "/points";
  publish_once = false;
  publish_rate_hz = num (pos 2);
}

abbrev files : FileSystem
files = record {
  exists = λ p. (true, none);
  is_directory = λ p. false;
  directory_iterator = λ p. (none, []);
}

abbrev started : Bool → Loader ℕ ℕ
started loop = record {
  playlist = entries;
  loop = loop;
  input_frame_id = codes "lidar";
  current_index = 0;
  cached_index = some 0;
  cached_msg = some (record { frame_id = codes "lidar"; stamp = 0; body = 0 });
  cancelled = false;
  published = [];
}

constructs : construct files (world 0) (parameters_of true) ≡ ok (started true)
unfolding construct first_failure validate_non_empty_string validate_positive_double
    resolve_pcd_playlist
constructs = refl

run-IsWellFormed_example :
    IsWellFormed (run (parameters_of true) (world 1 ∷ world 2 ∷ world 3 ∷ []) (started true))
run-IsWellFormed_example =
    run-IsWellFormed files (world 0) (parameters_of true) constructs
      (world 1 ∷ world 2 ∷ world 3 ∷ [])

abbrev cloud_of : Bytes → PointCloud ℕ ℕ
cloud_of p = record { frame_id = []; stamp = 0; body = (if p ≟ codes "/a" then 0 else 1) }

loads : (time : ℕ) → Loads entries bodies (world time)
unfolding resolve_pcd_path
loads time zero path e =
    (cloud_of path, refl, ap (λ p. (cloud_of p).body) (sym (some-injective _ _ e)))
loads time (suc zero) path e =
    (cloud_of path, refl, ap (λ p. (cloud_of p).body) (sym (some-injective _ _ e)))
loads time (suc (suc i)) path e = absurd (ground arith)

playing : (loop : Bool) → IsPlaying entries bodies (started loop)
playing loop = record { same_playlist = refl; holds = (refl, refl) }
