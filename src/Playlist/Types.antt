-- ===== src/Playlist/Types.antt =====
-- The types of src/vehicle_detection/include/vehicle_detection/pcd_playlist.hpp, and what the code asks
-- of the file system.
use vehicle_detection_system.Common.{◌≡◌, Bool, Option, some, List, [], Bytes, codes}

pub data PcdPlaylistSource : Type 0 where
  pcd_files pcd_directory pcd_file : PcdPlaylistSource

unfoldable pub to_string : PcdPlaylistSource → Bytes
to_string pcd_files = codes "pcd_files"
to_string pcd_directory = codes "pcd_directory"
to_string pcd_file = codes "pcd_file"

pub record PcdPlaylistInputs : Type 0 where
  pub pcd_file : Bytes
  pub pcd_files : List Bytes
  pub pcd_directory : Bytes
  pub pcd_glob : Bytes

pub record PcdPlaylistResolution : Type 0 where
  pub ok : Bool
  pub reason : Bytes
  pub entries : List Bytes
  pub source : PcdPlaylistSource

-- One `directory_entry`.
pub record DirEntry : Type 0 where
  pub path : Bytes
  pub filename : Bytes
  pub is_regular_file : Bool

-- The state of the file system, as `exists`, `is_directory` and `directory_iterator` report it. Where
-- these take an `error_code`, its message comes beside the result, and `none` is no error.
pub record FileSystem : Type 0 where
  pub exists : Bytes → Bool × Option Bytes
  pub is_directory : Bytes → Bool
  pub directory_iterator : Bytes → Option Bytes × List DirEntry

-- The standard's words: on an error the constructor makes the end iterator.
pub record IsStandard (fs : FileSystem) : Type 0 where
  pub end_on_error :
      (dir : Bytes) {message : Bytes}
      → (fs.directory_iterator dir).0 ≡ some message
      → (fs.directory_iterator dir).1 ≡ []
