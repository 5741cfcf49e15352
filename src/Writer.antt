-- ===== src/Writer.antt =====
-- src/vehicle_detection/src/detection_result_writer.cpp and its header: payloads appended to a file,
-- one line each. The mutex makes each operation one step.
use vehicle_detection_system.Common.{
  ℕ, Bool, true, false, not, ◌||◌, Option, none, some, List, [], ◌∷◌, ◌++◌, Bytes, codes, is_empty,
  take, ◌≟◌, if◌then◌else◌,
}
use vehicle_detection_system.Common.Double.{Double}
use vehicle_detection_system.Json.Payload.{DetectionJsonPayload}
use vehicle_detection_system.Json.Serialize.{serialize_detections}
pub mod Laws
pub mod Lines

pub data DetectionResultFormat : Type 0 where
  json_lines : DetectionResultFormat

pub record DetectionResultWriterConfig : Type 0 where
  pub enabled : Bool
  pub path : Bytes
  pub format : DetectionResultFormat

pub record DetectionResultWriterResult : Type 0 where
  pub ok : Bool
  pub reason : Bytes

abbrev pub success : DetectionResultWriterResult
success = record { ok = true; reason = [] }

abbrev pub failure : Bytes → DetectionResultWriterResult
failure reason = record { ok = false; reason = reason }

-- The result, and `*out`, which keeps its value on a failure.
unfoldable pub parse_detection_result_format :
    Bytes → DetectionResultFormat → DetectionResultWriterResult × DetectionResultFormat
parse_detection_result_format name out = if name ≟ codes "jsonl" then (success, json_lines) else (
  failure (codes "result_output_format must be 'jsonl' (got '" ++ (name ++ codes "')")),
  out,
)

-- `out` is the path of the file that the stream has open.
pub record Writer : Type 0 where
  pub enabled : Bool
  pub format : DetectionResultFormat
  pub path : Bytes
  pub out : Option Bytes
  pub last_error : Bytes

abbrev pub new_writer : Writer
new_writer = record { enabled = false; format = json_lines; path = []; out = none; last_error = [] }

-- What the files hold; a file that is not there holds nothing.
abbrev pub Files : Type 0
Files = Bytes → Bytes

abbrev pub extend : Bytes → Bytes → Files → Files
extend path text files other = if path ≟ other then files other ++ text else files other

-- The answer of `open` is an argument. Opening for append leaves the contents alone.
unfoldable pub configure : Bool → DetectionResultWriterConfig → DetectionResultWriterResult × Writer
configure opens config =
    let no_path = codes "result_output_path must not be empty when save_results=true" in
    let no_file = codes "failed to open result_output_path for append: " ++ config.path in
    if not config.enabled
    then (success, new_writer)
    else if is_empty config.path
    then (failure no_path, record new_writer { last_error = no_path })
    else if not opens
    then (failure no_file, record new_writer { last_error = no_file })
    else (
      success,
      record {
        enabled = true;
        format = config.format;
        path = config.path;
        out = some config.path;
        last_error = [];
      },
    )

-- What becomes of a line that is written and flushed: all of it reaches the file, or the stream goes
-- bad at one of the two and no more than the first bytes of it do.
pub data Delivery : Type 0 where
  delivered : Delivery
  write_failed flush_failed : ℕ → Delivery

-- The branches where `!out_` holds: the stream is closed and the writer disabled.
abbrev pub give_up : Bytes → Writer → Writer
give_up message w = record w { last_error = message ++ w.path; out = none; enabled = false }

unfoldable pub write_line : Delivery → Bytes → Bytes → Writer → Files → Bool × Writer × Files
write_line delivered file line w files = (true, w, extend file line files)
write_line (write_failed n) file line w files = (
  false,
  give_up (codes "write to result_output_path failed: ") w,
  extend file (take n line) files,
)
write_line (flush_failed n) file line w files = (
  false,
  give_up (codes "flush to result_output_path failed: ") w,
  extend file (take n line) files,
)

module _ {D : Type 0} ⦃d : Double D⦄ where
  abbrev pub line_of : DetectionJsonPayload D → Bytes
  line_of payload = serialize_detections payload ++ (10 ∷ [])

  unfoldable pub append : Delivery → DetectionJsonPayload D → Writer → Files → Bool × Writer × Files
  unfolding write_line
  append fate payload w files = elim w.out [
    | none ↦ (false, w, files)
    | some file ↦
        if not w.enabled then (false, w, files) else write_line fate file (line_of payload) w files
  ]

unfoldable pub is_open : Writer → Bool
is_open w = elim w.out [ none ↦ false | some file ↦ w.enabled ]
