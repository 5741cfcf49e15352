-- ===== src/Samples/JsonRuns.antt =====
-- The theorems on the JSON text and on the file of results at concrete payloads.
use vehicle_detection_system.Common.{◌≡◌, refl, true, some, [], ◌∷◌, ◌++◌, codes, arith}
use vehicle_detection_system.Common.Int.{pos, negsuc}
use vehicle_detection_system.Json.Payload.{DetectionJsonItem, DetectionJsonPayload}
use vehicle_detection_system.Json.Escape.{escape_json_string, quote}
use vehicle_detection_system.Json.EscapeLaws.{plain, read_string, read_string-escape_json_string}
use vehicle_detection_system.Json.Timestamp.{format_iso8601_utc, since_march_0}
use vehicle_detection_system.Json.TimestampText.{
  form, read_timestamp, read_timestamp-format_iso8601_utc,
}
use vehicle_detection_system.Json.Serialize.{serialize_detections}
use vehicle_detection_system.Json.Tree.{read_value}
use vehicle_detection_system.Json.PayloadText.{payload_tree, IsPrintable}
use vehicle_detection_system.Json.PayloadTree.{read_value-serialize_detections}
use vehicle_detection_system.Writer.{
  json_lines, DetectionResultWriterConfig, Writer, Files, is_open, write_failed,
}
use vehicle_detection_system.Writer.Laws.{Appends, append_lem}
use vehicle_detection_system.Writer.Lines.{split_lines, lines}
use vehicle_detection_system.Common.{decimal}
use vehicle_detection_system.Common.Int.{show_ℤ}
use vehicle_detection_system.Samples.Numbers.{
  Number, num, nan, number_double, number-PrintsFixed, number_fixed6,
}

read_string-escape_json_string_example :
    read_string plain (escape_json_string (codes "a\"b" ++ 10 ∷ 200 ∷ []) ++ quote ∷ codes ",")
    ≡ some (codes "a\"b" ++ 10 ∷ 200 ∷ [], codes ",")
read_string-escape_json_string_example =
    read_string-escape_json_string (codes "a\"b" ++ 10 ∷ 200 ∷ []) (codes ",")

read_timestamp-format_iso8601_utc_example :
    (form (format_iso8601_utc (pos 1700000000) 123456789) ≡ codes "0000-00-00T00:00:00.000Z")
    × (read_timestamp (format_iso8601_utc (pos 1700000000) 123456789)
        ≡ (since_march_0 (pos 1700000000), 123))
read_timestamp-format_iso8601_utc_example =
    read_timestamp-format_iso8601_utc (pos 1700000000) 123456789 (omega arith) (omega arith)

abbrev item : DetectionJsonItem Number
item = record {
  id = codes "vehicle_0";
  class_label = codes "c" ++ 10 ∷ [];
  confidence = num (pos 1);
  center_x = num (negsuc 3);
  center_y = nan;
  center_z = num (pos 0);
  length = num (pos 4);
  width = num (pos 2);
  height = num (pos 1);
  yaw = num (pos 0);
}

abbrev payload : DetectionJsonPayload Number
payload = record {
  stamp_sec = pos 12;
  stamp_nanosec = 5000000;
  frame_id = codes "lidar";
  detections = item ∷ item ∷ [];
}

short : IsPrintable payload
unfolding number_fixed6 show_ℤ decimal
short = omega arith

read_value-serialize_detections_example :
    read_value 80 (serialize_detections payload) ≡ some (payload_tree payload, [])
read_value-serialize_detections_example =
    read_value-serialize_detections number-PrintsFixed payload 80 (omega arith) (omega arith) short
      (omega arith)

abbrev config : DetectionResultWriterConfig
config = record { enabled = true; path = codes "/r"; format = json_lines }

abbrev ready : Writer
ready = record {
  enabled = true;
  format = json_lines;
  path = codes "/r";
  out = some (codes "/r");
  last_error = [];
}

-- Files that each hold one line.
abbrev old : Files
old path = codes "{}" ++ 10 ∷ []

append_lem_example : Appends (write_failed 3) payload ready old
append_lem_example = append_lem (write_failed 3) payload ready old (refl, refl, refl)

ready_open : is_open ready ≡ true
unfolding is_open
ready_open = refl

lines-old : lines (old (codes "/r")) ≡ (codes "{}" ∷ [], [])
unfolding split_lines
lines-old = refl
