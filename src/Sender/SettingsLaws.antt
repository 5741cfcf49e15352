-- ===== src/Sender/SettingsLaws.antt =====
-- Which snapshots the node accepts.
use vehicle_detection_system.Common.{◌≡◌, ◌↔◌, ◌≟◌, true, none, codes, if◌then◌else◌, arith}
use vehicle_detection_system.Common.Int.{pos, ◌≤ℤ◌}
use vehicle_detection_system.Validation.{validate_int_min, first_failure}
use vehicle_detection_system.Writer.{parse_detection_result_format}
use vehicle_detection_system.Sender.Settings.{
  Snapshot, rejection, is_known_send_mode, send_mode_uses_http,
}

-- What an accepted snapshot is like.
abbrev pub IsAcceptable : Snapshot → Type 0
IsAcceptable s =
    (is_known_send_mode s.send_mode ≡ true)
    × (pos 1 ≤ℤ s.http_timeout_ms)
    × (pos 0 ≤ℤ s.http_retry_count)
    × (if send_mode_uses_http s.send_mode then s.http_url_valid ≡ true else Unit)
    × ((s.result_output_format ≟ codes "jsonl") ≡ true)

-- A snapshot passes the checks exactly if its mode is one of the four, the timeout is at least 1, the
-- retry count is not negative, the URL is valid where the mode posts, and the format is "jsonl".
pub rejection_iff : (s : Snapshot) → (rejection s ≡ none) ↔ IsAcceptable s
unfolding rejection first_failure validate_int_min parse_detection_result_format
rejection_iff s = (λ h. ground arith, λ h. ground arith)
