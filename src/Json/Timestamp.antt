-- ===== src/Json/Timestamp.antt =====
-- `format_iso8601_utc` of src/vehicle_detection/src/detection_json.cpp, with `gmtime_r` and the
-- conversions of `strftime` that it uses. The days are counted from 1 March of the year 0, which is
-- day -719468 of the epoch, so that every `int32_t` of seconds is a natural number.
use vehicle_detection_system.Common.{
  ℕ, ◌+◌, ◌-◌, ◌*◌, ◌/◌, ◌%◌, [], ◌∷◌, ◌++◌, Bytes, decimal, ltb, if◌then◌else◌,
}
use vehicle_detection_system.Common.Int.{ℤ, pos_part, neg_part}

-- The members of `struct tm` that are printed.
pub record Calendar : Type 0 where
  pub year : ℕ
  pub month : ℕ
  pub day : ℕ
  pub hour : ℕ
  pub minute : ℕ
  pub second : ℕ

abbrev pub epoch_seconds : ℕ
epoch_seconds = 719468 * 86400

unfoldable pub since_march_0 : ℤ → ℕ
since_march_0 sec = epoch_seconds + pos_part sec - neg_part sec

-- The year of an era of 400 years, by the day of the era.
unfoldable pub year_of_era : ℕ → ℕ
year_of_era doe = (doe - doe / 1460 + doe / 36524 - doe / 146096) / 365

abbrev pub days_before_year : ℕ → ℕ
days_before_year y = 365 * y + y / 4 - y / 100

unfoldable pub month_from_march : ℕ → ℕ
month_from_march day_of_year = (5 * day_of_year + 2) / 153

unfoldable pub gmtime : ℤ → Calendar
unfolding since_march_0 year_of_era month_from_march
gmtime sec =
    let seconds = since_march_0 sec in
    let days = seconds / 86400 in
    let rest = seconds % 86400 in
    let doe = days % 146097 in
    let yoe = year_of_era doe in
    let doy = doe - days_before_year yoe in
    let m = month_from_march doy in
    record {
      year = (if ltb m 10 then yoe + days / 146097 * 400 else yoe + days / 146097 * 400 + 1);
      month = (if ltb m 10 then m + 3 else m - 9);
      day = doy - (153 * m + 2) / 5 + 1;
      hour = rest / 3600;
      minute = rest % 3600 / 60;
      second = rest % 60;
    }

-- "%m", "%d", "%H", "%M", "%S", and "%Y" of a year of four digits.
abbrev pub two : ℕ → Bytes
two n = (48 + n / 10) ∷ (48 + n % 10) ∷ []

abbrev pub four : ℕ → Bytes
four n = (48 + n / 1000) ∷ (48 + n / 100 % 10) ∷ (48 + n / 10 % 10) ∷ (48 + n % 10) ∷ []

-- "%03u"
unfoldable pub padded_three : ℕ → Bytes
unfolding decimal
padded_three n =
    if ltb n 1000 then (48 + n / 100) ∷ (48 + n / 10 % 10) ∷ (48 + n % 10) ∷ [] else decimal n

-- "%Y-%m-%dT%H:%M:%S"
unfoldable pub strftime_iso : Calendar → Bytes
strftime_iso t =
    four t.year
    ++ (b'-' ∷ two t.month
        ++ (b'-' ∷ two t.day
            ++ (b'T' ∷ two t.hour ++ (b':' ∷ two t.minute ++ (b':' ∷ two t.second)))))

unfoldable pub format_iso8601_utc : ℤ → ℕ → Bytes
unfolding gmtime strftime_iso padded_three
format_iso8601_utc sec nanosec =
    let millis = nanosec / 1000000 in
    strftime_iso (gmtime sec) ++ (b'.' ∷ padded_three millis ++ b'Z' ∷ [])
