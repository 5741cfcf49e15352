-- ===== src/Json/TimestampText.antt =====
-- What a reader of a printed timestamp gets back.
use vehicle_detection_system.Common.{
  ◌⊎◌, inl, inr, ℕ, ◌+◌, ◌-◌, ◌/◌, ◌%◌, ◌^◌, ◌≤◌, ◌<◌, ◌≡◌, leb, if◌then◌else◌, arith, Bytes, ◌∷◌,
  [], ◌++◌, take, drop, codes, refl,
}
use vehicle_detection_system.Common.Decimal.{eval}
use vehicle_detection_system.Common.Int.{ℤ, pos_part}
use vehicle_detection_system.Json.Timestamp.{
  Calendar, since_march_0, year_of_era, days_before_year, gmtime, strftime_iso, padded_three,
  format_iso8601_utc, two, four,
}
use vehicle_detection_system.Json.TimestampLaws.{
  seconds_of, seconds_of-gmtime, year_of_era_lem, month_lem,
}

-- The number that is written in `count` digits at `start`.
abbrev pub field : ℕ → ℕ → Bytes → ℕ
field start count text = eval 0 (take count (drop start text))

-- The seconds and the milliseconds that a text of the form YYYY-MM-DDTHH:MM:SS.mmmZ names.
unfoldable pub read_timestamp : Bytes → ℕ × ℕ
unfolding seconds_of
read_timestamp text = (
  seconds_of record {
    year = field 0 4 text;
    month = field 5 2 text;
    day = field 8 2 text;
    hour = field 11 2 text;
    minute = field 14 2 text;
    second = field 17 2 text;
  },
  field 20 3 text,
)

-- The text with a 0 in place of each digit.
unfoldable pub form : Bytes → Bytes
form [] = []
form (c ∷ text) = (if leb 48 c then (if leb c 57 then b'0' else c) else c) ∷ form text

pub IsPrintable : Calendar → Type 0
IsPrintable t =
    (t.year < 10000)
    × (t.month < 100)
    × (t.day < 100)
    × (t.hour < 100)
    × (t.minute < 100)
    × (t.second < 100)

era_lem : (sec : ℤ) → pos_part sec < 2 ^ 31 → since_march_0 sec / 86400 / 146097 < 10
unfolding since_march_0
era_lem sec small = omega arith

gmtime-IsPrintable : (sec : ℤ) → pos_part sec < 2 ^ 31 → IsPrintable (gmtime sec)
unfolding gmtime IsPrintable
gmtime-IsPrintable sec small =
    let days = since_march_0 sec / 86400 in
    let doe = days % 146097 in
    let (below, first, last) = year_of_era_lem doe (omega arith) in
    let doy = doe - days_before_year (year_of_era doe) in
    let (short, early, late) = month_lem doy (omega arith) in
    let few = era_lem sec small in
    (ground arith, ground arith, ground arith, omega arith, omega arith, omega arith)

two_lem : (n : ℕ) → n < 100 → eval 0 (two n) ≡ n
unfolding eval
two_lem n h = omega arith

four_lem : (n : ℕ) → n < 10000 → eval 0 (four n) ≡ n
unfolding eval
four_lem n h = omega arith

same_time :
    (t u : Calendar)
    → t.year ≡ u.year
    → t.month ≡ u.month
    → t.day ≡ u.day
    → t.hour ≡ u.hour
    → t.minute ≡ u.minute
    → t.second ≡ u.second
    → seconds_of t ≡ seconds_of u
unfolding seconds_of
same_time t u e1 e2 e3 e4 e5 e6 = rw (e1, e2, e3, e4, e5, e6) refl

milliseconds_lem :
    (t : Calendar) (ms : ℕ)
    → ms < 1000
    → field 20 3 (strftime_iso t ++ (b'.' ∷ padded_three ms ++ b'Z' ∷ [])) ≡ ms
unfolding eval padded_three strftime_iso
milliseconds_lem t ms small = ground arith

read_lem :
    (t : Calendar) (ms : ℕ)
    → IsPrintable t
    → ms < 1000
    → read_timestamp (strftime_iso t ++ (b'.' ∷ padded_three ms ++ b'Z' ∷ [])) ≡ (seconds_of t, ms)
unfolding read_timestamp strftime_iso IsPrintable
read_lem t ms (year, month, day, hour, minute, second) small =
    rw
      (
        milliseconds_lem t ms small,
        same_time _ t (four_lem t.year year) (two_lem t.month month) (two_lem t.day day)
            (two_lem t.hour hour) (two_lem t.minute minute) (two_lem t.second second),
      )
      refl

form-digit : (c : ℕ) (s r : Bytes) → 48 ≤ c → c ≤ 57 → form s ≡ r → form (c ∷ s) ≡ b'0' ∷ r
unfolding form
form-digit c s r low high e = rw e (ground arith)

form-other : (c : ℕ) (s r : Bytes) → (c < 48) ⊎ (57 < c) → form s ≡ r → form (c ∷ s) ≡ c ∷ r
unfolding form
form-other c s r other e = rw e (ground arith)

form-two : (n : ℕ) (s r : Bytes) → n < 100 → form s ≡ r → form (two n ++ s) ≡ codes "00" ++ r
form-two n s r h e =
    form-digit (48 + n / 10) _ _ (omega arith) (omega arith)
      (form-digit (48 + n % 10) s r (omega arith) (omega arith) e)

form-four : (n : ℕ) (s r : Bytes) → n < 10000 → form s ≡ r → form (four n ++ s) ≡ codes "0000" ++ r
form-four n s r h e = form-digit (48 + n / 1000) _ _ (omega arith) (omega arith) (
    form-digit (48 + n / 100 % 10) _ _ (omega arith) (omega arith) (
      form-digit (48 + n / 10 % 10) _ _ (omega arith) (omega arith)
        (form-digit (48 + n % 10) s r (omega arith) (omega arith) e)))

form-three : (n : ℕ) → n < 1000 → form (padded_three n ++ (b'Z' ∷ [])) ≡ codes "000Z"
unfolding padded_three form
form-three n h = ground arith

form_lem :
    (t : Calendar) (ms : ℕ)
    → IsPrintable t
    → ms < 1000
    → form (strftime_iso t ++ (b'.' ∷ padded_three ms ++ b'Z' ∷ []))
      ≡ codes "0000-00-00T00:00:00.000Z"
unfolding strftime_iso IsPrintable
form_lem t ms (year, month, day, hour, minute, second) small = form-four t.year _ _ year (
    form-other b'-' _ _ (inl (omega arith)) (
      form-two t.month _ _ month (
        form-other b'-' _ _ (inl (omega arith)) (
          form-two t.day _ _ day (
            form-other b'T' _ _ (inr (omega arith)) (
              form-two t.hour _ _ hour (
                form-other b':' _ _ (inr (omega arith)) (
                  form-two t.minute _ _ minute (
                    form-other b':' _ _ (inr (omega arith)) (
                      form-two t.second _ _ second
                        (form-other b'.' _ _ (inl (omega arith)) (form-three ms small))))))))))))

-- The timestamp of an instant in the range of `builtin_interfaces/Time` (32-bit seconds, less than
-- 10^9 nanoseconds) has the form YYYY-MM-DDTHH:MM:SS.mmmZ, and read back it is that instant, to the
-- millisecond.
pub read_timestamp-format_iso8601_utc :
    (sec : ℤ) (nanosec : ℕ)
    → pos_part sec < 2 ^ 31
    → nanosec < 1000000000
    → (form (format_iso8601_utc sec nanosec) ≡ codes "0000-00-00T00:00:00.000Z")
      × (read_timestamp (format_iso8601_utc sec nanosec) ≡ (since_march_0 sec, nanosec / 1000000))
unfolding format_iso8601_utc
read_timestamp-format_iso8601_utc sec nanosec small short =
    let printable = gmtime-IsPrintable sec small in
    (
      form_lem (gmtime sec) (nanosec / 1000000) printable (omega arith),
      rw (read_lem (gmtime sec) (nanosec / 1000000) printable (omega arith))
          (rw (seconds_of-gmtime sec) refl),
    )
