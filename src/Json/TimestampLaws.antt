-- ===== src/Json/TimestampLaws.antt =====
-- The timestamp names the instant that it was made from.
use vehicle_detection_system.Common.{
  ◌∙◌, ℕ, ◌+◌, ◌-◌, ◌*◌, ◌/◌, ◌%◌, ◌≤◌, ◌<◌, ◌≡◌, ltb, leb, if◌then◌else◌, arith,
}
use vehicle_detection_system.Common.Int.{ℤ}
use vehicle_detection_system.Json.Timestamp.{
  Calendar, since_march_0, year_of_era, days_before_year, month_from_march, gmtime,
}

pub year_of_era_lem :
    (doe : ℕ)
    → doe < 146097
    → let y = year_of_era doe in
      (y < 400) × (days_before_year y ≤ doe) × (doe < days_before_year y + 366)
unfolding year_of_era
year_of_era_lem doe h = omega arith

pub month_lem :
    (doy : ℕ)
    → doy < 366
    → let m = month_from_march doy in
      (m < 12) × ((153 * m + 2) / 5 ≤ doy) × (doy < (153 * m + 2) / 5 + 31)
unfolding month_from_march
month_lem doy h = omega arith

-- The days from 1 March of the year 0 to a date of the proleptic Gregorian calendar.
unfoldable pub days_from_civil : ℕ → ℕ → ℕ → ℕ
days_from_civil year month day =
    let y = (if leb month 2 then year - 1 else year) in
    let m = (if leb month 2 then month + 9 else month - 3) in
    365 * y + y / 4 - y / 100 + y / 400 + (153 * m + 2) / 5 + (day - 1)

-- The instant of a calendar time, in seconds.
unfoldable pub seconds_of : Calendar → ℕ
unfolding days_from_civil
seconds_of t =
    days_from_civil t.year t.month t.day * 86400 + t.hour * 3600 + t.minute * 60 + t.second

date_lem :
    (era yoe doy m : ℕ)
    → yoe < 400
    → m < 12
    → (153 * m + 2) / 5 ≤ doy
    → days_from_civil
        (if ltb m 10 then yoe + era * 400 else yoe + era * 400 + 1)
        (if ltb m 10 then m + 3 else m - 9)
        (doy - (153 * m + 2) / 5 + 1)
      ≡ era * 146097 + days_before_year yoe + doy
unfolding days_from_civil
date_lem era yoe doy m small short late = ground arith

days_lem :
    (days : ℕ)
    → let doe = days % 146097 in
      let yoe = year_of_era doe in
      let doy = doe - days_before_year yoe in
      let m = month_from_march doy in
      days_from_civil
        (if ltb m 10 then yoe + days / 146097 * 400 else yoe + days / 146097 * 400 + 1)
        (if ltb m 10 then m + 3 else m - 9)
        (doy - (153 * m + 2) / 5 + 1)
      ≡ days
days_lem days =
    let doe = days % 146097 in
    let (small, below, above) = year_of_era_lem doe (omega arith) in
    let doy = doe - days_before_year (year_of_era doe) in
    let (short, late, _) = month_lem doy (omega arith) in
    date_lem (days / 146097) (year_of_era doe) doy (month_from_march doy) small short late
    ∙ omega arith

pub seconds_of-gmtime : (sec : ℤ) → seconds_of (gmtime sec) ≡ since_march_0 sec
unfolding seconds_of gmtime
seconds_of-gmtime sec = rw (days_lem (since_march_0 sec / 86400)) (omega arith)
