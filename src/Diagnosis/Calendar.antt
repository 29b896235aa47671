-- ===== src/Diagnosis/Calendar.antt =====
-- Python's calendar, as services/src/services/diagnosis and planner use it: the civil date of a day, a day
-- being counted from 0001-01-01, and the festivals of constants.py.
use recovery_pilot_ai.Base.{
  ℕ, List, map, ◌*◌, if◌then◌else◌, Bool, ◌+◌, ◌/◌, ◌∷◌, leb, ◌%◌, ltb, ◌-◌, ◌&&◌, [],
}
use recovery_pilot_ai.Policy.Models.{Zone}

pub record Date : Type 0 where
  pub year : ℕ
  pub month : ℕ
  pub day : ℕ

-- Days from the first of March of year 0 to 0001-01-01.
abbrev epoch_shift : ℕ
epoch_shift = 306

abbrev pub day_length : ℕ
day_length = 86400000000

-- The date of a day in an era of 400 years that begin in March.
abbrev in_year : ℕ → ℕ → ℕ → Date
in_year era year_of_era day_of_year =
    let m = (5 * day_of_year + 2) / 153 in
    record {
      year = year_of_era + era * 400 + (if leb 10 m then 1 else 0);
      month = if ltb m 10 then m + 3 else m - 9;
      day = day_of_year - (153 * m + 2) / 5 + 1;
    }

-- `date.fromordinal(days + 1)`
unfoldable pub civil : ℕ → Date
civil days =
    let z = days + epoch_shift in
    let era = z / 146097 in
    let d = z % 146097 in
    let y = (d + d / 36524 - d / 1460 - d / 146096) / 365 in
    in_year era y (d + y / 100 - (365 * y + y / 4))

-- `date.toordinal() - 1`
unfoldable pub days_of : Date → ℕ
days_of date =
    let y = if leb date.month 2 then date.year - 1 else date.year in
    let m = if leb date.month 2 then date.month + 9 else date.month - 3 in
    let d = (153 * m + 2) / 5 + date.day - 1 in
    y / 400 * 146097 + (y % 400 * 365 + y % 400 / 4 - y % 400 / 100 + d) - epoch_shift

-- `date.weekday`: Monday is 0, and so is 0001-01-01.
unfoldable pub weekday : ℕ → ℕ
weekday days = days % 7

-- `_local(moment, tz).date()`
unfoldable pub local_day : Zone → ℕ → ℕ
local_day zone moment = zone.local moment / day_length

-- The dates of `INDIAN_FESTIVALS_2026`, as days.
unfoldable pub festivals : List ℕ
unfolding days_of
festivals = map days_of (
    record { year = 2026; month = 6; day = 17 }
    ∷ record { year = 2026; month = 6; day = 26 }
    ∷ record { year = 2026; month = 6; day = 27 }
    ∷ record { year = 2026; month = 7; day = 29 }
    ∷ record { year = 2026; month = 8; day = 15 }
    ∷ record { year = 2026; month = 8; day = 26 }
    ∷ record { year = 2026; month = 8; day = 28 }
    ∷ record { year = 2026; month = 9; day = 4 }
    ∷ [])

-- `PAYDAY_DAYS`, by the day of the month, and `PRE_PAYDAY_DAYS`.
abbrev pub is_payday : ℕ → Bool
is_payday day = leb 1 day && leb day 5

abbrev pub is_pre_payday : ℕ → Bool
is_pre_payday day = leb 25 day && leb day 31
