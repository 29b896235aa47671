-- ===== src/Planner/Timing.antt =====
-- services/src/services/planner/timing.py: business days, contact windows and paydays. All of it happens on
-- the wall clock of one zone, in microseconds, as Python compares datetimes of one zone.
use recovery_pilot_ai.Policy.Models.{contact_window_start_hour, contact_window_end_hour}
use recovery_pilot_ai.Diagnosis.Calendar.{civil, weekday, festivals, days_of, day_length, is_payday}
use recovery_pilot_ai.Base.{
  ℕ, ◌*◌, ◌/◌, Bool, suc, Option, ◌%◌, true, ◌+◌, if◌then◌else◌, not, any, leb, some, false, ◌&&◌,
  ltb, none, ◌==◌, zero,
}

abbrev pub minute_length : ℕ
minute_length = 60000000

abbrev pub hour_length : ℕ
hour_length = 3600000000

-- The day of a wall clock reading, and the time of that day.
abbrev pub date_of : ℕ → ℕ
date_of wall = wall / day_length

abbrev pub time_of : ℕ → ℕ
time_of wall = wall % day_length

unfoldable pub is_weekend : ℕ → Bool
unfolding weekday
is_weekend day = leb 5 (weekday day)

unfoldable pub is_festival : ℕ → Bool
unfolding festivals
is_festival day = any (λ f. f == day) festivals

unfoldable pub is_business_day : ℕ → Bool
unfolding is_weekend is_festival
is_business_day day = not (is_weekend day) && not (is_festival day)

abbrev pub at_local : ℕ → ℕ → ℕ → ℕ
at_local day hour minute = day * day_length + (hour * hour_length + minute * minute_length)

-- `PAYDAY_RETRY_HOUR` and `PAYDAY_RETRY_MINUTE`
abbrev pub morning : ℕ → ℕ
morning day = at_local day 9 15

-- The loop of `next_business_morning`, with the days that are left of its 21.
unfoldable pub business_morning_from : ℕ → ℕ → ℕ → ℕ
unfolding is_business_day
business_morning_from zero day wall = morning day
business_morning_from (suc left) day wall =
    let later = business_morning_from left (day + 1) wall in
    if is_business_day day && leb wall (morning day) then morning day else later

unfoldable pub next_business_morning : ℕ → ℕ
unfolding business_morning_from
next_business_morning wall = business_morning_from 21 (date_of wall) wall

unfoldable pub apply_business_window : ℕ → Bool → ℕ
unfolding is_business_day next_business_morning
apply_business_window wall honour_exact_date =
    let minutes = time_of wall / minute_length in
    if honour_exact_date
    then wall
    else if not (is_business_day (date_of wall))
    then next_business_morning (wall + 1000000)
    else if ltb minutes (contact_window_start_hour * 60)
    then at_local (date_of wall) contact_window_start_hour 0
    else if leb (contact_window_end_hour * 60) minutes
    then next_business_morning ((date_of wall + 1) * day_length)
    else wall

-- The loop of `next_payday_slot`, with the days that are left of its 40. `first` is `i == 0`.
unfoldable pub payday_slot_from : ℕ → ℕ → Bool → ℕ → ℕ
unfolding civil days_of
payday_slot_from zero day first wall =
    morning (days_of (record { year = (civil (date_of wall)).year + 1; month = 1; day = 1 }))
payday_slot_from (suc left) day first wall =
    let later = payday_slot_from left (day + 1) false wall in
    if not (is_payday (civil day).day)
    then later
    else if first && (leb (at_local day 9 0) wall && ltb wall (at_local day 11 0))
    then wall
    else if leb wall (morning day)
    then morning day
    else later

unfoldable pub next_payday_slot : ℕ → ℕ
unfolding payday_slot_from
next_payday_slot wall = payday_slot_from 40 (date_of wall) true wall

unfoldable pub payday_window_for : ℕ → ℕ × ℕ
payday_window_for wall = (at_local (date_of wall) 9 0, at_local (date_of wall) 11 0)

unfoldable pub after_cooldown : ℕ → Option ℕ → ℕ
after_cooldown candidate none = candidate
after_cooldown candidate (some cool) = if leb cool candidate then candidate else cool
