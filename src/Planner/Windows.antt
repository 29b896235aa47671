-- ===== src/Planner/Windows.antt =====
-- services/src/services/planner/timing.py: what `next_business_morning` and `apply_business_window` give.
use recovery_pilot_ai.Planner.BusinessDays.{soon, soon_always, soon-more_times}
use recovery_pilot_ai.Policy.Models.{contact_window_start_hour, contact_window_end_hour}
use recovery_pilot_ai.Diagnosis.Calendar.{day_length}
use recovery_pilot_ai.Base.{
  ℕ, ◌≡◌, true, false, ◌≤◌, suc, ◌&&◌, ◌<◌, ◌+◌, zero, arith, subst, and_left, and_right, ltb,
  ltb→lt, ◌*◌, sym, ◌/◌, leb, if-holds, leb→le, not,
}
use recovery_pilot_ai.Planner.Timing.{
  is_business_day, time_of, date_of, business_morning_from, morning, at_local, minute_length,
  next_business_morning, apply_business_window,
}

-- A moment is on a business day, its clock shows from 8:00 to before 19:00, and it is not earlier than another.
abbrev pub OpensAfter : ℕ → ℕ → Type 0
OpensAfter wall slot =
    (is_business_day (date_of slot) ≡ true)
    × (contact_window_start_hour * 60 ≤ time_of slot / minute_length)
    × (time_of slot / minute_length < contact_window_end_hour * 60)
    × (wall ≤ slot)

date_of-at_local :
    (day hour minute : ℕ) → hour < 24 → minute < 60 → date_of (at_local day hour minute) ≡ day
date_of-at_local day hour minute h m = omega arith

time_of-at_local :
    (day hour minute : ℕ)
    → hour < 24
    → minute < 60
    → time_of (at_local day hour minute) / minute_length ≡ hour * 60 + minute
time_of-at_local day hour minute h m = omega arith

at_local-Opens :
    (wall day hour minute : ℕ)
    → is_business_day day ≡ true
    → contact_window_start_hour ≤ hour
    → hour < contact_window_end_hour
    → minute < 60
    → wall ≤ at_local day hour minute
    → OpensAfter wall (at_local day hour minute)
at_local-Opens wall day hour minute b s e m w = (
  subst (λ d. is_business_day d ≡ true) (sym (date_of-at_local day hour minute (omega arith) m)) b,
  subst (λ t. 480 ≤ t) (sym (time_of-at_local day hour minute (omega arith) m)) (omega arith),
  subst (λ t. t < 1140) (sym (time_of-at_local day hour minute (omega arith) m)) (omega arith),
  w,
)

pub soon-later :
    (left day wall : ℕ)
    → is_business_day day && leb wall (morning day) ≡ false
    → wall ≤ morning day
    → soon (suc left) day ≡ true
    → soon left (day + 1) ≡ true
soon-later left day wall f w h = ground arith

business_morning_from-Opens :
    (left day wall : ℕ)
    → soon left day ≡ true
    → wall ≤ morning day
    → OpensAfter wall (business_morning_from left day wall)
unfolding business_morning_from
business_morning_from-Opens zero day wall h w = ground arith
business_morning_from-Opens (suc left) day wall h w =
    if-holds (OpensAfter wall) (is_business_day day && leb wall (morning day)) (morning day)
      (business_morning_from left (day + 1) wall)
      (λ t.
        at_local-Opens wall day 9 15 (and_left (is_business_day day) (leb wall (morning day)) t)
          (omega arith) (omega arith) (omega arith) w)
      (λ f.
        business_morning_from-Opens left (day + 1) wall (soon-later left day wall f w h)
          (omega arith))

next_business_morning-Opens : (wall : ℕ) → OpensAfter wall (next_business_morning wall)
unfolding next_business_morning business_morning_from
next_business_morning-Opens wall =
    if-holds (OpensAfter wall) (is_business_day (date_of wall) && leb wall (morning (date_of wall)))
      (morning (date_of wall)) (business_morning_from 20 (date_of wall + 1) wall)
      (λ t.
        at_local-Opens wall (date_of wall) 9 15
          (and_left (is_business_day (date_of wall)) (leb wall (morning (date_of wall))) t)
          (omega arith) (omega arith) (omega arith)
          (leb→le wall (morning (date_of wall))
            (and_right (is_business_day (date_of wall)) (leb wall (morning (date_of wall))) t)))
      (λ f.
        business_morning_from-Opens 20 (date_of wall + 1) wall
          (soon-more_times 16 4 (date_of wall + 1) (soon_always (date_of wall + 1))) (omega arith))

-- The test of a window that lies between two hours.
stays-Opens :
    (wall : ℕ)
    → is_business_day (date_of wall) ≡ true
    → ltb (time_of wall / minute_length) (contact_window_start_hour * 60) ≡ false
    → leb (contact_window_end_hour * 60) (time_of wall / minute_length) ≡ false
    → OpensAfter wall wall
stays-Opens wall b s e = (b, ground arith, ground arith, omega arith)

OpensAfter-earlier : (a b slot : ℕ) → a ≤ b → OpensAfter b slot → OpensAfter a slot
OpensAfter-earlier a b slot h (d, s, e, w) = (d, s, e, omega arith)

opens_early :
    (wall : ℕ)
    → ltb (time_of wall / minute_length) (contact_window_start_hour * 60) ≡ true
    → wall ≤ at_local (date_of wall) contact_window_start_hour 0
opens_early wall h =
    let early = ltb→lt (time_of wall / minute_length) (contact_window_start_hour * 60) h in
    omega arith

-- Unless an exact date is honoured, the slot that the business window gives is on a business day, at a
-- time from 8:00 to before 19:00, and never earlier than the moment that it is given.
pub apply_business_window-Opens : (wall : ℕ) → OpensAfter wall (apply_business_window wall false)
unfolding apply_business_window
apply_business_window-Opens wall =
    if-holds (OpensAfter wall) (not (is_business_day (date_of wall)))
      (next_business_morning (wall + 1000000)) _
      (λ n.
        OpensAfter-earlier wall (wall + 1000000) (next_business_morning (wall + 1000000))
          (omega arith) (next_business_morning-Opens (wall + 1000000)))
      (λ b.
        if-holds (OpensAfter wall)
          (ltb (time_of wall / minute_length) (contact_window_start_hour * 60))
          (at_local (date_of wall) contact_window_start_hour 0) _
          (λ early.
            at_local-Opens wall (date_of wall) contact_window_start_hour 0 (ground arith)
              (omega arith) (omega arith) (omega arith) (opens_early wall early))
          (λ s.
            if-holds (OpensAfter wall)
              (leb (contact_window_end_hour * 60) (time_of wall / minute_length))
              (next_business_morning ((date_of wall + 1) * day_length)) wall
              (λ l.
                OpensAfter-earlier wall ((date_of wall + 1) * day_length)
                  (next_business_morning ((date_of wall + 1) * day_length)) (omega arith)
                  (next_business_morning-Opens ((date_of wall + 1) * day_length)))
              (λ e. stays-Opens wall (ground arith) s e)))
