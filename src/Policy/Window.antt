-- ===== src/Policy/Window.antt =====
-- The contact window of services/src/services/policy/cooldown.py: when it opens again.
use recovery_pilot_ai.Base.{
  Bool, true, false, some, ◌&&◌, leb, ltb, ap, sym, ◌∙◌, subst, ℕ, ◌+◌, ◌*◌, ◌%◌, ◌≤◌, ◌<◌, ◌≡◌,
  arith,
}
use recovery_pilot_ai.Policy.Models.{
  contact_window_start_hour, contact_window_end_hour, Zone, day, hour,
}
use recovery_pilot_ai.Policy.Cooldown.{
  minutes_of_day, in_contact_window, next_contact_window_start, window_open_after,
}

-- A zone without gaps: each wall clock reading is reached, in order.
pub record KeepsTime (z : Zone) : Type 0 where
  pub read_back : (wall : ℕ) → z.local (z.instant wall) ≡ wall
  pub forward : (moment wall : ℕ) → z.local moment < wall → moment < z.instant wall

window_open_after-later : (w : ℕ) → (w < window_open_after w) × (window_open_after w ≤ w + day)
window_open_after-later w = ground arith

window_open_after-hour : (w : ℕ) → window_open_after w % day ≡ 8 * hour
window_open_after-hour w = ground arith

abbrev wall_in_window : ℕ → Bool
wall_in_window wall =
    leb (contact_window_start_hour * 60) (minutes_of_day wall)
    && ltb (minutes_of_day wall) (contact_window_end_hour * 60)

at_eight : (w : ℕ) → w % day ≡ 8 * hour → wall_in_window w ≡ true
at_eight w h = rw h

closed_until :
    (now w : ℕ)
    → wall_in_window now ≡ false
    → now ≤ w
    → w < window_open_after now
    → wall_in_window w ≡ false
closed_until now w shut from to = ground arith

next_lem :
    (moment : ℕ) (z : Zone) (t : ℕ)
    → next_contact_window_start moment z ≡ some t
    → (wall_in_window (z.local moment) ≡ false)
      × (z.instant (window_open_after (z.local moment)) ≡ t)
unfolding next_contact_window_start
next_lem moment z t e = ground arith

-- Outside the contact window, and in a zone without gaps, the next opening lies in the window,
-- after the moment, at most a day later by the wall clock.
pub next_contact_window_start-opens :
    (moment : ℕ) (z : Zone) (t : ℕ)
    → KeepsTime z
    → next_contact_window_start moment z ≡ some t
    → (in_contact_window t z ≡ true) × (moment < t) × (z.local t ≤ z.local moment + day)
unfolding in_contact_window
next_contact_window_start-opens moment z t k e =
    let (shut, at) = next_lem moment z t e in
    let now = z.local moment in
    let opens : z.local t ≡ window_open_after now =
      ap z.local (sym at) ∙ k.read_back (window_open_after now) in
    let (later, soon) = window_open_after-later now in
    (
      rw opens (at_eight (window_open_after now) (window_open_after-hour now)),
      subst (λ s. moment < s) at (k.forward moment (window_open_after now) later),
      omega (arith, opens, soon),
    )

-- In such a zone, the window is shut at every moment between, by the wall clock.
pub next_contact_window_start-first :
    (moment u : ℕ) (z : Zone) (t : ℕ)
    → KeepsTime z
    → next_contact_window_start moment z ≡ some t
    → z.local moment ≤ z.local u
    → z.local u < z.local t
    → in_contact_window u z ≡ false
unfolding in_contact_window
next_contact_window_start-first moment u z t k e from to =
    let (shut, at) = next_lem moment z t e in
    let now = z.local moment in
    let opens : z.local t ≡ window_open_after now =
      ap z.local (sym at) ∙ k.read_back (window_open_after now) in
    closed_until now (z.local u) shut from (subst (λ s. z.local u < s) opens to)
