-- ===== src/Scheduler/Backoff.antt =====
-- services/src/services/scheduler/backoff.py: the delay before the next attempt.
use recovery_pilot_ai.Policy.Models.{minute, hour}
use recovery_pilot_ai.Base.{
  ℕ, Option, ◌<◌, ◌≡◌, ◌≤◌, some, ◌*◌, none, ◌+◌, ◌↔◌, ◌-◌, if◌then◌else◌, ltb, arith, ◌==◌,
}

pub data ℤ : Type 0 where
  pos negsuc : ℕ → ℤ

abbrev pub one_second : ℕ
one_second = 1_000_000

-- `BACKOFF_STEPS`, by index
abbrev pub backoff_step : ℕ → Option ℕ
backoff_step n =
    if n == 0
    then some minute
    else if n == 1
    then some (5 * minute)
    else if n == 2
    then some (30 * minute)
    else if n == 3
    then some (2 * hour)
    else none

-- `JITTER_WINDOWS`, by index
abbrev pub jitter_window : ℕ → ℕ
jitter_window n =
    if n == 0
    then 15 * one_second
    else if n == 1
    then 45 * one_second
    else if n == 2
    then 2 * minute
    else 5 * minute

-- `max(attempt, 0)`
abbrev pub clamp : ℤ → ℕ
clamp (ℤ.pos n) = n
clamp (ℤ.negsuc n) = 0

-- `uniform jitter` is the offset that the random generator draws, plus `jitter`: it lies between 0
-- and twice the window.
unfoldable pub next_backoff : (ℕ → ℕ) → ℤ → Option ℕ
next_backoff uniform attempt =
    let jitter = jitter_window (clamp attempt) in
    elim (backoff_step (clamp attempt)) [
      | none ↦ none
      | some base ↦
          let delay = base + uniform jitter - jitter in
          some (if ltb delay one_second then one_second else delay)
    ]

-- What `Random.uniform` documents.
pub record Draws (uniform : ℕ → ℕ) : Type 0 where
  pub within : (jitter : ℕ) → uniform jitter ≤ 2 * jitter

-- There is a delay for the attempts 0 to 3 and none from 4 on, a negative count being 0.
pub next_backoff-none :
    (uniform : ℕ → ℕ) (attempt : ℤ) → (next_backoff uniform attempt ≡ none) ↔ (4 ≤ clamp attempt)
unfolding next_backoff
next_backoff-none uniform attempt = ground arith

-- A delay is given to the first four attempts only, and is at least a second.
pub next_backoff-some :
    (uniform : ℕ → ℕ) (n delay : ℕ)
    → next_backoff uniform (ℤ.pos n) ≡ some delay
    → (n < 4) × (one_second ≤ delay)
unfolding next_backoff
next_backoff-some uniform n delay e = (ground arith, ground arith)

-- Whatever the generator draws, a later attempt waits longer than an earlier one, and no attempt waits for less
-- than 45 seconds or for more than two hours and five minutes.
pub next_backoff-grows :
    (uniform later : ℕ → ℕ) (m n : ℕ) (first second : ℕ)
    → Draws uniform
    → Draws later
    → m < n
    → next_backoff uniform (ℤ.pos m) ≡ some first
    → next_backoff later (ℤ.pos n) ≡ some second
    → (first < second) × (45 * one_second ≤ first) × (second ≤ 2 * hour + 5 * minute)
unfolding next_backoff
next_backoff-grows uniform later m n first second d e h p q = (
  ground (arith, d.within (jitter_window m), e.within (jitter_window n)),
  ground (arith, d.within (jitter_window m)),
  ground (arith, e.within (jitter_window n)),
)
