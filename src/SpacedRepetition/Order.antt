-- ===== src/SpacedRepetition/Order.antt =====
-- A better score never makes a card harder or due sooner.
use mnemo_api.Prelude.{ℕ, ◌+◌, ◌-◌, ◌*◌, ◌/◌, ◌≤◌, ◌<◌, max, ◌≡◌, ◌⊎◌, Option, some, arith}
use mnemo_api.Models.{CardMemoryState}
use mnemo_api.Exec.{overflow_error, Result, ok, err}
use mnemo_api.SpacedRepetition.{
  min_ease_factor, seconds_per_day, max_instant, next_ease, current_interval, next_interval,
  update_memory_state_after_answer,
}
use mnemo_api.SpacedRepetition.Schedule.{IsScheduled, next_ease_min, grown}

loss_mono : (a b : ℕ) → a ≤ b → a * (8 + a * 2) ≤ b * (8 + b * 2)
loss_mono a b h = grind arith

next_ease_mono : (ease s t : ℕ) → s ≤ t → next_ease ease s ≤ next_ease ease t
unfolding next_ease
next_ease_mono ease s t h = omega (arith, loss_mono (5 - t) (5 - s) (omega arith))

ceil_mono : (i e f : ℕ) → e ≤ f → (i * e + 99) / 100 ≤ (i * f + 99) / 100
ceil_mono i e f h = grind arith

next_interval_mono : (n e f : ℕ) (i : Option ℕ) → e ≤ f → next_interval n e i ≤ next_interval n f i
unfolding next_interval
next_interval_mono n e f i h = ground (arith, ceil_mono (current_interval i) e f h)

next_interval_pos :
    (m : CardMemoryState) (ease : ℕ)
    → IsScheduled m
    → min_ease_factor ≤ ease
    → 1 ≤ next_interval m.repetitions ease m.interval_days
unfolding next_interval
next_interval_pos m ease h e = grind (arith, grown (current_interval m.interval_days) ease)

score_grows :
    (m : CardMemoryState) (s t now : ℕ)
    → IsScheduled m
    → s ≤ t
    → t ≤ 5
    → let worse = update_memory_state_after_answer s now m in
      let better = update_memory_state_after_answer t now m in
      (worse.1.ease_factor ≤ better.1.ease_factor)
      × (current_interval worse.1.interval_days ≤ current_interval better.1.interval_days)
unfolding update_memory_state_after_answer
score_grows m s t now h st t5 = ground (
  arith,
  next_ease_mono m.ease_factor s t st,
  next_ease_min m.ease_factor t,
  next_interval_pos m (next_ease m.ease_factor t) h,
  next_interval_mono m.repetitions (next_ease m.ease_factor s) (next_ease m.ease_factor t)
      m.interval_days,
)

-- The two ends of an update: the card is due its interval's days after the answer, or that is past
-- the year 9999, the update raises OverflowError, and the due date stays.
abbrev pub IsDueOrLate : ℕ → CardMemoryState → Result (Unit {0}) × CardMemoryState → Type 0
IsDueOrLate now m (r, m') =
    let due = now + current_interval m'.interval_days * seconds_per_day in
    ((due ≤ max_instant) × (r ≡ ok tt) × (m'.due_at ≡ some due))
    ⊎ ((max_instant < due) × (r ≡ err overflow_error) × (m'.due_at ≡ m.due_at))

pub update-IsDueOrLate :
    (m : CardMemoryState) (s now : ℕ) → IsDueOrLate now m (update_memory_state_after_answer s now m)
unfolding update_memory_state_after_answer
update-IsDueOrLate m s now = ground arith

-- On a scheduled memory state, of two scores up to 5 the better one leaves an ease factor and an
-- interval that are no smaller. After each of them the card is due the interval's number of days
-- after the answer, if that is before the end of the year 9999, and otherwise the update raises
-- OverflowError and the due date stays.
pub score_mono :
    (m : CardMemoryState) (s t now : ℕ)
    → IsScheduled m
    → s ≤ t
    → t ≤ 5
    → let worse = update_memory_state_after_answer s now m in
      let better = update_memory_state_after_answer t now m in
      (worse.1.ease_factor ≤ better.1.ease_factor)
      × (current_interval worse.1.interval_days ≤ current_interval better.1.interval_days)
      × IsDueOrLate now m worse
      × IsDueOrLate now m better
score_mono m s t now h st t5 =
    let (ease, interval) = score_grows m s t now h st t5 in
    (ease, interval, update-IsDueOrLate m s now, update-IsDueOrLate m t now)

-- The interval after an answer is no longer than a perfect answer makes it, or one day.
pub perfect_longest :
    (m : CardMemoryState) (s now : ℕ)
    → s ≤ 5
    → current_interval (update_memory_state_after_answer s now m).1.interval_days
      ≤ max 1 (next_interval m.repetitions (next_ease m.ease_factor 5) m.interval_days)
unfolding update_memory_state_after_answer
perfect_longest m s now h = ground (
  arith,
  next_ease_mono m.ease_factor s 5 h,
  next_interval_mono m.repetitions (next_ease m.ease_factor s) (next_ease m.ease_factor 5)
      m.interval_days,
)

pub next_interval-first : (ease : ℕ) (i : Option ℕ) → next_interval 0 ease i ≡ 1
unfolding next_interval
next_interval-first ease i = omega arith
