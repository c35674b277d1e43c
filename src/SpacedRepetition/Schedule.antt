-- ===== src/SpacedRepetition/Schedule.antt =====
-- The invariant of a memory state, and how intervals grow.
use mnemo_api.Prelude.{length, All, ℕ, ◌+◌, ◌*◌, ◌/◌, ◌≤◌, ◌<◌, ◌≡◌, List, [], ◌∷◌, arith}
use mnemo_api.Models.{CardMemoryState}
use mnemo_api.SpacedRepetition.{
  min_ease_factor, passing_score, current_interval, next_ease, new_state,
  update_memory_state_after_answer,
}

pub record IsScheduled (m : CardMemoryState) : Type 0 where
  pub eased : min_ease_factor ≤ m.ease_factor
  pub counted : m.streak ≡ m.repetitions
  pub spaced : 0 < m.repetitions → 1 ≤ current_interval m.interval_days
  pub settled : 1 < m.repetitions → m.repetitions + 4 ≤ current_interval m.interval_days

pub next_ease_min : (ease score : ℕ) → min_ease_factor ≤ next_ease ease score
unfolding next_ease
next_ease_min ease score = omega arith

-- A success from the second on lengthens the interval, whatever the ease factor has become.
pub grown :
    (interval ease : ℕ)
    → min_ease_factor ≤ ease
    → 1 ≤ interval
    → interval + 1 ≤ (interval * ease + 99) / 100
grown interval ease h k = grind arith

-- Every answer, right or wrong, keeps a memory state scheduled: an ease factor no less than the
-- minimum, as many repetitions as the streak, and an interval that fits them.
pub update-IsScheduled :
    (m : CardMemoryState) (score now : ℕ)
    → IsScheduled m
    → IsScheduled (update_memory_state_after_answer score now m).1
unfolding update_memory_state_after_answer
update-IsScheduled m score now h = grind (
  arith,
  next_ease_min m.ease_factor score,
  grown (current_interval m.interval_days) (next_ease m.ease_factor score),
)

-- On a scheduled memory state with at least two successes in a row, a further success puts the
-- card off by at least one day more than last time.
pub interval-grows :
    (m : CardMemoryState) (score now : ℕ)
    → IsScheduled m
    → passing_score ≤ score
    → 1 < m.repetitions
    → current_interval m.interval_days
      < current_interval (update_memory_state_after_answer score now m).1.interval_days
unfolding update_memory_state_after_answer
interval-grows m score now h passed old = grind (
  arith,
  next_ease_min m.ease_factor score,
  grown (current_interval m.interval_days) (next_ease m.ease_factor score),
)

-- Answers one after another, each with its time.
abbrev pub review : CardMemoryState → List (ℕ × ℕ) → CardMemoryState
review m [] = m
review m ((score, now) ∷ answers) = review (update_memory_state_after_answer score now m).1 answers

review-IsScheduled :
    (m : CardMemoryState) (answers : List (ℕ × ℕ)) → IsScheduled m → IsScheduled (review m answers)
review-IsScheduled m [] h = h
review-IsScheduled m ((score, now) ∷ answers) h =
    review-IsScheduled (update_memory_state_after_answer score now m).1 answers
      (update-IsScheduled m score now h)

-- Whether every answer of a list is a success.
abbrev pub Passes : List (ℕ × ℕ) → Type 0
Passes = All (λ (answer : ℕ × ℕ). passing_score ≤ answer.0)

update_passed :
    (m : CardMemoryState) (score now : ℕ)
    → passing_score ≤ score
    → (update_memory_state_after_answer score now m).1.repetitions ≡ m.repetitions + 1
unfolding update_memory_state_after_answer
update_passed m score now h = ground arith

repetitions-review :
    (m : CardMemoryState) (answers : List (ℕ × ℕ))
    → Passes answers
    → (review m answers).repetitions ≡ m.repetitions + length answers
repetitions-review m [] h = omega arith
repetitions-review m ((score, now) ∷ answers) h = omega (
  arith,
  update_passed m score now h.0,
  repetitions-review (update_memory_state_after_answer score now m).1 answers h.1,
)

new_state-IsScheduled : (card_id user_id : ℕ) → IsScheduled (new_state card_id user_id)
new_state-IsScheduled card_id user_id = record {
  eased = omega arith;
  counted = omega arith;
  spaced = omega arith;
  settled = omega arith;
}

-- After a run of at least two successes on a new card, the streak is the number of answers, and
-- the interval is at least that number plus four days.
pub perfect_run :
    (card_id user_id : ℕ) (answers : List (ℕ × ℕ))
    → Passes answers
    → 1 < length answers
    → let m = review (new_state card_id user_id) answers in
      (m.streak ≡ length answers) × (length answers + 4 ≤ current_interval m.interval_days)
perfect_run card_id user_id answers h two =
    let m = new_state card_id user_id in
    let s = review-IsScheduled m answers (new_state-IsScheduled card_id user_id) in
    let n = repetitions-review m answers h in
    (omega (arith, s.counted, n), omega (arith, n, s.settled (omega (arith, n))))
