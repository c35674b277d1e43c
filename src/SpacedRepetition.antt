-- ===== src/SpacedRepetition.antt =====
-- services/spaced_repetition.py: the SM-2 schedule of a card.
-- Ease factors are counted in hundredths. Every constant of the algorithm is a whole number of
-- them, so the model is the algorithm over exact decimals; the rounding of Python's floats is not
-- modelled. The clock is the argument `now`.
pub mod Schedule
pub mod Order
pub mod Rows
pub mod Queries
mod Tests
use mnemo_api.Prelude.{
  ltb, ◌==◌, if◌then◌else◌, first?, ℕ, ◌+◌, ◌-◌, ◌*◌, ◌/◌, max, Bool, ◌&&◌, Option, none, some, [],
  ◌∷◌, ◌++◌,
}
use mnemo_api.Models.{Flashcard, CardMemoryState, Db}
use mnemo_api.Exec.{overflow_error, ok, err, Exec}

-- The constants of core/constants.py, in hundredths.
abbrev pub default_ease_factor : ℕ
default_ease_factor = 250

abbrev pub min_ease_factor : ℕ
min_ease_factor = 130

abbrev pub passing_score : ℕ
passing_score = 3

abbrev pub seconds_per_day : ℕ
seconds_per_day = 86400

-- `max(MIN_EASE_FACTOR, ease + (0.1 - (5 - score) * (0.08 + (5 - score) * 0.02)))` for a score up
-- to 5. A difference below zero is below the minimum too, so stopping at zero changes nothing.
pub next_ease : ℕ → ℕ → ℕ
next_ease ease score = max min_ease_factor (ease + 10 - (5 - score) * (8 + (5 - score) * 2))

-- The interval that a third or later success multiplies.
abbrev pub current_interval : Option ℕ → ℕ
current_interval none = 6
current_interval (some days) = days

-- The interval after a success: `math.ceil` of a number of hundredths.
pub next_interval : ℕ → ℕ → Option ℕ → ℕ
next_interval repetitions ease interval =
    if repetitions == 0
    then 1
    else if repetitions == 1
    then 6
    else (current_interval interval * ease + 99) / 100

-- The last whole second that a `datetime` holds: the end of the year 9999. A `timedelta` of more
-- days than it allows leads past this instant too.
abbrev pub max_instant : ℕ
max_instant = 253402300799

-- `datetime.now(UTC) + timedelta(days=memory_state.interval_days)` and the last score; past the year
-- 9999 the sum raises OverflowError, and both columns keep what they had.
abbrev pub set_due : ℕ → ℕ → ℕ → Exec CardMemoryState (Unit {0})
set_due days score now m =
    if ltb max_instant (now + days * seconds_per_day)
    then (err overflow_error, m)
    else (ok tt, record m { due_at = some (now + days * seconds_per_day); last_score = some score })

-- `update_memory_state_after_answer`: it writes to the object that it is given, part of it before an
-- OverflowError.
unfoldable pub update_memory_state_after_answer : ℕ → ℕ → Exec CardMemoryState (Unit {0})
unfolding next_ease next_interval
update_memory_state_after_answer score now m =
    let ease = next_ease m.ease_factor score in
    let interval = next_interval m.repetitions ease m.interval_days in
    if ltb score passing_score
    then set_due 1 score now
        (record m { ease_factor = ease; repetitions = 0; streak = 0; interval_days = some 1 })
    else set_due interval score now (record m {
      ease_factor = ease;
      repetitions = m.repetitions + 1;
      streak = m.streak + 1;
      interval_days = some interval;
    })

-- The row of a card and a user.
abbrev pub is_row : ℕ → ℕ → CardMemoryState → Bool
is_row card_id user_id m = m.card_id == card_id && m.user_id == user_id

abbrev pub new_state : ℕ → ℕ → CardMemoryState
new_state card_id user_id = record {
  card_id = card_id;
  user_id = user_id;
  interval_days = some 0;
  ease_factor = default_ease_factor;
  repetitions = 0;
  due_at = none;
  last_score = none;
  streak = 0;
}

-- The part of `get_or_create_memory_state` after the query for the row.
found_or_new : ℕ → ℕ → Option CardMemoryState → Exec Db (Option CardMemoryState)
found_or_new card_id user_id (some m) db = (ok (some m), db)
found_or_new card_id user_id none db = (
  ok (some (new_state card_id user_id)),
  record db { memory_states = db.memory_states ++ new_state card_id user_id ∷ [] },
)

-- `get_or_create_memory_state`; the card is looked up by its identifier alone, as in the source.
unfoldable pub get_or_create_memory_state : ℕ → ℕ → Exec Db (Option CardMemoryState)
unfolding found_or_new
get_or_create_memory_state card_id user_id db =
    elim (first? (λ (c : Flashcard). c.id == card_id) db.cards) [
      | none ↦ (ok none, db)
      | some c ↦ found_or_new card_id user_id (first? (is_row card_id user_id) db.memory_states) db
    ]
