-- ===== src/SpacedRepetition/Tests.antt =====
-- Runs of the schedule, and its theorems at concrete inputs.
use mnemo_api.Prelude.{
  ◌==◌, length, All, count_if, ◌≤◌, ◌≡◌, refl, true, ◌&&◌, none, some, [], ◌∷◌, arith,
}
use mnemo_api.Models.{CardMemoryState, Db}
use mnemo_api.Exec.{overflow_error, ok, err}
use mnemo_api.SpacedRepetition.{current_interval, update_memory_state_after_answer}
use mnemo_api.SpacedRepetition.Schedule.{IsScheduled, update-IsScheduled}
use mnemo_api.SpacedRepetition.Order.{IsDueOrLate, score_mono}
use mnemo_api.SpacedRepetition.Queries.{
  Entry, due_until, due_time, get_due_cards, Ascending, has_card, due_cards-Ascending,
}

abbrev young : CardMemoryState
young = record {
  card_id = 1;
  user_id = 7;
  interval_days = some 6;
  ease_factor = 250;
  repetitions = 2;
  due_at = none;
  last_score = some 4;
  streak = 2;
}

abbrev one_card : Db
one_card = record {
  decks = [];
  cards =
      record {
        id = 1;
        deck_id = 2;
        question = [];
        answer = [];
        source_ref = none;
        tags = [];
        difficulty = 3;
        created_at = 0;
      }
      ∷ [];
  memory_states = [];
  sessions = [];
  session_cards = [];
  import_jobs = [];
}

-- 6 * 2.5 = 15 days, and 6 * 2.36 = 14.16 is rounded up.
two_intervals :
    ((update_memory_state_after_answer 4 0 young).1.interval_days ≡ some 15)
    × ((update_memory_state_after_answer 3 0 young).1.interval_days ≡ some 15)
    × ((update_memory_state_after_answer 2 0 young).1.interval_days ≡ some 1)
unfolding update_memory_state_after_answer
two_intervals = (refl, refl, refl)

-- Perfect answers on cards that waited one and two million days.
in_range :
    (update_memory_state_after_answer 5 0 (record young { interval_days = some 1000000 })).0 ≡ ok tt
unfolding update_memory_state_after_answer
in_range = refl

far_too_late :
    (update_memory_state_after_answer 5 0 (record young { interval_days = some 2000000 })).0
    ≡ err overflow_error
unfolding update_memory_state_after_answer
far_too_late = refl

young-IsScheduled : IsScheduled young
young-IsScheduled = record {
  eased = omega arith;
  counted = omega arith;
  spaced = omega arith;
  settled = omega arith;
}

update-IsScheduled_example : IsScheduled (update_memory_state_after_answer 2 100 young).1
update-IsScheduled_example = update-IsScheduled young 2 100 young-IsScheduled

score_mono_example :
    let worse = update_memory_state_after_answer 2 100 young in
    let better = update_memory_state_after_answer 4 100 young in
    (worse.1.ease_factor ≤ better.1.ease_factor)
    × (current_interval worse.1.interval_days ≤ current_interval better.1.interval_days)
    × IsDueOrLate 100 young worse
    × IsDueOrLate 100 young better
score_mono_example = score_mono young 2 4 100 young-IsScheduled (omega arith) (omega arith)

due_cards-Ascending_example :
    let due = λ (m : CardMemoryState). m.user_id == 7 && due_until 500 m in
    let entries = get_due_cards 7 500 one_card in
    Ascending due_time entries
    × All (λ (e : Entry). (e.1.id ≡ e.0.card_id) × (due e.0 ≡ true)) entries
    × (length entries ≡ count_if (λ m. due m && has_card one_card.cards m) one_card.memory_states)
due_cards-Ascending_example = due_cards-Ascending 7 500 one_card
