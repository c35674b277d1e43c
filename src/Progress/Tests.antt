-- ===== src/Progress/Tests.antt =====
-- The theorems on progress reports at concrete inputs.
use mnemo_api.Prelude.{
  ◌==◌, first?, count_if, codes, ℕ, ◌+◌, ◌*◌, ◌/◌, ◌≤◌, ◌<◌, ◌≡◌, refl, Option, none, some, List,
  [], ◌∷◌, arith,
}
use mnemo_api.Models.{Flashcard, Deck, CardMemoryState, Db}
use mnemo_api.Deck.{new_deck}
use mnemo_api.Flashcard.{new_card}
use mnemo_api.SpacedRepetition.{new_state}
use mnemo_api.Progress.{
  Zone, has_day, add_day, local_dates, last_time, most_recent, walk_back, streak_of,
  compute_streak_from_datetimes, count_due_today, DeckSummary, deck_summaries_of, get_user_progress,
}
use mnemo_api.Progress.Streak.{IsStreak, walk_back_enough, compute_streak_from_datetimes-IsStreak}
use mnemo_api.Progress.Extension.{streak_extends}
use mnemo_api.Progress.Decks.{sum_of, summaries_add_up}

-- Local dates without an offset, which begin at a multiple of 100.
abbrev plain : Zone
plain = record { day = λ t. t / 100 + 1; end_of_day = λ t. t / 100 * 100 + 99; iso = λ t. [] }

plain-pos : (t : ℕ) → 0 < plain.day t
plain-pos t = omega arith

-- Study on the days 3, 4 and 6, and now it is day 7.
abbrev study_times : List (Option ℕ)
study_times = some 250 ∷ none ∷ some 310 ∷ some 320 ∷ some 540 ∷ []

streaks :
    ((compute_streak_from_datetimes plain study_times 600).0 ≡ 1)
    × ((compute_streak_from_datetimes plain study_times 430).0 ≡ 1)
    × ((compute_streak_from_datetimes plain (some 250 ∷ some 310 ∷ []) 430).0 ≡ 2)
    × ((compute_streak_from_datetimes plain study_times 800).0 ≡ 0)
unfolding compute_streak_from_datetimes streak_of local_dates add_day has_day most_recent walk_back
    last_time
streaks = (refl, refl, refl, refl)

compute_streak_from_datetimes-IsStreak_example :
    IsStreak plain study_times
      (plain.day 600)
      (compute_streak_from_datetimes plain study_times 600).0
compute_streak_from_datetimes-IsStreak_example =
    compute_streak_from_datetimes-IsStreak plain study_times 600 plain-pos

streak_extends_example :
    (compute_streak_from_datetimes plain (some 620 ∷ study_times) 640).0
    ≡ (compute_streak_from_datetimes plain study_times 640).0 + 1
streak_extends_example = streak_extends plain study_times 620 640 plain-pos refl refl (omega arith)

walk_back_enough_example : walk_back 9 (6 ∷ 5 ∷ 3 ∷ []) 6 ≡ walk_back 4 (6 ∷ 5 ∷ 3 ∷ []) 6
walk_back_enough_example =
    walk_back_enough 9 6 (6 ∷ 5 ∷ 3 ∷ []) (unfold has_day in refl) (omega arith)

abbrev card_in : ℕ → ℕ → Flashcard
card_in id deck_id =
    new_card id deck_id
      (record { question = []; answer = []; source_ref = none; tags = []; difficulty = 3 }) 0

abbrev due_at : ℕ → ℕ → CardMemoryState
due_at card_id t = record (new_state card_id 7) { due_at = some t }

-- Two decks of a user with three due cards, one of them only later.
abbrev two_decks : Db
two_decks = record {
  decks =
      new_deck 2 7 (codes "Europe") none [] 0
      ∷ new_deck 3 7 (codes "Asia") none [] 0
      ∷ new_deck 4 8 (codes "Asia") none [] 0
      ∷ [];
  cards = card_in 1 2 ∷ card_in 5 3 ∷ card_in 6 3 ∷ card_in 9 4 ∷ [];
  memory_states = due_at 1 50 ∷ due_at 5 20 ∷ due_at 6 900 ∷ due_at 9 10 ∷ [];
  sessions = [];
  session_cards = [];
  import_jobs = [];
}

two_decks-keyed : (i : ℕ) → count_if (λ (d : Deck). d.id == i) two_decks.decks ≤ 1
unfolding count_if
two_decks-keyed i = ground arith

summaries_add_up_example :
    sum_of (λ (x : DeckSummary). x.due_count) (deck_summaries_of 7 99 two_decks)
    ≡ count_due_today 7 99 none two_decks
summaries_add_up_example = summaries_add_up 7 two_decks two_decks-keyed 99

-- The report of the user: two of the cards are due.
report_run : (get_user_progress plain 7 0 two_decks).due_today ≡ 2
unfolding get_user_progress count_due_today count_if first?
report_run = refl
