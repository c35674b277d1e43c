-- ===== src/Progress.antt =====
-- services/progress.py: progress reports. What pytz and datetime know of the user's time zone is the
-- argument `zone`; the clock is `now`. Quotients are rounded to whole ten-thousandths, halves to
-- the even neighbour, over exact fractions; the binary rounding of Python's floats is not modelled.
pub mod Streak
pub mod Extension
pub mod Decks
mod Tests
use mnemo_api.Prelude.{
  ltb, leb, ◌==◌, if◌then◌else◌, length, select, first?, count_if, Text, ℕ, zero, suc, ◌+◌, ◌-◌,
  ◌*◌, ◌/◌, ◌%◌, max, Bool, true, false, not, ◌&&◌, ◌||◌, Option, none, some, List, [], ◌∷◌, map,
}
use mnemo_api.Models.{Flashcard, Deck, CardMemoryState, Session, SessionCard, Db}
use mnemo_api.Deck.{owns}
use mnemo_api.Exec.{value_error, Result, ok, err}

-- The local date of a time as the ordinal of `date.toordinal`, which is 1 for the earliest date; the
-- last moment of the local day of a time; and the ISO text of a time.
pub record Zone : Type 0 where
  pub day : ℕ → ℕ
  pub end_of_day : ℕ → ℕ
  pub iso : ℕ → Text

-- `cursor in local_dates`
unfoldable pub has_day : ℕ → List ℕ → Bool
has_day d [] = false
has_day d (x ∷ xs) = d == x || has_day d xs

unfoldable pub add_day : ℕ → List ℕ → List ℕ
add_day d xs = if has_day d xs then xs else d ∷ xs

-- The loop over the times: the set of local dates.
unfoldable pub local_dates : Zone → List (Option ℕ) → List ℕ
local_dates zone [] = []
local_dates zone (none ∷ ts) = local_dates zone ts
local_dates zone (some t ∷ ts) = add_day (zone.day t) (local_dates zone ts)

-- The latest of the times.
unfoldable pub last_time : List (Option ℕ) → Option ℕ
last_time [] = none
last_time (none ∷ ts) = last_time ts
last_time (some t ∷ ts) = elim (last_time ts) [ none ↦ some t | some s ↦ some (max t s) ]

-- `max(local_dates)`
unfoldable pub most_recent : List ℕ → ℕ
most_recent [] = 0
most_recent (d ∷ ds) = max d (most_recent ds)

-- `while cursor in local_dates`, with fuel.
unfoldable pub walk_back : ℕ → List ℕ → ℕ → ℕ
walk_back zero dates cursor = 0
walk_back (suc fuel) dates cursor =
    let rest = walk_back fuel dates (cursor - 1) in if has_day cursor dates then suc rest else 0

-- The streak from the set of dates; `gap > 1` is `today` after the day behind the most recent one.
unfoldable pub streak_of : List ℕ → ℕ → ℕ
streak_of [] today = 0
streak_of (d ∷ ds) today =
    let recent = most_recent (d ∷ ds) in
    if ltb (recent + 1) today then 0 else walk_back (length (d ∷ ds) + 1) (d ∷ ds) recent

unfoldable pub compute_streak_from_datetimes :
    Zone → List (Option ℕ) → ℕ → (ℕ × Option ℕ × Option Text)
compute_streak_from_datetimes zone times now =
    let last = last_time times in
    (
      streak_of (local_dates zone times) (zone.day now),
      last,
      elim last [ none ↦ none | some t ↦ some (zone.iso t) ],
    )

-- The nearest whole number to a quotient, at a half the even one.
unfoldable pub round_div : ℕ → ℕ → ℕ
round_div a b =
    if ltb (2 * (a % b)) b
    then a / b
    else if ltb b (2 * (a % b))
    then a / b + 1
    else a / b + (a / b) % 2

-- `compute_accuracy`, in hundredths of a percent.
unfoldable pub compute_accuracy : ℕ → ℕ → ℕ
compute_accuracy total correct = if total == 0 then 0 else round_div (correct * 10000) total

abbrev pub mastery_interval_threshold : ℕ
mastery_interval_threshold = 21

-- `deck_id is not None` and the filter that it adds.
abbrev pub in_scope : Option ℕ → ℕ → Bool
in_scope none deck_id = true
in_scope (some d) deck_id = deck_id == d

-- The session that a session card is joined with, if it is the user's and of the deck.
abbrev pub in_session : ℕ → Option ℕ → Db → SessionCard → Bool
in_session user_id scope db c = not (
    count_if
      (λ (s : Session). s.id == c.session_id && (s.user_id == user_id && in_scope scope s.deck_id))
      db.sessions
    == 0)

abbrev pub answered_in : ℕ → Option ℕ → Db → SessionCard → Bool
answered_in user_id scope db c = c.answered && in_session user_id scope db c

-- `_fetch_streak_datetimes`, and `answered_at` of the cards that the aggregates range over.
unfoldable pub answer_times : ℕ → Option ℕ → Db → List (Option ℕ)
answer_times user_id scope db =
    map (λ (c : SessionCard). c.answered_at)
      (select (answered_in user_id scope db) db.session_cards)

abbrev pub is_correct : SessionCard → Bool
is_correct c = elim c.correct [ none ↦ false | some b ↦ b ]

-- `_fetch_progress_aggregates`
unfoldable pub fetch_progress_aggregates : ℕ → Option ℕ → Db → (ℕ × ℕ × Option ℕ)
fetch_progress_aggregates user_id scope db = (
  count_if (answered_in user_id scope db) db.session_cards,
  count_if (λ (c : SessionCard). answered_in user_id scope db c && is_correct c) db.session_cards,
  last_time (answer_times user_id scope db),
)

-- The join of a card with its deck, which has to be the user's.
abbrev pub card_in_scope : ℕ → Option ℕ → Db → Flashcard → Bool
card_in_scope user_id scope db c =
    not (count_if (owns user_id c.deck_id) db.decks == 0) && in_scope scope c.deck_id

-- `_count_total_cards`
unfoldable pub count_total_cards : ℕ → Option ℕ → Db → ℕ
count_total_cards user_id scope db = count_if (card_in_scope user_id scope db) db.cards

-- The join of a memory state with its card and the card's deck.
abbrev pub state_in_scope : ℕ → Option ℕ → Db → CardMemoryState → Bool
state_in_scope user_id scope db m = elim (first? (λ (c : Flashcard). c.id == m.card_id) db.cards) [
  | none ↦ false
  | some c ↦ card_in_scope user_id scope db c
]

abbrev pub is_mastered : ℕ → CardMemoryState → Bool
is_mastered user_id m =
    m.user_id == user_id
    && (elim m.interval_days [ none ↦ false | some days ↦ leb mastery_interval_threshold days ])

abbrev pub is_due_by : ℕ → ℕ → CardMemoryState → Bool
is_due_by user_id cutoff m =
    m.user_id == user_id && (elim m.due_at [ none ↦ false | some t ↦ leb t cutoff ])

-- `_count_mastered_cards`
unfoldable pub count_mastered_cards : ℕ → Option ℕ → Db → ℕ
count_mastered_cards user_id scope db =
    count_if (λ (m : CardMemoryState). is_mastered user_id m && state_in_scope user_id scope db m)
      db.memory_states

-- `_count_due_today`
unfoldable pub count_due_today : ℕ → ℕ → Option ℕ → Db → ℕ
count_due_today user_id cutoff scope db =
    count_if
      (λ (m : CardMemoryState). is_due_by user_id cutoff m && state_in_scope user_id scope db m)
      db.memory_states

-- `_count_total_sessions`
unfoldable pub count_total_sessions : ℕ → Option ℕ → Db → ℕ
count_total_sessions user_id scope db =
    count_if (λ (s : Session). s.user_id == user_id && in_scope scope s.deck_id) db.sessions

pub record DeckSummary : Type 0 where
  pub deck_id : ℕ
  pub name : Text
  pub mastery_pct : ℕ
  pub due_count : ℕ

-- `round(mastered / total, 4) if total > 0 else 0.0`
abbrev pub mastery : ℕ → ℕ → ℕ
mastery mastered total = if ltb 0 total then round_div (mastered * 10000) total else 0

-- The entry of a deck. The row of a deck in a query that groups by decks is the count of that deck.
abbrev pub summary_of : ℕ → ℕ → Db → Deck → DeckSummary
summary_of user_id cutoff db d = record {
  deck_id = d.id;
  name = d.name;
  mastery_pct = mastery (count_mastered_cards user_id (some d.id) db) d.card_count;
  due_count = count_due_today user_id cutoff (some d.id) db;
}

-- `_get_deck_summaries`
unfoldable pub deck_summaries_of : ℕ → ℕ → Db → List DeckSummary
deck_summaries_of user_id cutoff db =
    map (summary_of user_id cutoff db) (select (λ (d : Deck). d.user_id == user_id) db.decks)

-- `_resolve_local_time`, for a time zone that pytz knows.
abbrev pub local_time_of : Zone → Option ℕ → Option Text
local_time_of zone last = elim last [ none ↦ none | some t ↦ some (zone.iso t) ]

pub record UserProgress : Type 0 where
  pub user_id : ℕ
  pub total_cards : ℕ
  pub mastered_cards : ℕ
  pub due_today : ℕ
  pub accuracy_rate : ℕ
  pub study_streak_days : ℕ
  pub total_sessions : ℕ
  pub last_studied_at : Option ℕ
  pub last_studied_at_local : Option Text
  pub deck_summaries : List DeckSummary

unfoldable pub get_user_progress : Zone → ℕ → ℕ → Db → UserProgress
get_user_progress zone user_id now db =
    let cutoff = zone.end_of_day now in
    let (total_answered, correct_answers, last_studied) =
      fetch_progress_aggregates user_id none db in
    let (streak, _, _) = compute_streak_from_datetimes zone (answer_times user_id none db) now in
    record {
      user_id = user_id;
      total_cards = count_total_cards user_id none db;
      mastered_cards = count_mastered_cards user_id none db;
      due_today = count_due_today user_id cutoff none db;
      accuracy_rate = compute_accuracy total_answered correct_answers;
      study_streak_days = streak;
      total_sessions = count_total_sessions user_id none db;
      last_studied_at = last_studied;
      last_studied_at_local = local_time_of zone last_studied;
      deck_summaries = deck_summaries_of user_id cutoff db;
    }

-- The name of a deck, or its identifier for want of one.
pub data Title : Type 0 where
  titled : Text → Title
  by_id : ℕ → Title

pub record DeckProgress : Type 0 where
  pub deck_id : ℕ
  pub name : Title
  pub total_cards : ℕ
  pub mastered_cards : ℕ
  pub mastery_pct : ℕ
  pub due_count : ℕ
  pub accuracy_rate : ℕ
  pub total_sessions : ℕ
  pub last_studied_at : Option ℕ
  pub last_studied_at_local : Option Text

-- The part of `get_deck_progress` behind the lookup of the deck.
abbrev pub report_on : Zone → ℕ → ℕ → ℕ → Title → ℕ → Db → DeckProgress
report_on zone user_id now deck_id name total db =
    let (total_answered, correct_answers, last_studied) =
      fetch_progress_aggregates user_id (some deck_id) db in
    let mastered = count_mastered_cards user_id (some deck_id) db in
    record {
      deck_id = deck_id;
      name = name;
      total_cards = total;
      mastered_cards = mastered;
      mastery_pct = mastery mastered total;
      due_count = count_due_today user_id (zone.end_of_day now) (some deck_id) db;
      accuracy_rate = compute_accuracy total_answered correct_answers;
      total_sessions = count_total_sessions user_id (some deck_id) db;
      last_studied_at = last_studied;
      last_studied_at_local = local_time_of zone last_studied;
    }

-- `get_deck_progress`, for the deck that the caller has loaded or else for the identifier.
unfoldable pub get_deck_progress : Zone → ℕ → ℕ → Option ℕ → Option Deck → Db → Result DeckProgress
get_deck_progress zone user_id now deck_id (some deck) db =
    ok (report_on zone user_id now deck.id (titled deck.name) deck.card_count db)
get_deck_progress zone user_id now none none db = err value_error
get_deck_progress zone user_id now (some i) none db = elim (first? (owns user_id i) db.decks) [
  | none ↦ ok (report_on zone user_id now i (by_id i) 0 db)
  | some deck ↦ ok (report_on zone user_id now i (titled deck.name) deck.card_count db)
]

unfoldable pub get_user_streak : Zone → ℕ → ℕ → Db → (ℕ × Option ℕ × Option Text)
get_user_streak zone user_id now db =
    compute_streak_from_datetimes zone (answer_times user_id none db) now
