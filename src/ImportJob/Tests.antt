-- ===== src/ImportJob/Tests.antt =====
-- The theorems on imports at concrete inputs.
use mnemo_api.Prelude.{
  ◌==◌, first?, count_if, Text, codes, text_eq, Unicode, drop_space, strip, ℕ, ◌+◌, ◌≡◌, refl, ◌⊎◌,
  true, false, Option, none, some, List, [], ◌∷◌, arith,
}
use mnemo_api.Models.{Flashcard, merge, queued, blank_field, ImportJob, Db}
use mnemo_api.Deck.{new_deck}
use mnemo_api.Flashcard.{new_card}
use mnemo_api.Flashcard.Counts.{IsCounted}
use mnemo_api.ImportJob.{Pair, parse_csv_rows, store_rows, process_import_job}
use mnemo_api.ImportJob.Outcome.{job_at, Ends, process_outcome, process_once}
use mnemo_api.ImportJob.Counts.{IsFresh, process-IsCounted}
use mnemo_api.ImportJob.Merging.{merge_again}
use mnemo_api.ImportJob.Worker.{fit_columns, process_redis_job, IsDone, process_job_twice}

abbrev tables : Unicode
tables = record { lower = λ s. s; is_space = λ c. c == 32 }

-- A header, a new pair with spaces around it, the pair of the deck's card, and a row that is blank.
abbrev sheet : List (List Text)
sheet =
    (codes "question" ∷ codes "answer" ∷ [])
    ∷ (codes " Oslo" ∷ codes "Norway " ∷ [])
    ∷ (codes "Rome" ∷ codes "Italy" ∷ [])
    ∷ (codes "Bern" ∷ [] ∷ [])
    ∷ []

abbrev read_sheet : Text → Option (List (List Text))
read_sheet text = some sheet

abbrev next_ids : ℕ → ℕ
next_ids n = n + 10

abbrev rome : Flashcard
rome =
    new_card 5 2
      (record {
        question = codes "Rome";
        answer = codes "Italy";
        source_ref = none;
        tags = [];
        difficulty = 3;
      })
      0

abbrev merging : ImportJob
merging = record {
  id = 4;
  user_id = 7;
  deck_id = 2;
  status = queued;
  mode = merge;
  original_filename = none;
  file_text = [];
  cards_imported = 0;
  cards_skipped = 0;
  errors = [];
  created_at = 0;
  completed_at = none;
}

abbrev waiting : Db
waiting = record {
  decks = record (new_deck 2 7 (codes "Europe") none [] 0) { card_count = 1 } ∷ [];
  cards = rome ∷ [];
  memory_states = [];
  sessions = [];
  session_cards = [];
  import_jobs = merging ∷ [];
}

waiting-IsCounted : IsCounted waiting
unfolding count_if
waiting-IsCounted = record { counted = (refl, tt); keyed = λ i. ground arith }

waiting-IsFresh : IsFresh next_ids waiting.cards
unfolding count_if
waiting-IsFresh = record { distinct = λ m n e. omega arith; unused = λ n. ground arith }

process-IsCounted_example : IsCounted (process_import_job tables read_sheet next_ids 4 99 waiting)
process-IsCounted_example =
    process-IsCounted tables read_sheet next_ids 4 99 waiting waiting-IsFresh waiting-IsCounted

waiting_job : job_at 4 waiting ≡ some merging
unfolding first?
waiting_job = refl

process_outcome_example :
    let db' = process_import_job tables read_sheet next_ids 4 99 waiting in
    Ends tables read_sheet next_ids 4 merging waiting db'
process_outcome_example =
    process_outcome tables read_sheet next_ids 4 99 waiting merging waiting_job refl

process_once_example :
    let db' = process_import_job tables read_sheet next_ids 4 99 waiting in
    process_import_job tables read_sheet next_ids 4 120 db' ≡ db'
process_once_example = process_once tables read_sheet next_ids 4 99 120 waiting

abbrev pairs : List Pair
pairs = (codes "Oslo", codes "Norway") ∷ (codes "Rome", codes "Italy") ∷ []

merge_again_example :
    let db' = (store_rows tables next_ids merge merging pairs 99 waiting).0 in
    store_rows tables (λ n. n + 20) merge merging pairs 120 db' ≡ (db', 0, 2)
merge_again_example =
    merge_again tables next_ids (λ n. n + 20) merging merging pairs 99 120 waiting refl

-- What the parser makes of the sheet.
sheet_run : parse_csv_rows tables sheet ≡ (pairs, blank_field 4 ∷ [])
unfolding parse_csv_rows text_eq strip drop_space
sheet_run = refl

process_job_twice_example :
    let fits = fit_columns (process_import_job tables read_sheet next_ids 4 99 waiting).cards in
    ((fits ≡ true) × IsDone tables read_sheet next_ids 4 99 120 (6 ∷ []) waiting)
    ⊎ ((fits ≡ false)
        × (process_redis_job tables read_sheet next_ids 99 (4 ∷ 6 ∷ []) waiting
            ≡ (false, 6 ∷ 4 ∷ [], waiting)))
process_job_twice_example =
    process_job_twice tables read_sheet next_ids 4 99 120 (6 ∷ []) waiting merging waiting_job refl
