-- ===== src/ImportJob.antt =====
-- services/import_job.py: CSV imports. Python's csv module, which reads the rows of a text or raises
-- csv.Error, is an argument; so are the tables of Unicode and the identifiers of new cards. The
-- handler for exceptions other than ValueError and csv.Error is not modelled: nothing here raises
-- one. The rollback of a failed job goes back to the tables that the call began with.
pub mod Dedupe
pub mod Outcome
pub mod Counts
pub mod Merging
pub mod Requests
pub mod Worker
mod Tests
use mnemo_api.Prelude.{
  ◌==◌, if◌then◌else◌, length, select, delete_if, update_if, first?, count_if, Text, codes, text_eq,
  Unicode, strip, ℕ, ◌+◌, Bool, true, false, ◌&&◌, ◌||◌, Option, none, some, List, [], ◌∷◌, ◌++◌,
  map,
}
use mnemo_api.Models.{
  Flashcard, Deck, CardMemoryState, SessionCard, ImportMode, merge, replace, ImportJobStatus,
  queued, processing, completed, failed, RowMessage, file_empty, fewer_columns, blank_field,
  Message, of_row, joined, no_valid_rows, deck_missing, csv_error, ImportJob, Db,
}
use mnemo_api.Deck.{owns, in_deck, of_card_in}
use mnemo_api.Flashcard.{new_card, write_deck}

abbrev pub Pair : Type 0
Pair = Text × Text

module _ (u : Unicode) where
  -- `_normalize_pair`
  pub normalize_pair : Pair → Pair
  normalize_pair (question, answer) = (u.lower (strip u question), u.lower (strip u answer))

  abbrev blank : Text → Bool
  blank s = text_eq (strip u s) []

  all_blank : List Text → Bool
  all_blank [] = true
  all_blank (cell ∷ cells) = blank cell && all_blank cells

  -- `_is_header_row`
  is_header_row : List Text → Bool
  is_header_row (first ∷ second ∷ rest) =
      text_eq (u.lower (strip u first)) (codes "question")
      && text_eq (u.lower (strip u second)) (codes "answer")
  is_header_row _ = false

  -- What one row of data adds: nothing, a message, or a pair.
  pub data_row : ℕ → List Text → List Pair × List RowMessage
  unfolding all_blank
  data_row n [] = ([], [])
  data_row n (cell ∷ []) = if all_blank (cell ∷ []) then ([], []) else ([], fewer_columns n ∷ [])
  data_row n (question ∷ answer ∷ rest) =
      if all_blank (question ∷ answer ∷ rest)
      then ([], [])
      else if blank question || blank answer
      then ([], blank_field n ∷ [])
      else ((strip u question, strip u answer) ∷ [], [])

  abbrev both :
      List Pair × List RowMessage → List Pair × List RowMessage → List Pair × List RowMessage
  both (rows, errors) (rows', errors') = (rows ++ rows', errors ++ errors')

  data_rows : ℕ → List (List Text) → List Pair × List RowMessage
  data_rows n [] = ([], [])
  data_rows n (row ∷ rows) = both (data_row n row) (data_rows (n + 1) rows)

  -- `_parse_csv_rows` on the rows that the csv reader gives.
  pub parse_csv_rows : List (List Text) → List Pair × List RowMessage
  unfolding is_header_row data_rows data_row
  parse_csv_rows [] = ([], file_empty ∷ [])
  parse_csv_rows (first ∷ rows) =
      if is_header_row first then data_rows 2 rows else both (data_row 1 first) (data_rows 2 rows)

abbrev pub pair_eq : Pair → Pair → Bool
pair_eq (q, a) (r, b) = text_eq q r && text_eq a b

pub seen_in : Pair → List Pair → Bool
seen_in key [] = false
seen_in key (k ∷ keys) = pair_eq key k || seen_in key keys

abbrev pub also : Pair → List Pair × ℕ → List Pair × ℕ
also row (rows, skipped) = (row ∷ rows, skipped)

abbrev pub skipping : List Pair × ℕ → List Pair × ℕ
skipping (rows, skipped) = (rows, skipped + 1)

-- `_dedupe_rows`: the rows whose key was not seen before, and how many were skipped.
pub dedupe_rows : Unicode → List Pair → List Pair → List Pair × ℕ
dedupe_rows u [] seen = ([], 0)
dedupe_rows u (row ∷ rows) seen = elim (seen_in (normalize_pair u row) seen) [
  | true ↦ skipping (dedupe_rows u rows seen)
  | false ↦ also row (dedupe_rows u rows (normalize_pair u row ∷ seen))
]

-- `_fetch_existing_pairs`
pub existing_pairs : Unicode → ℕ → Db → List Pair
existing_pairs u deck_id db =
    map (λ (c : Flashcard). normalize_pair u (c.question, c.answer))
      (select (in_deck deck_id) db.cards)

-- `_wipe_deck_cards`, whose result is the count of the deck's cards.
pub wipe_deck_cards : ℕ → Db → Db
wipe_deck_cards deck_id db = record db {
  memory_states =
      delete_if (λ (m : CardMemoryState). of_card_in deck_id db m.card_id) db.memory_states;
  cards = delete_if (in_deck deck_id) db.cards;
  session_cards = delete_if (λ (c : SessionCard). of_card_in deck_id db c.card_id) db.session_cards;
}

-- The new cards, with identifiers from a position of the sequence on. They reach the database, and
-- the limits of its columns, with the commit of the worker.
pub cards_of : (ℕ → ℕ) → ℕ → ℕ → ℕ → List Pair → List Flashcard
cards_of ids n deck_id now [] = []
cards_of ids n deck_id now ((question, answer) ∷ rows) =
    new_card (ids n) deck_id
      (record {
        question = question;
        answer = answer;
        source_ref = none;
        tags = [];
        difficulty = 3;
      })
      now
    ∷ cards_of ids (n + 1) deck_id now rows

abbrev pub source : Option Text → Option Text → Option Text
source none old = old
source (some []) old = old
source (some (c ∷ s)) old = some (c ∷ s)

-- What an import does to the row of its deck.
abbrev pub filled : ℕ → Option Text → Deck → Deck
filled added filename d = record d {
  card_count = d.card_count + added;
  version = d.version + added;
  source_file = source filename d.source_file;
}

abbrev pub wiped : ℕ → Deck → Deck
wiped deleted d = record d { card_count = 0; version = d.version + deleted }

-- The tables after the cards were added: nothing changes if there are none.
pub add_cards : (ℕ → ℕ) → ℕ → ℕ → Option Text → List Pair → Db → Db
add_cards ids deck_id now filename [] db = db
add_cards ids deck_id now filename (row ∷ rows) db =
    write_deck deck_id (filled (length (row ∷ rows)) filename)
      (record db { cards = db.cards ++ cards_of ids 0 deck_id now (row ∷ rows) })

abbrev write_job : ℕ → (ImportJob → ImportJob) → Db → Db
write_job id f db = record db {
  import_jobs = update_if (λ (j : ImportJob). j.id == id) f db.import_jobs;
}

-- The part of the `try` block that stores the rows, with the number of the skipped ones.
pub store_rows : Unicode → (ℕ → ℕ) → ImportMode → ImportJob → List Pair → ℕ → Db → (Db × ℕ × ℕ)
store_rows u ids replace job rows now db =
    let deleted = count_if (in_deck job.deck_id) db.cards in
    let (unique, skipped) = dedupe_rows u rows [] in
    let db' = write_deck job.deck_id (wiped deleted) (wipe_deck_cards job.deck_id db) in
    (add_cards ids job.deck_id now job.original_filename unique db', length unique, skipped)
store_rows u ids merge job rows now db =
    let (unique, skipped) = dedupe_rows u rows (existing_pairs u job.deck_id db) in
    (add_cards ids job.deck_id now job.original_filename unique db, length unique, skipped)

abbrev pub complete : List RowMessage → ℕ → ℕ → ℕ → ImportJob → ImportJob
complete messages added skipped now job = record job {
  status = completed;
  cards_imported = added;
  cards_skipped = skipped;
  errors = map of_row messages;
  completed_at = some now;
}

-- The handler: the job fails with the messages so far and that of the exception.
abbrev pub fail : List Message → Message → ℕ → ImportJob → ImportJob
fail snapshot message now job = record job {
  status = failed;
  errors = snapshot ++ message ∷ [];
  completed_at = some now;
}

abbrev pub is_open : ImportJobStatus → Bool
is_open queued = true
is_open processing = true
is_open completed = false
is_open failed = false

module _ (u : Unicode) (csv : Text → Option (List (List Text))) (ids : ℕ → ℕ) where
  -- The `try` block on the parsed rows.
  import_rows : ImportJob → List Pair × List RowMessage → ℕ → Db → Db
  import_rows job ([], []) now db = write_job job.id (fail [] no_valid_rows now) db
  import_rows job ([], error ∷ errors) now db =
      write_job job.id (fail (map of_row (error ∷ errors)) (joined (error ∷ errors)) now) db
  import_rows job (row ∷ rows, errors) now db =
      let (db', added, skipped) = store_rows u ids job.mode job (row ∷ rows) now db in
      write_job job.id (complete errors added skipped now) db'

  pub run_import : ImportJob → ℕ → Db → Db
  run_import job now db = elim (first? (owns job.user_id job.deck_id) db.decks) [
    | none ↦ write_job job.id (fail job.errors deck_missing now) db
    | some d ↦ elim (csv job.file_text) [
      | none ↦ write_job job.id (fail job.errors csv_error now) db
      | some table ↦ import_rows job (parse_csv_rows u table) now db
    ]
  ]

  -- `process_import_job`; its result is the row of the job afterwards.
  pub process_import_job : ℕ → ℕ → Db → Db
  process_import_job job_id now db =
      elim (first? (λ (j : ImportJob). j.id == job_id) db.import_jobs) [
        | none ↦ db
        | some job ↦ if is_open job.status then run_import job now db else db
      ]
