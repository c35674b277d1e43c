-- ===== src/Models.antt =====
-- The tables of the database: src/mnemo/models. Identifiers are random tokens that the program
-- only compares, so they are numbers here. Times are seconds since the epoch. A text is a list of
-- code points. Columns that nothing in the modelled services reads or writes are left out.
use mnemo_api.Prelude.{Text, ℕ, Bool, Option, List}

-- models/flashcard.py
pub record Flashcard : Type 0 where
  pub id : ℕ
  pub deck_id : ℕ
  pub question : Text
  pub answer : Text
  pub source_ref : Option Text
  pub tags : List Text
  pub difficulty : ℕ
  pub created_at : ℕ

-- models/deck.py
pub record Deck : Type 0 where
  pub id : ℕ
  pub user_id : ℕ
  pub name : Text
  pub description : Option Text
  pub tags : List Text
  pub card_count : ℕ
  pub version : ℕ
  pub source_file : Option Text
  pub created_at : ℕ

-- models/card_memory_state.py. `ease_factor` counts hundredths: 250 is 2.5.
pub record CardMemoryState : Type 0 where
  pub card_id : ℕ
  pub user_id : ℕ
  pub interval_days : Option ℕ
  pub ease_factor : ℕ
  pub repetitions : ℕ
  pub due_at : Option ℕ
  pub last_score : Option ℕ
  pub streak : ℕ

-- models/session.py
pub data SessionMode : Type 0 where
  review quiz exam : SessionMode

pub data SessionStatus : Type 0 where
  active ended : SessionStatus

pub record Session : Type 0 where
  pub id : ℕ
  pub user_id : ℕ
  pub deck_id : ℕ
  pub mode : SessionMode
  pub status : SessionStatus
  pub card_limit : ℕ
  pub time_limit_s : Option ℕ
  pub created_at : ℕ
  pub ended_at : Option ℕ
  pub expires_at : ℕ

-- models/session_card.py
pub record SessionCard : Type 0 where
  pub id : ℕ
  pub session_id : ℕ
  pub card_id : ℕ
  pub answered : Bool
  pub position : ℕ
  pub correct : Option Bool
  pub score : Option ℕ
  pub answered_at : Option ℕ

-- core/constants.py: `ImportMode` and `ImportJobStatus`
pub data ImportMode : Type 0 where
  merge replace : ImportMode

pub data ImportJobStatus : Type 0 where
  queued processing completed failed : ImportJobStatus

-- The messages of the parser, with the number of the row, and those of an import job.
pub data RowMessage : Type 0 where
  file_empty : RowMessage
  fewer_columns blank_field : ℕ → RowMessage

pub data Message : Type 0 where
  of_row : RowMessage → Message
  joined : List RowMessage → Message
  no_valid_rows deck_missing csv_error : Message

-- models/import_job.py
pub record ImportJob : Type 0 where
  pub id : ℕ
  pub user_id : ℕ
  pub deck_id : ℕ
  pub status : ImportJobStatus
  pub mode : ImportMode
  pub original_filename : Option Text
  pub file_text : Text
  pub cards_imported : ℕ
  pub cards_skipped : ℕ
  pub errors : List Message
  pub created_at : ℕ
  pub completed_at : Option ℕ

-- The tables that the study services share.
pub record Db : Type 0 where
  pub decks : List Deck
  pub cards : List Flashcard
  pub memory_states : List CardMemoryState
  pub sessions : List Session
  pub session_cards : List SessionCard
  pub import_jobs : List ImportJob
