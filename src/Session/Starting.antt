-- ===== src/Session/Starting.antt =====
-- services/session.py: `start_session`. The order that the database gives rows by `random()`, and
-- the identifiers that are drawn for new rows, are arguments.
use mnemo_api.Prelude.{
  ltb, leb, ◌==◌, if◌then◌else◌, length, take, select, first?, ℕ, ◌+◌, Bool, true, false, not, ◌&&◌,
  Option, none, some, List, [], ◌∷◌, ◌++◌,
}
use mnemo_api.Models.{
  Flashcard, Deck, CardMemoryState, SessionMode, active, Session, SessionCard, Db,
}
use mnemo_api.Exec.{deck_not_found, overflow_error, database_error, ok, err, Exec}
use mnemo_api.SpacedRepetition.{max_instant, is_row}
use mnemo_api.Session.Views.{SessionView}

-- schemas/session.py: `SessionStart`
pub record SessionStart : Type 0 where
  pub deck_id : ℕ
  pub mode : SessionMode
  pub card_limit : Option ℕ
  pub due_only : Bool
  pub focus_weak : Bool
  pub time_limit_s : Option ℕ

-- `Deck.id == deck_id, Deck.user_id == self.user.id`
abbrev pub is_deck : ℕ → ℕ → Deck → Bool
is_deck user_id deck_id d = d.id == deck_id && d.user_id == user_id

-- The memory state that a card is joined with.
abbrev pub state_of : ℕ → Db → Flashcard → Option CardMemoryState
state_of user_id db c = first? (is_row c.id user_id) db.memory_states

abbrev pub due_by : ℕ → Option CardMemoryState → Bool
due_by now none = false
due_by now (some m) = elim m.due_at [ none ↦ false | some t ↦ leb t now ]

-- The inner join with the memory states that are due.
abbrev pub is_due : ℕ → ℕ → Db → Flashcard → Bool
is_due user_id now db c = due_by now (state_of user_id db c)

-- `ease_factor ASC NULLS LAST`: whether `a` may stand before `b`.
abbrev pub ease_before : Option CardMemoryState → Option CardMemoryState → Bool
ease_before none none = true
ease_before none (some b) = false
ease_before (some a) none = true
ease_before (some a) (some b) = leb a.ease_factor b.ease_factor

module _ (user_id : ℕ) (db : Db) where
  unfoldable pub insert_by_ease : Flashcard → List Flashcard → List Flashcard
  insert_by_ease c [] = c ∷ []
  insert_by_ease c (d ∷ ds) =
      let rest = insert_by_ease c ds in
      if ease_before (state_of user_id db c) (state_of user_id db d) then c ∷ d ∷ ds else d ∷ rest

  unfoldable pub sort_by_ease : List Flashcard → List Flashcard
  sort_by_ease [] = []
  sort_by_ease (c ∷ cs) = insert_by_ease c (sort_by_ease cs)

-- `if session_data.card_limit:`, so that neither None nor 0 is a limit.
abbrev pub limited : Option ℕ → List Flashcard → List Flashcard
limited none cs = cs
limited (some n) cs = if n == 0 then cs else take n cs

abbrev pub expiry : Option ℕ → ℕ → ℕ
expiry none now = now + 7200
expiry (some t) now = if ltb 0 t then now + t else now + 7200

-- The row of the new session.
abbrev pub new_session : ℕ → ℕ → SessionStart → ℕ → ℕ → Session
new_session session_id user_id start now total = record {
  id = session_id;
  user_id = user_id;
  deck_id = start.deck_id;
  mode = start.mode;
  status = active;
  card_limit = total;
  time_limit_s = start.time_limit_s;
  created_at = now;
  ended_at = none;
  expires_at = expiry start.time_limit_s now;
}

-- The rows for the cards from a position on.
unfoldable pub numbered : (ℕ → ℕ) → ℕ → ℕ → List Flashcard → List SessionCard
numbered ids session_id position [] = []
numbered ids session_id position (c ∷ cs) =
    record {
      id = ids position;
      session_id = session_id;
      card_id = c.id;
      answered = false;
      position = position;
      correct = none;
      score = none;
      answered_at = none;
    }
    ∷ numbered ids session_id (position + 1) cs

-- The query for the cards of the session.
unfoldable pub chosen :
    (List Flashcard → List Flashcard) → ℕ → SessionStart → ℕ → Db → List Flashcard
chosen shuffle user_id start now db =
    let all = select (λ (c : Flashcard). c.deck_id == start.deck_id) db.cards in
    let asked = if start.due_only then select (is_due user_id now db) all else all in
    let ordered = if start.focus_weak then sort_by_ease user_id db asked else shuffle asked in
    limited start.card_limit ordered

-- The column `time_limit_s` holds 32 bits.
abbrev max_limit : ℕ
max_limit = 2147483647

abbrev limit_fits : Option ℕ → Bool
limit_fits none = true
limit_fits (some t) = leb t max_limit

module _ (shuffle : List Flashcard → List Flashcard) (session_id : ℕ) (ids : ℕ → ℕ) where
  -- The rest of `start_session` after the deck: an expiry past the year 9999 raises OverflowError,
  -- and the flush refuses a limit that is too large for its column.
  unfoldable pub open_session : ℕ → SessionStart → ℕ → Exec Db SessionView
  open_session user_id start now db =
      let cards = chosen shuffle user_id start now db in
      let expires = expiry start.time_limit_s now in
      if ltb max_instant expires
      then (err overflow_error, db)
      else if not (limit_fits start.time_limit_s)
      then (err database_error, db)
      else (
        ok (record {
          session_id = session_id;
          status = active;
          cards_total = length cards;
          cards_done = 0;
          current_card = first? (λ _. true) cards;
          expires_at = expires;
        }),
        record db {
          sessions = db.sessions ++ new_session session_id user_id start now (length cards) ∷ [];
          session_cards = db.session_cards ++ numbered ids session_id 0 cards;
        },
      )

  unfoldable pub start_session : ℕ → SessionStart → ℕ → Exec Db SessionView
  start_session user_id start now db = elim (first? (is_deck user_id start.deck_id) db.decks) [
    | none ↦ (err deck_not_found, db)
    | some d ↦ open_session user_id start now db
  ]
