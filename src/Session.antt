-- ===== src/Session.antt =====
-- services/session.py: study sessions. Each method of `SessionService` is an action on the tables;
-- the user of the service and the clock are arguments, and one method call reads the clock once.
pub mod Scoring
pub mod Views
mod Rows
pub mod Ended
pub mod Progress
pub mod Skipping
pub mod Starting
mod Starts
pub mod Transactions
pub mod Finishing
mod Lasting
mod Tests
use mnemo_api.Prelude.{
  ltb, leb, ◌==◌, if◌then◌else◌, length, select, update_if, first?, count_if, Text, codes, Unicode,
  ℕ, ◌+◌, max, Bool, true, false, not, ◌&&◌, Option, none, some, List, [], ◌∷◌,
}
use mnemo_api.Models.{
  Flashcard, CardMemoryState, SessionStatus, active, ended, Session, SessionCard, Db,
}
use mnemo_api.Exec.{
  session_not_found, session_already_ended, answer_too_long, no_cards_available, missing_row, ok,
  err, Exec, ◌>>=◌, ◌>>◌,
}
use mnemo_api.Session.Scoring.{evaluate_answer}
use mnemo_api.SpacedRepetition.{
  passing_score, update_memory_state_after_answer, is_row, get_or_create_memory_state,
}

-- schemas/session.py: `AnswerResult`; the progress dictionary is its three fields.
pub record AnswerResult : Type 0 where
  pub score : ℕ
  pub is_correct : Bool
  pub canonical_answer : Text
  pub feedback : Text
  pub next_card : Option Flashcard
  pub cards_done : ℕ
  pub cards_total : ℕ
  pub correct_so_far : ℕ

abbrev pub is_ended : SessionStatus → Bool
is_ended active = false
is_ended ended = true

-- `Session.id == session_id, Session.user_id == self.user.id`
abbrev pub is_session : ℕ → ℕ → Session → Bool
is_session user_id session_id s = s.id == session_id && s.user_id == user_id

-- The rows of a session, and the conditions of the queries on them.
abbrev pub of_session : ℕ → SessionCard → Bool
of_session session_id c = c.session_id == session_id

abbrev pub pending : ℕ → SessionCard → Bool
pending session_id c = of_session session_id c && not c.answered

abbrev pub done : ℕ → SessionCard → Bool
done session_id c = of_session session_id c && c.answered

abbrev pub is_true : Option Bool → Bool
is_true none = false
is_true (some b) = b

abbrev pub right : ℕ → SessionCard → Bool
right session_id c = of_session session_id c && is_true c.correct

-- `.order_by(SessionCard.position).limit(1)`
pub lowest : List SessionCard → Option SessionCard
lowest [] = none
lowest (c ∷ cs) = elim (lowest cs) [
  | none ↦ some c
  | some d ↦ if leb c.position d.position then some c else some d
]

-- The card that the session asks next.
pub next_pending : ℕ → List SessionCard → Option SessionCard
next_pending session_id rows = lowest (select (pending session_id) rows)

-- `joinedload(SessionCard.card)`
abbrev pub card_of : SessionCard → Db → Option Flashcard
card_of c db = first? (λ (f : Flashcard). f.id == c.card_id) db.cards

abbrev pub card_of_next : Option SessionCard → Db → Option Flashcard
card_of_next none db = none
card_of_next (some c) db = card_of c db

-- Writes to the loaded row of a session or a session card.
abbrev pub write_session : ℕ → (Session → Session) → Db → Db
write_session session_id f db = record db {
  sessions = update_if (λ (s : Session). s.id == session_id) f db.sessions;
}

abbrev pub write_session_card : ℕ → (SessionCard → SessionCard) → Db → Db
write_session_card id f db = record db {
  session_cards = update_if (λ (c : SessionCard). c.id == id) f db.session_cards;
}

abbrev pub close : Session → Session
close s = record s { status = ended }

abbrev pub close_at : ℕ → Session → Session
close_at now s = record s { status = ended; ended_at = some now }

-- The query that every method starts with.
pub load_session : ℕ → ℕ → Exec Db Session
load_session user_id session_id db = elim (first? (is_session user_id session_id) db.sessions) [
  | none ↦ (err session_not_found, db)
  | some s ↦ (ok s, db)
]

-- The guards of `answer_card` and `skip_card`; an expired session is closed before the exception.
require_open : Session → ℕ → Exec Db (Unit {0})
require_open s now db =
    if is_ended s.status
    then (err session_already_ended, db)
    else if ltb s.expires_at now
    then (err session_already_ended, write_session s.id close db)
    else (ok tt, db)

-- The current card with its flashcard.
current_card : ℕ → Exec Db (SessionCard × Flashcard)
current_card session_id db = elim (next_pending session_id db.session_cards) [
  | none ↦ (err no_cards_available, db)
  | some c ↦ elim (card_of c db) [ none ↦ (err missing_row, db) | some f ↦ (ok (c, f), db) ]
]

abbrev pub mark : ℕ → ℕ → SessionCard → SessionCard
mark score now c = record c {
  answered = true;
  correct = some (leb passing_score score);
  score = some score;
  answered_at = some now;
}

-- The update of the memory state, if there is one; an OverflowError of it is raised.
score_memory : Option CardMemoryState → ℕ → ℕ → Exec Db (Unit {0})
score_memory none score now db = (ok tt, db)
score_memory (some m) score now db = (
  (update_memory_state_after_answer score now m).0,
  record db {
    memory_states =
        update_if (is_row m.card_id m.user_id)
          (λ row. (update_memory_state_after_answer score now row).1) db.memory_states;
  },
)

-- The last part of `answer_card`: the next card, the counts, and the end of the session.
conclude : Session → Flashcard → ℕ → ℕ → Exec Db AnswerResult
conclude s f score now db =
    let next = next_pending s.id db.session_cards in
    (
      ok (record {
        score = score;
        is_correct = leb passing_score score;
        canonical_answer = f.answer;
        feedback = if leb passing_score score then codes "Correct." else codes "Incorrect.";
        next_card = card_of_next next db;
        cards_done = count_if (done s.id) db.session_cards;
        cards_total = s.card_limit;
        correct_so_far = count_if (right s.id) db.session_cards;
      }),
      elim next [ none ↦ write_session s.id (close_at now) db | some c ↦ db ],
    )

write_card : ℕ → (SessionCard → SessionCard) → Exec Db (Unit {0})
write_card id f db = (ok tt, write_session_card id f db)

check_length : Text → Exec Db (Unit {0})
check_length answer db = if ltb 2000 (length answer) then (err answer_too_long, db) else (ok tt, db)

module _ (u : Unicode) where
  -- `answer_card` once the card is known.
  pub score_card : ℕ → Session → SessionCard × Flashcard → Text → ℕ → Exec Db AnswerResult
  score_card user_id s (c, f) answer now = do
    let score = evaluate_answer u answer f.answer
    write_card c.id (mark score now)
    memory ← get_or_create_memory_state c.card_id user_id
    score_memory memory score now
    conclude s f score now

  pub answer_card : ℕ → ℕ → Text → ℕ → Exec Db AnswerResult
  answer_card user_id session_id answer now = do
    s ← load_session user_id session_id
    require_open s now
    check_length answer
    current ← current_card s.id
    score_card user_id s current answer now

-- One more than the highest position, or 0 with no row.
position_after : List SessionCard → ℕ
position_after [] = 0
position_after (c ∷ cs) = max (c.position + 1) (position_after cs)

abbrev pub put_last : ℕ → SessionCard → SessionCard
put_last position c = record c { position = position }

-- The part of `skip_card` behind its guards.
move_behind : ℕ → Exec Db (Option Flashcard)
move_behind session_id db = elim (next_pending session_id db.session_cards) [
  | none ↦ (err no_cards_available, db)
  | some c ↦
      let last = position_after (select (of_session session_id) db.session_cards) in
      let db' = write_session_card c.id (put_last last) db in
      (ok (card_of_next (next_pending session_id db'.session_cards) db'), db')
]

pub skip_card : ℕ → ℕ → ℕ → Exec Db (Option Flashcard)
skip_card user_id session_id now = do
  s ← load_session user_id session_id
  require_open s now
  move_behind s.id

-- `end_session`; its message is constant.
finish : Session → ℕ → Exec Db (Unit {0})
finish s now db =
    if is_ended s.status then (ok tt, db) else (ok tt, write_session s.id (close_at now) db)

pub end_session : ℕ → ℕ → ℕ → Exec Db (Unit {0})
end_session user_id session_id now = do s ← load_session user_id session_id; finish s now
