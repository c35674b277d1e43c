-- ===== src/Session/Views.antt =====
-- services/session.py: `get_session` and `get_session_summary`.
use mnemo_api.Prelude.{ltb, if◌then◌else◌, count_if, ℕ, ◌-◌, not, ◌&&◌, Option, none, some}
use mnemo_api.Models.{Flashcard, SessionMode, SessionStatus, Session, Db}
use mnemo_api.Exec.{session_already_ended, ok, err, Exec, ◌>>=◌}
use mnemo_api.Session.{
  is_ended, done, right, next_pending, card_of_next, write_session, close, load_session,
}

-- schemas/session.py: `Session`
pub record SessionView : Type 0 where
  pub session_id : ℕ
  pub status : SessionStatus
  pub cards_total : ℕ
  pub cards_done : ℕ
  pub current_card : Option Flashcard
  pub expires_at : ℕ

-- schemas/session.py: `SessionSummary`; the accuracy is a numerator and a denominator.
pub record SessionSummary : Type 0 where
  pub session_id : ℕ
  pub deck_id : ℕ
  pub mode : SessionMode
  pub status : SessionStatus
  pub started_at : ℕ
  pub ended_at : Option ℕ
  pub total_cards : ℕ
  pub cards_answered : ℕ
  pub correct_answers : ℕ
  pub accuracy : ℕ × ℕ
  pub time_taken_s : ℕ

-- What `get_session` reports, after its test of the expiry.
view : Session → ℕ → Exec Db SessionView
view s now db =
    if ltb s.expires_at now && not (is_ended s.status)
    then (err session_already_ended, write_session s.id close db)
    else (
      ok (record {
        session_id = s.id;
        status = s.status;
        cards_total = s.card_limit;
        cards_done = count_if (done s.id) db.session_cards;
        current_card = card_of_next (next_pending s.id db.session_cards) db;
        expires_at = s.expires_at;
      }),
      db,
    )

unfoldable pub get_session : ℕ → ℕ → ℕ → Exec Db SessionView
unfolding view
get_session user_id session_id now = do s ← load_session user_id session_id; view s now

abbrev pub elapsed : Option ℕ → ℕ → ℕ
elapsed none started = 0
elapsed (some finished) started = finished - started

summarise : Session → Exec Db SessionSummary
summarise s db =
    let answered = count_if (done s.id) db.session_cards in
    let correct = count_if (right s.id) db.session_cards in
    (
      ok (record {
        session_id = s.id;
        deck_id = s.deck_id;
        mode = s.mode;
        status = s.status;
        started_at = s.created_at;
        ended_at = s.ended_at;
        total_cards = s.card_limit;
        cards_answered = answered;
        correct_answers = correct;
        accuracy = if ltb 0 answered then (correct, answered) else (0, 1);
        time_taken_s = elapsed s.ended_at s.created_at;
      }),
      db,
    )

unfoldable pub get_session_summary : ℕ → ℕ → Exec Db SessionSummary
unfolding summarise
get_session_summary user_id session_id = do s ← load_session user_id session_id; summarise s
