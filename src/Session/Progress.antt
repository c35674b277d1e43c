-- ===== src/Session/Progress.antt =====
-- `answer_card` uses up the pending cards of a session one by one, and ends it with the last.
use mnemo_api.Prelude.{
  leb, ◌==◌, if◌then◌else◌, Option-cases, update_if, first?, count_if, first?-holds, first?-update,
  Text, Unicode, ℕ, ◌+◌, ◌≤◌, ◌≡◌, refl, ◌⊎◌, inl, inr, Option, none, some, arith,
}
use mathlib.Core.Option
use mnemo_api.Models.{Flashcard, SessionStatus, active, ended, Session, SessionCard, Db}
use mnemo_api.Exec.{Result, ok}
use mnemo_api.SpacedRepetition.{passing_score, get_or_create_memory_state}
use mnemo_api.Session.{
  AnswerResult, is_session, pending, done, next_pending, card_of, close_at, load_session,
  require_open, current_card, mark, score_memory, conclude, write_card, check_length, score_card,
  answer_card,
}
use mnemo_api.Session.Scoring.{evaluate_answer}
use mnemo_api.Session.Rows.{IsKeyed, next_pending-none_iff, mark_counts}
use mnemo_api.Session.Scoring.Laws.{evaluate_answer_range}

-- The status of a user's session.
abbrev pub status_of : ℕ → ℕ → Db → Option SessionStatus
status_of user_id session_id db =
    Option.map (λ (s : Session). s.status) (first? (is_session user_id session_id) db.sessions)

-- What an answer does to the rows of the session, when it has passed the guards.
module _ (u : Unicode) (user_id : ℕ) (s : Session) (c : SessionCard) (f : Flashcard) (answer : Text)
    (now : ℕ) (db : Db) where
  abbrev scored : Result AnswerResult × Db
  scored = score_card u user_id s (c, f) answer now db

  pub session_cards-score_card :
      scored.1.session_cards
      ≡ update_if
          (λ (d : SessionCard). d.id == c.id)
          (mark (evaluate_answer u answer f.answer) now)
          db.session_cards
  unfolding score_card get_or_create_memory_state score_memory conclude write_card
  session_cards-score_card = ground arith

  pub sessions-score_card :
      (r : AnswerResult)
      → scored.0 ≡ ok r
      → scored.1.sessions ≡ (elim (next_pending s.id scored.1.session_cards) [
        | none ↦ update_if (λ (x : Session). x.id == s.id) (close_at now) db.sessions
        | some d ↦ db.sessions
      ])
  unfolding score_card get_or_create_memory_state score_memory conclude write_card
  sessions-score_card r h = ground arith

  -- With or without success, the sessions stay or this one is closed.
  pub sessions-score_card_cases :
      (scored.1.sessions ≡ db.sessions)
      ⊎ (scored.1.sessions ≡ update_if (λ (x : Session). x.id == s.id) (close_at now) db.sessions)
  unfolding score_card get_or_create_memory_state score_memory conclude write_card
  sessions-score_card_cases = ground arith

  result-score_card :
      (r : AnswerResult)
      → scored.0 ≡ ok r
      → (r.score ≡ evaluate_answer u answer f.answer)
        × (r.is_correct ≡ leb passing_score r.score)
        × (r.cards_done ≡ count_if (done s.id) scored.1.session_cards)
        × (r.cards_total ≡ s.card_limit)
  unfolding score_card get_or_create_memory_state score_memory conclude write_card
  result-score_card r h = ground arith

-- What a successful answer has found, and that it then scored the current card.
pub answer_card-ok :
    (u : Unicode) (user_id session_id : ℕ) (answer : Text) (now : ℕ) (db : Db) (r : AnswerResult)
    → (answer_card u user_id session_id answer now db).0 ≡ ok r
    → (s : Session) × (c : SessionCard) × (f : Flashcard) × (first?
          (is_session user_id session_id)
          db.sessions
        ≡ some s)
      × (s.id ≡ session_id)
      × (s.status ≡ active)
      × (now ≤ s.expires_at)
      × (next_pending session_id db.session_cards ≡ some c)
      × (card_of c db ≡ some f)
      × (answer_card u user_id session_id answer now db
          ≡ score_card u user_id s (c, f) answer now db)
unfolding answer_card load_session require_open check_length current_card
answer_card-ok u user_id session_id answer now db r h =
    elim (Option-cases (first? (is_session user_id session_id) db.sessions)) [
      | inl missing ↦ absurd (ground arith)
      | inr (s, found) ↦
          let here = first?-holds (is_session user_id session_id) db.sessions s found in
          let same : s.id ≡ session_id = ground arith in
          elim (Option-cases (next_pending s.id db.session_cards)) [
            | inl empty ↦ absurd (ground arith)
            | inr (c, next) ↦ elim (Option-cases (card_of c db)) [
              | inl dangling ↦ absurd (ground arith)
              | inr (f, card) ↦ (
                s,
                c,
                f,
                found,
                same,
                ground arith,
                ground arith,
                rw (← same) next,
                card,
                ground arith,
              )
            ]
          ]
    ]

is_session-close :
    (user_id session_id now : ℕ) (s : Session)
    → is_session user_id session_id (close_at now s) ≡ is_session user_id session_id s
is_session-close user_id session_id now s = refl

status_of-closed :
    (user_id session_id now : ℕ) (db : Db) (s : Session)
    → first? (is_session user_id session_id) db.sessions ≡ some s
    → Option.map
        (λ (x : Session). x.status)
        (first?
          (is_session user_id session_id)
          (update_if (λ (x : Session). x.id == session_id) (close_at now) db.sessions))
      ≡ some ended
status_of-closed user_id session_id now db s found = rw (
  first?-update (is_session user_id session_id) (λ (x : Session). x.id == session_id) (close_at now)
      db.sessions (λ x. refl) (λ x h. ground arith),
  found,
)

-- If the rows of the session cards have different identifiers, a successful answer scores exactly
-- one pending card: the pending cards of the session are one fewer and the done ones one more, the
-- reported progress is that of the new state, the score is at most 5 and correct from 3 on, and
-- the session is over exactly when no card is pending.
pub answer_progress :
    (u : Unicode) (user_id session_id : ℕ) (answer : Text) (now : ℕ) (db : Db) (r : AnswerResult)
    → IsKeyed db.session_cards
    → (answer_card u user_id session_id answer now db).0 ≡ ok r
    → let db' = (answer_card u user_id session_id answer now db).1 in
      (count_if (pending session_id) db'.session_cards + 1
        ≡ count_if (pending session_id) db.session_cards)
      × (count_if (done session_id) db'.session_cards
          ≡ count_if (done session_id) db.session_cards + 1)
      × (r.cards_done ≡ count_if (done session_id) db'.session_cards)
      × (r.score ≤ 5)
      × (r.is_correct ≡ leb passing_score r.score)
      × (status_of user_id session_id db'
          ≡ some (if count_if (pending session_id) db'.session_cards == 0 then ended else active))
answer_progress u user_id session_id answer now db r keyed h =
    let (s, c, f, found, same, is_active, in_time, next, card, same_run) =
      answer_card-ok u user_id session_id answer now db r h in
    let score = evaluate_answer u answer f.answer in
    let rows = session_cards-score_card u user_id s c f answer now db in
    let rows' = (score_card u user_id s (c, f) answer now db).1.session_cards in
    rw same_run (
      ground (
        arith,
        rows,
        sessions-score_card u user_id s c f answer now db r,
        result-score_card u user_id s c f answer now db r,
        mark_counts session_id score now db.session_cards c keyed next,
        next_pending-none_iff session_id rows',
        (evaluate_answer_range u answer f.answer).0,
        status_of-closed user_id session_id now db s found,
      ))
