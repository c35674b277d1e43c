-- ===== src/Session/Finishing.antt =====
-- A session that is answered to the end is over: the success of each answer, and the whole run.
use mnemo_api.Prelude.{
  Option-cases, length, All, first?, count_if, first?-holds, All-update_if, All-Has, Text, Unicode,
  ℕ, ◌+◌, ◌≤◌, ◌<◌, ◌≡◌, refl, ◌≢◌, inl, inr, none, some, List, [], ◌∷◌, arith,
}
use mnemo_api.Models.{Flashcard, active, ended, Session, SessionCard, Db}
use mnemo_api.Exec.{ok}
use mnemo_api.SpacedRepetition.{get_or_create_memory_state}
use mnemo_api.Session.{
  AnswerResult, is_session, pending, done, next_pending, card_of, load_session, require_open,
  current_card, score_memory, conclude, write_card, check_length, score_card, answer_card,
}
use mnemo_api.Session.Lasting.{IsReady, score_card-succeeds, asks-current, score_card-IsReady}
use mnemo_api.Session.Rows.{IsKeyed, next_pending-Has, next_pending-none_iff, update-IsKeyed}
use mnemo_api.Session.Progress.{
  status_of, session_cards-score_card, sessions-score_card, answer_card-ok, answer_progress,
}

-- The keys of the tables: rows have identifiers of their own, and refer to flashcards that exist.
pub record IsLinked (db : Db) : Type 0 where
  pub keyed : IsKeyed db.session_cards
  pub linked : All (λ (c : SessionCard). card_of c db ≢ none) db.session_cards

-- An answer of at most 2000 characters to an open session that still has a pending card succeeds,
-- if the memory states of the pending cards last.
pub answer_card-succeeds :
    (u : Unicode) (user_id session_id : ℕ) (answer : Text) (now : ℕ) (db : Db) (s : Session)
    → IsLinked db
    → IsReady user_id session_id s.expires_at db
    → first? (is_session user_id session_id) db.sessions ≡ some s
    → s.status ≡ active
    → now ≤ s.expires_at
    → length answer ≤ 2000
    → 0 < count_if (pending session_id) db.session_cards
    → (r : AnswerResult) × ((answer_card u user_id session_id answer now db).0 ≡ ok r)
unfolding answer_card load_session require_open check_length current_card
answer_card-succeeds u user_id session_id answer now db s l ready found is_active in_time short
      waiting =
    let here = first?-holds (is_session user_id session_id) db.sessions s found in
    let same : s.id ≡ session_id = ground arith in
    let none_left = next_pending-none_iff session_id db.session_cards in
    elim (Option-cases (next_pending session_id db.session_cards)) [
      | inl empty ↦ absurd (ground arith)
      | inr (c, next) ↦
          let place = (next_pending-Has session_id db.session_cards c next).0 in
          elim (Option-cases (card_of c db)) [
            | inl dangling ↦ absurd (All-Has _ db.session_cards c l.linked place dangling)
            | inr (f, card) ↦
                let asked = asks-current session_id db.session_cards c l.keyed next in
                let (r, scored) =
                  score_card-succeeds u user_id s c f answer now db s.expires_at in_time ready.early
                    (λ m kept. ready.lasting c.card_id m asked kept) in
                (r, ground arith)
          ]
    ]

cards-score_card :
    (u : Unicode) (user_id : ℕ) (s : Session) (c : SessionCard) (f : Flashcard) (answer : Text)
    (now : ℕ) (db : Db)
    → (score_card u user_id s (c, f) answer now db).1.cards ≡ db.cards
unfolding score_card get_or_create_memory_state score_memory conclude write_card
cards-score_card u user_id s c f answer now db = ground arith

score_card-IsLinked :
    (u : Unicode) (user_id : ℕ) (s : Session) (c : SessionCard) (f : Flashcard) (answer : Text)
    (now : ℕ) (db : Db)
    → IsLinked db
    → IsLinked (score_card u user_id s (c, f) answer now db).1
score_card-IsLinked u user_id s c f answer now db l = record {
  keyed =
      rw (session_cards-score_card u user_id s c f answer now db)
        (update-IsKeyed _ _ db.session_cards (λ x. refl) l.keyed);
  linked =
      rw
        (
          session_cards-score_card u user_id s c f answer now db,
          cards-score_card u user_id s c f answer now db,
        )
        (All-update_if _ _ _ _ db.session_cards (λ x h k. k) (λ x h k. k) l.linked);
}

-- While a card is pending, a successful answer leaves the row of the session as it was.
more_to_come :
    (u : Unicode) (user_id session_id : ℕ) (answer : Text) (now : ℕ) (db : Db) (s : Session)
    (r : AnswerResult)
    → IsLinked db
    → IsReady user_id session_id s.expires_at db
    → first? (is_session user_id session_id) db.sessions ≡ some s
    → (answer_card u user_id session_id answer now db).0 ≡ ok r
    → 0
      < count_if
          (pending session_id)
          (answer_card u user_id session_id answer now db).1.session_cards
    → IsLinked (answer_card u user_id session_id answer now db).1
      × IsReady user_id session_id s.expires_at (answer_card u user_id session_id answer now db).1
      × (first?
            (is_session user_id session_id)
            (answer_card u user_id session_id answer now db).1.sessions
          ≡ some s)
more_to_come u user_id session_id answer now db s r l ready found answered waiting =
    let (s', c, f, found', same, is_active, in_time, next, card, run) =
      answer_card-ok u user_id session_id answer now db r answered in
    let db' = (score_card u user_id s' (c, f) answer now db).1 in
    let waits : 0 < count_if (pending session_id) db'.session_cards = rw run at waiting in
    let scored : (score_card u user_id s' (c, f) answer now db).0 ≡ ok r = rw run at answered in
    let rows = sessions-score_card u user_id s' c f answer now db r scored in
    let kept : db'.sessions ≡ db.sessions =
      ground (arith, rows, next_pending-none_iff session_id db'.session_cards) in
    rw run (
      score_card-IsLinked u user_id s' c f answer now db l,
      score_card-IsReady u user_id session_id s.expires_at s' c f answer now db l.keyed next ready,
      rw kept found,
    )

-- Answers one after another, each with its time.
abbrev pub answer_all : Unicode → ℕ → ℕ → List (Text × ℕ) → Db → Db
answer_all u user_id session_id [] db = db
answer_all u user_id session_id ((answer, now) ∷ answers) db =
    answer_all u user_id session_id answers (answer_card u user_id session_id answer now db).1

-- What each answer of a list keeps to.
abbrev pub InTime : Session → List (Text × ℕ) → Type 0
InTime s = All (λ (a : Text × ℕ). (length a.0 ≤ 2000) × (a.1 ≤ s.expires_at))

-- Where session cards have different identifiers and each its flashcard, where the pending cards of
-- the session ask different flashcards, and where even perfect answers at the expiry make none of
-- these due after the year 9999, as many answers as there are pending cards, at least one, none too
-- long and none after the expiry, end an open session, and then no card of it is pending and each
-- answer has made one more done.
pub answers_end_session :
    (u : Unicode) (user_id session_id : ℕ) (answers : List (Text × ℕ)) (db : Db) (s : Session)
    → IsLinked db
    → IsReady user_id session_id s.expires_at db
    → first? (is_session user_id session_id) db.sessions ≡ some s
    → s.status ≡ active
    → InTime s answers
    → 0 < length answers
    → count_if (pending session_id) db.session_cards ≡ length answers
    → let db' = answer_all u user_id session_id answers db in
      (status_of user_id session_id db' ≡ some ended)
      × (count_if (pending session_id) db'.session_cards ≡ 0)
      × (count_if (done session_id) db'.session_cards
          ≡ count_if (done session_id) db.session_cards + length answers)
answers_end_session u user_id session_id [] db s l ready found is_active times some_ count =
    elim some_ [ ]
answers_end_session u user_id session_id ((answer, now) ∷ []) db s l ready found is_active times
      some_ count =
    let (r, answered) =
      answer_card-succeeds u user_id session_id answer now db s l ready found is_active times.0.1
        times.0.0 (omega arith) in
    ground (arith, answer_progress u user_id session_id answer now db r l.keyed answered)
answers_end_session u user_id session_id ((answer, now) ∷ b ∷ rest) db s l ready found is_active
      times some_ count =
    let (r, answered) =
      answer_card-succeeds u user_id session_id answer now db s l ready found is_active times.0.1
        times.0.0 (omega arith) in
    let step = answer_progress u user_id session_id answer now db r l.keyed answered in
    let (l', ready', found') =
      more_to_come u user_id session_id answer now db s r l ready found answered
        (omega (arith, step)) in
    let ih =
      answers_end_session u user_id session_id (b ∷ rest)
        (answer_card u user_id session_id answer now db).1 s l' ready' found' is_active times.1
        (omega arith) (omega (arith, step)) in
    (ih.0, ih.1, omega (arith, ih, step))
