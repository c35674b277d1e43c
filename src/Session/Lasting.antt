-- ===== src/Session/Lasting.antt =====
-- Answers that stay clear of the last date that Python can write: when the update of the memory
-- state in `answer_card` raises no OverflowError.
use mnemo_api.Prelude.{
  ◌==◌, if◌then◌else◌, ==_refl, Option-cases, update_if, first?, count_if, first?-holds,
  count_if-replace, Text, Unicode, ℕ, ◌+◌, ◌*◌, ◌≤◌, ◌<◌, max, ◌≡◌, refl, sym, ap, ◌∙◌, ◌≢◌, inl,
  inr, Bool, true, false, ◌&&◌, some, List, [], ◌∷◌, ◌++◌, arith,
}
use mnemo_api.Models.{Flashcard, CardMemoryState, Session, SessionCard, Db}
use mnemo_api.Exec.{ok, Result-cases}
use mnemo_api.SpacedRepetition.{
  default_ease_factor, seconds_per_day, next_ease, next_interval, max_instant,
  update_memory_state_after_answer, is_row, new_state, get_or_create_memory_state,
}
use mnemo_api.SpacedRepetition.Order.{update-IsDueOrLate, perfect_longest, next_interval-first}
use mnemo_api.Session.{
  AnswerResult, pending, next_pending, write_session_card, mark, score_memory, conclude, write_card,
  score_card,
}
use mnemo_api.Session.Scoring.{evaluate_answer}
use mnemo_api.Session.Scoring.Laws.{evaluate_answer_range}
use mnemo_api.Session.Rows.{IsKeyed, next_pending-Has}
use mnemo_api.Session.Progress.{session_cards-score_card}

-- Even a perfect answer at the given time sets a due date before the end of the year 9999.
abbrev pub Lasts : ℕ → CardMemoryState → Type 0
Lasts until m =
    until
      + max 1 (next_interval m.repetitions (next_ease m.ease_factor 5) m.interval_days)
        * seconds_per_day
    ≤ max_instant

update-succeeds :
    (until : ℕ) (m : CardMemoryState) (s now : ℕ)
    → s ≤ 5
    → now ≤ until
    → Lasts until m
    → (update_memory_state_after_answer s now m).0 ≡ ok tt
update-succeeds until m s now five in_time lasts =
    let longest = perfect_longest m s now five in
    elim (update-IsDueOrLate m s now) [
      | inl due ↦ due.1
      | inr late ↦ absurd (omega (arith, longest, late.0))
    ]

-- The pending rows of a session that ask one flashcard.
abbrev pub asks : ℕ → ℕ → SessionCard → Bool
asks session_id card_id c = pending session_id c && c.card_id == card_id

-- Pending rows of the session ask different flashcards, and the user's memory states of those
-- flashcards last until the given time, which is before the last day of the year 9999.
pub record IsReady (user_id session_id until : ℕ) (db : Db) : Type 0 where
  pub apart : (i : ℕ) → count_if (asks session_id i) db.session_cards ≤ 1
  pub lasting :
      (i : ℕ) (m : CardMemoryState)
      → 0 < count_if (asks session_id i) db.session_cards
      → first? (is_row i user_id) db.memory_states ≡ some m
      → Lasts until m
  pub early : until + seconds_per_day ≤ max_instant

module _ (u : Unicode) (user_id : ℕ) (s : Session) (c : SessionCard) (f : Flashcard) (answer : Text)
    (now : ℕ) (db : Db) where
  pub score_card-succeeds :
      (until : ℕ)
      → now ≤ until
      → until + seconds_per_day ≤ max_instant
      → ((m : CardMemoryState)
          → first? (is_row c.card_id user_id) db.memory_states ≡ some m
          → Lasts until m)
      → (r : AnswerResult) × ((score_card u user_id s (c, f) answer now db).0 ≡ ok r)
  unfolding score_card get_or_create_memory_state score_memory conclude write_card
  score_card-succeeds until in_time early lasting =
      let score = evaluate_answer u answer f.answer in
      let five = (evaluate_answer_range u answer f.answer).0 in
      elim (Result-cases (score_card u user_id s (c, f) answer now db).0) [
        | inl success ↦ success
        | inr (e, raised) ↦
            elim (Option-cases (first? (is_row c.card_id user_id) db.memory_states)) [
              | inl missing ↦
                  let m = new_state c.card_id user_id in
                  let lasts : Lasts until m =
                    omega (arith, next_interval-first (next_ease default_ease_factor 5) (some 0)) in
                  let fine = update-succeeds until m score now five in_time lasts in
                  absurd (ground arith)
              | inr (m, found) ↦
                  let fine = update-succeeds until m score now five in_time (lasting m found) in
                  absurd (ground arith)
            ]
      ]

-- Writes to the memory state of one card and user leave those of other cards alone.
row-apart :
    (i j user_id : ℕ) (m : CardMemoryState)
    → i ≢ j
    → is_row j user_id m ≡ true
    → is_row i user_id m ≡ false
row-apart i j user_id m apart h = ground arith

first?-elsewhere :
    (i user_id : ℕ) (q : CardMemoryState → Bool) (f : CardMemoryState → CardMemoryState)
    (ms : List CardMemoryState)
    → ((m : CardMemoryState) → is_row i user_id (f m) ≡ is_row i user_id m)
    → ((m : CardMemoryState) → q m ≡ true → is_row i user_id m ≡ false)
    → first? (is_row i user_id) (update_if q f ms) ≡ first? (is_row i user_id) ms
unfolding first? update_if
first?-elsewhere i user_id q f [] same other = refl
first?-elsewhere i user_id q f (m ∷ ms) same other =
    ground (arith, same m, other m, first?-elsewhere i user_id q f ms same other)

first?-append_other :
    (p : CardMemoryState → Bool) (ms : List CardMemoryState) (m : CardMemoryState)
    → p m ≡ false
    → first? p (ms ++ m ∷ []) ≡ first? p ms
unfolding first?
first?-append_other p [] m h = ground (arith, h)
first?-append_other p (n ∷ ns) m h = ground (arith, first?-append_other p ns m h)

keeps_key :
    (i user_id s now : ℕ) (m : CardMemoryState)
    → is_row i user_id (update_memory_state_after_answer s now m).1 ≡ is_row i user_id m
unfolding update_memory_state_after_answer
keeps_key i user_id s now m = ground arith

module _ (i j user_id : ℕ) (apart : i ≢ j) where
  memory_states-get :
      (db : Db)
      → first? (is_row i user_id) (get_or_create_memory_state j user_id db).1.memory_states
        ≡ first? (is_row i user_id) db.memory_states
  unfolding get_or_create_memory_state
  memory_states-get db =
      let new = new_state j user_id in
      ground (
        arith,
        first?-append_other (is_row i user_id) db.memory_states new
            (row-apart i j user_id new apart (ground (arith, ==_refl j, ==_refl user_id))),
      )

  get_or_create-key :
      (db : Db) (m : CardMemoryState)
      → (get_or_create_memory_state j user_id db).0 ≡ ok (some m)
      → is_row j user_id m ≡ true
  unfolding get_or_create_memory_state
  get_or_create-key db m h = elim (Option-cases (first? (is_row j user_id) db.memory_states)) [
    | inl missing ↦
        let new = new_state j user_id in
        let key : is_row j user_id new ≡ true = ground (arith, ==_refl j, ==_refl user_id) in
        ground (arith, key)
    | inr (n, found) ↦
        let key = first?-holds (is_row j user_id) db.memory_states n found in ground (arith, key)
  ]

  score_memory-elsewhere :
      (m : CardMemoryState) (score now : ℕ) (db : Db)
      → is_row j user_id m ≡ true
      → first? (is_row i user_id) (score_memory (some m) score now db).1.memory_states
        ≡ first? (is_row i user_id) db.memory_states
  unfolding score_memory
  score_memory-elsewhere m score now db key =
      first?-elsewhere i user_id (is_row m.card_id m.user_id)
        (λ row. (update_memory_state_after_answer score now row).1) db.memory_states
        (λ row. keeps_key i user_id score now row) (λ row h. ground arith)

-- The rows that an answer leaves to the memory states of other cards.
module _ (u : Unicode) (user_id : ℕ) (s : Session) (c : SessionCard) (f : Flashcard) (answer : Text)
    (now : ℕ) (db : Db) where
  memory_states-score_card :
      (i : ℕ)
      → i ≢ c.card_id
      → first? (is_row i user_id) (score_card u user_id s (c, f) answer now db).1.memory_states
        ≡ first? (is_row i user_id) db.memory_states
  unfolding score_card score_memory conclude write_card
  memory_states-score_card i apart =
      let score = evaluate_answer u answer f.answer in
      let db0 = write_session_card c.id (mark score now) db in
      let got = get_or_create_memory_state c.card_id user_id db0 in
      let kept = memory_states-get i c.card_id user_id apart db0 in
      elim (Result-cases got.0) [
        | inr (e, raised) ↦ ground (arith, kept, raised)
        | inl (memory, there) ↦ elim (Option-cases memory) [
          | inl nobody ↦ ground (arith, kept, there, nobody)
          | inr (m, some_) ↦
              let key =
                get_or_create-key i c.card_id user_id apart db0 m (there ∙ ap (λ x. ok x) some_) in
              let written =
                score_memory-elsewhere i c.card_id user_id apart m score now got.1 key in
              ground (arith, kept, there, some_, written)
        ]
      ]

-- An answer keeps what the next one needs.
asks-mark :
    (session_id i score now : ℕ) (rows : List SessionCard) (c : SessionCard)
    → IsKeyed rows
    → next_pending session_id rows ≡ some c
    → let rows' = update_if (λ (d : SessionCard). d.id == c.id) (mark score now) rows in
      count_if (asks session_id i) rows' + (if c.card_id == i then 1 else 0)
      ≡ count_if (asks session_id i) rows
asks-mark session_id i score now rows c keyed h =
    let (here, waits) = next_pending-Has session_id rows c h in
    ground (
      arith,
      count_if-replace (asks session_id i) (λ (d : SessionCard). d.id == c.id) (mark score now) rows
          c here (==_refl c.id) (keyed c.id),
    )

same_one : (n : ℕ) → ◌≡◌ {A = ℕ} (if n == n then 1 else 0) 1
same_one n = ground (arith, ==_refl n)

-- A pending current card is one of those that ask its flashcard.
pub asks-current :
    (session_id : ℕ) (rows : List SessionCard) (c : SessionCard)
    → IsKeyed rows
    → next_pending session_id rows ≡ some c
    → 0 < count_if (asks session_id c.card_id) rows
asks-current session_id rows c keyed h =
    omega (arith, same_one c.card_id, asks-mark session_id c.card_id 0 0 rows c keyed h)

pub score_card-IsReady :
    (u : Unicode) (user_id session_id until : ℕ) (s : Session) (c : SessionCard) (f : Flashcard)
    (answer : Text) (now : ℕ) (db : Db)
    → IsKeyed db.session_cards
    → next_pending session_id db.session_cards ≡ some c
    → IsReady user_id session_id until db
    → IsReady user_id session_id until (score_card u user_id s (c, f) answer now db).1
score_card-IsReady u user_id session_id until s c f answer now db keyed next ready =
    let score = evaluate_answer u answer f.answer in
    let rows = session_cards-score_card u user_id s c f answer now db in
    let marked = λ (i : ℕ). asks-mark session_id i score now db.session_cards c keyed next in
    record {
      apart = λ i. rw rows (omega (arith, marked i, ready.apart i));
      lasting = λ i m waiting found.
          (let waits = rw rows at waiting in
            let other : i ≢ c.card_id =
              λ e. ground (arith, e, ==_refl c.card_id, marked i, ready.apart i, waits) in
            ready.lasting i m (omega (arith, marked i, waits))
              (sym (memory_states-score_card u user_id s c f answer now db i other) ∙ found));
      early = ready.early;
    }
