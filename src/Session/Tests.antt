-- ===== src/Session/Tests.antt =====
-- Runs of the session service, and its theorems at concrete inputs.
use mnemo_api.Prelude.{
  leb, ◌==◌, if◌then◌else◌, length, All, select, update_if, first?, count_if, Has, Text, codes,
  text_eq, contains, Unicode, ℕ, ◌+◌, ◌≤◌, ◌<◌, ◌≡◌, refl, ◌≢◌, ◌↔◌, ◌⊎◌, true, false, ◌&&◌, ◌||◌,
  none, some, List, [], ◌∷◌, map, arith,
}
use mnemo_api.Models.{Flashcard, Deck, review, active, ended, Session, SessionCard, Db}
use mnemo_api.Exec.{session_not_found, session_already_ended, ok, err, request}
use mnemo_api.SpacedRepetition.{passing_score}
use mnemo_api.Session.{
  AnswerResult, is_session, pending, done, lowest, next_pending, load_session, require_open,
  answer_card, position_after, move_behind, skip_card,
}
use mnemo_api.Session.Scoring.{split, to_set, grade, common_words, evaluate_answer}
use mnemo_api.Session.Scoring.Laws.{evaluate_answer_range}
use mnemo_api.Session.Views.{get_session}
use mnemo_api.Session.Starting.{SessionStart, is_due, chosen, open_session, start_session}
use mnemo_api.Session.Starts.{start_session_rows, Within, chosen_cards}
use mnemo_api.Session.Rows.{IsKeyed}
use mnemo_api.Session.Progress.{status_of, answer_progress}
use mnemo_api.Session.Lasting.{IsReady}
use mnemo_api.Session.Finishing.{IsLinked, answer_card-succeeds, answer_all, answers_end_session}
use mnemo_api.Session.Skipping.{skip_moves_behind}
use mnemo_api.Session.Ended.{
  answer, skip, stop, call, call_when_over, call_by_other, Call, call_all, over_for_good,
}
use mnemo_api.Session.Transactions.{expiry_rolled_back}

-- The tables of Unicode for ASCII texts.
abbrev lower_char : ℕ → ℕ
lower_char c = if leb b'A' c && leb c b'Z' then c + 32 else c

abbrev ascii : Unicode
ascii = record { lower = map lower_char; is_space = λ c. c == 32 || (leb 9 c && leb c 13) }

abbrev capital : Text
capital = codes "The capital is Paris"

scores :
    (evaluate_answer ascii (codes "the capital is PARIS") capital ≡ 5)
    × (evaluate_answer ascii (codes "paris, the capital") capital ≡ 2)
    × (evaluate_answer ascii (codes "Paris is  the capital") capital ≡ 5)
    × (evaluate_answer ascii (codes "London") capital ≡ 0)
unfolding evaluate_answer common_words grade to_set split text_eq contains select
scores = (refl, refl, refl, refl)

abbrev flashcard : ℕ → Text → Flashcard
flashcard id text = record {
  id = id;
  deck_id = 2;
  question = [];
  answer = text;
  source_ref = none;
  tags = [];
  difficulty = 3;
  created_at = 0;
}

abbrev row : ℕ → SessionCard
row i = record {
  id = 100 + i;
  session_id = 9;
  card_id = i;
  answered = false;
  position = i;
  correct = none;
  score = none;
  answered_at = none;
}

abbrev open_one : Session
open_one = record {
  id = 9;
  user_id = 7;
  deck_id = 2;
  mode = review;
  status = active;
  card_limit = 2;
  time_limit_s = none;
  created_at = 0;
  ended_at = none;
  expires_at = 7200;
}

abbrev deck : Deck
deck = record {
  id = 2;
  user_id = 7;
  name = codes "Europe";
  description = none;
  tags = [];
  card_count = 2;
  version = 3;
  source_file = none;
  created_at = 0;
}

abbrev study : Session → Db
study s = record {
  decks = deck ∷ [];
  cards = flashcard 0 (codes "Paris") ∷ flashcard 1 (codes "Rome") ∷ [];
  memory_states = [];
  sessions = s ∷ [];
  session_cards = row 0 ∷ row 1 ∷ [];
  import_jobs = [];
}

keyed : IsKeyed (study open_one).session_cards
unfolding count_if
keyed i = ground arith

linked : IsLinked (study open_one)
unfolding first?
linked = record { keyed = keyed; linked = ground arith }

study-IsReady : IsReady 7 9 7200 (study open_one)
unfolding count_if first?
study-IsReady = record {
  apart = λ i. ground arith;
  lasting = λ i m waiting kept. absurd (ground arith);
  early = omega arith;
}

found :
    (s : Session) → s.id ≡ 9 → s.user_id ≡ 7 → first? (is_session 7 9) (study s).sessions ≡ some s
unfolding first?
found s h k = ground arith

first_answer :
    (r : AnswerResult) × ((answer_card ascii 7 9 (codes "paris") 10 (study open_one)).0 ≡ ok r)
first_answer =
    answer_card-succeeds ascii 7 9 (codes "paris") 10 (study open_one) open_one linked study-IsReady
      (found open_one refl refl) refl (omega arith) (omega arith) (unfold count_if in omega arith)

answer_progress_example :
    let db' = (answer_card ascii 7 9 (codes "paris") 10 (study open_one)).1 in
    (count_if (pending 9) db'.session_cards + 1
      ≡ count_if (pending 9) (study open_one).session_cards)
    × (count_if (done 9) db'.session_cards ≡ count_if (done 9) (study open_one).session_cards + 1)
    × (first_answer.0.cards_done ≡ count_if (done 9) db'.session_cards)
    × (first_answer.0.score ≤ 5)
    × (first_answer.0.is_correct ≡ leb passing_score first_answer.0.score)
    × (status_of 7 9 db'
        ≡ some (if count_if (pending 9) db'.session_cards == 0 then ended else active))
answer_progress_example =
    answer_progress ascii 7 9 (codes "paris") 10 (study open_one) first_answer.0 keyed
      first_answer.1

answers_end_session_example :
    let db' =
      answer_all ascii 7 9 ((codes "paris", 10) ∷ (codes "Oslo", 20) ∷ []) (study open_one) in
    (status_of 7 9 db' ≡ some ended)
    × (count_if (pending 9) db'.session_cards ≡ 0)
    × (count_if (done 9) db'.session_cards ≡ count_if (done 9) (study open_one).session_cards + 2)
answers_end_session_example =
    answers_end_session ascii 7 9 ((codes "paris", 10) ∷ (codes "Oslo", 20) ∷ []) (study open_one)
      open_one linked study-IsReady (found open_one refl refl) refl (omega arith) (omega arith)
      (unfold count_if in refl)

skip_ok : (skip_card 7 9 10 (study open_one)).0 ≡ ok (some (flashcard 1 (codes "Rome")))
unfolding skip_card load_session require_open move_behind next_pending lowest select first?
    position_after update_if
skip_ok = refl

skip_moves_behind_example :
    let rows' = (skip_card 7 9 10 (study open_one)).1.session_cards in
    (c : SessionCard) × (last : ℕ) × (next_pending 9 (study open_one).session_cards ≡ some c)
    × (count_if (pending 9) rows' ≡ count_if (pending 9) (study open_one).session_cards)
    × (count_if (done 9) rows' ≡ count_if (done 9) (study open_one).session_cards)
    × All
        (λ (d : SessionCard).
          ((d.id ≡ c.id) × (d.position ≡ last))
          ⊎ ((d.id ≢ c.id) × (d.position < last) × Has d (study open_one).session_cards))
        (select (pending 9) rows')
skip_moves_behind_example =
    skip_moves_behind 7 9 10 (study open_one) (some (flashcard 1 (codes "Rome"))) skip_ok

abbrev over_one : Session
over_one = record open_one { status = ended; ended_at = some 50 }

call_when_over_example :
    call ascii 7 9 (answer (codes "Paris")) 60 (study over_one)
    ≡ (err session_already_ended, study over_one)
call_when_over_example =
    call_when_over ascii 7 9 (answer (codes "Paris")) 60 (study over_one) over_one
      (found over_one refl refl) refl

call_by_other_example :
    call ascii 8 9 skip 10 (study open_one) ≡ (err session_not_found, study open_one)
call_by_other_example =
    call_by_other ascii 8 9 skip 10 (study open_one) open_one (λ i. unfold count_if in ground arith)
      (unfold first? in refl) (omega arith)

abbrev calls : List Call
calls =
    record { caller = 7; target = 9; op = stop; moment = 60 }
    ∷ record { caller = 8; target = 9; op = answer (codes "Rome"); moment = 61 }
    ∷ []

over_for_good_example : status_of 7 9 (call_all ascii calls (study over_one)) ≡ some ended
over_for_good_example =
    over_for_good ascii 7 9 calls (study over_one) over_one (found over_one refl refl) refl

expiry_rolled_back_example :
    (status_of 7 9 (answer_card ascii 7 9 (codes "Rome") 8000 (study open_one)).1 ≡ some ended)
    × (status_of 7 9 (skip_card 7 9 8000 (study open_one)).1 ≡ some ended)
    × (status_of 7 9 (get_session 7 9 8000 (study open_one)).1 ≡ some ended)
    × (request (answer_card ascii 7 9 (codes "Rome") 8000) (study open_one)
        ≡ (err session_already_ended, study open_one))
    × (request (skip_card 7 9 8000) (study open_one) ≡ (err session_already_ended, study open_one))
    × (request (get_session 7 9 8000) (study open_one)
        ≡ (err session_already_ended, study open_one))
    × (status_of 7 9 (study open_one) ≡ some active)
expiry_rolled_back_example =
    expiry_rolled_back ascii 7 9 (codes "Rome") 8000 (study open_one) open_one
      (found open_one refl refl) refl (omega arith)

abbrev wish : SessionStart
wish = record {
  deck_id = 2;
  mode = review;
  card_limit = some 1;
  due_only = false;
  focus_weak = false;
  time_limit_s = none;
}

start_ok :
    (start_session (λ cs. cs) 11 (λ i. 200 + i) 7 wish 100 (study open_one)).0
    ≡ ok (record {
      session_id = 11;
      status = active;
      cards_total = 1;
      cards_done = 0;
      current_card = some (flashcard 0 (codes "Paris"));
      expires_at = 7300;
    })
unfolding start_session open_session chosen select first?
start_ok = refl

start_session_rows_example :
    let db' = (start_session (λ cs. cs) 11 (λ i. 200 + i) 7 wish 100 (study open_one)).1 in
    (status_of 7 11 db' ≡ some active)
    × (◌≡◌ {A = ℕ} 1 (length (chosen (λ cs. cs) 7 wish 100 (study open_one))))
    × (count_if (pending 11) db'.session_cards ≡ 1)
    × (count_if (done 11) db'.session_cards ≡ 0)
    × (◌≡◌ {A = ℕ} 0 0)
start_session_rows_example =
    start_session_rows (λ cs. cs) 11 (λ i. 200 + i) 7 wish 100 (study open_one) _
      (record { no_session = unfold count_if in refl; no_card = unfold count_if in refl }) start_ok

chosen_cards_example :
    let cards = chosen (λ cs. cs) 7 wish 100 (study open_one) in
    All
      (λ (c : Flashcard).
        Has c (study open_one).cards
        × (c.deck_id ≡ 2)
        × ((wish.due_only ≡ false) ⊎ (is_due 7 100 (study open_one) c ≡ true)))
      cards
    × Within (some 1) (length cards)
chosen_cards_example = chosen_cards (λ cs. cs) 7 wish 100 (study open_one) (λ cs a h. h)

evaluate_answer_range_example :
    let score = evaluate_answer ascii (codes "paris") capital in
    (score ≤ 5)
    × ((ascii.lower (codes "paris") ≢ ascii.lower capital) ⊎ (score ≡ 5))
    × ((score ≡ 0) ↔ (
        (ascii.lower (codes "paris") ≢ ascii.lower capital)
        × (common_words ascii (codes "paris") capital ≡ [])))
evaluate_answer_range_example = evaluate_answer_range ascii (codes "paris") capital
