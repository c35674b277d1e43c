-- ===== src/Session/Ended.antt =====
-- Sessions as state machines: an ended session stays as it is, and a session is its user's alone.
use mnemo_api.Prelude.{
  ◌==◌, if◌then◌else◌, ==_iff, Bool-cases, Option-cases, update_if, first?, count_if, count_if-none,
  first?-none, first?-update_any, Text, Unicode, ℕ, ◌≤◌, ◌≡◌, refl, ap, ◌≢◌, ◌⊎◌, inl, inr, some,
  List, [], ◌∷◌, arith,
}
use mnemo_api.Models.{Flashcard, ended, Session, SessionCard, Db}
use mnemo_api.Exec.{session_not_found, session_already_ended, Result, ok, err, Exec}
use mnemo_api.Session.{
  is_session, next_pending, card_of, close, close_at, load_session, require_open, current_card,
  check_length, score_card, answer_card, move_behind, skip_card, finish, end_session,
}
use mnemo_api.Session.Views.{get_session, get_session_summary}
use mnemo_api.Session.Progress.{status_of, sessions-score_card_cases}

-- The calls of the service on an existing session.
pub data Op : Type 0 where
  answer : Text → Op
  skip stop look report : Op

-- What a call leaves of the exception and the tables.
abbrev pub forget : {A : Type 0} → Result A × Db → Result (Unit {0}) × Db
forget (ok _, db) = (ok tt, db)
forget (err e, db) = (err e, db)

pub call : Unicode → ℕ → ℕ → Op → ℕ → Exec Db (Unit {0})
call u user_id session_id (answer text) now db =
    forget (answer_card u user_id session_id text now db)
call u user_id session_id skip now db = forget (skip_card user_id session_id now db)
call u user_id session_id stop now db = forget (end_session user_id session_id now db)
call u user_id session_id look now db = forget (get_session user_id session_id now db)
call u user_id session_id report now db = forget (get_session_summary user_id session_id db)

-- How the calls on a session that is over come back.
abbrev pub reply_when_over : Op → Result (Unit {0})
reply_when_over (answer text) = err session_already_ended
reply_when_over skip = err session_already_ended
reply_when_over stop = ok tt
reply_when_over look = ok tt
reply_when_over report = ok tt

-- On a session that is over, answers and skips raise SessionAlreadyEnded, the other calls succeed,
-- and no call changes any table, the time of the first end included.
pub call_when_over :
    (u : Unicode) (user_id session_id : ℕ) (op : Op) (now : ℕ) (db : Db) (s : Session)
    → first? (is_session user_id session_id) db.sessions ≡ some s
    → s.status ≡ ended
    → call u user_id session_id op now db ≡ (reply_when_over op, db)
unfolding call answer_card skip_card end_session get_session get_session_summary load_session
    require_open finish
call_when_over u user_id session_id (answer text) now db s found over = ground arith
call_when_over u user_id session_id skip now db s found over = ground arith
call_when_over u user_id session_id stop now db s found over = ground arith
call_when_over u user_id session_id look now db s found over = ground arith
call_when_over u user_id session_id report now db s found over = ground arith

-- With no row for the user and the identifier, every call raises SessionNotFound.
call_on_missing :
    (u : Unicode) (user_id session_id : ℕ) (op : Op) (now : ℕ) (db : Db)
    → count_if (is_session user_id session_id) db.sessions ≡ 0
    → call u user_id session_id op now db ≡ (err session_not_found, db)
unfolding call answer_card skip_card end_session get_session get_session_summary load_session
call_on_missing u user_id session_id (answer text) now db h =
    ground (arith, first?-none (is_session user_id session_id) db.sessions h)
call_on_missing u user_id session_id skip now db h =
    ground (arith, first?-none (is_session user_id session_id) db.sessions h)
call_on_missing u user_id session_id stop now db h =
    ground (arith, first?-none (is_session user_id session_id) db.sessions h)
call_on_missing u user_id session_id look now db h =
    ground (arith, first?-none (is_session user_id session_id) db.sessions h)
call_on_missing u user_id session_id report now db h =
    ground (arith, first?-none (is_session user_id session_id) db.sessions h)

-- The primary key of `sessions`.
abbrev pub SessionsKeyed : List Session → Type 0
SessionsKeyed ss = (i : ℕ) → count_if (λ (s : Session). s.id == i) ss ≤ 1

count-is_session :
    (user_id session_id : ℕ) (ss : List Session)
    → count_if (is_session user_id session_id) ss
      ≤ count_if (λ (s : Session). s.id == session_id) ss
unfolding count_if
count-is_session user_id session_id [] = omega arith
count-is_session user_id session_id (s ∷ ss) =
    ground (arith, count-is_session user_id session_id ss)

count-foreign :
    (user_id session_id : ℕ) (ss : List Session) (s : Session)
    → count_if (λ (x : Session). x.id == session_id) ss ≤ 1
    → first? (λ (x : Session). x.id == session_id) ss ≡ some s
    → s.user_id ≢ user_id
    → count_if (is_session user_id session_id) ss ≡ 0
unfolding count_if first?
count-foreign user_id session_id [] s one found other = refl
count-foreign user_id session_id (x ∷ xs) s one found other =
    elim (Bool-cases (x.id == session_id)) [
      | inl here ↦ ground (arith, count-is_session user_id session_id xs)
      | inr later ↦ ground (arith, count-foreign user_id session_id xs s)
    ]

-- Where sessions have identifiers of their own, every call on a stored session by a user who is
-- not the one in its row raises SessionNotFound and changes nothing.
pub call_by_other :
    (u : Unicode) (user_id session_id : ℕ) (op : Op) (now : ℕ) (db : Db) (s : Session)
    → SessionsKeyed db.sessions
    → first? (λ (x : Session). x.id == session_id) db.sessions ≡ some s
    → s.user_id ≢ user_id
    → call u user_id session_id op now db ≡ (err session_not_found, db)
call_by_other u user_id session_id op now db s keyed found other =
    call_on_missing u user_id session_id op now db
      (count-foreign user_id session_id db.sessions s (keyed session_id) found other)

-- A call touches the sessions only by closing one.
abbrev Closes : ℕ → ℕ → List Session → List Session → Type 0
Closes id now xs ys =
    (ys ≡ xs)
    ⊎ ((ys ≡ update_if (λ (s : Session). s.id == id) close xs)
        ⊎ (ys ≡ update_if (λ (s : Session). s.id == id) (close_at now) xs))

score_card-Closes :
    (u : Unicode) (user_id : ℕ) (s : Session) (c : SessionCard) (f : Flashcard) (text : Text)
    (now : ℕ) (db : Db)
    → Closes s.id now db.sessions (score_card u user_id s (c, f) text now db).1.sessions
score_card-Closes u user_id s c f text now db =
    ground (arith, sessions-score_card_cases u user_id s c f text now db)

answer-Closes :
    (u : Unicode) (user_id session_id : ℕ) (text : Text) (now : ℕ) (db : Db) (s : Session)
    → first? (is_session user_id session_id) db.sessions ≡ some s
    → Closes s.id now db.sessions (answer_card u user_id session_id text now db).1.sessions
unfolding answer_card load_session require_open check_length current_card
answer-Closes u user_id session_id text now db s found =
    elim (Option-cases (next_pending s.id db.session_cards)) [
      | inl empty ↦ ground arith
      | inr (c, next) ↦ elim (Option-cases (card_of c db)) [
        | inl dangling ↦ ground arith
        | inr (f, card) ↦ ground (arith, score_card-Closes u user_id s c f text now db)
      ]
    ]

call-Closes_found :
    (u : Unicode) (user_id session_id : ℕ) (op : Op) (now : ℕ) (db : Db) (s : Session)
    → first? (is_session user_id session_id) db.sessions ≡ some s
    → Closes s.id now db.sessions (call u user_id session_id op now db).1.sessions
unfolding call skip_card end_session get_session get_session_summary load_session require_open
    finish move_behind
call-Closes_found u user_id session_id (answer text) now db s found =
    ground (arith, answer-Closes u user_id session_id text now db s found)
call-Closes_found u user_id session_id skip now db s found = ground arith
call-Closes_found u user_id session_id stop now db s found = ground arith
call-Closes_found u user_id session_id look now db s found = ground arith
call-Closes_found u user_id session_id report now db s found = ground arith

Closes-over :
    (id now user_id session_id : ℕ) (xs ys : List Session) (s : Session)
    → Closes id now xs ys
    → first? (is_session user_id session_id) xs ≡ some s
    → s.status ≡ ended
    → (t : Session) × (first? (is_session user_id session_id) ys ≡ some t) × (t.status ≡ ended)
Closes-over id now user_id session_id xs ys s (inl e) found over = (s, rw e found, over)
Closes-over id now user_id session_id xs ys s (inr (inl e)) found over =
    let touched = λ (x : Session). x.id == id in
    let moved = first?-update_any (is_session user_id session_id) touched close xs (λ x. refl) in
    ((if s.id == id then close s else s), rw e (rw (moved, found)), ground arith)
Closes-over id now user_id session_id xs ys s (inr (inr e)) found over =
    let touched = λ (x : Session). x.id == id in
    let moved =
      first?-update_any (is_session user_id session_id) touched (close_at now) xs (λ x. refl) in
    ((if s.id == id then close_at now s else s), rw e (rw (moved, found)), ground arith)

-- A call by some user on some session at some time.
pub record Call : Type 0 where
  pub caller : ℕ
  pub target : ℕ
  pub op : Op
  pub moment : ℕ

abbrev pub call_all : Unicode → List Call → Db → Db
call_all u [] db = db
call_all u (c ∷ cs) db = call_all u cs (call u c.caller c.target c.op c.moment db).1

call_keeps_over :
    (u : Unicode) (user_id session_id : ℕ) (c : Call) (db : Db) (s : Session)
    → first? (is_session user_id session_id) db.sessions ≡ some s
    → s.status ≡ ended
    → (t : Session) × (first?
          (is_session user_id session_id)
          (call u c.caller c.target c.op c.moment db).1.sessions
        ≡ some t)
      × (t.status ≡ ended)
call_keeps_over u user_id session_id c db s found over =
    elim (Bool-cases (count_if (is_session c.caller c.target) db.sessions == 0)) [
      | inl nobody ↦
          let none_there =
            (==_iff (count_if (is_session c.caller c.target) db.sessions) 0).0 nobody in
          rw (call_on_missing u c.caller c.target c.op c.moment db none_there) (s, found, over)
      | inr somebody ↦ elim (Option-cases (first? (is_session c.caller c.target) db.sessions)) [
        | inl missing ↦
            absurd
              (ground (arith, count_if-none (is_session c.caller c.target) db.sessions missing))
        | inr (x, here) ↦
            Closes-over x.id c.moment user_id session_id db.sessions
              (call u c.caller c.target c.op c.moment db).1.sessions s
              (call-Closes_found u c.caller c.target c.op c.moment db x here) found over
      ]
    ]

-- An ended session stays ended, whatever calls whoever makes on whichever sessions.
pub over_for_good :
    (u : Unicode) (user_id session_id : ℕ) (calls : List Call) (db : Db) (s : Session)
    → first? (is_session user_id session_id) db.sessions ≡ some s
    → s.status ≡ ended
    → status_of user_id session_id (call_all u calls db) ≡ some ended
over_for_good u user_id session_id [] db s found over = rw found (ap some over)
over_for_good u user_id session_id (c ∷ cs) db s found over =
    let (t, found', over') = call_keeps_over u user_id session_id c db s found over in
    over_for_good u user_id session_id cs (call u c.caller c.target c.op c.moment db).1 t found'
      over'
