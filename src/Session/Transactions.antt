-- ===== src/Session/Transactions.antt =====
-- The calls of the session service inside the transaction that `get_db` puts around a request.
use mnemo_api.Prelude.{
  ◌==◌, first?, first?-holds, first?-update, Text, Unicode, ℕ, ◌<◌, ◌≡◌, refl, some, arith,
}
use mnemo_api.Models.{active, ended, Session, Db}
use mnemo_api.Exec.{session_already_ended, err, request}
use mnemo_api.Session.{
  is_session, write_session, close, load_session, require_open, answer_card, skip_card,
}
use mnemo_api.Session.Views.{get_session}
use mnemo_api.Session.Progress.{status_of}

closes_expired :
    (user_id session_id now : ℕ) (db : Db) (s : Session)
    → first? (is_session user_id session_id) db.sessions ≡ some s
    → status_of user_id session_id (write_session s.id close db) ≡ some ended
closes_expired user_id session_id now db s found =
    let here = first?-holds (is_session user_id session_id) db.sessions s found in
    let same : s.id ≡ session_id = ground arith in
    rw (
      first?-update (is_session user_id session_id) (λ (x : Session). x.id == s.id) close
          db.sessions (λ x. refl) (λ x h. ground arith),
      found,
    )

-- On an open session that has expired, an answer, a skip and a query all raise
-- SessionAlreadyEnded; each has closed the session before, but the transaction of the request is
-- rolled back, so that the tables are as they were and the session is still open.
pub expiry_rolled_back :
    (u : Unicode) (user_id session_id : ℕ) (answer : Text) (now : ℕ) (db : Db) (s : Session)
    → first? (is_session user_id session_id) db.sessions ≡ some s
    → s.status ≡ active
    → s.expires_at < now
    → (status_of user_id session_id (answer_card u user_id session_id answer now db).1 ≡ some ended)
      × (status_of user_id session_id (skip_card user_id session_id now db).1 ≡ some ended)
      × (status_of user_id session_id (get_session user_id session_id now db).1 ≡ some ended)
      × (request (answer_card u user_id session_id answer now) db ≡ (err session_already_ended, db))
      × (request (skip_card user_id session_id now) db ≡ (err session_already_ended, db))
      × (request (get_session user_id session_id now) db ≡ (err session_already_ended, db))
      × (status_of user_id session_id db ≡ some active)
unfolding request answer_card skip_card get_session load_session require_open
expiry_rolled_back u user_id session_id answer now db s found open_ late =
    let gone = closes_expired user_id session_id now db s found in
    (
      ground (arith, gone),
      ground (arith, gone),
      ground (arith, gone),
      ground arith,
      ground arith,
      ground arith,
      ground arith,
    )
