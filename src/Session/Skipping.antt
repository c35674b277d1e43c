-- ===== src/Session/Skipping.antt =====
-- `skip_card` moves the current card behind all the other cards of its session.
use mnemo_api.Prelude.{
  ◌==◌, Bool-cases, Option-cases, All, select, update_if, first?, count_if, first?-holds,
  count_if-update, All-map, Has, Has-select, select-Has, Has-update_if, All-Has, All-intro, another,
  ℕ, ◌<◌, ◌≡◌, refl, ◌≢◌, ◌⊎◌, inl, inr, true, Option, some, List, [], ◌∷◌, arith,
}
use mnemo_api.Models.{Flashcard, SessionCard, Db}
use mnemo_api.Exec.{ok}
use mnemo_api.Session.{
  is_session, of_session, pending, done, lowest, next_pending, load_session, require_open,
  position_after, put_last, move_behind, skip_card,
}
use mnemo_api.Session.Rows.{IsKeyed, lowest-Has, lowest-le, next_pending-none_iff, update-IsKeyed}

position_after-lt :
    (rows : List SessionCard) → All (λ (c : SessionCard). c.position < position_after rows) rows
unfolding position_after
position_after-lt [] = tt
position_after-lt (c ∷ rows) = (
  omega arith,
  All-map (λ (d : SessionCard). d.position < position_after rows) _ rows (λ d h. omega arith)
      (position_after-lt rows),
)

-- What a successful skip has found, and the rows that it leaves.
skip_card-ok :
    (user_id session_id now : ℕ) (db : Db) (r : Option Flashcard)
    → (skip_card user_id session_id now db).0 ≡ ok r
    → (c : SessionCard) × (next_pending session_id db.session_cards ≡ some c)
      × ((skip_card user_id session_id now db).1.session_cards
          ≡ update_if
              (λ (d : SessionCard). d.id == c.id)
              (put_last (position_after (select (of_session session_id) db.session_cards)))
              db.session_cards)
unfolding skip_card load_session require_open move_behind
skip_card-ok user_id session_id now db r h =
    elim (Option-cases (first? (is_session user_id session_id) db.sessions)) [
      | inl missing ↦ absurd (ground arith)
      | inr (s, found) ↦
          let here = first?-holds (is_session user_id session_id) db.sessions s found in
          let same : s.id ≡ session_id = ground arith in
          elim (Option-cases (next_pending s.id db.session_cards)) [
            | inl empty ↦ absurd (ground arith)
            | inr (c, next) ↦ (c, rw (← same) next, rw (← same) (ground arith))
          ]
    ]

-- A row after a skip: the moved one at the last position, or an old one that stands before it.
moved :
    (session_id : ℕ) (rows : List SessionCard) (c d : SessionCard)
    → let last = position_after (select (of_session session_id) rows) in
      Has d (
        select
          (pending session_id)
          (update_if (λ (x : SessionCard). x.id == c.id) (put_last last) rows))
      → ((d.id ≡ c.id) × (d.position ≡ last)) ⊎ ((d.id ≢ c.id) × (d.position < last) × Has d rows)
moved session_id rows c d h =
    let last = position_after (select (of_session session_id) rows) in
    let touched = λ (x : SessionCard). x.id == c.id in
    let (there, waits) =
      Has-select (pending session_id) (update_if touched (put_last last) rows) d h in
    let (b, k, e) = Has-update_if touched (put_last last) rows d there in
    elim (Bool-cases (b.id == c.id)) [
      | inl hit ↦ inl (ground arith, ground arith)
      | inr miss ↦
          let same : d ≡ b = ground arith in
          let mine : of_session session_id b ≡ true = ground arith in
          let before =
            All-Has (λ (x : SessionCard). x.position < last) (select (of_session session_id) rows) b
              (position_after-lt (select (of_session session_id) rows))
              (select-Has (of_session session_id) rows b k mine) in
          inr (ground arith, rw same before, rw same k)
    ]

-- A successful skip changes neither the number of pending cards nor that of done ones, and puts
-- the card that was current behind every other pending card of the session.
pub skip_moves_behind :
    (user_id session_id now : ℕ) (db : Db) (r : Option Flashcard)
    → (skip_card user_id session_id now db).0 ≡ ok r
    → let rows' = (skip_card user_id session_id now db).1.session_cards in
      (c : SessionCard) × (last : ℕ) × (next_pending session_id db.session_cards ≡ some c)
      × (count_if (pending session_id) rows' ≡ count_if (pending session_id) db.session_cards)
      × (count_if (done session_id) rows' ≡ count_if (done session_id) db.session_cards)
      × All
          (λ (d : SessionCard).
            ((d.id ≡ c.id) × (d.position ≡ last))
            ⊎ ((d.id ≢ c.id) × (d.position < last) × Has d db.session_cards))
          (select (pending session_id) rows')
skip_moves_behind user_id session_id now db r h =
    let (c, next, rows) = skip_card-ok user_id session_id now db r h in
    let last = position_after (select (of_session session_id) db.session_cards) in
    let touched = λ (x : SessionCard). x.id == c.id in
    (
      c,
      last,
      next,
      rw rows (
          count_if-update (pending session_id) touched (put_last last) db.session_cards
            (λ x. refl)),
      rw rows
          (count_if-update (done session_id) touched (put_last last) db.session_cards (λ x. refl)),
      rw rows (All-intro _ _ (λ d k. moved session_id db.session_cards c d k)),
    )

-- The current card after the move, if two cards are pending.
next_after :
    (session_id : ℕ) (rows : List SessionCard) (c : SessionCard)
    → IsKeyed rows
    → 1 < count_if (pending session_id) rows
    → let last = position_after (select (of_session session_id) rows) in
      let rows' = update_if (λ (x : SessionCard). x.id == c.id) (put_last last) rows in
      (d : SessionCard) × (next_pending session_id rows' ≡ some d) × ((d.id ≢ c.id) × Has d rows)
unfolding next_pending
next_after session_id rows c keyed two =
    let last = position_after (select (of_session session_id) rows) in
    let touched = λ (x : SessionCard). x.id == c.id in
    let rows' = update_if touched (put_last last) rows in
    let waiting = select (pending session_id) rows' in
    let same = count_if-update (pending session_id) touched (put_last last) rows (λ x. refl) in
    let one = update-IsKeyed touched (put_last last) rows (λ x. refl) keyed c.id in
    let (e, there, waits, apart) =
      another (pending session_id) touched rows' (omega (arith, same, one)) in
    let mine = select-Has (pending session_id) rows' e there waits in
    elim (Option-cases (lowest waiting)) [
      | inl empty ↦ absurd (ground (arith, same, next_pending-none_iff session_id rows'))
      | inr (d, found) ↦
          let least = All-Has _ waiting e (lowest-le waiting d found) mine in
          elim (moved session_id rows c d (lowest-Has waiting d found)) [
            | inl (hit, at_last) ↦ absurd (ground (arith, moved session_id rows c e mine))
            | inr (miss, before, old) ↦ (d, found, (miss, old))
          ]
    ]

-- With a second pending card, and different identifiers for session cards, a successful skip makes
-- another card current, and its row is as it was.
pub skip_moves_on :
    (user_id session_id now : ℕ) (db : Db) (r : Option Flashcard)
    → IsKeyed db.session_cards
    → (skip_card user_id session_id now db).0 ≡ ok r
    → 1 < count_if (pending session_id) db.session_cards
    → (c d : SessionCard) × (next_pending session_id db.session_cards ≡ some c)
      × (next_pending session_id (skip_card user_id session_id now db).1.session_cards ≡ some d)
      × (d.id ≢ c.id)
      × Has d db.session_cards
skip_moves_on user_id session_id now db r keyed h two =
    let (c, next, rows) = skip_card-ok user_id session_id now db r h in
    let (d, next', apart) = next_after session_id db.session_cards c keyed two in
    (c, d, next, rw rows next', apart.0, apart.1)
