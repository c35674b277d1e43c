-- ===== src/Session/Starts.antt =====
-- What `start_session` sets up.
use mnemo_api.Prelude.{
  ◌==◌, if◌then◌else◌, ==_iff, Option-cases, length, take, All, select, first?, count_if,
  count_if-append, Has, Has-select, All-intro, ℕ, zero, suc, ◌+◌, ◌≤◌, ◌≡◌, refl, ◌⊎◌, inl, inr,
  Bool, true, false, Option, none, some, List, [], ◌∷◌, ◌++◌, arith,
}
use mnemo_api.Models.{Flashcard, active, Session, Db}
use mnemo_api.Exec.{ok}
use mnemo_api.Session.{is_session, of_session, pending, done}
use mnemo_api.Session.Views.{SessionView}
use mnemo_api.Session.Starting.{
  SessionStart, is_deck, is_due, insert_by_ease, sort_by_ease, limited, new_session, numbered,
  chosen, open_session, start_session,
}
use mnemo_api.Session.Progress.{status_of}

count-numbered-pending :
    (ids : ℕ → ℕ) (session_id position : ℕ) (cards : List Flashcard)
    → count_if (pending session_id) (numbered ids session_id position cards) ≡ length cards
unfolding numbered count_if
count-numbered-pending ids session_id position [] = refl
count-numbered-pending ids session_id position (c ∷ cs) =
    ground (arith, count-numbered-pending ids session_id (position + 1) cs)

count-numbered-done :
    (ids : ℕ → ℕ) (session_id position : ℕ) (cards : List Flashcard)
    → count_if (done session_id) (numbered ids session_id position cards) ≡ 0
unfolding numbered count_if
count-numbered-done ids session_id position [] = refl
count-numbered-done ids session_id position (c ∷ cs) =
    ground (arith, count-numbered-done ids session_id (position + 1) cs)

-- No row has a fresh identifier.
pub record IsFresh (session_id : ℕ) (db : Db) : Type 0 where
  pub no_session : count_if (λ (s : Session). s.id == session_id) db.sessions ≡ 0
  pub no_card : count_if (of_session session_id) db.session_cards ≡ 0

count-le :
    {A : Type 0} (p q : A → Bool) (xs : List A)
    → ((x : A) → q x ≡ true → p x ≡ true)
    → count_if q xs ≤ count_if p xs
unfolding count_if
count-le p q [] h = omega arith
count-le p q (x ∷ xs) h = ground (arith, h x, count-le p q xs h)

first?-append {ℓ} :
    {A : Type ℓ} (p : A → Bool) (xs : List A) (x : A)
    → count_if p xs ≡ 0
    → p x ≡ true
    → first? p (xs ++ x ∷ []) ≡ some x
unfolding first? count_if
first?-append p [] x h k = ground arith
first?-append p (y ∷ ys) x h k = ground (arith, first?-append p ys x)

-- If its identifier is new, a started session is open, and has as many pending cards as it reports
-- in all, and none done.
pub start_session_rows :
    (shuffle : List Flashcard → List Flashcard) (session_id : ℕ) (ids : ℕ → ℕ) (user_id : ℕ)
    (start : SessionStart) (now : ℕ) (db : Db) (v : SessionView)
    → IsFresh session_id db
    → (start_session shuffle session_id ids user_id start now db).0 ≡ ok v
    → let db' = (start_session shuffle session_id ids user_id start now db).1 in
      (status_of user_id session_id db' ≡ some active)
      × (v.cards_total ≡ length (chosen shuffle user_id start now db))
      × (count_if (pending session_id) db'.session_cards ≡ v.cards_total)
      × (count_if (done session_id) db'.session_cards ≡ 0)
      × (v.cards_done ≡ 0)
unfolding start_session open_session
start_session_rows shuffle session_id ids user_id start now db v fresh h =
    elim (Option-cases (first? (is_deck user_id start.deck_id) db.decks)) [
      | inl missing ↦ absurd (ground arith)
      | inr (d, found) ↦
          let cards = chosen shuffle user_id start now db in
          let rows = numbered ids session_id 0 cards in
          let mine =
            count-le (λ (s : Session). s.id == session_id) (is_session user_id session_id)
              db.sessions (λ s k. ground arith) in
          let waits =
            count-le (of_session session_id) (pending session_id) db.session_cards
              (λ c k. ground arith) in
          let old =
            count-le (of_session session_id) (done session_id) db.session_cards
              (λ c k. ground arith) in
          let opened =
            first?-append (is_session user_id session_id) db.sessions
              (new_session session_id user_id start now (length cards))
              (omega (arith, mine, fresh.no_session)) (ground arith) in
          (
            ground (arith, opened),
            ground arith,
            ground (
              arith,
              fresh.no_card,
              waits,
              count_if-append (pending session_id) db.session_cards rows,
              count-numbered-pending ids session_id 0 cards,
            ),
            ground (
              arith,
              fresh.no_card,
              old,
              count_if-append (done session_id) db.session_cards rows,
              count-numbered-done ids session_id 0 cards,
            ),
            ground arith,
          )
    ]

Has-insert :
    (user_id : ℕ) (db : Db) (c a : Flashcard) (cs : List Flashcard)
    → Has a (insert_by_ease user_id db c cs)
    → (a ≡ c) ⊎ Has a cs
unfolding insert_by_ease
Has-insert user_id db c a [] h = h
Has-insert user_id db c a (d ∷ ds) h = ground (arith, Has-insert user_id db c a ds)

Has-sort :
    (user_id : ℕ) (db : Db) (a : Flashcard) (cs : List Flashcard)
    → Has a (sort_by_ease user_id db cs)
    → Has a cs
unfolding sort_by_ease
Has-sort user_id db a [] h = h
Has-sort user_id db a (c ∷ cs) h =
    ground (arith, Has-insert user_id db c a (sort_by_ease user_id db cs), Has-sort user_id db a cs)

Has-take : (n : ℕ) (a : Flashcard) (cs : List Flashcard) → Has a (take n cs) → Has a cs
Has-take zero a cs h = elim h [ ]
Has-take (suc n) a [] h = h
Has-take (suc n) a (c ∷ cs) h = ground (arith, Has-take n a cs)

length-take-le : (n : ℕ) (cs : List Flashcard) → length (take n cs) ≤ n
length-take-le zero cs = omega arith
length-take-le (suc n) [] = omega arith
length-take-le (suc n) (c ∷ cs) = omega (arith, length-take-le n cs)

-- A number of cards within the limit of a request, where neither none nor 0 limits it.
abbrev pub Within : Option ℕ → ℕ → Type 0
Within none k = Unit
Within (some zero) k = Unit
Within (some (suc n)) k = k ≤ suc n

Has-limited : (o : Option ℕ) (a : Flashcard) (cs : List Flashcard) → Has a (limited o cs) → Has a cs
Has-limited none a cs h = h
Has-limited (some zero) a cs h = h
Has-limited (some (suc n)) a cs h = Has-take (suc n) a cs (ground arith)

limited-Within : (o : Option ℕ) (cs : List Flashcard) → Within o (length (limited o cs))
limited-Within none cs = tt
limited-Within (some zero) cs = tt
limited-Within (some (suc n)) cs = ground (arith, length-take-le (suc n) cs)

asked-Has :
    (user_id now : ℕ) (db : Db) (due_only : Bool) (all : List Flashcard) (a : Flashcard)
    → Has a (if due_only then select (is_due user_id now db) all else all)
    → Has a all × ((due_only ≡ false) ⊎ (is_due user_id now db a ≡ true))
asked-Has user_id now db true all a h =
    let (k, e) = Has-select (is_due user_id now db) all a h in (k, inr e)
asked-Has user_id now db false all a h = (h, inl refl)

ordered-Has :
    (shuffle : List Flashcard → List Flashcard) (user_id : ℕ) (db : Db) (weak : Bool)
    (asked : List Flashcard) (a : Flashcard)
    → (Has a (shuffle asked) → Has a asked)
    → Has a (if weak then sort_by_ease user_id db asked else shuffle asked)
    → Has a asked
ordered-Has shuffle user_id db true asked a mixed h = Has-sort user_id db a asked h
ordered-Has shuffle user_id db false asked a mixed h = mixed h

-- If the database's random order invents no rows, the cards of a session are cards of the deck
-- that was asked for, all of them due if only due cards were asked for, and within the limit.
pub chosen_cards :
    (shuffle : List Flashcard → List Flashcard) (user_id : ℕ) (start : SessionStart) (now : ℕ)
    (db : Db)
    → ((cs : List Flashcard) (a : Flashcard) → Has a (shuffle cs) → Has a cs)
    → let cards = chosen shuffle user_id start now db in
      All
        (λ (c : Flashcard).
          Has c db.cards
          × (c.deck_id ≡ start.deck_id)
          × ((start.due_only ≡ false) ⊎ (is_due user_id now db c ≡ true)))
        cards
      × Within start.card_limit (length cards)
unfolding chosen
chosen_cards shuffle user_id start now db mixed =
    let of_deck = λ (c : Flashcard). c.deck_id == start.deck_id in
    let all = select of_deck db.cards in
    let asked = if start.due_only then select (is_due user_id now db) all else all in
    let ordered = if start.focus_weak then sort_by_ease user_id db asked else shuffle asked in
    (
      All-intro _ _ (λ a h.
          let k = Has-limited start.card_limit a ordered h in
          let (l, due) =
            asked-Has user_id now db start.due_only all a
              (ordered-Has shuffle user_id db start.focus_weak asked a (mixed asked a) k) in
          let (m, same) = Has-select of_deck db.cards a l in
          (m, (==_iff a.deck_id start.deck_id).0 same, due)),
      limited-Within start.card_limit ordered,
    )
