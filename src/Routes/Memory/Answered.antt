-- ===== src/Routes/Memory/Answered.antt =====
-- Answers outside of sessions reach the list of due cards.
use mnemo_api.Prelude.{
  leb, ◌==◌, ==_iff, ==_refl, Bool-cases, Option-cases, select, update_if, first?, first?-holds,
  Has, first?-Has, select-Has, ℕ, ◌+◌, ◌*◌, ◌≤◌, ◌<◌, ◌≡◌, refl, sym, ap, subst, ◌∙◌, ◌⊎◌, inl, inr,
  Bool, true, false, ◌&&◌, some, List, [], ◌∷◌, ◌++◌, arith,
}
use mnemo_api.Models.{Flashcard, CardMemoryState, Db}
use mnemo_api.Exec.{ok}
use mnemo_api.Auth.{internal_error, Access, granted, denied}
use mnemo_api.SpacedRepetition.{
  seconds_per_day, current_interval, max_instant, update_memory_state_after_answer, is_row,
  new_state, get_or_create_memory_state,
}
use mnemo_api.SpacedRepetition.Order.{update-IsDueOrLate}
use mnemo_api.SpacedRepetition.Queries.{
  Entry, join_cards, insert_by, sort_by, due_until, due_time, get_due_cards,
}
use mnemo_api.Routes.Memory.{
  state_or_missing, localized, write_state, score_state, answer_card_route, get_due_cards_for_user,
}

Has-written :
    {A : Type 0} (q : A → Bool) (f : A → A) (xs : List A) (x : A)
    → Has x xs
    → q x ≡ true
    → Has (f x) (update_if q f xs)
unfolding update_if
Has-written q f [] x h hit = elim h [ ]
Has-written q f (y ∷ ys) x (inl e) hit = inl (ground (arith, ap q e, hit, e))
Has-written q f (y ∷ ys) x (inr h) hit = inr (Has-written q f ys x h hit)

Has_last : {A : Type 0} (xs : List A) (x : A) → Has x (xs ++ x ∷ [])
Has_last [] x = inl refl
Has_last (y ∷ ys) x = inr (Has_last ys x)

Has-join_cards :
    (cards : List Flashcard) (ms : List CardMemoryState) (m : CardMemoryState) (c : Flashcard)
    → Has m ms
    → first? (λ (x : Flashcard). x.id == m.card_id) cards ≡ some c
    → Has (m, c) (join_cards cards ms)
unfolding join_cards
Has-join_cards cards [] m c h found = elim h [ ]
Has-join_cards cards (n ∷ ms) m c (inl e) found =
    let same : first? (λ (x : Flashcard). x.id == n.card_id) cards ≡ some c =
      subst (λ (k : CardMemoryState). first? (λ (x : Flashcard). x.id == k.card_id) cards ≡ some c)
        e found in
    rw (same, join_cards) (inl (ap (λ k. (k, c)) e))
Has-join_cards cards (n ∷ ms) m c (inr h) found =
    elim (Option-cases (first? (λ (x : Flashcard). x.id == n.card_id) cards)) [
      | inl missing ↦ rw (missing, join_cards) (Has-join_cards cards ms m c h found)
      | inr (d, there) ↦ rw (there, join_cards) (inr (Has-join_cards cards ms m c h found))
    ]

Has-insert_by :
    (key : CardMemoryState → ℕ) (e f : Entry) (es : List Entry)
    → (e ≡ f) ⊎ Has e es
    → Has e (insert_by key f es)
unfolding insert_by
Has-insert_by key e f [] h = h
Has-insert_by key e f (g ∷ gs) h = elim (Bool-cases (leb (key f.0) (key g.0))) [
  | inl le ↦ rw (le, insert_by) h
  | inr gt ↦
      rw (gt, insert_by)
        (elim h [
          | inl same ↦ inr (Has-insert_by key e f gs (inl same))
          | inr (inl first) ↦ inl first
          | inr (inr later) ↦ inr (Has-insert_by key e f gs (inr later))
        ])
]

Has-sort_by :
    (key : CardMemoryState → ℕ) (e : Entry) (es : List Entry) → Has e es → Has e (sort_by key es)
unfolding sort_by
Has-sort_by key e [] h = elim h [ ]
Has-sort_by key e (f ∷ es) (inl same) = Has-insert_by key e f (sort_by key es) (inl same)
Has-sort_by key e (f ∷ es) (inr h) =
    Has-insert_by key e f (sort_by key es) (inr (Has-sort_by key e es h))

-- The row that an answer loads is in the table after it, with the user and the card.
loaded :
    (user_id card_id : ℕ) (db : Db) (c : Flashcard)
    → first? (λ (x : Flashcard). x.id == card_id) db.cards ≡ some c
    → (m : CardMemoryState) × (db' : Db) × (get_or_create_memory_state card_id user_id db
        ≡ (ok (some m), db'))
      × Has m db'.memory_states
      × (is_row card_id user_id m ≡ true)
      × (db'.cards ≡ db.cards)
unfolding get_or_create_memory_state
loaded user_id card_id db c found =
    elim (Option-cases (first? (is_row card_id user_id) db.memory_states)) [
      | inl missing ↦
          let m = new_state card_id user_id in
          (
            m,
            record db { memory_states = db.memory_states ++ m ∷ [] },
            ground (arith, found, missing),
            Has_last db.memory_states m,
            ground (arith, ==_refl card_id, ==_refl user_id),
            refl,
          )
      | inr (m, there) ↦ (
        m,
        db,
        ground (arith, found, there),
        first?-Has (is_row card_id user_id) db.memory_states m there,
        first?-holds (is_row card_id user_id) db.memory_states m there,
        refl,
      )
    ]

module _ (user_id card_id score now : ℕ) where
  abbrev answered : CardMemoryState → CardMemoryState
  answered m = (update_memory_state_after_answer score now m).1

  keeps_key :
      (m : CardMemoryState)
      → ((answered m).card_id ≡ m.card_id) × ((answered m).user_id ≡ m.user_id)
  unfolding update_memory_state_after_answer
  keeps_key m = ground arith

  -- The answer is granted, and the card stands in the list of due cards at the time that it sets.
  abbrev pub IsListed : CardMemoryState → Flashcard → ℕ → Access CardMemoryState × Db → Type 0
  IsListed m c due (r, db') =
      (entries : List Entry) × (r ≡ granted (answered m))
      × ((answered m).due_at ≡ some due)
      × (get_due_cards_for_user user_id user_id due db' ≡ granted entries)
      × Has (answered m, c) entries

  -- What becomes of an answer to the card whose memory state is loaded, or made: the new due date is within the range of `datetime`, in UTC and in
  -- the user's zone, and the card is listed at that time; or it is not, the reply is the status
  -- 500, and nothing is changed.
  abbrev pub IsAnswered : (ℕ → Bool) → Db → Flashcard → Access CardMemoryState × Db → Type 0
  IsAnswered has_local db c r =
      (m : CardMemoryState) × ((get_or_create_memory_state card_id user_id db).0 ≡ ok (some m))
      × (let due = now + current_interval (answered m).interval_days * seconds_per_day in
          ((due ≤ max_instant) × (has_local due ≡ true) × IsListed m c due r)
          ⊎ (((max_instant < due) ⊎ (has_local due ≡ false))
              × (r ≡ (denied 500 internal_error, db))))

  listed :
      (db' : Db) (m : CardMemoryState) (c : Flashcard) (due : ℕ)
      → Has m db'.memory_states
      → is_row card_id user_id m ≡ true
      → (answered m).due_at ≡ some due
      → first? (λ (x : Flashcard). x.id == card_id) db'.cards ≡ some c
      → IsListed m c due (
        granted (answered m),
        record db' {
          memory_states = update_if (is_row card_id user_id) answered db'.memory_states;
        },
      )
  unfolding get_due_cards_for_user get_due_cards
  listed db' m c due here key sets found =
      let (card_kept, user_kept) = keeps_key m in
      let written = record db' {
        memory_states = update_if (is_row card_id user_id) answered db'.memory_states;
      } in
      let is_due = λ (x : CardMemoryState). x.user_id == user_id && due_until due x in
      let chosen =
        select-Has is_due written.memory_states (answered m)
          (Has-written (is_row card_id user_id) answered db'.memory_states m here key)
          (ground (arith, key, user_kept, sets)) in
      let same : (answered m).card_id ≡ card_id =
        card_kept ∙ (==_iff m.card_id card_id).0 (ground (arith, key)) in
      let card : first? (λ (x : Flashcard). x.id == (answered m).card_id) db'.cards ≡ some c =
        ap (λ n. first? (λ (x : Flashcard). x.id == n) db'.cards) same ∙ found in
      let in_table =
        Has-join_cards db'.cards (select is_due written.memory_states) (answered m) c chosen card in
      (
        get_due_cards user_id due written,
        refl,
        sets,
        ground (arith, ==_refl user_id),
        Has-sort_by due_time (answered m, c)
            (join_cards db'.cards (select is_due written.memory_states)) in_table,
      )

  -- The route on a row that is loaded.
  route-loaded :
      (has_local : ℕ → Bool) (db db' : Db) (m : CardMemoryState) (c : Flashcard)
      → get_or_create_memory_state card_id user_id db ≡ (ok (some m), db')
      → Has m db'.memory_states
      → is_row card_id user_id m ≡ true
      → first? (λ (x : Flashcard). x.id == card_id) db'.cards ≡ some c
      → IsAnswered has_local db c (answer_card_route has_local user_id card_id score now db)
  unfolding answer_card_route
  route-loaded has_local db db' m c loads here key found =
      let due = now + current_interval (answered m).interval_days * seconds_per_day in
      let written = record db' {
        memory_states = update_if (is_row card_id user_id) answered db'.memory_states;
      } in
      let end : Access CardMemoryState × Db → Access CardMemoryState × Db =
        λ r. localized has_local db r in
      let scored : answer_card_route has_local user_id card_id score now db
          ≡ end (
              write_state user_id card_id score now (update_memory_state_after_answer score now m)
                db') =
        ap (λ r. end (score_state user_id card_id score now (state_or_missing r))) loads in
      elim (update-IsDueOrLate m score now) [
        | inr late ↦
            let fails : answer_card_route has_local user_id card_id score now db
                ≡ (denied 500 internal_error, db) =
              scored
              ∙ ap (λ r. end (write_state user_id card_id score now (r, answered m) db')) late.1 in
            (m, ap (λ r. r.0) loads, inr (inl late.0, fails))
        | inl in_range ↦
            let stored : answer_card_route has_local user_id card_id score now db
                ≡ end (granted (answered m), written) =
              scored
              ∙ ap (λ r. end (write_state user_id card_id score now (r, answered m) db'))
                  in_range.1 in
            elim (Bool-cases (has_local due)) [
              | inl there ↦
                  let shown : end (granted (answered m), written)
                      ≡ (granted (answered m), written) =
                    ground (arith, in_range.2, there) in
                  (
                    m,
                    ap (λ r. r.0) loads,
                    inl (
                      in_range.0,
                      there,
                      subst (IsListed m c due) (sym (stored ∙ shown))
                          (listed db' m c due here key in_range.2 found),
                    ),
                  )
              | inr beyond ↦
                  let hidden : end (granted (answered m), written)
                      ≡ (denied 500 internal_error, db) =
                    ground (arith, in_range.2, beyond) in
                  (m, ap (λ r. r.0) loads, inr (inr beyond, stored ∙ hidden))
            ]
      ]

  -- A user may answer any stored card, whoever owns its deck: at the time that the answer sets, the
  -- card stands in the user's list of due cards, unless that time is past the range of `datetime`,
  -- in UTC or in the user's zone, and then the reply is the status 500 and no table changes.
  pub answer_card-IsAnswered :
      (has_local : ℕ → Bool) (db : Db) (c : Flashcard)
      → first? (λ (x : Flashcard). x.id == card_id) db.cards ≡ some c
      → IsAnswered has_local db c (answer_card_route has_local user_id card_id score now db)
  answer_card-IsAnswered has_local db c found =
      let (m, db', loads, here, key, cards) = loaded user_id card_id db c found in
      route-loaded has_local db db' m c loads here key
        (ap (first? (λ (x : Flashcard). x.id == card_id)) cards ∙ found)
