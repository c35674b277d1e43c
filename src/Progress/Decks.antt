-- ===== src/Progress/Decks.antt =====
-- The deck summaries of a progress report against its totals.
use mnemo_api.Prelude.{
  ◌==◌, if◌then◌else◌, Bool-cases, Option-cases, select, first?, count_if, count_if_mono, ℕ, ◌+◌,
  ◌≤◌, ◌≡◌, refl, ◌∙◌, inl, inr, Bool, true, false, ◌&&◌, Option, none, some, List, [], ◌∷◌, map,
  arith,
}
use mnemo_api.Models.{Flashcard, Deck, CardMemoryState, Db}
use mnemo_api.Deck.{owns}
use mnemo_api.Progress.{
  card_in_scope, state_in_scope, is_due_by, count_due_today, DeckSummary, summary_of,
  deck_summaries_of,
}

abbrev pub sum_of {ℓ} : {A : Type ℓ} → (A → ℕ) → List A → ℕ
sum_of f [] = 0
sum_of f (x ∷ xs) = f x + sum_of f xs

sum_of-zero {ℓ} : {A : Type ℓ} (xs : List A) → sum_of (λ (x : A). 0) xs ≡ 0
sum_of-zero [] = refl
sum_of-zero (x ∷ xs) = omega (arith, sum_of-zero xs)

sum_of-add {ℓ} :
    {A : Type ℓ} (f g : A → ℕ) (xs : List A)
    → sum_of (λ x. f x + g x) xs ≡ sum_of f xs + sum_of g xs
sum_of-add f g [] = refl
sum_of-add f g (x ∷ xs) = omega (arith, sum_of-add f g xs)

sum_of-congr {ℓ} :
    {A : Type ℓ} (f g : A → ℕ) (xs : List A) → ((x : A) → f x ≡ g x) → sum_of f xs ≡ sum_of g xs
sum_of-congr f g [] h = refl
sum_of-congr f g (x ∷ xs) h = omega (arith, h x, sum_of-congr f g xs h)

sum_of-map {ℓ κ} :
    {A : Type ℓ} {B : Type κ} (f : B → ℕ) (g : A → B) (xs : List A)
    → sum_of f (map g xs) ≡ sum_of (λ x. f (g x)) xs
sum_of-map f g [] = refl
sum_of-map f g (x ∷ xs) = omega (arith, sum_of-map f g xs)

-- Among a user's decks, those with an identifier are the ones that the user owns by it.
sum_of-owned :
    (user_id deck_id : ℕ) (decks : List Deck)
    → sum_of
        (λ (d : Deck). if deck_id == d.id then 1 else 0)
        (select (λ (d : Deck). d.user_id == user_id) decks)
      ≡ count_if (owns user_id deck_id) decks
unfolding select count_if
sum_of-owned user_id deck_id [] = refl
sum_of-owned user_id deck_id (d ∷ ds) = ground (arith, sum_of-owned user_id deck_id ds)

owned_once :
    (user_id deck_id : ℕ) (decks : List Deck)
    → count_if (λ (d : Deck). d.id == deck_id) decks ≤ 1
    → count_if (owns user_id deck_id) decks ≤ 1
owned_once user_id deck_id decks h = omega (
  arith,
  h,
  count_if_mono (λ (d : Deck). d.id == deck_id) (owns user_id deck_id) decks (λ d k. ground arith),
)

module _ (user_id : ℕ) (db : Db)
    (keyed : (i : ℕ) → count_if (λ (d : Deck). d.id == i) db.decks ≤ 1) where
  abbrev mine : List Deck
  mine = select (λ (d : Deck). d.user_id == user_id) db.decks

  in_scope-missing :
      (scope : Option ℕ) (m : CardMemoryState)
      → first? (λ (c : Flashcard). c.id == m.card_id) db.cards ≡ none
      → state_in_scope user_id scope db m ≡ false
  in_scope-missing scope m h = ground (arith, h)

  in_scope-found :
      (scope : Option ℕ) (m : CardMemoryState) (c : Flashcard)
      → first? (λ (c : Flashcard). c.id == m.card_id) db.cards ≡ some c
      → state_in_scope user_id scope db m ≡ card_in_scope user_id scope db c
  in_scope-found scope m c h = ground (arith, h)

  -- One row stands in one of the user's decks, or in none.
  one_state :
      (b : Bool) (m : CardMemoryState)
      → sum_of (λ (d : Deck). if b && state_in_scope user_id (some d.id) db m then 1 else 0) mine
        ≡ (if b && state_in_scope user_id none db m then 1 else 0)
  one_state false m = sum_of-zero mine
  one_state true m = elim (Option-cases (first? (λ (c : Flashcard). c.id == m.card_id) db.cards)) [
    | inl missing ↦
        let none_ = in_scope-missing none m missing in
        sum_of-congr _ (λ (d : Deck). 0) mine
          (λ d. ground (arith, in_scope-missing (some d.id) m missing))
        ∙ sum_of-zero mine
        ∙ ground (arith, none_)
    | inr (c, found) ↦
        let whole = in_scope-found none m c found in
        let once = owned_once user_id c.deck_id db.decks (keyed c.deck_id) in
        elim (Bool-cases (count_if (owns user_id c.deck_id) db.decks == 0)) [
          | inl foreign ↦
              sum_of-congr _ (λ (d : Deck). 0) mine
                (λ d. ground (arith, in_scope-found (some d.id) m c found))
              ∙ sum_of-zero mine
              ∙ ground (arith, whole)
          | inr owned ↦
              sum_of-congr _ (λ (d : Deck). if c.deck_id == d.id then 1 else 0) mine
                (λ d. ground (arith, in_scope-found (some d.id) m c found))
              ∙ sum_of-owned user_id c.deck_id db.decks
              ∙ ground (arith, whole)
        ]
  ]

  -- A count of rows by deck adds up to the count of all rows.
  sum_of-states :
      (q : CardMemoryState → Bool) (ms : List CardMemoryState)
      → sum_of
          (λ (d : Deck).
            count_if (λ (m : CardMemoryState). q m && state_in_scope user_id (some d.id) db m) ms)
          mine
        ≡ count_if (λ (m : CardMemoryState). q m && state_in_scope user_id none db m) ms
  unfolding count_if
  sum_of-states q [] = sum_of-zero mine
  sum_of-states q (m ∷ ms) =
      sum_of-add _ _ mine ∙ omega (arith, one_state (q m) m, sum_of-states q ms)

  -- If the identifiers of decks are different, the due counts in a user's deck summaries add up to
  -- the user's number of due cards.
  pub summaries_add_up :
      (cutoff : ℕ)
      → sum_of (λ (x : DeckSummary). x.due_count) (deck_summaries_of user_id cutoff db)
        ≡ count_due_today user_id cutoff none db
  unfolding deck_summaries_of count_due_today
  summaries_add_up cutoff =
      sum_of-map (λ (x : DeckSummary). x.due_count) (summary_of user_id cutoff db) mine
      ∙ sum_of-states (is_due_by user_id cutoff) db.memory_states
