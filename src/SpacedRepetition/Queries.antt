-- ===== src/SpacedRepetition/Queries.antt =====
-- services/spaced_repetition.py: `get_due_cards` and `get_weak_spots`. The end of the user's day, in
-- seconds, is the argument `end_of_day`.
use mnemo_api.Prelude.{
  leb, ◌==◌, if◌then◌else◌, leb→le, ==_iff, Bool-cases, Option-cases, length, take, All, select,
  first?, count_if, first?-holds, All-map, ℕ, suc, ◌≤◌, ◌≡◌, refl, ap, ◌∙◌, inl, inr, Bool, true,
  false, ◌&&◌, none, some, List, [], ◌∷◌, arith,
}
use mnemo_api.Models.{Flashcard, CardMemoryState, Db}

abbrev pub Entry : Type 0
Entry = CardMemoryState × Flashcard

-- The join of the memory states with their cards.
unfoldable pub join_cards : List Flashcard → List CardMemoryState → List Entry
join_cards cards [] = []
join_cards cards (m ∷ ms) = elim (first? (λ (c : Flashcard). c.id == m.card_id) cards) [
  | none ↦ join_cards cards ms
  | some c ↦ (m, c) ∷ join_cards cards ms
]

-- Rows in ascending order of a key.
module _ (key : CardMemoryState → ℕ) where
  unfoldable pub insert_by : Entry → List Entry → List Entry
  insert_by e [] = e ∷ []
  insert_by e (f ∷ fs) =
      let rest = insert_by e fs in if leb (key e.0) (key f.0) then e ∷ f ∷ fs else f ∷ rest

  unfoldable pub sort_by : List Entry → List Entry
  sort_by [] = []
  sort_by (e ∷ es) = insert_by e (sort_by es)

abbrev pub due_until : ℕ → CardMemoryState → Bool
due_until end_of_day m = elim m.due_at [ none ↦ false | some t ↦ leb t end_of_day ]

-- The time of a row that has one.
abbrev pub due_time : CardMemoryState → ℕ
due_time m = elim m.due_at [ none ↦ 0 | some t ↦ t ]

unfoldable pub get_due_cards : ℕ → ℕ → Db → List Entry
get_due_cards user_id end_of_day db = sort_by due_time (
    join_cards db.cards (
      select (λ (m : CardMemoryState). m.user_id == user_id && due_until end_of_day m)
        db.memory_states))

unfoldable pub get_weak_spots : ℕ → ℕ → Db → List Entry
get_weak_spots user_id limit db = take limit (
    sort_by (λ (m : CardMemoryState). m.ease_factor)
      (join_cards db.cards
        (select (λ (m : CardMemoryState). m.user_id == user_id) db.memory_states)))

-- No entry comes before one of a smaller key.
abbrev pub Ascending : (CardMemoryState → ℕ) → List Entry → Type 0
Ascending key [] = Unit
Ascending key (e ∷ es) = All (λ (f : Entry). key e.0 ≤ key f.0) es × Ascending key es

All-both :
    {A : Type 0} (P Q : A → Type 0) (xs : List A) → All P xs → All Q xs → All (λ x. P x × Q x) xs
All-both P Q [] h k = tt
All-both P Q (x ∷ xs) h k = ((h.0, k.0), All-both P Q xs h.1 k.1)

insert_by-Ascending :
    (key : CardMemoryState → ℕ) (e : Entry) (es : List Entry)
    → Ascending key es
    → (P : Entry → Type 0) → P e
    → All P es
    → Ascending key (insert_by key e es) × All P (insert_by key e es)
unfolding insert_by
insert_by-Ascending key e [] h P pe ps = ((tt, tt), (pe, tt))
insert_by-Ascending key e (f ∷ fs) h P pe ps = elim (Bool-cases (leb (key e.0) (key f.0))) [
  | inl le ↦
      let first = leb→le (key e.0) (key f.0) le in
      let rest = All-map _ (λ (x : Entry). key e.0 ≤ key x.0) fs (λ x k. omega arith) h.0 in
      rw (le, insert_by) (((first, rest), h), (pe, ps))
  | inr gt ↦
      let below = λ (x : Entry). (key f.0 ≤ key x.0) × P x in
      let both =
        insert_by-Ascending key e fs h.1 below (ground arith, pe) (All-both _ P fs h.0 ps.1) in
      rw (gt, insert_by)
        (
          (All-map _ (λ (x : Entry). key f.0 ≤ key x.0) _ (λ x k. k.0) both.1, both.0),
          (ps.0, All-map _ P _ (λ x k. k.1) both.1),
        )
]

sort_by-Ascending :
    (key : CardMemoryState → ℕ) (es : List Entry) (P : Entry → Type 0)
    → All P es
    → Ascending key (sort_by key es) × All P (sort_by key es)
unfolding sort_by
sort_by-Ascending key [] P h = (tt, tt)
sort_by-Ascending key (e ∷ es) P h =
    let (order, all) = sort_by-Ascending key es P h.1 in
    insert_by-Ascending key e (sort_by key es) order P h.0 all

length-insert_by :
    (key : CardMemoryState → ℕ) (e : Entry) (es : List Entry)
    → length (insert_by key e es) ≡ suc (length es)
unfolding insert_by
length-insert_by key e [] = refl
length-insert_by key e (f ∷ fs) = ground (arith, length-insert_by key e fs)

length-sort_by : (key : CardMemoryState → ℕ) (es : List Entry) → length (sort_by key es) ≡ length es
unfolding sort_by
length-sort_by key [] = refl
length-sort_by key (e ∷ es) =
    length-insert_by key e (sort_by key es) ∙ ap suc (length-sort_by key es)

-- Whether a memory state has its card.
abbrev pub has_card : List Flashcard → CardMemoryState → Bool
has_card cards m = elim (first? (λ (c : Flashcard). c.id == m.card_id) cards) [
  | none ↦ false
  | some c ↦ true
]

-- The entries of some rows are those with a card, as many as there are.
join_cards-selected :
    (cards : List Flashcard) (p : CardMemoryState → Bool) (ms : List CardMemoryState)
    → (length (join_cards cards (select p ms)) ≡ count_if (λ m. p m && has_card cards m) ms)
      × All
          (λ (e : Entry). (e.1.id ≡ e.0.card_id) × (p e.0 ≡ true))
          (join_cards cards (select p ms))
unfolding join_cards select count_if
join_cards-selected cards p [] = (refl, tt)
join_cards-selected cards p (m ∷ ms) =
    let (count, all) = join_cards-selected cards p ms in
    elim (Option-cases (first? (λ (c : Flashcard). c.id == m.card_id) cards)) [
      | inl missing ↦ ground (arith, count, all)
      | inr (c, found) ↦
          let here = first?-holds (λ (c : Flashcard). c.id == m.card_id) cards c found in
          ground (arith, count, all, (==_iff c.id m.card_id).0 here)
    ]

-- The due cards of a user are in the order of their due times; each entry joins a due memory state
-- of the user with its card; and there are as many as the user has due states with a card.
pub due_cards-Ascending :
    (user_id end_of_day : ℕ) (db : Db)
    → let due = λ (m : CardMemoryState). m.user_id == user_id && due_until end_of_day m in
      let entries = get_due_cards user_id end_of_day db in
      Ascending due_time entries
      × All (λ (e : Entry). (e.1.id ≡ e.0.card_id) × (due e.0 ≡ true)) entries
      × (length entries ≡ count_if (λ m. due m && has_card db.cards m) db.memory_states)
unfolding get_due_cards
due_cards-Ascending user_id end_of_day db =
    let due = λ (m : CardMemoryState). m.user_id == user_id && due_until end_of_day m in
    let (count, all) = join_cards-selected db.cards due db.memory_states in
    let (order, kept) = sort_by-Ascending due_time _ _ all in
    (order, kept, length-sort_by due_time _ ∙ count)
