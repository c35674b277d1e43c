-- ===== src/Flashcard/Listing.antt =====
-- services/flashcard.py: `list_cards_for_deck`. A page or a page size below zero is raised to 1 like zero, so that both are natural numbers. Of cards of the
-- same time the database may give any first; here it is the one that is stored first.
use mnemo_api.Prelude.{
  leb, if◌then◌else◌, Option-cases, length, drop, All, select, first?, count_if, length-select, ℕ,
  suc, ◌-◌, ◌*◌, ◌≤◌, min, max, ◌≡◌, refl, ap, subst, ◌∙◌, inl, inr, Bool, true, none, some, List,
  [], ◌∷◌, arith,
}
use mnemo_api.Models.{Flashcard, Db}
use mnemo_api.Exec.{deck_not_found, ok, err, Exec}
use mnemo_api.Deck.{owns, in_deck}
use mnemo_api.Pages.{
  Meta, pagination_meta, cut, length-take, length-drop, All-take, All-drop, pages_suffice,
}

-- `.order_by(Flashcard.created_at.desc())`
unfoldable pub insert_newest : Flashcard → List Flashcard → List Flashcard
insert_newest c [] = c ∷ []
insert_newest c (d ∷ ds) =
    let rest = insert_newest c ds in if leb d.created_at c.created_at then c ∷ d ∷ ds else d ∷ rest

unfoldable pub sort_newest : List Flashcard → List Flashcard
sort_newest [] = []
sort_newest (c ∷ cs) = insert_newest c (sort_newest cs)

unfoldable pub list_cards_for_deck : ℕ → ℕ → ℕ → ℕ → Exec Db (List Flashcard × Meta)
list_cards_for_deck user_id deck_id asked_page asked_size db =
    elim (first? (owns user_id deck_id) db.decks) [
      | none ↦ (err deck_not_found, db)
      | some d ↦
          let page = max asked_page 1 in
          let per_page = min (max asked_size 1) 100 in
          let total = count_if (in_deck deck_id) db.cards in
          (
            ok (
              cut page per_page (sort_newest (select (in_deck deck_id) db.cards)),
              pagination_meta page per_page total,
            ),
            db,
          )
    ]

length-insert_newest :
    (c : Flashcard) (cs : List Flashcard) → length (insert_newest c cs) ≡ suc (length cs)
unfolding insert_newest
length-insert_newest c [] = refl
length-insert_newest c (d ∷ ds) = ground (arith, length-insert_newest c ds)

length-sort_newest : (cs : List Flashcard) → length (sort_newest cs) ≡ length cs
unfolding sort_newest
length-sort_newest [] = refl
length-sort_newest (c ∷ cs) =
    length-insert_newest c (sort_newest cs) ∙ ap suc (length-sort_newest cs)

All-insert_newest :
    (P : Flashcard → Type 0) (c : Flashcard) (cs : List Flashcard)
    → P c
    → All P cs
    → All P (insert_newest c cs)
unfolding insert_newest
All-insert_newest P c [] k h = (k, tt)
All-insert_newest P c (d ∷ ds) k h = ground (arith, All-insert_newest P c ds k h.1)

All-sort_newest : (P : Flashcard → Type 0) (cs : List Flashcard) → All P cs → All P (sort_newest cs)
unfolding sort_newest
All-sort_newest P [] h = tt
All-sort_newest P (c ∷ cs) h = All-insert_newest P c (sort_newest cs) h.0 (All-sort_newest P cs h.1)

All-select : {A : Type 0} (p : A → Bool) (xs : List A) → All (λ x. p x ≡ true) (select p xs)
unfolding select
All-select p [] = tt
All-select p (x ∷ xs) = ground (arith, All-select p xs)

-- What a page of a deck's cards and its numbers promise.
abbrev pub Paged : ℕ → Db → List Flashcard × Meta → Type 0
Paged deck_id db (cards, meta) =
    (meta.total ≡ count_if (in_deck deck_id) db.cards)
    × (1 ≤ meta.page)
    × (1 ≤ meta.per_page)
    × (meta.per_page ≤ 100)
    × (meta.total ≤ meta.total_pages * meta.per_page)
    × (length cards ≡ min meta.per_page (meta.total - (meta.page - 1) * meta.per_page))
    × All (λ (c : Flashcard). in_deck deck_id c ≡ true) cards

listing-Paged :
    (deck_id page size : ℕ) (db : Db)
    → let per_page = min (max size 1) 100 in
      Paged deck_id db (
        cut (max page 1) per_page (sort_newest (select (in_deck deck_id) db.cards)),
        pagination_meta (max page 1) per_page (count_if (in_deck deck_id) db.cards),
      )
listing-Paged deck_id page size db =
    let mine = select (in_deck deck_id) db.cards in
    let skipped = (max page 1 - 1) * min (max size 1) 100 in
    let sorted = sort_newest mine in
    (
      refl,
      omega arith,
      omega arith,
      omega arith,
      pages_suffice (count_if (in_deck deck_id) db.cards) (min (max size 1) 100) (omega arith),
      omega (
        arith,
        length-take (min (max size 1) 100) (drop skipped sorted),
        length-drop skipped sorted,
        length-sort_newest mine,
        length-select (in_deck deck_id) db.cards,
      ),
      All-take _ (min (max size 1) 100) (drop skipped sorted) (
          All-drop _ skipped sorted
            (All-sort_newest _ mine (All-select (in_deck deck_id) db.cards))),
    )

-- A page of a deck's cards holds cards of the deck only, as many as the page size and its offset
-- leave of all cards of the deck; the reported total is the number of those cards, the page size
-- is between 1 and 100, and the reported pages have room for all of them.
pub list_cards-Paged :
    (user_id deck_id page size : ℕ) (db : Db) (r : List Flashcard × Meta)
    → (list_cards_for_deck user_id deck_id page size db).0 ≡ ok r
    → Paged deck_id db r
unfolding list_cards_for_deck
list_cards-Paged user_id deck_id page size db r h =
    elim (Option-cases (first? (owns user_id deck_id) db.decks)) [
      | inl missing ↦ absurd (ground arith)
      | inr (d, found) ↦
          subst (Paged deck_id db) (ground arith) (listing-Paged deck_id page size db)
    ]
