-- ===== src/Flashcard/Privacy.antt =====
-- The decks and cards of other users under all calls of the deck and card services.
use mnemo_api.Prelude.{
  ◌==◌, Bool-cases, Option-cases, first?, count_if, first?-holds, Has, first?-Has, Text, ℕ, ◌≡◌,
  refl, inl, inr, true, false, ◌&&◌, some, arith,
}
use mnemo_api.Models.{Flashcard, Db}
use mnemo_api.Deck.{owns}
use mnemo_api.Deck.Privacy.{
  select-update_if, select-delete_if, select_append_out, no_other_hit, is_foreign_card,
  IsSameForOthers, DecksKeyed, others-write_deck, owned-card, create_deck-others,
  update_deck-others, delete_deck-others,
}
use mnemo_api.Flashcard.{
  CardFields, new_card, one_more, one_less, next_version, create_card, owned_card, get_card_by_id,
  CardChanges, changes, edit, update_card, delete_card,
}
use mnemo_api.Flashcard.Counts.{
  Keyed, Change, make_deck, change_deck, drop_deck, make_card, change_card, drop_card, apply,
}

create_card-others :
    (id user deck_id : ℕ) (fields : CardFields) (now : ℕ) (db : Db)
    → DecksKeyed db.decks
    → IsSameForOthers user db (create_card id user deck_id fields now db).1
unfolding create_card
create_card-others id user deck_id fields now db keyed =
    elim (Option-cases (first? (owns user deck_id) db.decks)) [
      | inl missing ↦ rw (missing, create_card) (refl, refl)
      | inr (d, found) ↦
          rw (found, create_card)
            (
              others-write_deck user deck_id one_more db.decks d keyed found (λ x. refl),
              select_append_out (is_foreign_card user db) db.cards (new_card id deck_id fields now)
                  (owned-card user deck_id db.decks d found),
            )
    ]

-- The card that a user gets is in a deck of the user.
own_card :
    (user id : ℕ) (db : Db) (c : Flashcard)
    → get_card_by_id user id db ≡ some c
    → Has c db.cards × ((c.id == id) ≡ true) × (is_foreign_card user db c ≡ false)
unfolding get_card_by_id
own_card user id db c found =
    let mine = first?-holds (owned_card user id db) db.cards c found in
    (
      first?-Has (owned_card user id db) db.cards c found,
      ground (arith, mine),
      ground (arith, mine),
    )

no_other_card :
    (user id : ℕ) (db : Db) (c : Flashcard)
    → Keyed db.cards
    → get_card_by_id user id db ≡ some c
    → count_if (λ (x : Flashcard). is_foreign_card user db x && (x.id == id)) db.cards ≡ 0
no_other_card user id db c keyed found =
    let (here, hit, out) = own_card user id db c found in
    no_other_hit (is_foreign_card user db) (λ (x : Flashcard). x.id == id) db.cards c here hit out
      (keyed id)

update_card-others :
    (user id : ℕ) (x : CardChanges) (db : Db)
    → DecksKeyed db.decks
    → Keyed db.cards
    → IsSameForOthers user db (update_card user id x db).1
unfolding update_card
update_card-others user id x db decks cards = elim (Option-cases (get_card_by_id user id db)) [
  | inl missing ↦ rw (missing, update_card) (refl, refl)
  | inr (c, found) ↦ elim (Option-cases (first? (owns user c.deck_id) db.decks)) [
    | inl gone ↦ rw (found, update_card, gone) (refl, refl)
    | inr (d, owned) ↦
        let kept =
          select-update_if (is_foreign_card user db) (λ (y : Flashcard). y.id == id) (edit x)
            db.cards (λ y. refl) (no_other_card user id db c cards found) in
        let counted =
          others-write_deck user c.deck_id next_version db.decks d decks owned (λ y. refl) in
        elim (Bool-cases (changes x c)) [
          | inl new ↦ rw (found, update_card, owned, new) (counted, kept)
          | inr same ↦ rw (found, update_card, owned, same) (refl, kept)
        ]
  ]
]

delete_card-others :
    (user id : ℕ) (db : Db)
    → DecksKeyed db.decks
    → Keyed db.cards
    → IsSameForOthers user db (delete_card user id db).1
unfolding delete_card
delete_card-others user id db decks cards = elim (Option-cases (get_card_by_id user id db)) [
  | inl missing ↦ rw (missing, delete_card) (refl, refl)
  | inr (c, found) ↦ elim (Option-cases (first? (owns user c.deck_id) db.decks)) [
    | inl gone ↦ rw (found, delete_card, gone) (refl, refl)
    | inr (d, owned) ↦
        rw (found, delete_card, owned)
          (
            others-write_deck user c.deck_id one_less db.decks d decks owned (λ y. refl),
            select-delete_if (is_foreign_card user db) (λ (y : Flashcard). y.id == id) db.cards
                (no_other_card user id db c cards found),
          )
  ]
]

-- No call of the deck and card services changes the decks of other users or the cards in them, if
-- the identifiers of decks and those of cards are different.
pub apply-IsSameForOthers :
    (lower : Text → Text) (user : ℕ) (x : Change) (db : Db)
    → DecksKeyed db.decks
    → Keyed db.cards
    → IsSameForOthers user db (apply lower user x db)
unfolding apply
apply-IsSameForOthers lower user (make_deck id name description tags now) db decks cards =
    create_deck-others lower id user name description tags now db
apply-IsSameForOthers lower user (change_deck id name description tags) db decks cards =
    update_deck-others lower user id name description tags db decks
apply-IsSameForOthers lower user (drop_deck id) db decks cards = delete_deck-others user id db decks
apply-IsSameForOthers lower user (make_card id deck_id fields now) db decks cards =
    create_card-others id user deck_id fields now db decks
apply-IsSameForOthers lower user (change_card id x) db decks cards =
    update_card-others user id x db decks cards
apply-IsSameForOthers lower user (drop_card id) db decks cards =
    delete_card-others user id db decks cards
