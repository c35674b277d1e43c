-- ===== src/Flashcard/Names.antt =====
-- The names of decks under all calls of the deck and card services.
use mnemo_api.Prelude.{
  ◌==◌, Bool-cases, Option-cases, update_if, first?, count_if, count_if_mono, count_if-delete,
  count_if-update, Text, ℕ, ◌≤◌, ◌≡◌, refl, inl, inr, not, ◌&&◌, List, arith,
}
use mnemo_api.Models.{Deck, Db}
use mnemo_api.Deck.{owns, named, get_deck_by_id, delete_deck}
use mnemo_api.Deck.Names.{HasUniqueNames, create_deck-HasUniqueNames, update_deck-HasUniqueNames}
use mnemo_api.Flashcard.{
  CardFields, one_more, one_less, next_version, create_card, get_card_by_id, CardChanges, changes,
  update_card, delete_card,
}
use mnemo_api.Flashcard.Counts.{
  Change, make_deck, change_deck, drop_deck, make_card, change_card, drop_card, apply,
}

module _ (lower : Text → Text) where
  write_deck-HasUniqueNames :
      (id : ℕ) (f : Deck → Deck) (decks : List Deck)
      → ((u : ℕ) (n : Text) (d : Deck) → named lower u n (f d) ≡ named lower u n d)
      → HasUniqueNames lower decks
      → HasUniqueNames lower (update_if (λ (d : Deck). d.id == id) f decks)
  write_deck-HasUniqueNames id f decks same h u n =
      rw (count_if-update (named lower u n) (λ (d : Deck). d.id == id) f decks (same u n)) (h u n)

  create_card-HasUniqueNames :
      (id user deck_id : ℕ) (fields : CardFields) (now : ℕ) (db : Db)
      → HasUniqueNames lower db.decks
      → HasUniqueNames lower (create_card id user deck_id fields now db).1.decks
  unfolding create_card
  create_card-HasUniqueNames id user deck_id fields now db h =
      elim (Option-cases (first? (owns user deck_id) db.decks)) [
        | inl missing ↦ rw (missing, create_card) h
        | inr (d, found) ↦
            rw (found, create_card)
              (write_deck-HasUniqueNames deck_id one_more db.decks (λ u n d. refl) h)
      ]

  update_card-HasUniqueNames :
      (user id : ℕ) (x : CardChanges) (db : Db)
      → HasUniqueNames lower db.decks
      → HasUniqueNames lower (update_card user id x db).1.decks
  unfolding update_card get_card_by_id
  update_card-HasUniqueNames user id x db h = elim (Option-cases (get_card_by_id user id db)) [
    | inl missing ↦ rw (missing, update_card) h
    | inr (c, found) ↦ elim (Option-cases (first? (owns user c.deck_id) db.decks)) [
      | inl gone ↦ rw (found, update_card, gone) h
      | inr (d, owned) ↦ elim (Bool-cases (changes x c)) [
        | inl new ↦
            rw (found, update_card, owned, new)
              (write_deck-HasUniqueNames c.deck_id next_version db.decks (λ u n d. refl) h)
        | inr same ↦ rw (found, update_card, owned, same) h
      ]
    ]
  ]

  delete_card-HasUniqueNames :
      (user id : ℕ) (db : Db)
      → HasUniqueNames lower db.decks
      → HasUniqueNames lower (delete_card user id db).1.decks
  unfolding delete_card get_card_by_id
  delete_card-HasUniqueNames user id db h = elim (Option-cases (get_card_by_id user id db)) [
    | inl missing ↦ rw (missing, delete_card) h
    | inr (c, found) ↦ elim (Option-cases (first? (owns user c.deck_id) db.decks)) [
      | inl gone ↦ rw (found, delete_card, gone) h
      | inr (d, owned) ↦
          rw (found, delete_card, owned)
            (write_deck-HasUniqueNames c.deck_id one_less db.decks (λ u n d. refl) h)
    ]
  ]

  delete_deck-HasUniqueNames :
      (user id : ℕ) (db : Db)
      → HasUniqueNames lower db.decks
      → HasUniqueNames lower (delete_deck user id db).1.decks
  unfolding delete_deck get_deck_by_id
  delete_deck-HasUniqueNames user id db h = elim (Option-cases (get_deck_by_id user id db)) [
    | inl missing ↦ rw (missing, delete_deck) h
    | inr (d, found) ↦
        rw (found, delete_deck)
          (λ u n. omega (
            arith,
            h u n,
            count_if-delete (named lower u n) (λ (x : Deck). x.id == id) db.decks,
            count_if_mono (named lower u n) (λ (x : Deck). named lower u n x && not (x.id == id))
                db.decks (λ x k. ground arith),
          ))
  ]

  -- Every call of the deck and card services, successful or not, keeps the names of each user's decks
  -- different up to case, if at most one deck has each identifier.
  pub apply-HasUniqueNames :
      (user : ℕ) (x : Change) (db : Db)
      → ((i : ℕ) → count_if (λ (d : Deck). d.id == i) db.decks ≤ 1)
      → HasUniqueNames lower db.decks
      → HasUniqueNames lower (apply lower user x db).decks
  unfolding apply
  apply-HasUniqueNames user (make_deck id name description tags now) db keyed h =
      create_deck-HasUniqueNames lower id user name description tags now db h
  apply-HasUniqueNames user (change_deck id name description tags) db keyed h =
      update_deck-HasUniqueNames lower user id name description tags db (keyed id) h
  apply-HasUniqueNames user (drop_deck id) db keyed h = delete_deck-HasUniqueNames user id db h
  apply-HasUniqueNames user (make_card id deck_id fields now) db keyed h =
      create_card-HasUniqueNames id user deck_id fields now db h
  apply-HasUniqueNames user (change_card id x) db keyed h =
      update_card-HasUniqueNames user id x db h
  apply-HasUniqueNames user (drop_card id) db keyed h = delete_card-HasUniqueNames user id db h
