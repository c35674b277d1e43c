-- ===== src/Flashcard.antt =====
-- services/flashcard.py: cards, and the card count and version of their deck. The identifier and the
-- time of a new card are arguments.
pub mod Counts
pub mod Listing
pub mod Names
pub mod Privacy
mod Tests
use mnemo_api.Prelude.{
  ◌==◌, if◌then◌else◌, delete_if, update_if, first?, count_if, Text, ℕ, ◌+◌, ◌-◌, Bool, false, not,
  ◌&&◌, ◌||◌, Option, none, some, List, [], ◌∷◌, ◌++◌,
}
use mnemo_api.Models.{Flashcard, Deck, CardMemoryState, SessionCard, Db}
use mnemo_api.Exec.{deck_not_found, card_not_found, ok, err, Exec}
use mnemo_api.Deck.{owns, text_opt_eq, renames, retags, given}

-- What a client sends for a new card.
pub record CardFields : Type 0 where
  pub question : Text
  pub answer : Text
  pub source_ref : Option Text
  pub tags : List Text
  pub difficulty : ℕ

abbrev pub new_card : ℕ → ℕ → CardFields → ℕ → Flashcard
new_card id deck_id fields now = record {
  id = id;
  deck_id = deck_id;
  question = fields.question;
  answer = fields.answer;
  source_ref = fields.source_ref;
  tags = fields.tags;
  difficulty = fields.difficulty;
  created_at = now;
}

-- A write to the loaded row of a deck.
abbrev pub write_deck : ℕ → (Deck → Deck) → Db → Db
write_deck deck_id f db = record db { decks = update_if (λ (d : Deck). d.id == deck_id) f db.decks }

abbrev pub one_more : Deck → Deck
one_more d = record d { card_count = d.card_count + 1; version = d.version + 1 }

-- `max(0, deck.card_count - 1)` is what `-` is here.
abbrev pub one_less : Deck → Deck
one_less d = record d { card_count = d.card_count - 1; version = d.version + 1 }

abbrev pub next_version : Deck → Deck
next_version d = record d { version = d.version + 1 }

unfoldable pub create_card : ℕ → ℕ → ℕ → CardFields → ℕ → Exec Db Flashcard
create_card id user_id deck_id fields now db = elim (first? (owns user_id deck_id) db.decks) [
  | none ↦ (err deck_not_found, db)
  | some d ↦ (
    ok (new_card id deck_id fields now),
    write_deck deck_id one_more
        (record db { cards = db.cards ++ new_card id deck_id fields now ∷ [] }),
  )
]

-- The join of a card with its deck, which has to be the user's.
abbrev pub owned_card : ℕ → ℕ → Db → Flashcard → Bool
owned_card user_id card_id db c =
    c.id == card_id && not (count_if (owns user_id c.deck_id) db.decks == 0)

unfoldable pub get_card_by_id : ℕ → ℕ → Db → Option Flashcard
get_card_by_id user_id card_id db = first? (owned_card user_id card_id db) db.cards

-- The fields of an update; `source_ref` is none when it is not set, and `some none` clears it.
pub record CardChanges : Type 0 where
  pub question : Option Text
  pub answer : Option Text
  pub source_ref : Option (Option Text)
  pub tags : Option (List Text)
  pub difficulty : Option ℕ

abbrev pub resources : Option (Option Text) → Option Text → Bool
resources none old = false
resources (some new) old = not (text_opt_eq new old)

abbrev pub regrades : Option ℕ → ℕ → Bool
regrades none old = false
regrades (some new) old = not (new == old)

-- Whether an update changes a card.
abbrev pub changes : CardChanges → Flashcard → Bool
changes x c =
    renames x.question c.question
    || renames x.answer c.answer
    || resources x.source_ref c.source_ref
    || retags x.tags c.tags
    || regrades x.difficulty c.difficulty

abbrev pub edit : CardChanges → Flashcard → Flashcard
edit x c = record c {
  question = given x.question c.question;
  answer = given x.answer c.answer;
  source_ref = given x.source_ref c.source_ref;
  tags = given x.tags c.tags;
  difficulty = given x.difficulty c.difficulty;
}

abbrev write_card : ℕ → (Flashcard → Flashcard) → Db → Db
write_card card_id f db = record db {
  cards = update_if (λ (c : Flashcard). c.id == card_id) f db.cards;
}

unfoldable pub update_card : ℕ → ℕ → CardChanges → Exec Db Flashcard
unfolding get_card_by_id
update_card user_id card_id x db = elim (get_card_by_id user_id card_id db) [
  | none ↦ (err card_not_found, db)
  | some c ↦ elim (first? (owns user_id c.deck_id) db.decks) [
    | none ↦ (err deck_not_found, db)
    | some d ↦
        let db' = write_card card_id (edit x) db in
        (ok (edit x c), if changes x c then write_deck c.deck_id next_version db' else db')
  ]
]

-- A deleted card takes its memory states along, and its session cards by the schema's cascade.
unfoldable pub delete_card : ℕ → ℕ → Exec Db (Unit {0})
unfolding get_card_by_id
delete_card user_id card_id db = elim (get_card_by_id user_id card_id db) [
  | none ↦ (err card_not_found, db)
  | some c ↦ elim (first? (owns user_id c.deck_id) db.decks) [
    | none ↦ (err deck_not_found, db)
    | some d ↦ (
      ok tt,
      write_deck c.deck_id one_less (record db {
        cards = delete_if (λ (x : Flashcard). x.id == card_id) db.cards;
        memory_states = delete_if (λ (m : CardMemoryState). m.card_id == card_id) db.memory_states;
        session_cards = delete_if (λ (x : SessionCard). x.card_id == card_id) db.session_cards;
      }),
    )
  ]
]
