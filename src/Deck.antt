-- ===== src/Deck.antt =====
-- services/deck.py: decks. SQL's `lower` is an argument, and so are the identifier and the time of a
-- new row. `create_deck` and `update_deck` also turn an IntegrityError of a concurrent request into
-- DeckNameConflict; here no other request runs between the check of a name and its write.
pub mod Names
pub mod Listing
pub mod Privacy
mod Tests
use mnemo_api.Prelude.{
  ◌==◌, if◌then◌else◌, delete_if, update_if, first?, count_if, Text, text_eq, ℕ, ◌+◌, Bool, true,
  false, not, ◌&&◌, ◌||◌, Option, none, some, List, [], ◌∷◌, ◌++◌,
}
use mnemo_api.Models.{Flashcard, Deck, CardMemoryState, Session, SessionCard, Db}
use mnemo_api.Exec.{deck_not_found, deck_name_conflict, ok, err, Exec}

-- `Deck.id == deck_id, Deck.user_id == user_id`
abbrev pub owns : ℕ → ℕ → Deck → Bool
owns user_id deck_id d = d.id == deck_id && d.user_id == user_id

-- The condition of `_deck_name_exists`, with no deck excluded.
abbrev pub named : (Text → Text) → ℕ → Text → Deck → Bool
named lower user_id name d = d.user_id == user_id && text_eq (lower d.name) (lower name)

abbrev pub excluded : Option ℕ → Deck → Bool
excluded none d = false
excluded (some id) d = d.id == id

-- `_deck_name_exists`
pub deck_name_exists : (Text → Text) → ℕ → Text → Option ℕ → List Deck → Bool
deck_name_exists lower user_id name exclude decks =
    elim (first? (λ d. named lower user_id name d && not (excluded exclude d)) decks) [
      | none ↦ false
      | some d ↦ true
    ]

abbrev pub new_deck : ℕ → ℕ → Text → Option Text → List Text → ℕ → Deck
new_deck id user_id name description tags now = record {
  id = id;
  user_id = user_id;
  name = name;
  description = description;
  tags = tags;
  card_count = 0;
  version = 1;
  source_file = none;
  created_at = now;
}

unfoldable pub create_deck :
    (Text → Text) → ℕ → ℕ → Text → Option Text → List Text → ℕ → Exec Db Deck
unfolding deck_name_exists
create_deck lower id user_id name description tags now db =
    if deck_name_exists lower user_id name none db.decks then (err deck_name_conflict, db) else (
      ok (new_deck id user_id name description tags now),
      record db { decks = db.decks ++ new_deck id user_id name description tags now ∷ [] },
    )

unfoldable pub get_deck_by_id : ℕ → ℕ → Db → Option Deck
get_deck_by_id user_id deck_id db = first? (owns user_id deck_id) db.decks

abbrev pub tags_eq : List Text → List Text → Bool
tags_eq [] [] = true
tags_eq [] (_ ∷ _) = false
tags_eq (_ ∷ _) [] = false
tags_eq (s ∷ ss) (t ∷ ts) = text_eq s t && tags_eq ss ts

abbrev pub text_opt_eq : Option Text → Option Text → Bool
text_opt_eq none none = true
text_opt_eq none (some _) = false
text_opt_eq (some _) none = false
text_opt_eq (some s) (some t) = text_eq s t

-- `name is not None and name != deck.name`, and the same for the other fields.
abbrev pub renames : Option Text → Text → Bool
renames none old = false
renames (some new) old = not (text_eq new old)

abbrev pub redescribes : Option Text → Option Text → Bool
redescribes none old = false
redescribes (some new) old = not (text_opt_eq (some new) old)

abbrev pub retags : Option (List Text) → List Text → Bool
retags none old = false
retags (some new) old = not (tags_eq new old)

abbrev pub given {ℓ} : {A : Type ℓ} → Option A → A → A
given none old = old
given (some new) old = new

-- The deck after the assignments; a value equal to the old one may be written too.
abbrev pub revise : Option Text → Option Text → Option (List Text) → Deck → Deck
revise name description tags d = record d {
  name = given name d.name;
  description = if redescribes description d.description then description else d.description;
  tags = given tags d.tags;
  version =
      if renames name d.name || redescribes description d.description || retags tags d.tags
      then d.version + 1
      else d.version;
}

-- Whether the new name is refused.
pub name_clashes : (Text → Text) → ℕ → Deck → Option Text → List Deck → Bool
name_clashes lower user_id d none decks = false
name_clashes lower user_id d (some name) decks =
    not (text_eq name d.name) && deck_name_exists lower user_id name (some d.id) decks

unfoldable pub update_deck :
    (Text → Text) → ℕ → ℕ → Option Text → Option Text → Option (List Text) → Exec Db Deck
unfolding name_clashes deck_name_exists get_deck_by_id
update_deck lower user_id deck_id name description tags db =
    elim (get_deck_by_id user_id deck_id db) [
      | none ↦ (err deck_not_found, db)
      | some d ↦
          if name_clashes lower user_id d name db.decks then (err deck_name_conflict, db) else (
            ok (revise name description tags d),
            record db {
              decks =
                  update_if (λ (x : Deck). x.id == deck_id) (revise name description tags) db.decks;
            },
          )
    ]

-- Whether a card, or what refers to it, goes with a deck.
abbrev pub in_deck : ℕ → Flashcard → Bool
in_deck deck_id c = c.deck_id == deck_id

abbrev pub of_card_in : ℕ → Db → ℕ → Bool
of_card_in deck_id db card_id =
    elim (first? (λ (c : Flashcard). c.id == card_id && in_deck deck_id c) db.cards) [
      | none ↦ false
      | some c ↦ true
    ]

-- `delete_deck`: the memory states and the cards of the deck, then the deck, whose sessions and
-- session cards go with it by the cascades of the schema.
unfoldable pub delete_deck : ℕ → ℕ → Exec Db (Unit {0})
unfolding get_deck_by_id
delete_deck user_id deck_id db = elim (get_deck_by_id user_id deck_id db) [
  | none ↦ (err deck_not_found, db)
  | some d ↦ (
    ok tt,
    record db {
      memory_states =
          delete_if (λ (m : CardMemoryState). of_card_in deck_id db m.card_id) db.memory_states;
      cards = delete_if (in_deck deck_id) db.cards;
      decks = delete_if (λ (x : Deck). x.id == deck_id) db.decks;
      session_cards =
          delete_if
            (λ (c : SessionCard).
              of_card_in deck_id db c.card_id
              || not (
                  count_if (λ (s : Session). s.id == c.session_id && s.deck_id == deck_id)
                    db.sessions
                  == 0))
            db.session_cards;
      sessions = delete_if (λ (s : Session). s.deck_id == deck_id) db.sessions;
    },
  )
]
