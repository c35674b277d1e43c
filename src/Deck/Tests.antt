-- ===== src/Deck/Tests.antt =====
-- The theorem on the pages of decks at a concrete input.
use mnemo_api.Prelude.{
  leb, ◌==◌, length, select, count_if, Text, codes, text_eq, ◌≡◌, refl, Bool, Option, none, some,
  [], ◌∷◌,
}
use mnemo_api.Models.{Deck, Db}
use mnemo_api.Exec.{database_error, err}
use mnemo_api.Deck.{new_deck, tags_eq}
use mnemo_api.Deck.Listing.{
  no_later, precedes, insert_deck, sort_decks, list_page, list_decks, shown_decks,
}

abbrev two_decks : Db
two_decks = record {
  decks =
      new_deck 2 7 (codes "europe") none (codes "maps" ∷ []) 10
      ∷ new_deck 3 8 (codes "africa") none (codes "maps" ∷ []) 20
      ∷ new_deck 4 7 (codes "asia") none (codes "maps" ∷ []) 30
      ∷ [];
  cards = [];
  memory_states = [];
  sessions = [];
  session_cards = [];
  import_jobs = [];
}

-- Texts by their length.
abbrev by_length : Text → Text → Bool
by_length s t = leb (length s) (length t)

abbrev is_fourth : Deck → Bool
is_fourth d = d.id == 4

-- A database that compares the texts of the tags: a deck with the one tag is found.
abbrev one_tag : Text → Option (Deck → Bool)
one_tag tag = some (λ d. tags_eq d.tags (tag ∷ []))

-- The newest deck of the user comes first.
newest_run :
    shown_decks by_length
      (λ d. d.version)
      (list_decks by_length (λ d. d.version) one_tag 7 1 1 (codes "maps") [] [] two_decks)
    ≡ new_deck 4 7 (codes "asia") none (codes "maps" ∷ []) 30 ∷ []
unfolding list_decks list_page select sort_decks insert_deck precedes no_later text_eq count_if
newest_run = refl

-- Where the database refuses the query, a tag is an error.
refused_run :
    list_decks by_length (λ d. d.version) (λ tag. none) 7 1 1 (codes "maps") [] [] two_decks
    ≡ err database_error
unfolding list_decks
refused_run = refl
