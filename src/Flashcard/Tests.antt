-- ===== src/Flashcard/Tests.antt =====
-- The card count theorem at a concrete input.
use mnemo_api.Prelude.{
  bit-le, delete_if, update_if, first?, count_if, codes, ◌≡◌, refl, none, [], ◌∷◌, arith,
}
use mnemo_api.Models.{Db}
use mnemo_api.Deck.{named, new_deck}
use mnemo_api.Flashcard.{new_card, delete_card}
use mnemo_api.Flashcard.Counts.{IsCounted, make_deck, drop_card, apply, apply-IsCounted}
use mnemo_api.Flashcard.Names.{apply-HasUniqueNames}
use mnemo_api.Deck.Names.{HasUniqueNames}

abbrev small : Db
small = record {
  decks = record (new_deck 2 7 (codes "Europe") none [] 0) { card_count = 1 } ∷ [];
  cards =
      new_card 5 2
        (record {
          question = [];
          answer = codes "Rome";
          source_ref = none;
          tags = [];
          difficulty = 3;
        })
        0
      ∷ [];
  memory_states = [];
  sessions = [];
  session_cards = [];
  import_jobs = [];
}

small-IsCounted : IsCounted small
unfolding count_if
small-IsCounted = record { counted = (refl, tt); keyed = λ i. ground arith }

apply-IsCounted_example : IsCounted (apply (λ t. t) 7 (drop_card 5) small)
apply-IsCounted_example = apply-IsCounted (λ t. t) 7 (drop_card 5) small tt small-IsCounted

-- Deleting the only card leaves a deck with none, at its next version.
drop_run :
    (apply (λ t. t) 7 (drop_card 5) small).decks
    ≡ record (new_deck 2 7 (codes "Europe") none [] 0) { version = 2 } ∷ []
unfolding apply delete_card first? count_if update_if delete_if
drop_run = refl

small-HasUniqueNames : HasUniqueNames (λ t. t) small.decks
unfolding count_if
small-HasUniqueNames user_id name =
    ground (arith, bit-le (named (λ t. t) user_id name (new_deck 2 7 (codes "Europe") none [] 0)))

apply-HasUniqueNames_example :
    HasUniqueNames (λ t. t) (apply (λ t. t) 7 (make_deck 3 (codes "Asia") none [] 5) small).decks
apply-HasUniqueNames_example =
    apply-HasUniqueNames (λ t. t) 7 (make_deck 3 (codes "Asia") none [] 5) small
      (λ i. unfold count_if in ground arith) small-HasUniqueNames
