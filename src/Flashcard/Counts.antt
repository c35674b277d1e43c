-- ===== src/Flashcard/Counts.antt =====
-- `card_count` is the number of cards of a deck, whatever the deck and card services do.
use mnemo_api.Prelude.{
  ◌==◌, if◌then◌else◌, ==_iff, ==_refl, Bool-cases, Option-cases, All, All-append, delete_if,
  update_if, first?, count_if, count_if-append_one, first?-holds, count_if_mono, count_if-delete,
  count_if-delete_none, count_if-update, All-delete_if, All-update_if, All-map, Has, first?-Has,
  count_if-remove, Text, ℕ, ◌≤◌, ◌≡◌, refl, sym, ◌∙◌, inl, inr, Bool, true, false, not, ◌&&◌,
  Option, List, [], ◌∷◌, ◌++◌, arith,
}
use mnemo_api.Models.{Flashcard, Deck, Db}
use mnemo_api.Exec.{Result}
use mnemo_api.Deck.{owns, create_deck, update_deck, in_deck, delete_deck}
use mnemo_api.Flashcard.{
  CardFields, new_card, one_more, one_less, create_card, owned_card, CardChanges, changes, edit,
  update_card, delete_card,
}

-- The invariant of a table of decks over one of cards.
abbrev pub Counted : List Deck → List Flashcard → Type 0
Counted decks cards = All (λ (d : Deck). d.card_count ≡ count_if (in_deck d.id) cards) decks

-- The primary key of the cards.
abbrev pub Keyed : List Flashcard → Type 0
Keyed cards = (i : ℕ) → count_if (λ (c : Flashcard). c.id == i) cards ≤ 1

pub record IsCounted (db : Db) : Type 0 where
  pub counted : Counted db.decks db.cards
  pub keyed : Keyed db.cards

add-Counted :
    (decks : List Deck) (cards : List Flashcard) (c : Flashcard)
    → Counted decks cards
    → Counted (update_if (λ (d : Deck). d.id == c.deck_id) one_more decks) (cards ++ c ∷ [])
add-Counted decks cards c h =
    All-update_if _ _ (λ (d : Deck). d.id == c.deck_id) one_more decks
      (λ d hit k. ground (arith, count_if-append_one (in_deck d.id) cards c))
      (λ d miss k. ground (arith, count_if-append_one (in_deck d.id) cards c)) h

add-Keyed :
    (cards : List Flashcard) (c : Flashcard)
    → count_if (λ (x : Flashcard). x.id == c.id) cards ≡ 0
    → Keyed cards
    → Keyed (cards ++ c ∷ [])
add-Keyed cards c fresh h i = elim (Bool-cases (c.id == i)) [
  | inl hit ↦
      let same = (==_iff c.id i).0 hit in
      rw (← same) (ground (arith, count_if-append_one (λ (x : Flashcard). x.id == c.id) cards c))
  | inr miss ↦ ground (arith, h i, count_if-append_one (λ (x : Flashcard). x.id == i) cards c)
]

remove-Counted :
    (decks : List Deck) (cards : List Flashcard) (c : Flashcard)
    → Has c cards
    → Keyed cards
    → Counted decks cards
    → Counted
        (update_if (λ (d : Deck). d.id == c.deck_id) one_less decks)
        (delete_if (λ (x : Flashcard). x.id == c.id) cards)
remove-Counted decks cards c here keyed h =
    let gone = λ (x : Flashcard). x.id == c.id in
    All-update_if _ _ (λ (d : Deck). d.id == c.deck_id) one_less decks
      (λ d hit k.
        ground
          (arith, count_if-remove (in_deck d.id) gone cards c here (==_refl c.id) (keyed c.id)))
      (λ d miss k.
        ground
          (arith, count_if-remove (in_deck d.id) gone cards c here (==_refl c.id) (keyed c.id)))
      h

pub delete-Keyed :
    (p : Flashcard → Bool) (cards : List Flashcard) → Keyed cards → Keyed (delete_if p cards)
delete-Keyed p cards h i =
    let at_i = λ (x : Flashcard). x.id == i in
    omega (
      arith,
      h i,
      count_if-delete at_i p cards,
      count_if_mono at_i (λ x. at_i x && not (p x)) cards (λ x k. ground arith),
    )

branch-IsCounted :
    {A : Type 0} (b : Bool) (x y : Result A × Db)
    → IsCounted x.1
    → IsCounted y.1
    → IsCounted (if b then x else y).1
branch-IsCounted true x y h k = h
branch-IsCounted false x y h k = k

create_deck-IsCounted :
    (lower : Text → Text) (id user : ℕ) (name : Text) (description : Option Text) (tags : List Text)
    (now : ℕ) (db : Db)
    → count_if (in_deck id) db.cards ≡ 0
    → IsCounted db
    → IsCounted (create_deck lower id user name description tags now db).1
unfolding create_deck
create_deck-IsCounted lower id user name description tags now db fresh h =
    branch-IsCounted _ _ _ h
      (record { counted = All-append _ db.decks _ h.counted (sym fresh, tt); keyed = h.keyed })

update_deck-IsCounted :
    (lower : Text → Text) (user id : ℕ) (name : Option Text) (description : Option Text)
    (tags : Option (List Text)) (db : Db)
    → IsCounted db
    → IsCounted (update_deck lower user id name description tags db).1
unfolding update_deck
update_deck-IsCounted lower user id name description tags db h =
    elim (Option-cases (first? (owns user id) db.decks)) [
      | inl missing ↦ rw (missing, update_deck) h
      | inr (d, found) ↦
          rw (found, update_deck)
            (branch-IsCounted _ _ _ h (record {
              counted = All-update_if _ _ _ _ db.decks (λ d hit k. k) (λ d miss k. k) h.counted;
              keyed = h.keyed;
            }))
    ]

delete_deck-IsCounted :
    (user id : ℕ) (db : Db) → IsCounted db → IsCounted (delete_deck user id db).1
unfolding delete_deck
delete_deck-IsCounted user id db h = elim (Option-cases (first? (owns user id) db.decks)) [
  | inl missing ↦ rw (missing, delete_deck) h
  | inr (d, found) ↦
      rw (found, delete_deck)
        (record {
          counted =
              All-delete_if _ _ (λ (x : Deck). x.id == id) db.decks
                (λ x other k.
                  k
                  ∙ sym (
                      count_if-delete_none (in_deck x.id) (in_deck id) db.cards
                        (λ c m. ground arith)))
                h.counted;
          keyed = delete-Keyed (in_deck id) db.cards h.keyed;
        })
]

create_card-IsCounted :
    (id user deck_id : ℕ) (fields : CardFields) (now : ℕ) (db : Db)
    → count_if (λ (c : Flashcard). c.id == id) db.cards ≡ 0
    → IsCounted db
    → IsCounted (create_card id user deck_id fields now db).1
unfolding create_card
create_card-IsCounted id user deck_id fields now db fresh h =
    let c = new_card id deck_id fields now in
    elim (Option-cases (first? (owns user deck_id) db.decks)) [
      | inl missing ↦ rw (missing, create_card) h
      | inr (d, found) ↦
          rw (found, create_card)
            (record {
              counted = add-Counted db.decks db.cards c h.counted;
              keyed = add-Keyed db.cards c fresh h.keyed;
            })
    ]

update_card-IsCounted :
    (user id : ℕ) (x : CardChanges) (db : Db)
    → IsCounted db
    → IsCounted (update_card user id x db).1
unfolding update_card
update_card-IsCounted user id x db h =
    let at_id = λ (c : Flashcard). c.id == id in
    let counts = λ (i : ℕ). count_if-update (in_deck i) at_id (edit x) db.cards (λ c. refl) in
    let kept : Counted db.decks (update_if at_id (edit x) db.cards) =
      All-map _ _ db.decks (λ d k. k ∙ sym (counts d.id)) h.counted in
    let keys : Keyed (update_if at_id (edit x) db.cards) = λ i.
      rw (count_if-update (λ (c : Flashcard). c.id == i) at_id (edit x) db.cards (λ c. refl))
        (h.keyed i) in
    elim (Option-cases (first? (owned_card user id db) db.cards)) [
      | inl missing ↦ rw (missing, update_card) h
      | inr (c, here) ↦ elim (Option-cases (first? (owns user c.deck_id) db.decks)) [
        | inl dangling ↦ rw (here, dangling, update_card) h
        | inr (d, found) ↦ elim (Bool-cases (changes x c)) [
          | inl changed ↦
              rw (here, found, changed, update_card)
                (record {
                  counted = All-update_if _ _ _ _ db.decks (λ d hit k. k) (λ d miss k. k) kept;
                  keyed = keys;
                })
          | inr same ↦ rw (here, found, same, update_card) (record { counted = kept; keyed = keys })
        ]
      ]
    ]

delete_card-IsCounted :
    (user id : ℕ) (db : Db) → IsCounted db → IsCounted (delete_card user id db).1
unfolding delete_card
delete_card-IsCounted user id db h = elim (Option-cases (first? (owned_card user id db) db.cards)) [
  | inl missing ↦ rw (missing, delete_card) h
  | inr (c, here) ↦
      let mine = first?-holds (owned_card user id db) db.cards c here in
      let same : c.id ≡ id = ground arith in
      elim (Option-cases (first? (owns user c.deck_id) db.decks)) [
        | inl dangling ↦ rw (here, dangling, delete_card) h
        | inr (d, found) ↦
            rw (here, found, delete_card)
              (rw (← same) (record {
                counted =
                    remove-Counted db.decks db.cards c
                      (first?-Has (owned_card user id db) db.cards c here) h.keyed h.counted;
                keyed = delete-Keyed _ db.cards h.keyed;
              }))
      ]
]

-- The calls that change decks and cards; the identifiers of new rows come with them.
pub data Change : Type 0 where
  make_deck : ℕ → Text → Option Text → List Text → ℕ → Change
  change_deck : ℕ → Option Text → Option Text → Option (List Text) → Change
  drop_deck : ℕ → Change
  make_card : ℕ → ℕ → CardFields → ℕ → Change
  change_card : ℕ → CardChanges → Change
  drop_card : ℕ → Change

-- The tables after a call of a user.
unfoldable pub apply : (Text → Text) → ℕ → Change → Db → Db
apply lower user (make_deck id name description tags now) db =
    (create_deck lower id user name description tags now db).1
apply lower user (change_deck id name description tags) db =
    (update_deck lower user id name description tags db).1
apply lower user (drop_deck id) db = (delete_deck user id db).1
apply lower user (make_card id deck_id fields now) db =
    (create_card id user deck_id fields now db).1
apply lower user (change_card id x) db = (update_card user id x db).1
apply lower user (drop_card id) db = (delete_card user id db).1

-- The identifier of a new row is in no other row.
abbrev pub IsNew : Change → Db → Type 0
IsNew (make_deck id name description tags now) db = count_if (in_deck id) db.cards ≡ 0
IsNew (make_card id deck_id fields now) db = count_if (λ (c : Flashcard). c.id == id) db.cards ≡ 0
IsNew _ db = Unit

-- Every call of the deck and card services, successful or not, keeps the card count of every deck
-- equal to the number of its cards, if the identifiers of new rows are new.
pub apply-IsCounted :
    (lower : Text → Text) (user : ℕ) (x : Change) (db : Db)
    → IsNew x db
    → IsCounted db
    → IsCounted (apply lower user x db)
unfolding apply
apply-IsCounted lower user (make_deck id name description tags now) db fresh h =
    create_deck-IsCounted lower id user name description tags now db fresh h
apply-IsCounted lower user (change_deck id name description tags) db fresh h =
    update_deck-IsCounted lower user id name description tags db h
apply-IsCounted lower user (drop_deck id) db fresh h = delete_deck-IsCounted user id db h
apply-IsCounted lower user (make_card id deck_id fields now) db fresh h =
    create_card-IsCounted id user deck_id fields now db fresh h
apply-IsCounted lower user (change_card id x) db fresh h = update_card-IsCounted user id x db h
apply-IsCounted lower user (drop_card id) db fresh h = delete_card-IsCounted user id db h
