-- ===== src/Deck/Privacy.antt =====
-- The decks and cards of other users under the calls of the deck service.
use mnemo_api.Prelude.{
  ◌==◌, ==_iff, ==_refl, Bool-cases, Option-cases, select, delete_if, update_if, first?, count_if,
  first?-holds, count_if_mono, Has, first?-Has, count_if-pos, Text, ℕ, ◌≤◌, ◌≡◌, refl, sym, ap, ◌∙◌,
  inl, inr, Bool, true, false, not, ◌&&◌, Option, none, some, List, [], ◌∷◌, ◌++◌, arith,
}
use mnemo_api.Models.{Flashcard, Deck, Db}
use mnemo_api.Deck.{
  owns, deck_name_exists, new_deck, create_deck, get_deck_by_id, revise, name_clashes, update_deck,
  in_deck, delete_deck,
}

-- Rows that no write hits stay as they are.
pub select-update_if :
    {A : Type 0} (p q : A → Bool) (f : A → A) (xs : List A)
    → ((x : A) → p (f x) ≡ p x)
    → count_if (λ x. p x && q x) xs ≡ 0
    → select p (update_if q f xs) ≡ select p xs
unfolding select update_if count_if
select-update_if p q f [] same h = refl
select-update_if p q f (x ∷ xs) same h = ground (arith, same x, select-update_if p q f xs same)

pub select-delete_if :
    {A : Type 0} (p q : A → Bool) (xs : List A)
    → count_if (λ x. p x && q x) xs ≡ 0
    → select p (delete_if q xs) ≡ select p xs
unfolding select delete_if count_if
select-delete_if p q [] h = refl
select-delete_if p q (x ∷ xs) h = ground (arith, select-delete_if p q xs)

pub select_append_out :
    {A : Type 0} (p : A → Bool) (xs : List A) (x : A)
    → p x ≡ false
    → select p (xs ++ x ∷ []) ≡ select p xs
unfolding select
select_append_out p [] x out = ground (arith, out)
select_append_out p (y ∷ ys) x out = ground (arith, select_append_out p ys x out)

-- If at most one row is hit, and the row that is found is not among the others, none of them is.
pub no_other_hit :
    {A : Type 0} (p q : A → Bool) (xs : List A) (y : A)
    → Has y xs
    → q y ≡ true
    → p y ≡ false
    → count_if q xs ≤ 1
    → count_if (λ x. p x && q x) xs ≡ 0
unfolding count_if
no_other_hit p q [] y here hit out once = refl
no_other_hit p q (x ∷ xs) y (inl e) hit out once =
    let hit' : q x ≡ true = ap q (sym e) ∙ hit in
    let out' : p x ≡ false = ap p (sym e) ∙ out in
    let rest : count_if q xs ≡ 0 = ground (arith, once, hit') in
    let fewer = count_if_mono q (λ x. p x && q x) xs (λ x k. ground arith) in
    ground (arith, rest, fewer, out')
no_other_hit p q (x ∷ xs) y (inr there) hit out once =
    let some_ = count_if-pos q xs y there hit in
    let miss : q x ≡ false = ground (arith, some_, once) in
    let fewer : count_if q xs ≤ 1 = ground (arith, once, miss) in
    ground (arith, miss, no_other_hit p q xs y there hit out fewer)

count_if_never :
    {A : Type 0} (p : A → Bool) (xs : List A) → ((x : A) → p x ≡ false) → count_if p xs ≡ 0
unfolding count_if
count_if_never p [] h = refl
count_if_never p (x ∷ xs) h = ground (arith, h x, count_if_never p xs h)

outside : (a b : Bool) → (b ≡ true → a ≡ false) → (a && b) ≡ false
outside a true h = ground (arith, h refl)
outside a false h = ground arith

-- The decks of other users, and the cards that are in no deck of the user.
abbrev pub is_foreign : ℕ → Deck → Bool
is_foreign user d = not (d.user_id == user)

abbrev pub is_foreign_card : ℕ → Db → Flashcard → Bool
is_foreign_card user db c = count_if (owns user c.deck_id) db.decks == 0

-- Two tables with the same decks of other users, and the same cards outside the user's decks.
abbrev pub IsSameForOthers : ℕ → Db → Db → Type 0
IsSameForOthers user db db' =
    (select (is_foreign user) db'.decks ≡ select (is_foreign user) db.decks)
    × (select (is_foreign_card user db) db'.cards ≡ select (is_foreign_card user db) db.cards)

abbrev pub DecksKeyed : List Deck → Type 0
DecksKeyed decks = (i : ℕ) → count_if (λ (d : Deck). d.id == i) decks ≤ 1

owned-Has :
    (user i : ℕ) (decks : List Deck) (d : Deck)
    → first? (owns user i) decks ≡ some d
    → Has d decks × ((d.id == i) ≡ true) × (is_foreign user d ≡ false)
owned-Has user i decks d found =
    let mine = first?-holds (owns user i) decks d found in
    (first?-Has (owns user i) decks d found, ground (arith, mine), ground (arith, mine))

-- A write to the user's deck.
pub others-write_deck :
    (user i : ℕ) (f : Deck → Deck) (decks : List Deck) (d : Deck)
    → DecksKeyed decks
    → first? (owns user i) decks ≡ some d
    → ((x : Deck) → (f x).user_id ≡ x.user_id)
    → select (is_foreign user) (update_if (λ (x : Deck). x.id == i) f decks)
      ≡ select (is_foreign user) decks
others-write_deck user i f decks d keyed found same =
    let (here, hit, out) = owned-Has user i decks d found in
    select-update_if (is_foreign user) (λ (x : Deck). x.id == i) f decks
      (λ x. ap (λ n. not (n == user)) (same x))
      (no_other_hit (is_foreign user) (λ (x : Deck). x.id == i) decks d here hit out (keyed i))

pub owned-card :
    (user deck_id : ℕ) (decks : List Deck) (d : Deck)
    → first? (owns user deck_id) decks ≡ some d
    → (count_if (owns user deck_id) decks == 0) ≡ false
owned-card user deck_id decks d found =
    let some_ =
      count_if-pos (owns user deck_id) decks d (first?-Has (owns user deck_id) decks d found)
        (first?-holds (owns user deck_id) decks d found) in
    ground (arith, some_)

pub create_deck-others :
    (lower : Text → Text) (id user : ℕ) (name : Text) (description : Option Text) (tags : List Text)
    (now : ℕ) (db : Db)
    → IsSameForOthers user db (create_deck lower id user name description tags now db).1
unfolding create_deck
create_deck-others lower id user name description tags now db =
    elim (Bool-cases (deck_name_exists lower user name none db.decks)) [
      | inl taken ↦ rw taken (refl, refl)
      | inr free ↦ rw free (
        select_append_out (is_foreign user) db.decks (new_deck id user name description tags now)
            (ground (arith, ==_refl user)),
        refl,
      )
    ]

pub update_deck-others :
    (lower : Text → Text) (user id : ℕ) (name description : Option Text) (tags : Option (List Text))
    (db : Db)
    → DecksKeyed db.decks
    → IsSameForOthers user db (update_deck lower user id name description tags db).1
unfolding update_deck get_deck_by_id
update_deck-others lower user id name description tags db keyed =
    elim (Option-cases (first? (owns user id) db.decks)) [
      | inl missing ↦ rw (missing, update_deck) (refl, refl)
      | inr (d, found) ↦ elim (Bool-cases (name_clashes lower user d name db.decks)) [
        | inl clash ↦ rw (found, clash, update_deck) (refl, refl)
        | inr free ↦
            rw (found, free, update_deck)
              (
                others-write_deck user id (revise name description tags) db.decks d keyed found
                    (λ x. refl),
                refl,
              )
      ]
    ]

pub delete_deck-others :
    (user id : ℕ) (db : Db)
    → DecksKeyed db.decks
    → IsSameForOthers user db (delete_deck user id db).1
unfolding delete_deck get_deck_by_id
delete_deck-others user id db keyed = elim (Option-cases (first? (owns user id) db.decks)) [
  | inl missing ↦ rw (missing, delete_deck) (refl, refl)
  | inr (d, found) ↦
      let (here, hit, out) = owned-Has user id db.decks d found in
      rw (found, delete_deck)
        (
          select-delete_if (is_foreign user) (λ (x : Deck). x.id == id) db.decks
              (no_other_hit (is_foreign user) (λ (x : Deck). x.id == id) db.decks d here hit out
                (keyed id)),
          select-delete_if (is_foreign_card user db) (in_deck id) db.cards (
              count_if_never _ db.cards (λ c.
                outside (is_foreign_card user db c) (in_deck id c)
                  (λ k. rw ((==_iff c.deck_id id).0 k) (owned-card user id db.decks d found)))),
        )
]
