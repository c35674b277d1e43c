-- ===== src/Deck/Names.antt =====
-- The decks of a user have different names, up to case.
use mnemo_api.Prelude.{
  ◌==◌, if◌then◌else◌, bit-le, Bool-cases, Option-cases, update_if, first?, count_if,
  count_if-append_one, first?-holds, count_if-none, count_if-congr, count_if-delete,
  count_if-update, Has, first?-Has, count_if-replace, count_if-remove, Text, text_eq, text_eq_refl,
  text_eq→eq, ℕ, ◌+◌, ◌≤◌, ◌≡◌, refl, ◌∙◌, inl, inr, Bool, true, false, not, ◌&&◌, Option, none,
  some, List, [], ◌∷◌, ◌++◌, arith,
}
use mnemo_api.Models.{Deck, Db}
use mnemo_api.Deck.{
  owns, named, excluded, deck_name_exists, new_deck, create_deck, revise, name_clashes, update_deck,
}

module _ (lower : Text → Text) where
  abbrev pub HasUniqueNames : List Deck → Type 0
  HasUniqueNames decks = (user_id : ℕ) (name : Text) → count_if (named lower user_id name) decks ≤ 1

  -- Two names that a row answers to are the same condition.
  same_condition :
      (u v : ℕ) (m n : Text) (d : Deck)
      → named lower u m d ≡ true
      → named lower v n d ≡ true
      → (x : Deck) → named lower u m x ≡ named lower v n x
  same_condition u v m n d h k x =
      let a : u ≡ v = ground arith in
      let b : lower m ≡ lower n =
        ground (arith, text_eq→eq (lower d.name) (lower m), text_eq→eq (lower d.name) (lower n)) in
      rw (a, b)

  no_other :
      (user_id : ℕ) (name : Text) (exclude : Option ℕ) (decks : List Deck)
      → deck_name_exists lower user_id name exclude decks ≡ false
      → count_if (λ d. named lower user_id name d && not (excluded exclude d)) decks ≡ 0
  unfolding deck_name_exists
  no_other user_id name exclude decks h =
      let wanted = λ (d : Deck). named lower user_id name d && not (excluded exclude d) in
      elim (Option-cases (first? wanted decks)) [
        | inl missing ↦ count_if-none wanted decks missing
        | inr (d, found) ↦ absurd (ground arith)
      ]

  append-HasUniqueNames :
      (user_id : ℕ) (name : Text) (d : Deck) (decks : List Deck)
      → d.user_id ≡ user_id
      → d.name ≡ name
      → deck_name_exists lower user_id name none decks ≡ false
      → HasUniqueNames decks
      → HasUniqueNames (decks ++ d ∷ [])
  append-HasUniqueNames user_id name d decks mine same free h v n =
      let here : named lower user_id name d ≡ true =
        rw (mine, same) (ground (arith, text_eq_refl (lower name))) in
      let alike =
        count_if-congr (named lower user_id name)
          (λ x. named lower user_id name x && not (excluded none x)) decks (λ x. ground arith) in
      let none_yet = alike ∙ no_other user_id name none decks free in
      elim (Bool-cases (named lower v n d)) [
        | inl hit ↦ omega (
          arith,
          count_if-append_one (named lower v n) decks d,
          count_if-congr (named lower v n) (named lower user_id name) decks
              (same_condition v user_id n name d hit here),
          none_yet,
          bit-le (named lower v n d),
        )
        | inr miss ↦ ground (arith, count_if-append_one (named lower v n) decks d, h v n)
      ]

  -- The rows that answer to a condition, split by the row with an identifier.
  count-at_id :
      (p : Deck → Bool) (id : ℕ) (decks : List Deck) (d : Deck)
      → Has d decks
      → d.id ≡ id
      → count_if (λ (x : Deck). x.id == id) decks ≤ 1
      → count_if p decks ≡ count_if (λ x. p x && not (x.id == id)) decks + (if p d then 1 else 0)
  count-at_id p id decks d here same one =
      let at_id = λ (x : Deck). x.id == id in
      omega (
        arith,
        count_if-remove p at_id decks d here (ground arith) one,
        count_if-delete p at_id decks,
      )

  revise-HasUniqueNames :
      (user_id id : ℕ) (name : Option Text) (description : Option Text) (tags : Option (List Text))
      (decks : List Deck) (d : Deck)
      → Has d decks
      → d.id ≡ id
      → d.user_id ≡ user_id
      → count_if (λ (x : Deck). x.id == id) decks ≤ 1
      → name_clashes lower user_id d name decks ≡ false
      → HasUniqueNames decks
      → HasUniqueNames (update_if (λ (x : Deck). x.id == id) (revise name description tags) decks)
  unfolding name_clashes
  revise-HasUniqueNames user_id id none description tags decks d here same mine one free h v n =
      rw
        (count_if-update (named lower v n) (λ (x : Deck). x.id == id) (revise none description tags)
          decks (λ x. refl))
        (h v n)
  revise-HasUniqueNames user_id id (some name) description tags decks d here same mine one free h v
        n =
      let at_id = λ (x : Deck). x.id == id in
      let f = revise (some name) description tags in
      let old = named lower v n in
      let split = count-at_id old id decks d here same one in
      let moved = count_if-replace old at_id f decks d here (ground arith) one in
      elim (Bool-cases (old (f d))) [
        | inr miss ↦ ground (arith, split, moved, h v n)
        | inl hit ↦ elim (Bool-cases (text_eq name d.name)) [
          | inl kept ↦
              let e = text_eq→eq name d.name kept in
              let stays : old d ≡ true = rw (← e) hit in ground (arith, moved, h v n)
          | inr new ↦
              let wanted = named lower user_id name in
              let nobody = no_other user_id name (some d.id) decks (ground arith) in
              let renamed : wanted (f d) ≡ true =
                rw mine (ground (arith, text_eq_refl (lower name))) in
              let alike =
                count_if-congr (λ x. old x && not (at_id x))
                  (λ x. wanted x && not (excluded (some d.id) x)) decks
                  (λ x. rw (same_condition v user_id n name (f d) hit renamed x, same) refl) in
              omega (arith, split, moved, nobody, alike, bit-le (old (f d)))
        ]
      ]

  -- Creating a deck keeps the names of each user's decks different up to case, whether it succeeds
  -- or not.
  pub create_deck-HasUniqueNames :
      (id user_id : ℕ) (name : Text) (description : Option Text) (tags : List Text) (now : ℕ)
      (db : Db)
      → HasUniqueNames db.decks
      → HasUniqueNames (create_deck lower id user_id name description tags now db).1.decks
  unfolding create_deck
  create_deck-HasUniqueNames id user_id name description tags now db h =
      elim (Bool-cases (deck_name_exists lower user_id name none db.decks)) [
        | inl taken ↦ rw taken h
        | inr free ↦ rw free (
            append-HasUniqueNames user_id name (new_deck id user_id name description tags now)
              db.decks refl refl free h)
      ]

  -- Updating a deck keeps the names of each user's decks different up to case, if at most one deck
  -- has its identifier.
  pub update_deck-HasUniqueNames :
      (user_id deck_id : ℕ) (name : Option Text) (description : Option Text)
      (tags : Option (List Text)) (db : Db)
      → count_if (λ (d : Deck). d.id == deck_id) db.decks ≤ 1
      → HasUniqueNames db.decks
      → HasUniqueNames (update_deck lower user_id deck_id name description tags db).1.decks
  unfolding update_deck
  update_deck-HasUniqueNames user_id deck_id name description tags db one h =
      elim (Option-cases (first? (owns user_id deck_id) db.decks)) [
        | inl missing ↦ rw (missing, update_deck) h
        | inr (d, found) ↦
            let mine = first?-holds (owns user_id deck_id) db.decks d found in
            elim (Bool-cases (name_clashes lower user_id d name db.decks)) [
              | inl clash ↦ rw (found, clash, update_deck) h
              | inr free ↦
                  rw (found, free, update_deck)
                    (revise-HasUniqueNames user_id deck_id name description tags db.decks d
                      (first?-Has (owns user_id deck_id) db.decks d found) (ground arith)
                      (ground arith) one free h)
            ]
      ]
