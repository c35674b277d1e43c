-- ===== src/ImportJob/Merging.antt =====
-- Imports that are repeated.
use mnemo_api.Prelude.{
  ==_refl, length, select, All-map, Text, Unicode, ℕ, ◌+◌, ◌≡◌, refl, sym, ap, ◌∙◌, Bool, true,
  Option, List, [], ◌∷◌, ◌++◌, map, arith,
}
use mnemo_api.Models.{Flashcard, merge, ImportJob, Db}
use mnemo_api.Deck.{in_deck}
use mnemo_api.ImportJob.{
  Pair, normalize_pair, seen_in, dedupe_rows, existing_pairs, cards_of, add_cards, store_rows,
}
use mnemo_api.ImportJob.Dedupe.{seen_in-append, keys, dedupe_rows-Splits, dedupe_rows_seen}

select-append :
    {A : Type 0} (p : A → Bool) (xs ys : List A) → select p (xs ++ ys) ≡ select p xs ++ select p ys
unfolding select
select-append p [] ys = refl
select-append p (x ∷ xs) ys = ground (arith, select-append p xs ys)

map-append : {A B : Type 0} (f : A → B) (xs ys : List A) → map f (xs ++ ys) ≡ map f xs ++ map f ys
map-append f [] ys = refl
map-append f (x ∷ xs) ys = ap (λ zs. f x ∷ zs) (map-append f xs ys)

append-nil : {A : Type 0} (xs : List A) → xs ++ [] ≡ xs
append-nil [] = refl
append-nil (x ∷ xs) = ap (λ zs. x ∷ zs) (append-nil xs)

-- The pairs of the new cards are the normalised rows.
pairs-cards_of :
    (u : Unicode) (ids : ℕ → ℕ) (n deck_id now : ℕ) (rows : List Pair)
    → map
        (λ (c : Flashcard). normalize_pair u (c.question, c.answer))
        (select (in_deck deck_id) (cards_of ids n deck_id now rows))
      ≡ keys u rows
unfolding select cards_of
pairs-cards_of u ids n deck_id now [] = refl
pairs-cards_of u ids n deck_id now ((question, answer) ∷ rows) =
    ground (arith, pairs-cards_of u ids (n + 1) deck_id now rows, ==_refl deck_id)

existing_pairs-add_cards :
    (u : Unicode) (ids : ℕ → ℕ) (deck_id now : ℕ) (filename : Option Text) (rows : List Pair)
    (db : Db)
    → existing_pairs u deck_id (add_cards ids deck_id now filename rows db)
      ≡ existing_pairs u deck_id db ++ keys u rows
unfolding existing_pairs add_cards
existing_pairs-add_cards u ids deck_id now filename [] db = sym (append-nil _)
existing_pairs-add_cards u ids deck_id now filename (row ∷ rows) db =
    let pair = λ (c : Flashcard). normalize_pair u (c.question, c.answer) in
    let added = cards_of ids 0 deck_id now (row ∷ rows) in
    ap (map pair) (select-append (in_deck deck_id) db.cards added)
    ∙ map-append pair (select (in_deck deck_id) db.cards) (select (in_deck deck_id) added)
    ∙ ap (λ ks. existing_pairs u deck_id db ++ ks) (pairs-cards_of u ids 0 deck_id now (row ∷ rows))

seen_in-swap :
    (key : Pair) (ks ls : List Pair) → seen_in key (ks ++ ls) ≡ true → seen_in key (ls ++ ks) ≡ true
seen_in-swap key ks ls h = ground (arith, seen_in-append key ks ls, seen_in-append key ls ks)

-- Merging the rows of an import a second time into the same deck skips all of them and changes no
-- table.
pub merge_again :
    (u : Unicode) (ids ids' : ℕ → ℕ) (job job' : ImportJob) (rows : List Pair) (now later : ℕ)
    (db : Db)
    → job'.deck_id ≡ job.deck_id
    → let db' = (store_rows u ids merge job rows now db).0 in
      store_rows u ids' merge job' rows later db' ≡ (db', 0, length rows)
unfolding store_rows add_cards
merge_again u ids ids' job job' rows now later db same =
    let old = existing_pairs u job.deck_id db in
    let (unique, skipped) = dedupe_rows u rows old in
    let db' = add_cards ids job.deck_id now job.original_filename unique db in
    let (count, fresh, apart, whole) = dedupe_rows-Splits u rows old in
    let pairs : existing_pairs u job'.deck_id db' ≡ old ++ keys u unique =
      rw same (existing_pairs-add_cards u ids job.deck_id now job.original_filename unique db) in
    let seen =
      All-map _ (λ row. seen_in (normalize_pair u row) (old ++ keys u unique) ≡ true) rows
        (λ row h. seen_in-swap (normalize_pair u row) (keys u unique) old h) whole in
    ap (λ r. (add_cards ids' job'.deck_id later job'.original_filename r.0 db', length r.0, r.1))
      (ap (dedupe_rows u rows) pairs ∙ dedupe_rows_seen u rows (old ++ keys u unique) seen)
