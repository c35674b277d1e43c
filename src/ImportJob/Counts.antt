-- ===== src/ImportJob/Counts.antt =====
-- Imports keep the card count of every deck.
use mnemo_api.Prelude.{
  ◌==◌, if◌then◌else◌, ==_iff, bit-le, Bool-cases, Option-cases, length, delete_if, count_if,
  count_if-append, count_if_mono, count_if-delete, count_if-delete_none, count_if-delete_all,
  All-update_if, Text, Unicode, ℕ, ◌+◌, ◌≤◌, ◌≡◌, refl, sym, subst, ◌∙◌, ◌⊎◌, inl, inr, Bool, not,
  ◌&&◌, Option, List, [], ◌∷◌, ◌++◌, arith,
}
use mnemo_api.Models.{Flashcard, Deck, ImportMode, merge, replace, ImportJob, Db}
use mnemo_api.Deck.{in_deck}
use mnemo_api.Flashcard.{write_deck}
use mnemo_api.Flashcard.Counts.{Keyed, IsCounted, delete-Keyed}
use mnemo_api.ImportJob.{
  Pair, parse_csv_rows, wipe_deck_cards, cards_of, wiped, add_cards, store_rows, is_open,
  process_import_job,
}
use mnemo_api.ImportJob.Outcome.{
  job_at, run_import-cases, process_import_job-open, process_import_job-missing,
  process_import_job-over,
}

-- The identifiers for new cards differ from each other and from those in use.
pub record IsFresh (ids : ℕ → ℕ) (cards : List Flashcard) : Type 0 where
  pub distinct : (m n : ℕ) → ids m ≡ ids n → m ≡ n
  pub unused : (n : ℕ) → count_if (λ (c : Flashcard). c.id == ids n) cards ≡ 0

count_if-in_deck-cards_of :
    (ids : ℕ → ℕ) (n deck_id now : ℕ) (rows : List Pair) (k : ℕ)
    → count_if (in_deck k) (cards_of ids n deck_id now rows)
      ≡ (if deck_id == k then length rows else 0)
unfolding count_if cards_of
count_if-in_deck-cards_of ids n deck_id now [] k = ground arith
count_if-in_deck-cards_of ids n deck_id now ((question, answer) ∷ rows) k =
    ground (arith, count_if-in_deck-cards_of ids (n + 1) deck_id now rows k)

-- An identifier that new cards have is one of the fresh ones, from position n on.
cards_of-ids :
    (ids : ℕ → ℕ) (n deck_id now : ℕ) (rows : List Pair) (i : ℕ)
    → (count_if (λ (c : Flashcard). c.id == i) (cards_of ids n deck_id now rows) ≡ 0)
      ⊎ ((k : ℕ) × (n ≤ k) × (ids k ≡ i))
unfolding count_if cards_of
cards_of-ids ids n deck_id now [] i = inl refl
cards_of-ids ids n deck_id now ((question, answer) ∷ rows) i = elim (Bool-cases (ids n == i)) [
  | inl hit ↦ inr (n, omega arith, (==_iff (ids n) i).0 hit)
  | inr miss ↦ elim (cards_of-ids ids (n + 1) deck_id now rows i) [
    | inl free ↦ inl (ground arith)
    | inr (k, le, e) ↦ inr (k, omega arith, e)
  ]
]

cards_of-Keyed :
    (ids : ℕ → ℕ) (n deck_id now : ℕ) (rows : List Pair)
    → ((m n : ℕ) → ids m ≡ ids n → m ≡ n)
    → Keyed (cards_of ids n deck_id now rows)
unfolding count_if cards_of
cards_of-Keyed ids n deck_id now [] distinct i = omega arith
cards_of-Keyed ids n deck_id now ((question, answer) ∷ rows) distinct i =
    elim (cards_of-ids ids (n + 1) deck_id now rows i) [
      | inl free ↦ ground (arith, bit-le (ids n == i))
      | inr (k, le, e) ↦ elim (Bool-cases (ids n == i)) [
        | inl hit ↦
            let same = distinct n k ((==_iff (ids n) i).0 hit ∙ sym e) in absurd (omega arith)
        | inr miss ↦ ground (arith, cards_of-Keyed ids (n + 1) deck_id now rows distinct i)
      ]
    ]

append-Keyed :
    (ids : ℕ → ℕ) (deck_id now : ℕ) (rows : List Pair) (cards : List Flashcard)
    → IsFresh ids cards
    → Keyed cards
    → Keyed (cards ++ cards_of ids 0 deck_id now rows)
append-Keyed ids deck_id now rows cards fresh h i =
    let at_i = λ (c : Flashcard). c.id == i in
    let added = cards_of ids 0 deck_id now rows in
    elim (cards_of-ids ids 0 deck_id now rows i) [
      | inl free ↦ omega (arith, count_if-append at_i cards added, h i)
      | inr (k, le, e) ↦
          let unused = fresh.unused k in
          let free : count_if at_i cards ≡ 0 = rw (← e) unused in
          omega (
            arith,
            count_if-append at_i cards added,
            cards_of-Keyed ids 0 deck_id now rows fresh.distinct i,
          )
    ]

add_cards-IsCounted :
    (ids : ℕ → ℕ) (deck_id now : ℕ) (filename : Option Text) (rows : List Pair) (db : Db)
    → IsFresh ids db.cards
    → IsCounted db
    → IsCounted (add_cards ids deck_id now filename rows db)
unfolding add_cards
add_cards-IsCounted ids deck_id now filename [] db fresh h = h
add_cards-IsCounted ids deck_id now filename (row ∷ rows) db fresh h =
    let added = cards_of ids 0 deck_id now (row ∷ rows) in
    record {
      counted =
          All-update_if _ _ (λ (d : Deck). d.id == deck_id) _ db.decks
            (λ d hit k. ground (
              arith,
              count_if-append (in_deck d.id) db.cards added,
              count_if-in_deck-cards_of ids 0 deck_id now (row ∷ rows) d.id,
            ))
            (λ d miss k. ground (
              arith,
              count_if-append (in_deck d.id) db.cards added,
              count_if-in_deck-cards_of ids 0 deck_id now (row ∷ rows) d.id,
            ))
            h.counted;
      keyed = append-Keyed ids deck_id now (row ∷ rows) db.cards fresh h.keyed;
    }

wipe-IsCounted :
    (deck_id : ℕ) (db : Db)
    → IsCounted db
    → IsCounted (
        write_deck deck_id
          (wiped (count_if (in_deck deck_id) db.cards))
          (wipe_deck_cards deck_id db))
unfolding wipe_deck_cards
wipe-IsCounted deck_id db h = record {
  counted =
      All-update_if _ _ (λ (d : Deck). d.id == deck_id) _ db.decks
        (λ d hit k.
          sym (count_if-delete_all (in_deck d.id) (in_deck deck_id) db.cards (λ c m. ground arith)))
        (λ d miss k.
          k
          ∙ sym (
              count_if-delete_none (in_deck d.id) (in_deck deck_id) db.cards (λ c m. ground arith)))
        h.counted;
  keyed = delete-Keyed (in_deck deck_id) db.cards h.keyed;
}

delete-IsFresh :
    (ids : ℕ → ℕ) (p : Flashcard → Bool) (cards : List Flashcard)
    → IsFresh ids cards
    → IsFresh ids (delete_if p cards)
delete-IsFresh ids p cards h = record {
  distinct = h.distinct;
  unused = λ n.
      let at_n = λ (x : Flashcard). x.id == ids n in
      omega (
        arith,
        h.unused n,
        count_if-delete at_n p cards,
        count_if_mono at_n (λ x. at_n x && not (p x)) cards (λ x k. ground arith),
      );
}

store_rows-IsCounted :
    (u : Unicode) (ids : ℕ → ℕ) (mode : ImportMode) (job : ImportJob) (rows : List Pair) (now : ℕ)
    (db : Db)
    → IsFresh ids db.cards
    → IsCounted db
    → IsCounted (store_rows u ids mode job rows now db).0
unfolding store_rows wipe_deck_cards
store_rows-IsCounted u ids merge job rows now db fresh h =
    add_cards-IsCounted ids job.deck_id now job.original_filename _ db fresh h
store_rows-IsCounted u ids replace job rows now db fresh h =
    add_cards-IsCounted ids job.deck_id now job.original_filename _ _
      (delete-IsFresh ids (in_deck job.deck_id) db.cards fresh) (wipe-IsCounted job.deck_id db h)

-- Processing a job, whatever its text and however it ends, keeps the card count of every deck
-- equal to the number of its cards, if the identifiers for new cards are new.
pub process-IsCounted :
    (u : Unicode) (csv : Text → Option (List (List Text))) (ids : ℕ → ℕ) (job_id now : ℕ) (db : Db)
    → IsFresh ids db.cards
    → IsCounted db
    → IsCounted (process_import_job u csv ids job_id now db)
process-IsCounted u csv ids job_id now db fresh h = elim (Option-cases (job_at job_id db)) [
  | inl missing ↦ rw (process_import_job-missing u csv ids job_id now db missing) h
  | inr (job, found) ↦ elim (Bool-cases (is_open job.status)) [
    | inr over ↦ rw (process_import_job-over u csv ids job_id now db job found over) h
    | inl open_ ↦
        let run = process_import_job-open u csv ids job_id now db job found open_ in
        elim (run_import-cases u csv ids job now db) [
          | inl (snapshot, message, e) ↦
              subst IsCounted (sym (run ∙ e)) (record { counted = h.counted; keyed = h.keyed })
          | inr (table, read, e) ↦
              let (rows, errors) = parse_csv_rows u table in
              let k = store_rows-IsCounted u ids job.mode job rows now db fresh h in
              subst IsCounted (sym (run ∙ e)) (record { counted = k.counted; keyed = k.keyed })
        ]
  ]
]
