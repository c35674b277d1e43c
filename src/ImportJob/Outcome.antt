-- ===== src/ImportJob/Outcome.antt =====
-- How a call of `process_import_job` ends.
use mnemo_api.Prelude.{
  ◌==◌, Bool-cases, Option-cases, length, first?, first?-holds, first?-update, Text, Unicode, ℕ,
  ◌+◌, ◌≡◌, refl, sym, ap, subst, ◌∙◌, ◌⊎◌, inl, inr, true, false, Option, none, some, List, [],
  ◌∷◌, map, arith,
}
use mnemo_api.Models.{
  ImportMode, merge, replace, completed, failed, RowMessage, Message, of_row, joined, no_valid_rows,
  deck_missing, csv_error, ImportJob, Db,
}
use mnemo_api.ImportJob.{
  Pair, parse_csv_rows, existing_pairs, wipe_deck_cards, add_cards, write_job, store_rows, complete,
  fail, is_open, import_rows, run_import, process_import_job,
}
use mnemo_api.Deck.{owns}
use mnemo_api.ImportJob.Dedupe.{dedupe_rows-Splits}

-- The row of a job.
abbrev pub job_at : ℕ → Db → Option ImportJob
job_at job_id db = first? (λ (j : ImportJob). j.id == job_id) db.import_jobs

-- What a write to the row of a job leaves there.
job_at-write :
    (job_id : ℕ) (f : ImportJob → ImportJob) (db db' : Db) (job : ImportJob)
    → ((j : ImportJob) → (f j).id ≡ j.id)
    → job_at job_id db ≡ some job
    → db'.import_jobs ≡ db.import_jobs
    → job_at job_id (write_job job.id f db') ≡ some (f job)
job_at-write job_id f db db' job keeps found same =
    let here = first?-holds (λ (j : ImportJob). j.id == job_id) db.import_jobs job found in
    let key : job.id ≡ job_id = ground arith in
    rw
      (
        first?-update (λ (j : ImportJob). j.id == job_id) (λ (j : ImportJob). j.id == job.id) f
            db'.import_jobs (λ j. rw (keeps j) refl) (λ j h. ground arith),
        same,
        found,
      )
      refl

add_cards-import_jobs :
    (ids : ℕ → ℕ) (deck_id now : ℕ) (filename : Option Text) (rows : List Pair) (db : Db)
    → (add_cards ids deck_id now filename rows db).import_jobs ≡ db.import_jobs
unfolding add_cards
add_cards-import_jobs ids deck_id now filename [] db = refl
add_cards-import_jobs ids deck_id now filename (row ∷ rows) db = refl

store_rows-import_jobs :
    (u : Unicode) (ids : ℕ → ℕ) (mode : ImportMode) (job : ImportJob) (rows : List Pair) (now : ℕ)
    (db : Db)
    → (store_rows u ids mode job rows now db).0.import_jobs ≡ db.import_jobs
unfolding store_rows wipe_deck_cards
store_rows-import_jobs u ids merge job rows now db =
    add_cards-import_jobs ids job.deck_id now job.original_filename _ db
store_rows-import_jobs u ids replace job rows now db =
    add_cards-import_jobs ids job.deck_id now job.original_filename _ _

store_rows-count :
    (u : Unicode) (ids : ℕ → ℕ) (mode : ImportMode) (job : ImportJob) (rows : List Pair) (now : ℕ)
    (db : Db)
    → let (db', added, skipped) = store_rows u ids mode job rows now db in
      added + skipped ≡ length rows
unfolding store_rows
store_rows-count u ids merge job rows now db =
    (dedupe_rows-Splits u rows (existing_pairs u job.deck_id db)).0
store_rows-count u ids replace job rows now db = (dedupe_rows-Splits u rows []).0

module _ (u : Unicode) (csv : Text → Option (List (List Text))) (ids : ℕ → ℕ) where
  -- The two ends of a run.
  abbrev Failed : ImportJob → ℕ → Db → Db → Type 0
  Failed job now db db' =
      (snapshot : List Message) × (message : Message) × (db'
        ≡ write_job job.id (fail snapshot message now) db)

  abbrev Completed : ImportJob → ℕ → Db → Db → Type 0
  Completed job now db db' =
      (table : List (List Text)) × (csv job.file_text ≡ some table)
      × (let (rows, errors) = parse_csv_rows u table in
          let (stored, added, skipped) = store_rows u ids job.mode job rows now db in
          db' ≡ write_job job.id (complete errors added skipped now) stored)

  import_rows-cases :
      (job : ImportJob) (parsed : List Pair × List RowMessage) (now : ℕ) (db : Db)
      → let (stored, added, skipped) = store_rows u ids job.mode job parsed.0 now db in
        Failed job now db (import_rows u csv ids job parsed now db)
        ⊎ (import_rows u csv ids job parsed now db
            ≡ write_job job.id (complete parsed.1 added skipped now) stored)
  unfolding import_rows
  import_rows-cases job ([], []) now db = inl ([], no_valid_rows, refl)
  import_rows-cases job ([], error ∷ errors) now db =
      inl (map of_row (error ∷ errors), joined (error ∷ errors), refl)
  import_rows-cases job (row ∷ rows, errors) now db = inr refl

  pub run_import-cases :
      (job : ImportJob) (now : ℕ) (db : Db)
      → Failed job now db (run_import u csv ids job now db)
        ⊎ Completed job now db (run_import u csv ids job now db)
  unfolding run_import
  run_import-cases job now db =
      elim (Option-cases (first? (owns job.user_id job.deck_id) db.decks)) [
        | inl missing ↦ inl (job.errors, deck_missing, rw (missing, run_import) refl)
        | inr (d, found) ↦ elim (Option-cases (csv job.file_text)) [
          | inl broken ↦ inl (job.errors, csv_error, rw (found, run_import, broken) refl)
          | inr (table, read) ↦ elim (import_rows-cases job (parse_csv_rows u table) now db) [
            | inl (snapshot, message, e) ↦ inl (snapshot, message, rw (found, run_import, read) e)
            | inr e ↦ inr (table, read, rw (found, run_import, read) e)
          ]
        ]
      ]

  -- What a call leaves of an open job: a failure that changed no deck and no card, or a completion
  -- that accounts for every valid row of the text and reports the others.
  abbrev pub Outcome : ImportJob → Db → Db → ImportJob → Type 0
  Outcome job db db' r =
      ((r.status ≡ failed)
        × (db'.decks ≡ db.decks)
        × (db'.cards ≡ db.cards)
        × (db'.memory_states ≡ db.memory_states)
        × (db'.session_cards ≡ db.session_cards))
      ⊎ ((r.status ≡ completed)
          × (table : List (List Text)) × (csv job.file_text ≡ some table)
          × (r.cards_imported + r.cards_skipped ≡ length (parse_csv_rows u table).0)
          × (r.errors ≡ map of_row (parse_csv_rows u table).1))

  abbrev pub Ends : ℕ → ImportJob → Db → Db → Type 0
  Ends job_id job db db' = (r : ImportJob) × (job_at job_id db' ≡ some r) × Outcome job db db' r

  pub process_import_job-open :
      (job_id now : ℕ) (db : Db) (job : ImportJob)
      → job_at job_id db ≡ some job
      → is_open job.status ≡ true
      → process_import_job u csv ids job_id now db ≡ run_import u csv ids job now db
  unfolding process_import_job
  process_import_job-open job_id now db job found open_ = rw (found, process_import_job, open_) refl

  -- Processing an open job ends it: either it fails and the decks, the cards and their memory
  -- states are as they were, or it is completed, the imported and the skipped rows make up all
  -- valid rows of the text, and the invalid ones are reported.
  pub process_outcome :
      (job_id now : ℕ) (db : Db) (job : ImportJob)
      → job_at job_id db ≡ some job
      → is_open job.status ≡ true
      → let db' = process_import_job u csv ids job_id now db in Ends job_id job db db'
  process_outcome job_id now db job found open_ =
      let run = process_import_job-open job_id now db job found open_ in
      elim (run_import-cases job now db) [
        | inl (snapshot, message, e) ↦
            let f = fail snapshot message now in
            subst (Ends job_id job db) (sym (run ∙ e)) (
              f job,
              job_at-write job_id f db db job (λ j. refl) found refl,
              inl (refl, refl, refl, refl, refl),
            )
        | inr (table, read, e) ↦
            let (rows, errors) = parse_csv_rows u table in
            let (stored, added, skipped) = store_rows u ids job.mode job rows now db in
            let f = complete errors added skipped now in
            subst (Ends job_id job db) (sym (run ∙ e)) (
              f job,
              job_at-write job_id f db stored job (λ j. refl) found
                  (store_rows-import_jobs u ids job.mode job rows now db),
              inr (refl, table, read, store_rows-count u ids job.mode job rows now db, refl),
            )
      ]

  -- A job that is missing or over is left alone.
  pub process_import_job-missing :
      (job_id now : ℕ) (db : Db)
      → job_at job_id db ≡ none
      → process_import_job u csv ids job_id now db ≡ db
  unfolding process_import_job
  process_import_job-missing job_id now db missing = rw (missing, process_import_job) refl

  pub process_import_job-over :
      (job_id now : ℕ) (db : Db) (job : ImportJob)
      → job_at job_id db ≡ some job
      → is_open job.status ≡ false
      → process_import_job u csv ids job_id now db ≡ db
  unfolding process_import_job
  process_import_job-over job_id now db job found over = rw (found, process_import_job, over) refl

  pub Outcome-over :
      (job : ImportJob) (db db' : Db) (r : ImportJob)
      → Outcome job db db' r
      → is_open r.status ≡ false
  Outcome-over job db db' r (inl h) = ap is_open h.0
  Outcome-over job db db' r (inr h) = ap is_open h.0

  -- A job is processed once: a second call, whenever it comes and whether the first succeeded or
  -- not, changes nothing.
  pub process_once :
      (job_id now later : ℕ) (db : Db)
      → let db' = process_import_job u csv ids job_id now db in
        process_import_job u csv ids job_id later db' ≡ db'
  process_once job_id now later db = elim (Option-cases (job_at job_id db)) [
    | inl missing ↦
        let idle = process_import_job-missing job_id now db missing in
        rw (idle, process_import_job-missing job_id later db missing) refl
    | inr (job, found) ↦ elim (Bool-cases (is_open job.status)) [
      | inl open_ ↦
          let db' = process_import_job u csv ids job_id now db in
          let (r, found', how) = process_outcome job_id now db job found open_ in
          process_import_job-over job_id later db' r found' (Outcome-over job db db' r how)
      | inr over ↦
          let idle = process_import_job-over job_id now db job found over in
          rw (idle, process_import_job-over job_id later db job found over) refl
    ]
  ]
