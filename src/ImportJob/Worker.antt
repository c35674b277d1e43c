-- ===== src/ImportJob/Worker.antt =====
-- workers/import_worker.py: what the worker does to the table of jobs and to the queue of their
-- identifiers in Redis, which is a list and always answers. The heartbeat and the polling loop are
-- input and output. Nothing else runs on the tables meanwhile.
use mnemo_api.Prelude.{
  leb, ◌==◌, if◌then◌else◌, Bool-cases, length, select, update_if, count_if, Text, Unicode, ℕ, ◌≡◌,
  refl, ◌⊎◌, inl, inr, Bool, true, false, not, ◌&&◌, Option, none, some, List, [], ◌∷◌, ◌++◌, arith,
}
use mnemo_api.Models.{
  Flashcard, ImportJobStatus, queued, processing, completed, failed, ImportJob, Db,
}
use mnemo_api.Exec.{database_error, Result, ok, err, Exec}
use mnemo_api.ImportJob.{is_open, process_import_job}
use mnemo_api.ImportJob.Outcome.{job_at, process_outcome, Outcome-over}

abbrev pub is_queued : ImportJobStatus → Bool
is_queued queued = true
is_queued processing = false
is_queued completed = false
is_queued failed = false

abbrev pub is_processing : ImportJobStatus → Bool
is_processing queued = false
is_processing processing = true
is_processing completed = false
is_processing failed = false

-- `_reset_stuck_jobs`
pub reset_stuck_jobs : Db → Db
reset_stuck_jobs db = record db {
  import_jobs =
      update_if (λ (j : ImportJob). is_processing j.status)
        (λ (j : ImportJob). record j { status = queued }) db.import_jobs;
}

-- The first of the jobs with the least `created_at`.
pub oldest : List ImportJob → Option ImportJob
oldest [] = none
oldest (j ∷ js) = elim (oldest js) [
  | none ↦ some j
  | some k ↦ if leb j.created_at k.created_at then some j else some k
]

-- `_claim_db_job`
pub claim_db_job : Db → Option ImportJob
claim_db_job db = oldest (select (λ (j : ImportJob). is_queued j.status) db.import_jobs)

over-unqueued : (s : ImportJobStatus) → is_open s ≡ false → is_queued s ≡ false
over-unqueued queued h = ground arith
over-unqueued processing h = refl
over-unqueued completed h = refl
over-unqueued failed h = refl

queued-open : (s : ImportJobStatus) → is_queued s ≡ true → is_open s ≡ true
queued-open queued h = refl
queued-open processing h = ground arith
queued-open completed h = ground arith
queued-open failed h = ground arith

-- Whether the texts fit into `String(1000)` and `String(2000)` of models/flashcard.py. PostgreSQL
-- refuses longer ones; the parser of CSV rows does not check them, and rows that are stored fit.
abbrev pub fits_columns : Flashcard → Bool
fits_columns c = leb (length c.question) 1000 && leb (length c.answer) 2000

pub fit_columns : List Flashcard → Bool
fit_columns cards = count_if (λ c. not (fits_columns c)) cards == 0

-- What `_process_db_job` and `_process_redis_job` make of the result of `_process_job`.
abbrev pub first_of : Result (Bool × Bool) → Result Bool
first_of (ok (done, again)) = ok done
first_of (err e) = err e

abbrev pub is_done : Result (Bool × Bool) → Bool
is_done (ok (done, again)) = done
is_done (err e) = false

abbrev pub is_again : Result (Bool × Bool) → Bool
is_again (ok (done, again)) = again
is_again (err e) = true

module _ (u : Unicode) (csv : Text → Option (List (List Text))) (ids : ℕ → ℕ) where
  -- The end of `_process_job`: commit or roll back. The new cards reach the database with the
  -- commit, which raises for a text that is too long for its column and leaves the tables as they
  -- were.
  abbrev commit_or_not : ℕ → Db → Db → Result (Bool × Bool) × Db
  commit_or_not job_id before after = elim (job_at job_id after) [
    | none ↦ (ok (false, true), before)
    | some r ↦
        if is_open r.status
        then (ok (false, true), before)
        else if fit_columns after.cards
        then (ok (true, false), after)
        else (err database_error, before)
  ]

  -- `_process_job`: whether the job was processed and whether it may be tried again, or an
  -- exception, and the tables.
  pub process_job : ℕ → ℕ → Exec Db (Bool × Bool)
  process_job job_id now db = elim (job_at job_id db) [
    | none ↦ (ok (false, false), db)
    | some job ↦
        if is_queued job.status
        then commit_or_not job_id db (process_import_job u csv ids job_id now db)
        else (ok (false, false), db)
  ]

  -- `_process_db_job`; an exception ends it.
  pub process_db_job : ℕ → Exec Db Bool
  process_db_job now db = elim (claim_db_job db) [
    | none ↦ (ok false, db)
    | some job ↦ let (r, db') = process_job job.id now db in (first_of r, db')
  ]

  -- `_process_redis_job` on the queue of identifiers in Redis, which answers: whether a job was
  -- processed, and the queue and the tables afterwards. A job that may be tried again, and one
  -- whose processing raised an exception, goes to the end of the queue.
  pub process_redis_job : ℕ → List ℕ → Db → Bool × List ℕ × Db
  process_redis_job now [] db = (false, [], db)
  process_redis_job now (job_id ∷ queue) db =
      let (r, db') = process_job job_id now db in
      (is_done r, if is_again r then queue ++ job_id ∷ [] else queue, db')

  commits :
      (job_id : ℕ) (before after : Db) (r : ImportJob)
      → job_at job_id after ≡ some r
      → is_open r.status ≡ false
      → commit_or_not job_id before after ≡ (
          if fit_columns after.cards
          then (ok (true, false), after)
          else (err database_error, before))
  commits job_id before after r found over = ground arith

  process_job-queued :
      (job_id now : ℕ) (db : Db) (job r : ImportJob)
      → job_at job_id db ≡ some job
      → is_queued job.status ≡ true
      → job_at job_id (process_import_job u csv ids job_id now db) ≡ some r
      → is_open r.status ≡ false
      → process_job job_id now db ≡ (
          if fit_columns (process_import_job u csv ids job_id now db).cards
          then (ok (true, false), process_import_job u csv ids job_id now db)
          else (err database_error, db))
  unfolding process_job
  process_job-queued job_id now db job r found waiting found' over =
      let after = process_import_job u csv ids job_id now db in
      rw (found, process_job, waiting) (commits job_id db after r found' over)

  process_job-idle :
      (job_id now : ℕ) (db : Db) (r : ImportJob)
      → job_at job_id db ≡ some r
      → is_queued r.status ≡ false
      → process_job job_id now db ≡ (ok (false, false), db)
  unfolding process_job
  process_job-idle job_id now db r found idle = rw (found, process_job, idle) refl

  -- The job is done with: it counts as processed, and delivered again it is dropped from the queue
  -- and changes nothing.
  abbrev pub IsDone : ℕ → ℕ → ℕ → List ℕ → Db → Type 0
  IsDone job_id now later queue db =
      let after = process_import_job u csv ids job_id now db in
      (process_redis_job now (job_id ∷ queue) db ≡ (true, queue, after))
      × (process_redis_job later (job_id ∷ queue) after ≡ (false, queue, after))

  redis-ran :
      (job_id now : ℕ) (queue : List ℕ) (db db' : Db) (r : Result (Bool × Bool))
      → process_job job_id now db ≡ (r, db')
      → process_redis_job now (job_id ∷ queue) db
        ≡ (is_done r, if is_again r then queue ++ job_id ∷ [] else queue, db')
  unfolding process_redis_job
  redis-ran job_id now queue db db' r h = rw h refl

  -- The worker takes a queued job off the queue once: if the texts of all cards fit into their
  -- columns, it is processed and committed, and the same job delivered again changes nothing and
  -- is dropped. Otherwise the commit raises, the tables are as they were, and the job goes back to
  -- the end of the queue.
  pub process_job_twice :
      (job_id now later : ℕ) (queue : List ℕ) (db : Db) (job : ImportJob)
      → job_at job_id db ≡ some job
      → is_queued job.status ≡ true
      → let fits = fit_columns (process_import_job u csv ids job_id now db).cards in
        ((fits ≡ true) × IsDone job_id now later queue db)
        ⊎ ((fits ≡ false)
            × (process_redis_job now (job_id ∷ queue) db ≡ (false, queue ++ job_id ∷ [], db)))
  process_job_twice job_id now later queue db job found waiting =
      let after = process_import_job u csv ids job_id now db in
      let (r, found', how) =
        process_outcome u csv ids job_id now db job found (queued-open job.status waiting) in
      let over = Outcome-over u csv ids job db after r how in
      let ran = process_job-queued job_id now db job r found waiting found' over in
      let idle = process_job-idle job_id later after r found' (over-unqueued r.status over) in
      elim (Bool-cases (fit_columns after.cards)) [
        | inl fits ↦
            let committed : process_job job_id now db ≡ (ok (true, false), after) =
              rw fits at ran in
            inl (
              fits,
              (
                redis-ran job_id now queue db after (ok (true, false)) committed,
                redis-ran job_id later queue after after (ok (false, false)) idle,
              ),
            )
        | inr long ↦
            let raised : process_job job_id now db ≡ (err database_error, db) = rw long at ran in
            inr (long, redis-ran job_id now queue db db (err database_error) raised)
      ]
