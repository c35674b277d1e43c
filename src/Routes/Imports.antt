-- ===== src/Routes/Imports.antt =====
-- api/v1/routes/imports.py: the upload of a CSV file, up to the commit of its job, and the query for a
-- job. The decoding of UTF-8 is an argument, and so are the identifiers of new rows. That the job is
-- then announced in Redis changes no table.
use mnemo_api.Prelude.{
  ltb, if◌then◌else◌, length, take, count_if, Text, text_eq, Unicode, strip, ℕ, ◌+◌, ◌<◌, ◌≡◌, ◌⊎◌,
  inl, inr, Bool, true, false, not, Option, none, some, List, [],
}
use mnemo_api.Models.{ImportMode, queued, ImportJob, Db}
use mnemo_api.Exec.{ok, err}
use mnemo_api.Deck.{owns, create_deck, get_deck_by_id, given}
use mnemo_api.ImportJob.Requests.{new_job, create_import_job, get_import_job}

pub record Upload : Type 0 where
  pub filename : Option Text
  pub content : List ℕ
  pub deck_id : Option ℕ
  pub deck_name : Option Text
  pub mode : ImportMode

-- The codes of the refusals.
pub data Refusal : Type 0 where
  validation_error invalid_csv_format unknown_deck taken_name : Refusal

pub data Uploaded : Type 0 where
  accepted : ImportJob → Uploaded
  rejected : ℕ → Refusal → Uploaded

-- `if file.filename and len(file.filename) > 255`
abbrev pub name_too_long : Option Text → Bool
name_too_long none = false
name_too_long (some name) = ltb 255 (length name)

abbrev pub is_blank : Option Text → Bool
is_blank none = true
is_blank (some name) = text_eq name []

module _ (u : Unicode) (lower : Text → Text) (decode : List ℕ → Option Text) (max_bytes : ℕ) where
  -- The text of a file, or why there is none.
  abbrev pub read_text : List ℕ → Refusal ⊎ Text
  read_text content =
      let raw = take (max_bytes + 1) content in
      if ltb max_bytes (length raw) then inl invalid_csv_format else elim (decode raw) [
        | none ↦ inl invalid_csv_format
        | some s ↦ if text_eq (strip u s) [] then inl invalid_csv_format else inr s
      ]

  -- The job for a deck, and the commit.
  abbrev pub queue_job : ℕ → ℕ → Upload → Text → ℕ → ℕ → Db → Uploaded × Db
  queue_job job_id user_id x s deck_id now db = (
    accepted (
        new_job job_id user_id
          (record {
            deck_id = deck_id;
            mode = x.mode;
            file_text = s;
            original_filename = x.filename;
          })
          now),
    (create_import_job job_id user_id
        (record { deck_id = deck_id; mode = x.mode; file_text = s; original_filename = x.filename })
        now db).1,
  )

  -- The deck of the import: the user's with the identifier, or a new one with the name.
  abbrev pub deck_of : ℕ → ℕ → Option ℕ → Option Text → ℕ → Db → (Uploaded ⊎ ℕ) × Db
  deck_of new_id user_id (some i) name now db = elim (get_deck_by_id user_id i db) [
    | none ↦ (inl (rejected 404 unknown_deck), db)
    | some d ↦ (inr d.id, db)
  ]
  deck_of new_id user_id none name now db =
      if is_blank name
      then (inl (rejected 400 validation_error), db)
      else let (r, db') = create_deck lower new_id user_id (given name []) none [] now db in
        (elim r [ ok d ↦ inr d.id | err e ↦ inl (rejected 409 taken_name) ], db')

  abbrev pub for_deck : ℕ → ℕ → Upload → Text → ℕ → (Uploaded ⊎ ℕ) × Db → Uploaded × Db
  for_deck job_id user_id x s now (inl refusal, db) = (refusal, db)
  for_deck job_id user_id x s now (inr deck_id, db) = queue_job job_id user_id x s deck_id now db

  abbrev pub both_given : Upload → Bool
  both_given x = elim x.deck_id [ none ↦ false | some i ↦ not (is_blank x.deck_name) ]

  -- `import_csv`
  unfoldable pub import_csv : ℕ → ℕ → ℕ → Upload → ℕ → Db → Uploaded × Db
  import_csv new_id job_id user_id x now db =
      if name_too_long x.filename
      then (rejected 400 validation_error, db)
      else elim (read_text x.content) [
        | inl refusal ↦ (rejected 400 refusal, db)
        | inr s ↦
            if both_given x
            then (rejected 400 validation_error, db)
            else for_deck job_id user_id x s now
                (deck_of new_id user_id x.deck_id x.deck_name now db)
      ]

-- `get_import_job` of the route: the job of the user, or 404.
unfoldable pub get_import_job_route : ℕ → ℕ → Db → Option ImportJob
get_import_job_route user_id job_id db = get_import_job user_id job_id db

-- A refused upload changes nothing. An accepted one leaves a queued job, which the user finds, for a
-- deck of the user.
abbrev pub IsHandled : ℕ → Db → Uploaded × Db → Type 0
IsHandled user_id db (rejected status e, db') = db' ≡ db
IsHandled user_id db (accepted job, db') =
    (get_import_job user_id job.id db' ≡ some job)
    × (job.status ≡ queued)
    × (0 < count_if (owns user_id job.deck_id) db'.decks)

module _ (u : Unicode) (lower : Text → Text) (decode : List ℕ → Option Text) (max_bytes : ℕ) where
  abbrev IsDeckOf : ℕ → Db → (Uploaded ⊎ ℕ) × Db → Type 0
  IsDeckOf user_id db (inl (accepted job), db') = ⊥
  IsDeckOf user_id db (inl (rejected status e), db') = db' ≡ db
  IsDeckOf user_id db (inr i, db') =
      (0 < count_if (owns user_id i) db'.decks) × (db'.import_jobs ≡ db.import_jobs)
