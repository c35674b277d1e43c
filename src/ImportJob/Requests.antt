-- ===== src/ImportJob/Requests.antt =====
-- services/import_job.py: the creation of a job and the query for it.
use mnemo_api.Prelude.{
  ◌==◌, if◌then◌else◌, ==_refl, first?, count_if, Text, ℕ, ◌≡◌, refl, ◌&&◌, Option, none, some,
  List, [], ◌∷◌, ◌++◌, arith,
}
use mnemo_api.Models.{ImportMode, queued, ImportJob, Db}
use mnemo_api.Exec.{ok, Exec}

-- What a request for an import holds.
pub record JobFields : Type 0 where
  pub deck_id : ℕ
  pub mode : ImportMode
  pub file_text : Text
  pub original_filename : Option Text

abbrev pub new_job : ℕ → ℕ → JobFields → ℕ → ImportJob
new_job id user_id fields now = record {
  id = id;
  user_id = user_id;
  deck_id = fields.deck_id;
  status = queued;
  mode = fields.mode;
  original_filename = fields.original_filename;
  file_text = fields.file_text;
  cards_imported = 0;
  cards_skipped = 0;
  errors = [];
  created_at = now;
  completed_at = none;
}

unfoldable pub create_import_job : ℕ → ℕ → JobFields → ℕ → Exec Db ImportJob
create_import_job id user_id fields now db = (
  ok (new_job id user_id fields now),
  record db { import_jobs = db.import_jobs ++ new_job id user_id fields now ∷ [] },
)

unfoldable pub get_import_job : ℕ → ℕ → Db → Option ImportJob
get_import_job user_id job_id db =
    first? (λ (j : ImportJob). j.id == job_id && j.user_id == user_id) db.import_jobs

pub find_new :
    (id user_id asker : ℕ) (fields : JobFields) (now : ℕ) (jobs : List ImportJob)
    → count_if (λ (j : ImportJob). j.id == id) jobs ≡ 0
    → first?
        (λ (j : ImportJob). j.id == id && j.user_id == asker)
        (jobs ++ new_job id user_id fields now ∷ [])
      ≡ (if user_id == asker then some (new_job id user_id fields now) else none)
unfolding first? count_if
find_new id user_id asker fields now [] fresh = ground (arith, ==_refl id)
find_new id user_id asker fields now (j ∷ js) fresh =
    ground (arith, find_new id user_id asker fields now js)

-- With a new identifier, a job that was created is found as it was returned, queued and with
-- nothing imported, by its user, and by no one else.
pub created-found :
    (id user_id asker : ℕ) (fields : JobFields) (now : ℕ) (db : Db)
    → count_if (λ (j : ImportJob). j.id == id) db.import_jobs ≡ 0
    → let (r, db') = create_import_job id user_id fields now db in
      (job : ImportJob) × (r ≡ ok job)
      × (job.status ≡ queued)
      × (job.cards_imported ≡ 0)
      × (get_import_job asker id db' ≡ (if user_id == asker then some job else none))
unfolding create_import_job get_import_job
created-found id user_id asker fields now db fresh = (
  new_job id user_id fields now,
  refl,
  refl,
  refl,
  find_new id user_id asker fields now db.import_jobs fresh,
)
