-- ===== src/Routes/Memory.antt =====
-- api/v1/routes/memory_states.py: the memory state of a card, answers outside of sessions, and the lists
-- of due and of weak cards. The local times of the lists are left out. These routes ask for a user and for no scope.
pub mod Answered
use mnemo_api.Prelude.{◌==◌, if◌then◌else◌, update_if, ℕ, Bool, Option, none, some, List}
use mnemo_api.Models.{CardMemoryState, Db}
use mnemo_api.Exec.{Result, ok, err}
use mnemo_api.Auth.{insufficient_scope, internal_error, card_missing, Access, granted, denied}
use mnemo_api.SpacedRepetition.{
  update_memory_state_after_answer, is_row, get_or_create_memory_state,
}
use mnemo_api.SpacedRepetition.Queries.{Entry, get_due_cards, get_weak_spots}

-- `if not memory_state`
abbrev pub state_or_missing : Result (Option CardMemoryState) × Db → Access CardMemoryState × Db
state_or_missing (err e, db) = (denied 500 internal_error, db)
state_or_missing (ok none, db) = (denied 404 card_missing, db)
state_or_missing (ok (some m), db) = (granted m, db)

-- The local due time of the reply, which exists where `has_local` holds: past the range of
-- `datetime` the conversion raises OverflowError, and the request is rolled back.
abbrev pub localized : (ℕ → Bool) → Db → Access CardMemoryState × Db → Access CardMemoryState × Db
localized has_local before (denied status e, db) = (denied status e, before)
localized has_local before (granted m, db) = elim m.due_at [
  | none ↦ (granted m, db)
  | some due ↦ if has_local due then (granted m, db) else (denied 500 internal_error, before)
]

unfoldable pub get_card_memory_state : (ℕ → Bool) → ℕ → ℕ → Db → Access CardMemoryState × Db
get_card_memory_state has_local user_id card_id db =
    localized has_local db (state_or_missing (get_or_create_memory_state card_id user_id db))

-- The write to the row that was loaded, after the update of `m` that ended so; nothing catches an
-- OverflowError of it, and the handler of main.py answers.
abbrev pub write_state :
    ℕ → ℕ → ℕ → ℕ → Result (Unit {0}) × CardMemoryState → Db → Access CardMemoryState × Db
write_state user_id card_id score now (err e, m) db = (denied 500 internal_error, db)
write_state user_id card_id score now (ok done, m) db = (
  granted m,
  record db {
    memory_states =
        update_if (is_row card_id user_id)
          (λ (x : CardMemoryState). (update_memory_state_after_answer score now x).1)
          db.memory_states;
  },
)

abbrev pub score_state : ℕ → ℕ → ℕ → ℕ → Access CardMemoryState × Db → Access CardMemoryState × Db
score_state user_id card_id score now (denied status e, db) = (denied status e, db)
score_state user_id card_id score now (granted m, db) =
    write_state user_id card_id score now (update_memory_state_after_answer score now m) db

-- `answer_card` of memory_states.py, in the transaction of the request.
unfoldable pub answer_card_route : (ℕ → Bool) → ℕ → ℕ → ℕ → ℕ → Db → Access CardMemoryState × Db
answer_card_route has_local user_id card_id score now db = localized has_local db (
    score_state user_id card_id score now
      (state_or_missing (get_or_create_memory_state card_id user_id db)))

-- `get_due_cards_for_user`
unfoldable pub get_due_cards_for_user : ℕ → ℕ → ℕ → Db → Access (List Entry)
get_due_cards_for_user caller user_id end_of_day db =
    if caller == user_id
    then granted (get_due_cards user_id end_of_day db)
    else denied 403 insufficient_scope

-- `get_weak_spots_for_user`
unfoldable pub get_weak_spots_for_user : ℕ → ℕ → ℕ → Db → Access (List Entry)
get_weak_spots_for_user caller user_id limit db =
    if caller == user_id
    then granted (get_weak_spots user_id limit db)
    else denied 403 insufficient_scope
