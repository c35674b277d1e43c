-- ===== src/SpacedRepetition/Rows.antt =====
-- `get_or_create_memory_state` keeps one row for each card and user.
use mnemo_api.Prelude.{
  first?, count_if, count_if-append_one, count_if-none, ℕ, ◌≤◌, ◌≡◌, Bool, true, none, some, List,
  [], ◌∷◌, ◌++◌, arith,
}
use mnemo_api.Models.{Db}
use mnemo_api.SpacedRepetition.{is_row, new_state, get_or_create_memory_state}

first?-append_new {ℓ} :
    {A : Type ℓ} (p : A → Bool) (xs : List A) (x : A)
    → first? p xs ≡ none
    → p x ≡ true
    → first? p (xs ++ x ∷ []) ≡ some x
unfolding first?
first?-append_new p [] x h k = ground arith
first?-append_new p (y ∷ ys) x h k = ground (arith, first?-append_new p ys x)

is_row-new_state : (c u : ℕ) → is_row c u (new_state c u) ≡ true
is_row-new_state c u = ground arith

-- Asking for a memory state a second time finds the row of the first time and writes nothing, and
-- a table with at most one row for a card and user keeps at most one.
pub get_or_create_once :
    (card_id user_id : ℕ) (db : Db)
    → count_if (is_row card_id user_id) db.memory_states ≤ 1
    → let (r, db') = get_or_create_memory_state card_id user_id db in
      (get_or_create_memory_state card_id user_id db' ≡ (r, db'))
      × (count_if (is_row card_id user_id) db'.memory_states ≤ 1)
unfolding get_or_create_memory_state
get_or_create_once c u db h = ground (
  arith,
  first?-append_new (is_row c u) db.memory_states (new_state c u),
  is_row-new_state c u,
  count_if-none (is_row c u) db.memory_states,
  count_if-append_one (is_row c u) db.memory_states (new_state c u),
)
