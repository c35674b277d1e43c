-- ===== src/Idempotency.antt =====
-- services/idempotency.py: stored responses of requests that may be sent again. A response body is
-- of any type `B`; the identifier of a record is of no use to the code and is left out. The insert of
-- a record fails when the unique constraint on user, endpoint and key does not hold.
pub mod Decks
pub mod Reserved
mod Tests
use mnemo_api.Prelude.{
  ltb, ◌==◌, if◌then◌else◌, delete_if, update_if, first?, Text, text_eq, ℕ, ◌+◌, Bool, ◌&&◌, Option,
  none, some, List, [], ◌∷◌, ◌++◌,
}
use mnemo_api.Exec.{idempotency_conflict, integrity_error, ok, err, Exec, ◌>>=◌}

-- models/idempotency_key.py. A reserved record has status 0 and no body.
pub record IdempotencyKey (B : Type 0) : Type 0 where
  pub user_id : ℕ
  pub endpoint : Text
  pub key : Text
  pub status_code : ℕ
  pub response_body : Option B
  pub created_at : ℕ

-- `IDEMPOTENCY_TTL`, in seconds.
abbrev pub idempotency_ttl : ℕ
idempotency_ttl = 86400

module _ {B : Type 0} where
  abbrev pub is_record : ℕ → Text → Text → IdempotencyKey B → Bool
  is_record user_id endpoint key r =
      r.user_id == user_id && (text_eq r.endpoint endpoint && text_eq r.key key)

  -- What `get_idempotency_record` makes of the record that it found.
  abbrev pub checked :
      ℕ
      → Text
      → Text
      → ℕ
      → IdempotencyKey B
      → Exec (List (IdempotencyKey B)) (Option (IdempotencyKey B))
  checked user_id endpoint key now r records =
      if ltb (r.created_at + idempotency_ttl) now
      then (ok none, delete_if (is_record user_id endpoint key) records)
      else if r.status_code == 0
      then (err idempotency_conflict, records)
      else (ok (some r), records)

  unfoldable pub get_idempotency_record :
      ℕ → Text → Text → ℕ → Exec (List (IdempotencyKey B)) (Option (IdempotencyKey B))
  get_idempotency_record user_id endpoint key now records =
      elim (first? (is_record user_id endpoint key) records) [
        | none ↦ (ok none, records)
        | some r ↦ checked user_id endpoint key now r records
      ]

  abbrev pub new_record : ℕ → Text → Text → ℕ → Option B → ℕ → IdempotencyKey B
  new_record user_id endpoint key status body now = record {
    user_id = user_id;
    endpoint = endpoint;
    key = key;
    status_code = status;
    response_body = body;
    created_at = now;
  }

  -- The end of `store_idempotency_record` after an IntegrityError.
  abbrev pub stored_before :
      Option (IdempotencyKey B) → Exec (List (IdempotencyKey B)) (IdempotencyKey B)
  stored_before none records = (err integrity_error, records)
  stored_before (some r) records = (ok r, records)

  unfoldable pub store_idempotency_record :
      ℕ → Text → Text → ℕ → B → ℕ → Exec (List (IdempotencyKey B)) (IdempotencyKey B)
  store_idempotency_record user_id endpoint key status body now records =
      elim (first? (is_record user_id endpoint key) records) [
        | none ↦
            let r = new_record user_id endpoint key status (some body) now in
            (ok r, records ++ r ∷ [])
        | some r ↦ (get_idempotency_record user_id endpoint key now >>= stored_before) records
      ]

  unfoldable pub reserve_idempotency_record :
      ℕ → Text → Text → ℕ → Exec (List (IdempotencyKey B)) (IdempotencyKey B)
  reserve_idempotency_record user_id endpoint key now records =
      elim (first? (is_record user_id endpoint key) records) [
        | none ↦ let r = new_record user_id endpoint key 0 none now in (ok r, records ++ r ∷ [])
        | some r ↦ (err idempotency_conflict, records)
      ]

  -- `finalize_idempotency_record`, a write to the row of a reserved record.
  unfoldable pub finalize_idempotency_record :
      IdempotencyKey B → ℕ → B → List (IdempotencyKey B) → List (IdempotencyKey B)
  finalize_idempotency_record r status body records =
      update_if (is_record r.user_id r.endpoint r.key)
        (λ x. record x { status_code = status; response_body = some body }) records
