-- ===== src/Idempotency/Reserved.antt =====
-- The life of a reserved record: reserved, finalized, replayed, expired.
use mnemo_api.Prelude.{
  update_if, first?, count_if, first?-none, count_if-delete_all, first?-update, Text, ℕ, ◌+◌, ◌≤◌,
  ◌<◌, ◌≡◌, refl, ◌≢◌, Bool, none, some, List, [], ◌∷◌, ◌++◌, arith,
}
use mnemo_api.Exec.{idempotency_conflict, ok, err}
use mnemo_api.Idempotency.{
  IdempotencyKey, idempotency_ttl, is_record, get_idempotency_record, new_record,
  reserve_idempotency_record, finalize_idempotency_record,
}
use mnemo_api.Idempotency.Decks.{endpoint, is_record_refl, first?-new}

module _ {B : Type 0} where
  first?-finalized :
      (p : IdempotencyKey B → Bool) (f : IdempotencyKey B → IdempotencyKey B)
      (records : List (IdempotencyKey B)) (r : IdempotencyKey B)
      → ((x : IdempotencyKey B) → p (f x) ≡ p x)
      → first? p records ≡ some r
      → first? p (update_if p f records) ≡ some (f r)
  first?-finalized p f records r keeps found =
      rw (first?-update p p f records keeps (λ x h. h), found) refl

  -- A new key can be reserved once: until it is finalized every other use of it is a conflict, after
  -- that the stored response is found for a day, and then it is forgotten and the key is free.
  pub reserved_life :
      (user_id : ℕ) (endpoint key : Text) (now status : ℕ) (body : B) (t soon late : ℕ)
      (records : List (IdempotencyKey B))
      → count_if (is_record user_id endpoint key) records ≡ 0
      → status ≢ 0
      → t ≤ now + idempotency_ttl
      → soon ≤ now + idempotency_ttl
      → now + idempotency_ttl < late
      → let r = new_record user_id endpoint key 0 none now in
        let open_ = records ++ r ∷ [] in
        let closed = finalize_idempotency_record r status body open_ in
        let stored = new_record user_id endpoint key status (some body) now in
        (reserve_idempotency_record user_id endpoint key now records ≡ (ok r, open_))
        × (reserve_idempotency_record user_id endpoint key t open_
            ≡ (err idempotency_conflict, open_))
        × (get_idempotency_record user_id endpoint key t open_ ≡ (err idempotency_conflict, open_))
        × (get_idempotency_record user_id endpoint key soon closed ≡ (ok (some stored), closed))
        × ((get_idempotency_record user_id endpoint key late closed).0 ≡ ok none)
        × (count_if
              (is_record user_id endpoint key)
              (get_idempotency_record user_id endpoint key late closed).1
            ≡ 0)
  unfolding reserve_idempotency_record get_idempotency_record finalize_idempotency_record
  reserved_life user_id endpoint key now status body t soon late records free done in_time fresh
        old =
      let p = is_record user_id endpoint key in
      let r = new_record user_id endpoint key 0 none now in
      let f =
        λ (x : IdempotencyKey B). record x { status_code = status; response_body = some body } in
      let mine = is_record_refl user_id endpoint key r refl refl refl in
      let none_yet = first?-none p records free in
      let found = first?-new p records r none_yet mine in
      let found' = first?-finalized p f (records ++ r ∷ []) r (λ x. refl) found in
      (
        ground (arith, none_yet),
        ground (arith, found),
        ground (arith, found),
        ground (arith, found'),
        ground (arith, found'),
        ground
            (arith, found', count_if-delete_all p p (update_if p f (records ++ r ∷ [])) (λ x h. h)),
      )
