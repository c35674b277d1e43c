-- ===== src/ApiKey/Lifecycle.antt =====
-- The life of an API key: created, validated, revoked.
use mnemo_api.Prelude.{
  ◌==◌, ==_refl, bit-le, Bool-cases, Option-cases, length, take, update_if, first?, count_if,
  count_if-none, count_if-update, Has, first?-Has, count_if-pos, Text, text_eq, text_eq_refl,
  text_eq_iff, Unicode, ℕ, ◌≤◌, ◌≡◌, refl, sym, ap, subst, ◌∙◌, ◌≢◌, inl, inr, Bool, true, false,
  none, some, List, [], ◌∷◌, ◌++◌, map, arith,
}
use mnemo_api.Exec.{ok}
use mnemo_api.Accounts.{ApiKey, AccountDb, value, user_exists}
use mnemo_api.ApiKey.{
  Json, all_hex, extract_api_key_prefix, key_prefix_for, generate_api_key, KeyRequest,
  scopes_or_default, new_key, create_api_key, is_match, validate_api_key, get_key_scopes, revoke,
  revoke_api_key,
}
use mnemo_api.ApiKey.Format.{extract-generate}

-- No stored key has a hash.
abbrev pub IsUnused : Text → AccountDb → Type 0
IsUnused h db = count_if (λ (k : ApiKey). text_eq k.key_hash h) db.keys ≡ 0

first?-last :
    {A : Type 0} (p q : A → Bool) (xs : List A) (x : A)
    → count_if q xs ≡ 0
    → ((y : A) → p y ≡ true → q y ≡ true)
    → p x ≡ true
    → first? p (xs ++ x ∷ []) ≡ some x
unfolding first? count_if
first?-last p q [] x none_ implies hit = ground arith
first?-last p q (y ∷ ys) x none_ implies hit = ground (arith, implies y, first?-last p q ys x)

update_if-twice :
    {A : Type 0} (r : A → Bool) (f g : A → A) (xs : List A)
    → ((x : A) → r (f x) ≡ r x)
    → update_if r g (update_if r f xs) ≡ update_if r (λ x. g (f x)) xs
unfolding update_if
update_if-twice r f g [] keeps = refl
update_if-twice r f g (x ∷ xs) keeps = ground (arith, keeps x, update_if-twice r f g xs keeps)

none_left :
    {A : Type 0} (p q r : A → Bool) (f : A → A) (xs : List A)
    → count_if q xs ≡ 0
    → ((x : A) → p x ≡ true → q x ≡ true)
    → ((x : A) → p (f x) ≡ false)
    → first? p (update_if r f xs) ≡ none
unfolding first? count_if update_if
none_left p q r f [] h implies gone = refl
none_left p q r f (x ∷ xs) h implies gone = ground (arith, implies x, gone x, none_left p q r f xs)

-- A write that rules out the one row that can be found leaves nothing to find.
one_ruled_out :
    {A : Type 0} (p q r : A → Bool) (f : A → A) (xs : List A) (k : A)
    → first? p xs ≡ some k
    → count_if q xs ≤ 1
    → ((x : A) → p x ≡ true → q x ≡ true)
    → ((x : A) → p (f x) ≡ false)
    → r k ≡ true
    → first? p (update_if r f xs) ≡ none
unfolding first? count_if update_if
one_ruled_out p q r f [] k found once implies gone mine = refl
one_ruled_out p q r f (x ∷ xs) k found once implies gone mine = elim (Bool-cases (p x)) [
  | inl hit ↦
      let same : x ≡ k = ground (arith, found) in
      let only : count_if q xs ≡ 0 = ground (arith, implies x hit) in
      let touched = ap r same ∙ mine in
      ground (arith, touched, gone x, none_left p q r f xs only implies gone)
  | inr miss ↦
      let later : first? p xs ≡ some k = ground (arith, found) in
      let fewer : count_if q xs ≤ 1 = omega (arith, bit-le (q x)) in
      ground (arith, gone x, miss, one_ruled_out p q r f xs k later fewer implies gone mine)
]

module _ (u : Unicode) (hash : Text → Text) (json : Json) where
  match-hash :
      (plain_key prefix : Text) (k : ApiKey)
      → is_match u hash json plain_key prefix k ≡ true
      → text_eq k.key_hash (hash plain_key) ≡ true
  match-hash plain_key prefix k h =
      ground
        (arith, text_eq_iff (hash plain_key) k.key_hash, text_eq_iff k.key_hash (hash plain_key))

  match-new :
      (id user_id : ℕ) (wanted : KeyRequest) (plain_key prefix : Text) (now : ℕ)
      → is_match u hash json plain_key prefix
          (new_key u hash json id user_id wanted plain_key prefix now)
        ≡ true
  match-new id user_id wanted plain_key prefix now = ground (
    arith,
    text_eq_refl prefix,
    text_eq_refl (take 16 (hash plain_key)),
    text_eq_refl (hash plain_key),
  )

  create-stores :
      (id user_id : ℕ) (wanted : KeyRequest) (payload prefix : Text) (now : ℕ) (db : AccountDb)
      → let plain_key = generate_api_key wanted.is_live payload in
        extract_api_key_prefix u plain_key ≡ some prefix
        → user_exists user_id db ≡ true
        → IsUnused (hash plain_key) db
        → let k = new_key u hash json id user_id wanted plain_key prefix now in
          create_api_key u hash json id user_id wanted payload now db
          ≡ (ok (k, plain_key), record db { keys = db.keys ++ k ∷ [] })
  unfolding create_api_key
  create-stores id user_id wanted payload prefix now db shape exists unused =
      ground (arith, shape, exists, unused)

  validate-finds :
      (plain_key prefix : Text) (k : ApiKey) (now : ℕ) (db : AccountDb)
      → extract_api_key_prefix u plain_key ≡ some prefix
      → first? (is_match u hash json plain_key prefix) db.keys ≡ some k
      → validate_api_key u hash json plain_key now db ≡ (
        some (record k { last_used_at = some now }),
        record db {
          keys =
              update_if
                (λ (x : ApiKey). x.id == k.id)
                (λ (x : ApiKey). record x { last_used_at = some now })
                db.keys;
        },
      )
  unfolding validate_api_key
  validate-finds plain_key prefix k now db shape found = ground (arith, shape, found)

  -- A key that was created is valid at once, as a key of its user with the scopes that were asked
  -- for, given that JSON reads what it wrote, m is no white space, the random part is 64
  -- hexadecimal digits, the user exists and no stored key has the same hash.
  pub created-valid :
      (id user_id : ℕ) (wanted : KeyRequest) (payload : Text) (now later : ℕ) (db : AccountDb)
      → u.is_space 109 ≡ false
      → ((scopes : List Text) → json.loads (json.dumps scopes) ≡ some scopes)
      → length payload ≡ 64
      → all_hex payload ≡ true
      → user_exists user_id db ≡ true
      → IsUnused (hash (generate_api_key wanted.is_live payload)) db
      → let (r, db') = create_api_key u hash json id user_id wanted payload now db in
        (k : ApiKey) × (plain_key : Text) × (v : ApiKey) × (r ≡ ok (k, plain_key))
        × ((validate_api_key u hash json plain_key later db').0 ≡ some v)
        × (v.id ≡ id)
        × (v.user_id ≡ user_id)
        × (get_key_scopes u hash json v ≡ map value (scopes_or_default wanted.scopes))
  created-valid id user_id wanted payload now later db visible law len hex exists unused =
      let plain_key = generate_api_key wanted.is_live payload in
      let prefix = key_prefix_for wanted.is_live in
      let shape = extract-generate u wanted.is_live payload visible len hex in
      let k = new_key u hash json id user_id wanted plain_key prefix now in
      let stored = create-stores id user_id wanted payload prefix now db shape exists unused in
      let found =
        first?-last (is_match u hash json plain_key prefix)
          (λ (x : ApiKey). text_eq x.key_hash (hash plain_key)) db.keys k unused
          (match-hash plain_key prefix) (match-new id user_id wanted plain_key prefix now) in
      let db' = record db { keys = db.keys ++ k ∷ [] } in
      let valid = validate-finds plain_key prefix k later db' shape found in
      (
        k,
        plain_key,
        record k { last_used_at = some later },
        ap (λ x. x.0) stored,
        ap (λ x. (validate_api_key u hash json plain_key later x.1).0) stored ∙ ap (λ x. x.0) valid,
        refl,
        refl,
        ground (arith, law (map value (scopes_or_default wanted.scopes))),
      )

  -- What a valid key was found by.
  validate-some :
      (plain_key : Text) (now : ℕ) (db : AccountDb) (v : ApiKey)
      → (validate_api_key u hash json plain_key now db).0 ≡ some v
      → (prefix : Text) × (k : ApiKey) × (extract_api_key_prefix u plain_key ≡ some prefix)
        × (first? (is_match u hash json plain_key prefix) db.keys ≡ some k)
        × (v.id ≡ k.id)
  unfolding validate_api_key
  validate-some plain_key now db v h = elim (Option-cases (extract_api_key_prefix u plain_key)) [
    | inl malformed ↦ absurd (ground (arith, malformed))
    | inr (prefix, shape) ↦
        elim (Option-cases (first? (is_match u hash json plain_key prefix) db.keys)) [
          | inl missing ↦ absurd (ground (arith, shape, missing))
          | inr (k, found) ↦ (prefix, k, shape, found, ground (arith, shape, found))
        ]
  ]

  -- A key that is stored is found by its identifier.
  stored-found :
      (k : ApiKey) (touch : ApiKey → ApiKey) (keys : List ApiKey)
      → ((x : ApiKey) → (touch x).id ≡ x.id)
      → Has k keys
      → first? (λ (x : ApiKey). x.id == k.id) (update_if (λ (x : ApiKey). x.id == k.id) touch keys)
        ≢ none
  stored-found k touch keys same here e =
      let by_id = λ (x : ApiKey). x.id == k.id in
      omega (
        arith,
        count_if-none by_id (update_if by_id touch keys) e,
        count_if-update by_id by_id touch keys (λ x. ap (λ n. n == k.id) (same x)),
        count_if-pos by_id keys k here (==_refl k.id),
      )

  revoke-writes :
      (key_id now : ℕ) (db : AccountDb)
      → first? (λ (k : ApiKey). k.id == key_id) db.keys ≢ none
      → revoke_api_key key_id now db ≡ (
        true,
        record db { keys = update_if (λ (x : ApiKey). x.id == key_id) (revoke now) db.keys },
      )
  unfolding revoke_api_key
  revoke-writes key_id now db h =
      elim (Option-cases (first? (λ (k : ApiKey). k.id == key_id) db.keys)) [
        | inl missing ↦ absurd (h missing)
        | inr (k, found) ↦ ground (arith, found)
      ]

  validate-misses :
      (plain_key prefix : Text) (now : ℕ) (db : AccountDb)
      → extract_api_key_prefix u plain_key ≡ some prefix
      → first? (is_match u hash json plain_key prefix) db.keys ≡ none
      → validate_api_key u hash json plain_key now db ≡ (none, db)
  unfolding validate_api_key
  validate-misses plain_key prefix now db shape missing = ground (arith, shape, missing)

  -- If the hashes of the stored keys are different, a key that was valid and then revoked is never
  -- valid again.
  pub revoked-invalid :
      (plain_key : Text) (now revoked later : ℕ) (db : AccountDb) (v : ApiKey)
      → count_if (λ (k : ApiKey). text_eq k.key_hash (hash plain_key)) db.keys ≤ 1
      → (validate_api_key u hash json plain_key now db).0 ≡ some v
      → let used = (validate_api_key u hash json plain_key now db).1 in
        let (found, db') = revoke_api_key v.id revoked used in
        (found ≡ true) × (validate_api_key u hash json plain_key later db' ≡ (none, db'))
  revoked-invalid plain_key now revoked later db v once h =
      let (prefix, k, shape, found, same) = validate-some plain_key now db v h in
      let by_id = λ (x : ApiKey). x.id == k.id in
      let touch = λ (x : ApiKey). record x { last_used_at = some now } in
      let match = is_match u hash json plain_key prefix in
      let used = record db { keys = update_if by_id touch db.keys } in
      let gone = record db { keys = update_if by_id (revoke revoked) used.keys } in
      let valid = ap (λ x. x.1) (validate-finds plain_key prefix k now db shape found) in
      let there = stored-found k touch db.keys (λ x. refl) (first?-Has match db.keys k found) in
      let wrote = revoke-writes k.id revoked used there in
      let none_ =
        ap (first? match) (update_if-twice by_id touch (revoke revoked) db.keys (λ x. refl))
        ∙ one_ruled_out match (λ (x : ApiKey). text_eq x.key_hash (hash plain_key)) by_id
            (λ x. revoke revoked (touch x)) db.keys k found once (match-hash plain_key prefix)
            (λ x. ground arith) (==_refl k.id) in
      let step =
        ap (revoke_api_key v.id revoked) valid
        ∙ ap (λ i. revoke_api_key i revoked used) same
        ∙ wrote in
      subst
        (λ (x : Bool × AccountDb).
          (x.0 ≡ true) × (validate_api_key u hash json plain_key later x.1 ≡ (none, x.1)))
        (sym step) (refl, validate-misses plain_key prefix later gone shape none_)
