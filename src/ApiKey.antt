-- ===== src/ApiKey.antt =====
-- services/api_key.py: API keys. HMAC-SHA-256 with the secret of the application is the argument
-- `hash`, the json module the argument `json`, and the random part of a new key `payload`.
pub mod Format
pub mod Lifecycle
mod Tests
use mnemo_api.Prelude.{
  leb, ◌==◌, if◌then◌else◌, length, take, drop, update_if, first?, count_if, Text, codes, text_eq,
  contains, Unicode, strip, ℕ, ◌-◌, Bool, true, false, not, ◌&&◌, ◌||◌, Option, none, some, List,
  [], ◌∷◌, ◌++◌, map,
}
use mnemo_api.Exec.{value_error, ok, err, Exec, request}
use mnemo_api.Accounts.{
  ApiKey, AccountDb, PermissionScope, admin, value, default_api_key_scopes, user_exists,
}

-- `json.dumps` and `json.loads` on lists of texts; the latter fails on other texts.
pub record Json : Type 0 where
  pub dumps : List Text → Text
  pub loads : Text → Option (List Text)

abbrev prepend : ℕ → List Text → List Text
prepend c [] = (c ∷ []) ∷ []
prepend c (w ∷ ws) = (c ∷ w) ∷ ws

-- `str.split` with a separator.
unfoldable pub split_on : ℕ → Text → List Text
split_on sep [] = [] ∷ []
split_on sep (c ∷ s) = let rest = split_on sep s in if c == sep then [] ∷ rest else prepend c rest

-- `[0-9a-f]`
abbrev pub is_hex : ℕ → Bool
is_hex c = leb 48 c && leb c 57 || leb 97 c && leb c 102

unfoldable pub all_hex : Text → Bool
all_hex [] = true
all_hex (c ∷ s) = is_hex c && all_hex s

abbrev pub underscore : ℕ
underscore = 95

-- The tests on the three segments of a key.
abbrev pub prefix_of_parts : List Text → Option Text
prefix_of_parts (prefix ∷ kind ∷ payload ∷ []) =
    if text_eq prefix (codes "mnm")
      && ((text_eq kind (codes "live") || text_eq kind (codes "test"))
          && (length payload == 64 && all_hex payload))
    then some (prefix ++ (underscore ∷ (kind ++ (underscore ∷ []))))
    else none
prefix_of_parts _ = none

-- `extract_api_key_prefix`; none stands for the ValueError.
unfoldable pub extract_api_key_prefix : Unicode → Text → Option Text
extract_api_key_prefix u key =
    if text_eq (strip u key) [] then none else prefix_of_parts (split_on underscore key)

abbrev pub key_prefix_for : Bool → Text
key_prefix_for true = codes "mnm_live_"
key_prefix_for false = codes "mnm_test_"

-- `generate_api_key` of utils/id_generator.py.
unfoldable pub generate_api_key : Bool → Text → Text
generate_api_key is_live payload = key_prefix_for is_live ++ payload

-- What a caller asks for.
pub record KeyRequest : Type 0 where
  pub name : Option Text
  pub is_live : Bool
  pub scopes : Option (List PermissionScope)

abbrev pub scopes_or_default : Option (List PermissionScope) → List PermissionScope
scopes_or_default none = default_api_key_scopes
scopes_or_default (some scopes) = scopes

module _ (u : Unicode) (hash : Text → Text) (json : Json) where
  -- The row of a new key.
  abbrev pub new_key : ℕ → ℕ → KeyRequest → Text → Text → ℕ → ApiKey
  new_key id user_id request plain_key prefix now = record {
    id = id;
    user_id = user_id;
    key_hash = hash plain_key;
    key_prefix = prefix;
    key_hint = drop (length plain_key - 4) plain_key;
    key_lookup = some (take 16 (hash plain_key));
    name = request.name;
    is_live = request.is_live;
    scopes = json.dumps (map value (scopes_or_default request.scopes));
    is_active = true;
    revoked_at = none;
    created_at = now;
    last_used_at = none;
  }

  -- The insert of a row, with the unique constraint on the hash.
  abbrev pub insert_key : ApiKey → Text → Exec AccountDb (ApiKey × Text)
  insert_key k plain_key db =
      if not (count_if (λ (x : ApiKey). text_eq x.key_hash k.key_hash) db.keys == 0)
      then (err value_error, db)
      else (ok (k, plain_key), record db { keys = db.keys ++ k ∷ [] })

  unfoldable pub create_api_key : ℕ → ℕ → KeyRequest → Text → ℕ → Exec AccountDb (ApiKey × Text)
  create_api_key id user_id request payload now db =
      let plain_key = generate_api_key request.is_live payload in
      elim (extract_api_key_prefix u plain_key) [
        | none ↦ (err value_error, db)
        | some prefix ↦
            if user_exists user_id db
            then insert_key (new_key id user_id request plain_key prefix now) plain_key db
            else (err value_error, db)
      ]

  -- `verify_api_key`
  abbrev pub verify_api_key : Text → Text → Bool
  verify_api_key plain_key key_hash = text_eq (hash plain_key) key_hash

  -- `APIKey.key_lookup == lookup` or NULL.
  abbrev pub looked_up : Text → Option Text → Bool
  looked_up lookup none = true
  looked_up lookup (some x) = text_eq x lookup

  -- The candidates of the query, with the check of the hash.
  abbrev pub is_match : Text → Text → ApiKey → Bool
  is_match plain_key prefix k =
      text_eq k.key_prefix prefix
      && (k.is_active
          && (looked_up (take 16 (hash plain_key)) k.key_lookup
              && verify_api_key plain_key k.key_hash))

  unfoldable pub validate_api_key : Text → ℕ → AccountDb → Option ApiKey × AccountDb
  validate_api_key plain_key now db = elim (extract_api_key_prefix u plain_key) [
    | none ↦ (none, db)
    | some prefix ↦ elim (first? (is_match plain_key prefix) db.keys) [
      | none ↦ (none, db)
      | some k ↦ (
        some (record k { last_used_at = some now }),
        record db {
          keys =
              update_if (λ (x : ApiKey). x.id == k.id)
                (λ (x : ApiKey). record x { last_used_at = some now }) db.keys;
        },
      )
    ]
  ]

  -- `get_key_scopes`
  abbrev pub get_key_scopes : ApiKey → List Text
  get_key_scopes k = elim (json.loads k.scopes) [ none ↦ [] | some scopes ↦ scopes ]

  -- `has_scope`
  unfoldable pub has_scope : ApiKey → PermissionScope → Bool
  has_scope k required =
      contains (value admin) (get_key_scopes k) || contains (value required) (get_key_scopes k)

abbrev pub revoke : ℕ → ApiKey → ApiKey
revoke now k = record k { is_active = false; revoked_at = some now }

unfoldable pub revoke_api_key : ℕ → ℕ → AccountDb → Bool × AccountDb
revoke_api_key key_id now db = elim (first? (λ (k : ApiKey). k.id == key_id) db.keys) [
  | none ↦ (false, db)
  | some k ↦
      (true, record db { keys = update_if (λ (x : ApiKey). x.id == key_id) (revoke now) db.keys })
]
