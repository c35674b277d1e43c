-- ===== src/Auth.antt =====
-- services/auth.py, api/dependencies.py and the routes of api/v1/routes/auth.py: tokens and what they
-- give access to. The JWT library is the argument `jwt`, the check of bcrypt the argument `verify`,
-- and the lifetime of a token the argument `ttl`.
pub mod Login
pub mod Provision
mod Tests
use mnemo_api.Prelude.{
  ltb, ◌==◌, if◌then◌else◌, Text, contains, Unicode, ℕ, ◌+◌, Bool, true, false, not, ◌||◌, Option,
  none, some, List, [], ◌∷◌, map,
}
use mnemo_api.Accounts.{
  Role, user_role, admin_role, User, ApiKey, AccountDb, PermissionScope, admin, value,
  default_api_key_scopes, admin_api_key_scopes, user_exists,
}
use mnemo_api.ApiKey.{Json, validate_api_key, get_key_scopes, has_scope}
use mnemo_api.User.{get_user_by_id, get_user_by_display_name}

-- The claim "scopes" of a token: a list of texts, nothing, or something else.
pub data ScopesClaim : Type 0 where
  texts : List Text → ScopesClaim
  absent malformed : ScopesClaim

-- The claims of a token; no subject stands for an empty one too.
pub record Payload : Type 0 where
  pub sub : Option ℕ
  pub scopes : ScopesClaim
  pub exp : Option ℕ
  pub iat : ℕ

-- What `jwt.decode` makes of a token: its claims, ExpiredSignatureError, or another JWTError.
pub data Decoded : Type 0 where
  valid : Payload → Decoded
  expired invalid : Decoded

-- The JWT library with the secret and the algorithm of the settings.
pub record Jwt : Type 0 where
  pub encode : Payload → Text
  pub decode : ℕ → Text → Decoded

unfoldable pub create_access_token : Jwt → ℕ → ℕ → List Text → ℕ → Text
create_access_token jwt ttl user_id scopes now =
    jwt.encode
      (record { sub = some user_id; scopes = texts scopes; exp = some (now + ttl); iat = now })

abbrev pub payload_of : Decoded → Option Payload
payload_of (valid p) = some p
payload_of expired = none
payload_of invalid = none

-- `decode_access_token`
unfoldable pub decode_access_token : Jwt → ℕ → Text → Option Payload
decode_access_token jwt now token = payload_of (jwt.decode now token)

-- `get_token_user_id`
unfoldable pub get_token_user_id : Jwt → ℕ → Text → Option ℕ
get_token_user_id jwt now token = elim (decode_access_token jwt now token) [
  | none ↦ none
  | some p ↦ p.sub
]

abbrev pub scopes_or_none : ScopesClaim → List Text
scopes_or_none (texts scopes) = scopes
scopes_or_none absent = []
scopes_or_none malformed = []

-- `get_token_scopes`, for a claim that is a list of texts or missing.
unfoldable pub get_token_scopes : Jwt → ℕ → Text → List Text
get_token_scopes jwt now token = elim (decode_access_token jwt now token) [
  | none ↦ []
  | some p ↦ scopes_or_none p.scopes
]

-- Whether scopes contain one, or that of administrators.
unfoldable pub allows : List Text → PermissionScope → Bool
allows scopes required = contains (value admin) scopes || contains (value required) scopes

-- `token_has_scope`
unfoldable pub token_has_scope : Jwt → ℕ → Text → PermissionScope → Bool
token_has_scope jwt now token required = allows (get_token_scopes jwt now token) required

-- `is_token_expired`
unfoldable pub is_token_expired : Jwt → ℕ → Text → Bool
is_token_expired jwt now token = elim (decode_access_token jwt now token) [
  | none ↦ true
  | some p ↦ elim p.exp [ none ↦ true | some t ↦ ltb t now ]
]

-- `authenticate_user`
unfoldable pub authenticate_user :
    Unicode → (Text → Text → Bool) → Text → Text → AccountDb → Option User
authenticate_user u verify display_name password db =
    elim (get_user_by_display_name u display_name db) [
      | none ↦ none
      | some x ↦ elim x.password_hash [
        | none ↦ none
        | some h ↦ if verify password h then some x else none
      ]
    ]

-- `scopes_for_role`
abbrev pub scopes_for_role : Role → Bool → List Text
scopes_for_role admin_role true = map value admin_api_key_scopes
scopes_for_role admin_role false = map value default_api_key_scopes
scopes_for_role user_role granted = map value default_api_key_scopes

-- The codes of the HTTP errors.
pub data AccessError : Type 0 where
  missing_header token_expired invalid_token malformed_token token_user_missing : AccessError
  invalid_scopes insufficient_scope missing_api_key invalid_api_key : AccessError
  user_not_found api_key_owner_mismatch invalid_credentials : AccessError
  bad_country_code bad_timezone name_conflict validation_failed internal_error : AccessError
  access_not_granted card_missing : AccessError

-- A value, or an HTTPException with its status.
pub data Access (A : Type 0) : Type 0 where
  granted : A → Access A
  denied : ℕ → AccessError → Access A

abbrev pub with_scopes : User → ScopesClaim → Access (User × List Text)
with_scopes x (texts scopes) = granted (x, scopes)
with_scopes x absent = granted (x, [])
with_scopes x malformed = denied 401 invalid_scopes

abbrev pub user_of_payload : Payload → AccountDb → Access (User × List Text)
user_of_payload p db = elim p.sub [
  | none ↦ denied 401 malformed_token
  | some user_id ↦ elim (get_user_by_id user_id db) [
    | none ↦ denied 401 token_user_missing
    | some x ↦ with_scopes x p.scopes
  ]
]

abbrev pub user_of_decoded : Decoded → AccountDb → Access (User × List Text)
user_of_decoded (valid p) db = user_of_payload p db
user_of_decoded expired db = denied 401 token_expired
user_of_decoded invalid db = denied 401 invalid_token

-- `get_current_user_from_token`, with the scopes that it attaches to the user.
unfoldable pub get_current_user_from_token :
    Jwt → ℕ → Option Text → AccountDb → Access (User × List Text)
get_current_user_from_token jwt now credentials db = elim credentials [
  | none ↦ denied 401 missing_header
  | some token ↦ user_of_decoded (jwt.decode now token) db
]

-- The part of `require_user_scope` behind the dependency that gives it the user.
abbrev pub check_scope : PermissionScope → Access (User × List Text) → Access Unit
check_scope required (denied status e) = denied status e
check_scope required (granted (x, scopes)) =
    if allows scopes required then granted tt else denied 403 insufficient_scope

-- `require_user_scope`
unfoldable pub require_user_scope :
    Jwt → PermissionScope → ℕ → Option Text → AccountDb → Access Unit
require_user_scope jwt required now credentials db =
    check_scope required (get_current_user_from_token jwt now credentials db)

-- The route `login`.
unfoldable pub login :
    Unicode → (Text → Text → Bool) → Jwt → ℕ → Text → Text → ℕ → AccountDb → Access Text
login u verify jwt ttl display_name password now db =
    elim (authenticate_user u verify display_name password db) [
      | none ↦ denied 401 invalid_credentials
      | some x ↦
          granted
            (create_access_token jwt ttl x.id (scopes_for_role x.role x.admin_access_granted) now)
    ]

module _ (u : Unicode) (hash : Text → Text) (json : Json) where
  -- `get_api_key_from_header`
  unfoldable pub get_api_key_from_header : Option Text → ℕ → AccountDb → Access ApiKey × AccountDb
  get_api_key_from_header none now db = (denied 401 missing_api_key, db)
  get_api_key_from_header (some []) now db = (denied 401 missing_api_key, db)
  get_api_key_from_header (some (c ∷ key)) now db =
      let (found, db') = validate_api_key u hash json (c ∷ key) now db in
      (elim found [ none ↦ denied 401 invalid_api_key | some k ↦ granted k ], db')

  -- `require_scope`
  unfoldable pub require_scope : PermissionScope → Access ApiKey → Access ApiKey
  require_scope required (denied status e) = denied status e
  require_scope required (granted k) =
      if has_scope u hash json k required then granted k else denied 403 insufficient_scope

  -- The part of `get_access_token` on a valid key.
  abbrev pub token_for : Jwt → ℕ → ApiKey → ℕ → ℕ → AccountDb → Access Text
  token_for jwt ttl k user_id now db =
      if not (user_exists user_id db)
      then denied 401 user_not_found
      else if not (k.user_id == user_id)
      then denied 403 api_key_owner_mismatch
      else granted (create_access_token jwt ttl user_id (get_key_scopes u hash json k) now)

  -- The route `get_access_token`.
  unfoldable pub get_access_token : Jwt → ℕ → Text → ℕ → ℕ → AccountDb → Access Text × AccountDb
  get_access_token jwt ttl plain_key user_id now db =
      let (found, db') = validate_api_key u hash json plain_key now db in
      (
        elim found [
          | none ↦ denied 401 invalid_api_key
          | some k ↦ token_for jwt ttl k user_id now db'
        ],
        db',
      )
