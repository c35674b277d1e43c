-- ===== src/User.antt =====
-- services/user.py: accounts. The hashing of passwords by bcrypt, what pytz knows, the identifiers
-- and random parts of new rows, and the tables of Unicode are arguments. The display name and its
-- normalized form are unique in the database, which raises an IntegrityError otherwise.
pub mod Zones
pub mod Zoned
pub mod Directory
pub mod Search
mod Tests
use mnemo_api.Prelude.{
  ltb, ◌==◌, if◌then◌else◌, length, delete_if, update_if, first?, count_if, Text, codes, text_eq,
  contains, Unicode, strip, ℕ, Bool, true, false, not, ◌&&◌, ◌||◌, Option, none, some, List, [],
  ◌∷◌, ◌++◌,
}
use mnemo_api.Exec.{
  Error, invalid_country_code, invalid_timezone, missing_timezone, timezone_not_allowed,
  display_name_conflict, integrity_error, Result, ok, err, Exec, pure, ◌>>=◌,
}
use mnemo_api.Accounts.{
  Role, user_role, admin_role, User, ApiKey, AccountDb, PermissionScope, default_api_key_scopes,
  admin_api_key_scopes,
}
use mnemo_api.ApiKey.{Json, create_api_key}
use mnemo_api.Timezone.{Places, get_timezones_for_country, country_has_multiple_timezones}

abbrev pub normalized_name : Unicode → Text → Text
normalized_name u name = u.lower (strip u name)

abbrev pub has_text : Text → Option Text → Bool
has_text s none = false
has_text s (some t) = text_eq s t

abbrev pub has_same : Option Text → Option Text → Bool
has_same none o = false
has_same (some s) o = has_text s o

-- Whether two rows break a unique constraint on the names.
abbrev pub clashes : User → User → Bool
clashes x y =
    has_same x.display_name y.display_name
    || has_same x.normalized_display_name y.normalized_display_name

module _ (u : Unicode) (places : Places) where
  -- `normalize_and_precheck_timezone`
  unfoldable pub normalize_and_precheck_timezone : Text → Result Text
  normalize_and_precheck_timezone timezone =
      if text_eq (strip u timezone) [] || not (places.is_timezone (strip u timezone))
      then err invalid_timezone
      else ok (strip u timezone)

  -- The zone that was asked for, among the zones of the country, the first of which is `z`.
  abbrev pub accept : Text → List Text → Result Text → Result Text
  accept z zs (err e) = err e
  accept z zs (ok t) =
      if ltb 1 (length (z ∷ zs))
      then (if contains t (z ∷ zs) then ok t else err invalid_timezone)
      else (if text_eq t z then ok t else err invalid_timezone)

  abbrev pub choose : List Text → Option Text → Result Text
  choose [] timezone = err invalid_country_code
  choose (z ∷ zs) none = if ltb 1 (length (z ∷ zs)) then err missing_timezone else ok z
  choose (z ∷ zs) (some t) = accept z zs (normalize_and_precheck_timezone t)

  -- `resolve_country_timezone`
  unfoldable pub resolve_country_timezone : Text → Option Text → Result Text
  resolve_country_timezone country timezone =
      choose (get_timezones_for_country places country) timezone

-- schemas/user.py: `UserCreate`
pub record UserCreate : Type 0 where
  pub display_name : Option Text
  pub country : Text
  pub locale : Option Text
  pub timezone : Option Text
  pub education_level : Option Text
  pub preferred_language : Text
  pub daily_goal_cards : ℕ

-- schemas/user.py: `UserUpdate`
pub record UserUpdate : Type 0 where
  pub display_name : Option Text
  pub locale : Option Text
  pub timezone : Option Text
  pub education_level : Option Text
  pub preferred_language : Option Text
  pub daily_goal_cards : Option ℕ

abbrev pub normalized : Unicode → Option Text → Option Text
normalized u none = none
normalized u (some name) = some (normalized_name u name)

-- The insert of a row, or the error that the caller makes of an IntegrityError.
abbrev pub insert_user : Error → User → Exec AccountDb User
insert_user e x db =
    if not (count_if (clashes x) db.users == 0)
    then (err e, db)
    else (ok x, record db { users = db.users ++ x ∷ [] })

-- `get_user_by_id`
abbrev pub get_user_by_id : ℕ → AccountDb → Option User
get_user_by_id user_id db = first? (λ (x : User). x.id == user_id) db.users

abbrev pub write_user : ℕ → (User → User) → AccountDb → AccountDb
write_user user_id f db = record db { users = update_if (λ (x : User). x.id == user_id) f db.users }

abbrev pub given_or {ℓ} : {A : Type ℓ} → Option A → A → A
given_or none old = old
given_or (some new) old = new

abbrev pub given_some {ℓ} : {A : Type ℓ} → Option A → Option A → Option A
given_some none old = old
given_some (some new) old = some new

module _ (u : Unicode) (places : Places) where
  unfoldable pub create_user : ℕ → UserCreate → Exec AccountDb User
  create_user id fields db =
      elim (resolve_country_timezone u places fields.country fields.timezone) [
        | err e ↦ (err e, db)
        | ok zone ↦
            insert_user integrity_error
              (record {
                id = id;
                display_name = fields.display_name;
                normalized_display_name = normalized u fields.display_name;
                country = places.upper fields.country;
                locale = fields.locale;
                timezone = zone;
                education_level = fields.education_level;
                preferred_language = fields.preferred_language;
                daily_goal_cards = fields.daily_goal_cards;
                password_hash = none;
                role = user_role;
                admin_access_granted = false;
              })
              db
      ]

  -- The first assignments of `update_user`.
  abbrev pub rename : UserUpdate → User → User
  rename fields x = record x {
    display_name = given_some fields.display_name x.display_name;
    normalized_display_name =
        given_some (normalized u fields.display_name) x.normalized_display_name;
    locale = given_some fields.locale x.locale;
  }

  -- The last ones, after the zone.
  abbrev pub finish : UserUpdate → Text → User → User
  finish fields zone x = record x {
    timezone = zone;
    education_level = given_some fields.education_level x.education_level;
    preferred_language = given_or fields.preferred_language x.preferred_language;
    daily_goal_cards = given_or fields.daily_goal_cards x.daily_goal_cards;
  }

  abbrev pub among : List Text → Result Text → Result Text
  among zones (err e) = err e
  among zones (ok t) = if contains t zones then ok t else err invalid_timezone

  -- The zone of the user after an update; an empty list of zones holds no zone.
  unfoldable pub new_timezone : User → Option Text → Result Text
  new_timezone x none = ok x.timezone
  new_timezone x (some t) =
      if not (country_has_multiple_timezones places x.country)
      then err timezone_not_allowed
      else among (get_timezones_for_country places x.country)
          (normalize_and_precheck_timezone u places t)

  -- Whether the row breaks a unique constraint with another one.
  abbrev pub clashes_other : User → List User → Bool
  clashes_other x users =
      not (count_if (λ (y : User). clashes x y && not (y.id == x.id)) users == 0)

  -- The flush at the end.
  abbrev pub save : ℕ → (User → User) → User → Exec AccountDb (Option User)
  save user_id f x db =
      if clashes_other (f x) db.users
      then (err integrity_error, write_user user_id f db)
      else (ok (some (f x)), write_user user_id f db)

  -- An exception leaves the assignments that came before it on the loaded row.
  unfoldable pub update_user : ℕ → UserUpdate → Exec AccountDb (Option User)
  update_user user_id fields db = elim (get_user_by_id user_id db) [
    | none ↦ (ok none, db)
    | some x ↦ elim (new_timezone x fields.timezone) [
      | err e ↦ (err e, write_user user_id (rename fields) db)
      | ok zone ↦ save user_id (λ (y : User). finish fields zone (rename fields y)) x db
    ]
  ]

-- `delete_user`, with the API keys that go with a user.
unfoldable pub delete_user : ℕ → AccountDb → Bool × AccountDb
delete_user user_id db = elim (get_user_by_id user_id db) [
  | none ↦ (false, db)
  | some x ↦ (
    true,
    record {
      users = delete_if (λ (x : User). x.id == user_id) db.users;
      keys = delete_if (λ (k : ApiKey). k.user_id == user_id) db.keys;
    },
  )
]

-- `get_user_by_display_name`
unfoldable pub get_user_by_display_name : Unicode → Text → AccountDb → Option User
get_user_by_display_name u name db =
    first? (λ (x : User). has_text (normalized_name u name) x.normalized_display_name) db.users

-- `display_name_taken`
abbrev pub display_name_taken : Unicode → Text → AccountDb → Bool
display_name_taken u name db = not (
    count_if (λ (x : User). has_text (normalized_name u name) x.normalized_display_name) db.users
    == 0)

-- `if display_name and await display_name_taken(…)`
abbrev pub name_refused : Unicode → Option Text → AccountDb → Bool
name_refused u none db = false
name_refused u (some []) db = false
name_refused u (some (c ∷ name)) db = display_name_taken u (c ∷ name) db

-- What `provision_user` is asked for.
pub record Provisioning : Type 0 where
  pub display_name : Option Text
  pub country : Text
  pub timezone : Option Text
  pub password : Option Text
  pub role : Role

-- `get_password_hash(password) if password else None`
abbrev pub hashed : (Text → Text) → Option Text → Option Text
hashed bcrypt none = none
hashed bcrypt (some []) = none
hashed bcrypt (some (c ∷ s)) = some (bcrypt (c ∷ s))

abbrev pub key_scopes : Role → List PermissionScope
key_scopes admin_role = admin_api_key_scopes
key_scopes user_role = default_api_key_scopes

-- The defaults of the columns that `provision_user` does not set.
abbrev pub provisioned_user : Unicode → (Text → Text) → ℕ → Provisioning → Text → Text → User
provisioned_user u bcrypt id p country zone = record {
  id = id;
  display_name = p.display_name;
  normalized_display_name = normalized u p.display_name;
  country = country;
  locale = none;
  timezone = zone;
  education_level = none;
  preferred_language = codes "en";
  daily_goal_cards = 20;
  password_hash = hashed bcrypt p.password;
  role = p.role;
  admin_access_granted = false;
}

module _ (u : Unicode) (places : Places) (hash : Text → Text) (json : Json)
    (bcrypt : Text → Text) where
  -- The key that goes with a new user.
  abbrev pub first_key : ℕ → Role → Text → ℕ → User → Exec AccountDb (User × Text)
  first_key key_id role payload now x =
      create_api_key u hash json key_id x.id
        (record { name = some (codes "Default"); is_live = false; scopes = some (key_scopes role) })
        payload now
      >>= λ k. pure (x, k.1)

  -- `provision_user`; the identifiers of the user and of the key, the random part of the key, and
  -- the time are arguments.
  unfoldable pub provision_user : ℕ → ℕ → Text → Provisioning → ℕ → Exec AccountDb (User × Text)
  provision_user id key_id payload p now db =
      let country = places.upper p.country in
      if name_refused u p.display_name db
      then (err display_name_conflict, db)
      else elim (resolve_country_timezone u places country p.timezone) [
        | err e ↦ (err e, db)
        | ok zone ↦
            (insert_user display_name_conflict (provisioned_user u bcrypt id p country zone)
                >>= first_key key_id p.role payload now)
              db
      ]
