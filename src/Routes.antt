-- ===== src/Routes.antt =====
-- api/v1/routes/users.py, provision.py and admin.py: the routes on accounts, each as a function of the
-- header with the token. A reply holds the row that the code turns into a body. An exception that no
-- route catches is answered by the handler of main.py, with status 500.
pub mod Profiles
pub mod Catalog
pub mod Admin
pub mod Imports
pub mod Memory
mod Tests
use mnemo_api.Prelude.{
  ◌==◌, if◌then◌else◌, Text, contains, Unicode, ℕ, Bool, not, ◌&&◌, Option, none, some, List,
}
use mnemo_api.Accounts.{user_role, User, AccountDb, admin, value}
use mnemo_api.Exec.{
  Error, invalid_country_code, invalid_timezone, missing_timezone, timezone_not_allowed,
  display_name_conflict, Result, ok, err,
}
use mnemo_api.ApiKey.{Json}
use mnemo_api.Timezone.{Places}
use mnemo_api.User.{
  UserCreate, UserUpdate, get_user_by_id, write_user, create_user, update_user, delete_user,
  Provisioning, provision_user,
}
use mnemo_api.Auth.{
  allows, AccessError, insufficient_scope, user_not_found, bad_country_code, bad_timezone,
  name_conflict, validation_failed, internal_error, Access, granted, denied,
}

-- `get_db` around a route: an exception rolls back what the route wrote.
abbrev pub rolled_back : {A : Type 0} → AccountDb → Access A × AccountDb → Access A × AccountDb
rolled_back db (granted a, db') = (granted a, db')
rolled_back db (denied status e, db') = (denied status e, db)

-- A route behind `current_user_dep`.
abbrev pub with_caller :
    {A : Type 0}
    → Access (User × List Text)
    → (User × List Text → AccountDb → Access A × AccountDb)
    → AccountDb
    → Access A × AccountDb
with_caller (denied status e) route db = (denied status e, db)
with_caller (granted caller) route db = rolled_back db (route caller db)

abbrev pub profile_status : Error → ℕ × AccessError
profile_status invalid_country_code = (400, bad_country_code)
profile_status invalid_timezone = (400, bad_timezone)
profile_status missing_timezone = (400, bad_timezone)
profile_status timezone_not_allowed = (400, bad_timezone)
profile_status _ = (500, internal_error)

-- What `create_user` and `update_user` of users.py make of an exception.
abbrev pub profile_error : {A : Type 0} → Error → Access A
profile_error e = denied (profile_status e).0 (profile_status e).1

abbrev pub provision_status : Error → ℕ × AccessError
provision_status display_name_conflict = (409, name_conflict)
provision_status invalid_country_code = (422, bad_country_code)
provision_status invalid_timezone = (422, bad_timezone)
provision_status missing_timezone = (422, bad_timezone)
provision_status _ = (500, internal_error)

-- `_raise_provision_http_error`
abbrev pub provision_error : {A : Type 0} → Error → Access A
provision_error e = denied (provision_status e).0 (provision_status e).1

-- The reply to a method's result, with what the route makes of an exception.
abbrev pub reply_or :
    {A : Type 0} → (Error → Access A) → Result A × AccountDb → Access A × AccountDb
reply_or f (ok a, db) = (granted a, db)
reply_or f (err e, db) = (f e, db)

abbrev pub found_or_missing : {A : Type 0} → Access (Option A) × AccountDb → Access A × AccountDb
found_or_missing (denied status e, db) = (denied status e, db)
found_or_missing (granted none, db) = (denied 404 user_not_found, db)
found_or_missing (granted (some a), db) = (granted a, db)

module _ (u : Unicode) (places : Places) where
  -- `create_user` of users.py, behind the check of the API key's scope.
  unfoldable pub create_user_route : ℕ → UserCreate → AccountDb → Access User × AccountDb
  create_user_route id fields db =
      rolled_back db (reply_or profile_error (create_user u places id fields db))

  -- `get_user`
  unfoldable pub get_user_route : ℕ → User × List Text → AccountDb → Access User × AccountDb
  get_user_route user_id (caller, scopes) db =
      if not (caller.id == user_id) && not (contains (value admin) scopes)
      then (denied 403 insufficient_scope, db)
      else elim (get_user_by_id user_id db) [
        | none ↦ (denied 404 user_not_found, db)
        | some x ↦ (granted x, db)
      ]

  -- `update_user`
  unfoldable pub update_user_route :
      ℕ → UserUpdate → User × List Text → AccountDb → Access User × AccountDb
  update_user_route user_id fields (caller, scopes) db =
      if not (caller.id == user_id)
      then (denied 403 insufficient_scope, db)
      else found_or_missing (reply_or profile_error (update_user u places user_id fields db))

-- `grant_admin_access` and `revoke_admin_access`
abbrev pub set_admin_access : Bool → User × List Text → AccountDb → Access User × AccountDb
set_admin_access grant (caller, scopes) db = (
  granted (record caller { admin_access_granted = grant }),
  write_user caller.id (λ (x : User). record x { admin_access_granted = grant }) db,
)

-- The part of `delete_user` of admin.py behind the check of the scope.
abbrev pub delete_other : ℕ → User × List Text → AccountDb → Access Unit × AccountDb
delete_other user_id (caller, scopes) db =
    if caller.id == user_id
    then (denied 400 validation_failed, db)
    else let (deleted, db') = delete_user user_id db in
      if deleted then (granted tt, db') else (denied 404 user_not_found, db')

-- A route behind `_require_admin`.
abbrev pub for_admins :
    {A : Type 0}
    → (User × List Text → AccountDb → Access A × AccountDb)
    → User × List Text
    → AccountDb
    → Access A × AccountDb
for_admins route (caller, scopes) db =
    if allows scopes admin then route (caller, scopes) db else (denied 403 insufficient_scope, db)

-- `delete_user` of admin.py.
unfoldable pub delete_user_route : ℕ → User × List Text → AccountDb → Access Unit × AccountDb
delete_user_route user_id caller db = for_admins (delete_other user_id) caller db

module _ (u : Unicode) (places : Places) (hash : Text → Text) (json : Json)
    (bcrypt : Text → Text) where
  -- `provision_user` of provision.py: the role is that of users.
  unfoldable pub provision_route :
      ℕ → ℕ → Text → Provisioning → ℕ → AccountDb → Access (User × Text) × AccountDb
  provision_route id key_id payload p now db = rolled_back db (
      reply_or provision_error (
        provision_user u places hash json bcrypt id key_id payload (record p { role = user_role })
          now db))

  -- `admin_provision_user`
  unfoldable pub admin_provision_route :
      ℕ
      → ℕ
      → Text
      → Provisioning
      → ℕ
      → User × List Text
      → AccountDb
      → Access (User × Text) × AccountDb
  admin_provision_route id key_id payload p now caller db =
      for_admins
        (λ who. λ db.
          reply_or provision_error
            (provision_user u places hash json bcrypt id key_id payload p now db))
        caller db
