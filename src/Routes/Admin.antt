-- ===== src/Routes/Admin.antt =====
-- api/v1/routes/admin.py: the lists that administrators may see.
use mathlib.Core.Option
use mnemo_api.Prelude.{
  ◌==◌, if◌then◌else◌, update_if, first?, first?-update, Text, codes, Unicode, ℕ, ◌≡◌, refl, ap,
  ◌∙◌, Bool, true, Option, none, some, List, arith,
}
use mnemo_api.Models.{Deck, Db}
use mnemo_api.Exec.{Result, ok, err}
use mnemo_api.Accounts.{User, AccountDb, admin}
use mnemo_api.Auth.{
  Jwt, allows, insufficient_scope, user_not_found, internal_error, access_not_granted, Access,
  granted, denied, get_current_user_from_token,
}
use mnemo_api.User.{get_user_by_id}
use mnemo_api.User.Directory.{list_users}
use mnemo_api.Deck.Listing.{list_decks}
use mnemo_api.Pages.{Meta}
use mnemo_api.Timezone.{Places}
use mnemo_api.Routes.Profiles.{set_consent, handle}

-- `list_users`, behind the check of the scope.
unfoldable pub list_users_route :
    (Text → Text → Bool)
    → (User → ℕ)
    → ℕ
    → ℕ
    → Text
    → User × List Text
    → AccountDb
    → Db
    → Access (List (User × ℕ) × ℕ)
list_users_route ilike created_at page per_page search (caller, scopes) accounts db =
    if allows scopes admin
    then granted (list_users ilike created_at page per_page search accounts db)
    else denied 403 insufficient_scope

-- The result of a service, or the reply of main.py to an exception that no route catches.
abbrev pub value_or_failure : {A : Type 0} → Result A → Access A
value_or_failure (ok a) = granted a
value_or_failure (err e) = denied 500 internal_error

-- The part of `get_user_decks` behind the check of the scope: the consent of the user.
abbrev pub with_consent : {A : Type 0} → Option User → Result A → Access A
with_consent none decks = denied 404 user_not_found
with_consent (some x) decks =
    if x.admin_access_granted then value_or_failure decks else denied 403 access_not_granted

unfoldable pub get_user_decks :
    (Text → Text → Bool)
    → (Deck → ℕ)
    → (Text → Option (Deck → Bool))
    → ℕ
    → ℕ
    → ℕ
    → Text
    → User × List Text
    → AccountDb
    → Db
    → Access (List Deck × Meta)
get_user_decks collate updated_at query user_id page per_page tag (caller, scopes) accounts db =
    if allows scopes admin
    then with_consent (get_user_by_id user_id accounts) (
        list_decks collate updated_at query user_id page per_page tag (codes "created_at")
          (codes "desc") db)
    else denied 403 insufficient_scope

-- Once a stored user has set the consent, with a token of the user, an administrator gets what the
-- list of the user's decks gives if it was given, the status 500 if that raises, and is refused if
-- the consent was withdrawn.
pub consent_counts :
    (u : Unicode) (places : Places) (jwt : Jwt) (now : ℕ) (token : Option Text) (grant : Bool)
    (collate : Text → Text → Bool) (updated_at : Deck → ℕ) (query : Text → Option (Deck → Bool))
    (page per_page : ℕ) (tag : Text) (x caller : User) (own scopes : List Text)
    (accounts : AccountDb) (db : Db)
    → get_current_user_from_token jwt now token accounts ≡ granted (x, own)
    → get_user_by_id x.id accounts ≡ some x
    → allows scopes admin ≡ true
    → let (r, accounts') = handle u places jwt now token (set_consent grant) accounts in
      get_user_decks collate updated_at query x.id page per_page tag (caller, scopes) accounts' db
      ≡ (if grant
          then value_or_failure (
              list_decks collate updated_at query x.id page per_page tag
                (codes "created_at")
                (codes "desc")
                db)
          else denied 403 access_not_granted)
unfolding handle get_user_decks
consent_counts u places jwt now token grant collate updated_at query page per_page tag x caller own
      scopes accounts db known there full =
    let by_id = λ (y : User). y.id == x.id in
    let f = λ (y : User). record y { admin_access_granted = grant } in
    let found : first? by_id (update_if by_id f accounts.users) ≡ some (f x) =
      first?-update by_id by_id f accounts.users (λ y. refl) (λ y h. h) ∙ ap (Option.map f) there in
    rw (known, handle) (ground (arith, full, found))
