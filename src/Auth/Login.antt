-- ===== src/Auth/Login.antt =====
-- What a password gives access to.
use mnemo_api.Prelude.{
  ltb, if◌then◌else◌, Bool-cases, Text, text_eq, contains, Unicode, ℕ, ◌+◌, ◌≡◌, refl, inl, inr,
  Bool, true, false, not, ◌||◌, some, arith,
}
use mnemo_api.Accounts.{
  Role, user_role, admin_role, User, AccountDb, PermissionScope, decks_read, decks_write,
  sessions_run, progress_read, import_write, admin, value,
}
use mnemo_api.User.{get_user_by_id}
use mnemo_api.Auth.{
  texts, Payload, valid, expired, Jwt, create_access_token, allows, authenticate_user,
  scopes_for_role, token_expired, insufficient_scope, granted, denied, get_current_user_from_token,
  require_user_scope, login,
}

abbrev pub is_full : User → Bool
is_full x = elim x.role [ user_role ↦ false | admin_role ↦ x.admin_access_granted ]

abbrev pub is_privileged : PermissionScope → Bool
is_privileged decks_read = false
is_privileged decks_write = false
is_privileged sessions_run = false
is_privileged progress_read = false
is_privileged import_write = true
is_privileged admin = true

-- What a user may do: an administrator with granted access everything, others all but imports and
-- administration.
abbrev pub may : User → PermissionScope → Bool
may x required = is_full x || not (is_privileged required)

-- What the library documents: until a token expires it is decoded to the claims it was made of.
abbrev pub IsJwt : Jwt → Type 0
IsJwt jwt =
    (p : Payload) (now t : ℕ)
    → p.exp ≡ some t
    → jwt.decode now (jwt.encode p) ≡ (if ltb t now then expired else valid p)

allows-may :
    (x : User) (required : PermissionScope)
    → allows (scopes_for_role x.role x.admin_access_granted) required ≡ may x required
unfolding allows contains text_eq value
allows-may x required = go x.role x.admin_access_granted required
  where
    go :
        (role : Role) (grant : Bool) (required : PermissionScope)
        → allows (scopes_for_role role grant) required
          ≡ ((elim role [ user_role ↦ false | admin_role ↦ grant ]) || not (is_privileged required))
    go user_role grant decks_read = refl
    go user_role grant decks_write = refl
    go user_role grant sessions_run = refl
    go user_role grant progress_read = refl
    go user_role grant import_write = refl
    go user_role grant admin = refl
    go admin_role true required = refl
    go admin_role false decks_read = refl
    go admin_role false decks_write = refl
    go admin_role false sessions_run = refl
    go admin_role false progress_read = refl
    go admin_role false import_write = refl
    go admin_role false admin = refl

module _ (u : Unicode) (verify : Text → Text → Bool) (jwt : Jwt) (ttl : ℕ) where
  -- Given a JWT library that decodes a token to its claims until it expires, a user who gives the
  -- right password is given a token. While the user exists, the token allows exactly what the
  -- user's role allowed at the login until its lifetime is over, and nothing from then on.
  pub login_grants :
      (name password : Text) (required : PermissionScope) (now later : ℕ) (db later_db : AccountDb)
      (x y : User)
      → IsJwt jwt
      → authenticate_user u verify name password db ≡ some x
      → get_user_by_id x.id later_db ≡ some y
      → (token : Text) × (login u verify jwt ttl name password now db ≡ granted token)
        × (require_user_scope jwt required later (some token) later_db ≡ (
            if ltb (now + ttl) later
            then denied 401 token_expired
            else if may x required
            then granted tt
            else denied 403 insufficient_scope))
  unfolding login require_user_scope get_current_user_from_token create_access_token
  login_grants name password required now later db later_db x y law known there =
      let p : Payload = record {
        sub = some x.id;
        scopes = texts (scopes_for_role x.role x.admin_access_granted);
        exp = some (now + ttl);
        iat = now;
      } in
      let decoded = law p later (now + ttl) refl in
      (
        jwt.encode p,
        ground (arith, known),
        elim (Bool-cases (ltb (now + ttl) later)) [
          | inl over ↦ ground (arith, decoded, over)
          | inr open_ ↦ ground (arith, decoded, open_, there, allows-may x required)
        ],
      )
