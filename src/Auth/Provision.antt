-- ===== src/Auth/Provision.antt =====
-- A user who was provisioned with a password can log in with it.
use mnemo_api.Prelude.{
  ◌==◌, if◌then◌else◌, Bool-cases, first?, count_if, Text, text_eq, text_eq_refl, Unicode, ℕ, ◌≡◌,
  refl, sym, ap, subst, ◌∙◌, inl, inr, Bool, true, false, none, some, List, [], ◌∷◌, ◌++◌, arith,
}
use mnemo_api.Accounts.{Role, User, AccountDb}
use mnemo_api.Exec.{ok, Result-cases}
use mnemo_api.ApiKey.{Json, create_api_key}
use mnemo_api.Timezone.{Places}
use mnemo_api.User.{
  normalized_name, has_text, clashes, resolve_country_timezone, normalized,
  get_user_by_display_name, name_refused, Provisioning, hashed, provisioned_user, first_key,
  provision_user,
}
use mnemo_api.Auth.{authenticate_user}

first?-append :
    {A : Type 0} (p : A → Bool) (xs : List A) (x : A)
    → count_if p xs ≡ 0
    → p x ≡ true
    → first? p (xs ++ x ∷ []) ≡ some x
unfolding first? count_if
first?-append p [] x h hit = ground arith
first?-append p (y ∷ ys) x h hit = ground (arith, first?-append p ys x)

module _ (u : Unicode) (places : Places) (hash : Text → Text) (json : Json)
    (bcrypt : Text → Text) where
  users-first_key :
      (key_id : ℕ) (role : Role) (payload : Text) (now : ℕ) (x : User) (db : AccountDb)
      → (first_key u places hash json bcrypt key_id role payload now x db).1.users ≡ db.users
  unfolding create_api_key
  users-first_key key_id role payload now x db = ground arith

  user-first_key :
      (key_id : ℕ) (role : Role) (payload : Text) (now : ℕ) (x y : User) (key : Text)
      (db : AccountDb)
      → (first_key u places hash json bcrypt key_id role payload now x db).0 ≡ ok (y, key)
      → y ≡ x
  unfolding create_api_key
  user-first_key key_id role payload now x y key db h = ground (arith, h)

  -- What a call that returned a user has done.
  provision-done :
      (id key_id : ℕ) (payload : Text) (p : Provisioning) (now : ℕ) (db : AccountDb) (x : User)
      (key : Text)
      → (provision_user u places hash json bcrypt id key_id payload p now db).0 ≡ ok (x, key)
      → (zone : Text) × (name_refused u p.display_name db ≡ false)
        × (x ≡ provisioned_user u bcrypt id p (places.upper p.country) zone)
        × ((provision_user u places hash json bcrypt id key_id payload p now db).1.users
            ≡ db.users ++ x ∷ [])
  unfolding provision_user
  provision-done id key_id payload p now db x key h =
      let country = places.upper p.country in
      elim (Bool-cases (name_refused u p.display_name db)) [
        | inl refused ↦ absurd (ground (arith, h, refused))
        | inr free ↦ elim (Result-cases (resolve_country_timezone u places country p.timezone)) [
          | inr (e, bad) ↦ absurd (ground (arith, h, free, bad))
          | inl (zone, good) ↦
              let new = provisioned_user u bcrypt id p country zone in
              elim (Bool-cases (count_if (clashes new) db.users == 0)) [
                | inr taken ↦ absurd (ground (arith, h, free, good, taken))
                | inl unused ↦
                    let db' = record db { users = db.users ++ new ∷ [] } in
                    let step : provision_user u places hash json bcrypt id key_id payload p now db
                        ≡ first_key u places hash json bcrypt key_id p.role payload now new db' =
                      ground (arith, free, good, unused) in
                    let same =
                      user-first_key key_id p.role payload now new x key db'
                        (sym (ap (λ r. r.0) step) ∙ h) in
                    (
                      zone,
                      free,
                      same,
                      ap (λ r. r.1.users) step
                          ∙ users-first_key key_id p.role payload now new db'
                          ∙ ap (λ y. db.users ++ y ∷ []) (sym same),
                    )
              ]
        ]
      ]

  hashed-solid : (s : Text) → text_eq s [] ≡ false → hashed bcrypt (some s) ≡ some (bcrypt s)
  unfolding text_eq
  hashed-solid [] h = absurd (ground (arith, h))
  hashed-solid (c ∷ s) h = refl

  unrefused :
      (name : Text) (db : AccountDb)
      → text_eq name [] ≡ false
      → name_refused u (some name) db ≡ false
      → count_if
          (λ (y : User). has_text (normalized_name u name) y.normalized_display_name)
          db.users
        ≡ 0
  unfolding text_eq
  unrefused [] db h k = absurd (ground (arith, h))
  unrefused (c ∷ s) db h k = ground (arith, k)

  -- A user who was provisioned with a name and a password is found by that name at the login, with
  -- exactly the passwords that pass the check against the hash of the given one.
  pub provisioned-authenticates :
      (verify : Text → Text → Bool) (id key_id : ℕ) (payload : Text) (p : Provisioning) (now : ℕ)
      (db : AccountDb) (x : User) (key name password attempt : Text)
      → p.display_name ≡ some name
      → p.password ≡ some password
      → text_eq name [] ≡ false
      → text_eq password [] ≡ false
      → (provision_user u places hash json bcrypt id key_id payload p now db).0 ≡ ok (x, key)
      → authenticate_user u verify name attempt
          (provision_user u places hash json bcrypt id key_id payload p now db).1
        ≡ (if verify attempt (bcrypt password) then some x else none)
  unfolding authenticate_user get_user_by_display_name
  provisioned-authenticates verify id key_id payload p now db x key name password attempt named
        given solid_name solid h =
      let (zone, free, same, users) = provision-done id key_id payload p now db x key h in
      let taken = λ (y : User). has_text (normalized_name u name) y.normalized_display_name in
      let unused =
        unrefused name db solid_name (subst (λ o. name_refused u o db ≡ false) named free) in
      let name_of : x.normalized_display_name ≡ some (normalized_name u name) =
        ap (λ y. y.normalized_display_name) same ∙ ap (normalized u) named in
      let hash_of : x.password_hash ≡ some (bcrypt password) =
        ap (λ y. y.password_hash) same ∙ ap (hashed bcrypt) given ∙ hashed-solid password solid in
      let mine : taken x ≡ true =
        ap (has_text (normalized_name u name)) name_of ∙ text_eq_refl (normalized_name u name) in
      let found = ap (first? taken) users ∙ first?-append taken db.users x unused mine in
      ground (arith, found, hash_of)
