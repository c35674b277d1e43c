-- ===== src/Routes/Profiles.antt =====
-- Whose profile the calls of a user read and write.
use mnemo_api.Prelude.{
  ◌==◌, ==_iff, Bool-cases, Option-cases, update_if, first?, first?-holds, Text, contains, Unicode,
  ℕ, ◌+◌, ◌≡◌, refl, sym, ap, subst, ◌∙◌, ◌⊎◌, inl, inr, Bool, true, false, Option, none, some,
  List, [], ◌∷◌, arith,
}
use mnemo_api.Accounts.{User, AccountDb, admin, value}
use mnemo_api.Timezone.{Places}
use mnemo_api.User.{
  UserUpdate, get_user_by_id, rename, finish, new_timezone, clashes_other, update_user,
}
use mnemo_api.Auth.{Jwt, AccessError, Access, granted, denied, get_current_user_from_token}
use mnemo_api.Routes.{
  rolled_back, with_caller, profile_error, reply_or, found_or_missing, get_user_route,
  update_user_route, set_admin_access,
}
use mnemo_api.Exec.{Result, ok, err, Result-cases}

-- The requests on profiles.
pub data ProfileCall : Type 0 where
  read_profile : ℕ → ProfileCall
  edit_profile : ℕ → UserUpdate → ProfileCall
  set_consent : Bool → ProfileCall

-- The row in a reply is the user's own, or the token allows administration.
abbrev pub IsAllowed : User → List Text → Access User → Type 0
IsAllowed x scopes (granted y) = (y.id ≡ x.id) ⊎ (contains (value admin) scopes ≡ true)
IsAllowed x scopes (denied status e) = Unit

keeps_row :
    (i j : ℕ) (f : User → User) (users : List User)
    → (j == i) ≡ false
    → ((x : User) → (f x).id ≡ x.id)
    → first? (λ (x : User). x.id == i) (update_if (λ (x : User). x.id == j) f users)
      ≡ first? (λ (x : User). x.id == i) users
unfolding first? update_if
keeps_row i j f [] other same = refl
keeps_row i j f (x ∷ xs) other same = ground (arith, other, same x, keeps_row i j f xs other same)

module _ (u : Unicode) (places : Places) where
  -- A request with a token, in its transaction.
  unfoldable pub handle : Jwt → ℕ → Option Text → ProfileCall → AccountDb → Access User × AccountDb
  handle jwt now token (read_profile i) db =
      with_caller (get_current_user_from_token jwt now token db) (get_user_route u places i) db
  handle jwt now token (edit_profile i fields) db =
      with_caller (get_current_user_from_token jwt now token db)
        (update_user_route u places i fields) db
  handle jwt now token (set_consent grant) db =
      with_caller (get_current_user_from_token jwt now token db) (set_admin_access grant) db

  row-rolled_back :
      {A : Type 0} (i : ℕ) (db : AccountDb) (r : Access A × AccountDb)
      → get_user_by_id i r.1 ≡ get_user_by_id i db
      → get_user_by_id i (rolled_back db r).1 ≡ get_user_by_id i db
  row-rolled_back i db (granted a, db') h = h
  row-rolled_back i db (denied status e, db') h = refl

  row-update_user :
      (i j : ℕ) (fields : UserUpdate) (db : AccountDb)
      → (j == i) ≡ false
      → get_user_by_id i (update_user u places j fields db).1 ≡ get_user_by_id i db
  unfolding update_user
  row-update_user i j fields db other = elim (Option-cases (get_user_by_id j db)) [
    | inl missing ↦ ground (arith, missing)
    | inr (x, found) ↦ elim (Result-cases (new_timezone u places x fields.timezone)) [
      | inr (e, bad) ↦
          rw (found, update_user, bad)
            (keeps_row i j (rename u places fields) db.users other (λ y. refl))
      | inl (zone, good) ↦
          let f = λ (y : User). finish u places fields zone (rename u places fields y) in
          let kept = keeps_row i j f db.users other (λ y. refl) in
          rw (found, update_user, good)
            (elim (Bool-cases (clashes_other u places (f x) db.users)) [
              | inl clash ↦ rw clash kept
              | inr free ↦ rw free kept
            ])
    ]
  ]

  -- The row that an update returns has the identifier that was asked for.
  id-update_user :
      (j : ℕ) (fields : UserUpdate) (db : AccountDb) (y : User)
      → (update_user u places j fields db).0 ≡ ok (some y)
      → y.id ≡ j
  unfolding update_user
  id-update_user j fields db y h = elim (Option-cases (get_user_by_id j db)) [
    | inl missing ↦ absurd (ground (arith, h, missing))
    | inr (x, found) ↦
        let mine = (==_iff x.id j).0 (first?-holds (λ (z : User). z.id == j) db.users x found) in
        elim (Result-cases (new_timezone u places x fields.timezone)) [
          | inr (e, bad) ↦ absurd (ground (arith, h, found, bad))
          | inl (zone, good) ↦
              let f = λ (z : User). finish u places fields zone (rename u places fields z) in
              elim (Bool-cases (clashes_other u places (f x) db.users)) [
                | inl clash ↦ absurd (ground (arith, h, found, good, clash))
                | inr free ↦
                    let same : f x ≡ y = ground (arith, h, found, good, free) in
                    ap (λ (z : User). z.id) (sym same) ∙ mine
              ]
        ]
  ]

  IsAllowed-rolled_back :
      (x : User) (scopes : List Text) (db : AccountDb) (r : Access User × AccountDb)
      → IsAllowed x scopes r.0
      → IsAllowed x scopes (rolled_back db r).0
  IsAllowed-rolled_back x scopes db (granted a, db') h = h
  IsAllowed-rolled_back x scopes db (denied status e, db') h = tt

  -- What a route may do for a user.
  abbrev IsPrivate : ℕ → User → List Text → AccountDb → Access User × AccountDb → Type 0
  IsPrivate i x scopes db r = (get_user_by_id i r.1 ≡ get_user_by_id i db) × IsAllowed x scopes r.0

  found_or_missing-IsPrivate :
      (i j : ℕ) (x : User) (scopes : List Text) (db : AccountDb)
      (r : Result (Option User) × AccountDb)
      → j ≡ x.id
      → get_user_by_id i r.1 ≡ get_user_by_id i db
      → ((y : User) → r.0 ≡ ok (some y) → y.id ≡ j)
      → IsPrivate i x scopes db (found_or_missing (reply_or profile_error r))
  found_or_missing-IsPrivate i j x scopes db (ok none, db') same row own = (row, tt)
  found_or_missing-IsPrivate i j x scopes db (ok (some y), db') same row own =
      (row, inl (own y refl ∙ same))
  found_or_missing-IsPrivate i j x scopes db (err e, db') same row own = (row, tt)

  read-id :
      (j : ℕ) (x y : User) (db : AccountDb)
      → (x.id == j) ≡ true
      → get_user_by_id j db ≡ some y
      → y.id ≡ x.id
  read-id j x y db own found =
      (==_iff y.id j).0 (first?-holds (λ (z : User). z.id == j) db.users y found)
      ∙ sym ((==_iff x.id j).0 own)

  get_user_route-IsPrivate :
      (i j : ℕ) (x : User) (scopes : List Text) (db : AccountDb)
      → IsPrivate i x scopes db (get_user_route u places j (x, scopes) db)
  unfolding get_user_route
  get_user_route-IsPrivate i j x scopes db = elim (Bool-cases (x.id == j)) [
    | inl own ↦ elim (Option-cases (get_user_by_id j db)) [
      | inl missing ↦ rw (own, get_user_route, missing) (refl, tt)
      | inr (y, found) ↦ rw (own, get_user_route, found) (refl, inl (read-id j x y db own found))
    ]
    | inr other ↦ elim (Bool-cases (contains (value admin) scopes)) [
      | inr plain ↦ rw (other, get_user_route, plain) (refl, tt)
      | inl full ↦ elim (Option-cases (get_user_by_id j db)) [
        | inl missing ↦ rw (other, get_user_route, full, missing) (refl, tt)
        | inr (y, found) ↦ rw (other, get_user_route, full, found) (refl, inr full)
      ]
    ]
  ]

  update_user_route-IsPrivate :
      (i j : ℕ) (fields : UserUpdate) (x : User) (scopes : List Text) (db : AccountDb)
      → (x.id == i) ≡ false
      → IsPrivate i x scopes db (update_user_route u places j fields (x, scopes) db)
  unfolding update_user_route
  update_user_route-IsPrivate i j fields x scopes db other = elim (Bool-cases (x.id == j)) [
    | inr foreign ↦ rw (foreign, update_user_route) (refl, tt)
    | inl own ↦
        let same = (==_iff x.id j).0 own in
        rw (own, update_user_route)
          (found_or_missing-IsPrivate i j x scopes db (update_user u places j fields db) (sym same)
            (row-update_user i j fields db (subst (λ n. (n == i) ≡ false) same other))
            (id-update_user j fields db))
  ]

  with_caller-IsPrivate :
      (i : ℕ) (x : User) (scopes : List Text) (db : AccountDb) (access : Access (User × List Text))
      (route : User × List Text → AccountDb → Access User × AccountDb)
      → access ≡ granted (x, scopes)
      → IsPrivate i x scopes db (route (x, scopes) db)
      → IsPrivate i x scopes db (with_caller access route db)
  with_caller-IsPrivate i x scopes db access route known (row, allowed) = rw known (
    row-rolled_back i db (route (x, scopes) db) row,
    IsAllowed-rolled_back x scopes db (route (x, scopes) db) allowed,
  )

  profile_private_granted :
      (jwt : Jwt) (now : ℕ) (token : Option Text) (call : ProfileCall) (db : AccountDb) (x : User)
      (scopes : List Text) (i : ℕ)
      → get_current_user_from_token jwt now token db ≡ granted (x, scopes)
      → (x.id == i) ≡ false
      → let (r, db') = handle jwt now token call db in
        (get_user_by_id i db' ≡ get_user_by_id i db) × IsAllowed x scopes r
  unfolding handle
  profile_private_granted jwt now token (read_profile j) db x scopes i known other =
      with_caller-IsPrivate i x scopes db (get_current_user_from_token jwt now token db)
        (get_user_route u places j) known (get_user_route-IsPrivate i j x scopes db)
  profile_private_granted jwt now token (edit_profile j fields) db x scopes i known other =
      with_caller-IsPrivate i x scopes db (get_current_user_from_token jwt now token db)
        (update_user_route u places j fields) known
        (update_user_route-IsPrivate i j fields x scopes db other)
  profile_private_granted jwt now token (set_consent grant) db x scopes i known other =
      with_caller-IsPrivate i x scopes db (get_current_user_from_token jwt now token db)
        (set_admin_access grant) known (keeps_row i x.id _ db.users other (λ y. refl), inl refl)

  -- What a request may do for whoever its token names: nothing if it names nobody, and otherwise
  -- keep the row of every other user.
  abbrev pub Respects : ℕ → AccountDb → Access (User × List Text) → Access User × AccountDb → Type 0
  Respects i db (denied status e) r = r ≡ (denied status e, db)
  Respects i db (granted (x, scopes)) (r, db') =
      ((x.id ≡ i) ⊎ (get_user_by_id i db' ≡ get_user_by_id i db)) × IsAllowed x scopes r

  handle-denied :
      (jwt : Jwt) (now : ℕ) (token : Option Text) (call : ProfileCall) (db : AccountDb) (status : ℕ)
      (e : AccessError)
      → get_current_user_from_token jwt now token db ≡ denied status e
      → handle jwt now token call db ≡ (denied status e, db)
  unfolding handle
  handle-denied jwt now token (read_profile j) db status e h = rw h refl
  handle-denied jwt now token (edit_profile j fields) db status e h = rw h refl
  handle-denied jwt now token (set_consent grant) db status e h = rw h refl

  other_number : (n : ℕ) → (n == n + 1) ≡ false
  other_number n = ground arith

  handle-IsAllowed :
      (jwt : Jwt) (now : ℕ) (token : Option Text) (call : ProfileCall) (db : AccountDb) (x : User)
      (scopes : List Text)
      → get_current_user_from_token jwt now token db ≡ granted (x, scopes)
      → IsAllowed x scopes (handle jwt now token call db).0
  handle-IsAllowed jwt now token call db x scopes known =
      (profile_private_granted jwt now token call db x scopes (x.id + 1) known
        (other_number x.id)).1

  Respects-with :
      (jwt : Jwt) (now : ℕ) (token : Option Text) (call : ProfileCall) (db : AccountDb) (i : ℕ)
      (access : Access (User × List Text))
      → get_current_user_from_token jwt now token db ≡ access
      → Respects i db access (handle jwt now token call db)
  Respects-with jwt now token call db i (denied status e) known =
      handle-denied jwt now token call db status e known
  Respects-with jwt now token call db i (granted (x, scopes)) known =
      elim (Bool-cases (x.id == i)) [
        | inl own ↦
            (inl ((==_iff x.id i).0 own), handle-IsAllowed jwt now token call db x scopes known)
        | inr other ↦
            let (kept, allowed) =
              profile_private_granted jwt now token call db x scopes i known other in
            (inr kept, allowed)
      ]

  -- A request on profiles whose token is refused is answered with that refusal and changes nothing.
  -- Any other changes no row but that of the user in its token, and the row that is replied is that
  -- user's own, unless the token allows administration.
  pub profile_private :
      (jwt : Jwt) (now : ℕ) (token : Option Text) (call : ProfileCall) (db : AccountDb) (i : ℕ)
      → Respects i db (get_current_user_from_token jwt now token db) (handle jwt now token call db)
  profile_private jwt now token call db i =
      Respects-with jwt now token call db i (get_current_user_from_token jwt now token db) refl
