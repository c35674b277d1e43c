-- ===== src/User/Zoned.antt =====
-- Every user lives in a time zone of the user's country.
use mnemo_api.Prelude.{
  ◌==◌, ==_iff, Bool-cases, Option-cases, All, All-append, update_if, first?, count_if,
  count_if-append_one, count_if_mono, count_if-delete, first?-All, count_if-update, All-delete_if,
  update_if-none, Text, codes, contains, Unicode, ℕ, ◌≤◌, ◌≡◌, refl, ap, subst, ◌∙◌, inl, inr, Bool,
  true, false, not, ◌&&◌, Option, none, some, List, [], ◌∷◌, ◌++◌, arith,
}
use mnemo_api.Exec.{Error, display_name_conflict, integrity_error, ok, ◌>>=◌, Result-cases}
use mnemo_api.Accounts.{Role, User, AccountDb}
use mnemo_api.Timezone.{Places, raw_timezones_for_country, primary_first, get_timezones_for_country}
use mnemo_api.User.{
  clashes, normalize_and_precheck_timezone, resolve_country_timezone, UserCreate, UserUpdate,
  insert_user, get_user_by_id, write_user, create_user, rename, finish, new_timezone, clashes_other,
  update_user, delete_user, name_refused, Provisioning, key_scopes, provisioned_user, first_key,
  provision_user,
}
use mnemo_api.User.Zones.{resolve-listed}
use mnemo_api.ApiKey.{Json, KeyRequest, create_api_key}

abbrev pub HasZone : Places → User → Type 0
HasZone places x = contains x.timezone (get_timezones_for_country places x.country) ≡ true

pub record IsZoned (places : Places) (db : AccountDb) : Type 0 where
  pub zoned : All (HasZone places) db.users
  pub keyed : (i : ℕ) → count_if (λ (x : User). x.id == i) db.users ≤ 1

All-update_one :
    {A : Type 0} (P : A → Type 0) (p : A → Bool) (f : A → A) (xs : List A) (x : A)
    → count_if p xs ≤ 1
    → first? p xs ≡ some x
    → P (f x)
    → All P xs
    → All P (update_if p f xs)
unfolding count_if first? update_if
All-update_one P p f [] x once found h hs = tt
All-update_one P p f (y ∷ ys) x once found h hs = elim (Bool-cases (p y)) [
  | inl hit ↦
      let same : x ≡ y = ground (arith, found, hit) in
      let rest : count_if p ys ≡ 0 = ground (arith, once, hit) in
      rw (hit, update_if, update_if-none p f ys rest) (subst (λ a. P (f a)) same h, hs.1)
  | inr miss ↦
      let later : first? p ys ≡ some x = ground (arith, found, miss) in
      let fewer : count_if p ys ≤ 1 = ground (arith, once, miss) in
      rw (miss, update_if) (hs.0, All-update_one P p f ys x fewer later h hs.1)
]

append-keyed :
    (users : List User) (x : User)
    → count_if (λ (y : User). y.id == x.id) users ≡ 0
    → ((i : ℕ) → count_if (λ (y : User). y.id == i) users ≤ 1)
    → (i : ℕ) → count_if (λ (y : User). y.id == i) (users ++ x ∷ []) ≤ 1
append-keyed users x fresh keyed i = elim (Bool-cases (x.id == i)) [
  | inl hit ↦
      let same = (==_iff x.id i).0 hit in
      rw (← same) (ground (arith, fresh, count_if-append_one (λ (y : User). y.id == x.id) users x))
  | inr miss ↦ ground (arith, keyed i, count_if-append_one (λ (y : User). y.id == i) users x)
]

module _ (u : Unicode) (places : Places) where
  insert-IsZoned :
      (e : Error) (x : User) (db : AccountDb)
      → count_if (λ (y : User). y.id == x.id) db.users ≡ 0
      → HasZone places x
      → IsZoned places db
      → IsZoned places (insert_user e x db).1
  insert-IsZoned e x db fresh home h = elim (Bool-cases (count_if (clashes x) db.users == 0)) [
    | inl free ↦ rw free (record {
      zoned = All-append (HasZone places) db.users (x ∷ []) h.zoned (home, tt);
      keyed = append-keyed db.users x fresh h.keyed;
    })
    | inr taken ↦ rw taken h
  ]

  same_upper :
      (country : Text)
      → places.upper (places.upper country) ≡ places.upper country
      → get_timezones_for_country places (places.upper country)
        ≡ get_timezones_for_country places country
  unfolding get_timezones_for_country
  same_upper country e = ap (λ c. primary_first c (raw_timezones_for_country places c)) e

  create_user-IsZoned :
      (id : ℕ) (fields : UserCreate) (db : AccountDb)
      → ((s : Text) → places.upper (places.upper s) ≡ places.upper s)
      → count_if (λ (y : User). y.id == id) db.users ≡ 0
      → IsZoned places db
      → IsZoned places (create_user u places id fields db).1
  unfolding create_user
  create_user-IsZoned id fields db upper_twice fresh h =
      elim (Result-cases (resolve_country_timezone u places fields.country fields.timezone)) [
        | inr (e, refused) ↦ rw (refused, create_user) h
        | inl (zone, found) ↦
            let listed = resolve-listed u places fields.country fields.timezone zone found in
            let home =
              ap (contains zone) (same_upper fields.country (upper_twice fields.country))
              ∙ listed in
            rw (found, create_user) (insert-IsZoned integrity_error _ db fresh home h)
      ]

  new_timezone-listed :
      (x : User) (timezone : Option Text) (zone : Text)
      → new_timezone u places x timezone ≡ ok zone
      → HasZone places x
      → contains zone (get_timezones_for_country places x.country) ≡ true
  unfolding new_timezone
  new_timezone-listed x none zone h home =
      let same : x.timezone ≡ zone = ground arith in
      subst (λ t. contains t (get_timezones_for_country places x.country) ≡ true) same home
  new_timezone-listed x (some t) zone h home =
      elim (Result-cases (normalize_and_precheck_timezone u places t)) [
        | inr (e, bad) ↦ absurd (ground (arith, h, bad))
        | inl (z, good) ↦
            elim (Bool-cases (contains z (get_timezones_for_country places x.country))) [
              | inr other ↦ absurd (ground (arith, h, good, other))
              | inl listed ↦
                  let same : z ≡ zone = ground (arith, h, good, listed) in
                  subst (λ t. contains t (get_timezones_for_country places x.country) ≡ true) same
                    listed
            ]
      ]

  write-IsZoned :
      (user_id : ℕ) (f : User → User) (db : AccountDb) (x : User)
      → get_user_by_id user_id db ≡ some x
      → ((y : User) → (f y).id ≡ y.id)
      → HasZone places (f x)
      → IsZoned places db
      → IsZoned places (write_user user_id f db)
  write-IsZoned user_id f db x found same home h =
      let by_id = λ (i : ℕ) (y : User). y.id == i in
      record {
        zoned =
            All-update_one (HasZone places) (by_id user_id) f db.users x (h.keyed user_id) found
              home h.zoned;
        keyed = λ i.
            rw
              (count_if-update (by_id i) (by_id user_id) f db.users
                (λ y. ap (λ n. n == i) (same y)))
              (h.keyed i);
      }

  update_user-IsZoned :
      (user_id : ℕ) (fields : UserUpdate) (db : AccountDb)
      → IsZoned places db
      → IsZoned places (update_user u places user_id fields db).1
  unfolding update_user
  update_user-IsZoned user_id fields db h = elim (Option-cases (get_user_by_id user_id db)) [
    | inl missing ↦ rw (missing, update_user) h
    | inr (x, found) ↦
        let home =
          first?-All (HasZone places) (λ (y : User). y.id == user_id) db.users x h.zoned found in
        elim (Result-cases (new_timezone u places x fields.timezone)) [
          | inr (e, bad) ↦
              rw (found, update_user, bad)
                (write-IsZoned user_id (rename u places fields) db x found (λ y. refl) home h)
          | inl (zone, good) ↦
              let f = λ (y : User). finish u places fields zone (rename u places fields y) in
              let listed = new_timezone-listed x fields.timezone zone good home in
              let kept = write-IsZoned user_id f db x found (λ y. refl) listed h in
              rw (found, update_user, good)
                (elim (Bool-cases (clashes_other u places (f x) db.users)) [
                  | inl clash ↦ rw clash kept
                  | inr free ↦ rw free kept
                ])
        ]
  ]

  delete_user-IsZoned :
      (user_id : ℕ) (db : AccountDb) → IsZoned places db → IsZoned places (delete_user user_id db).1
  unfolding delete_user
  delete_user-IsZoned user_id db h = elim (Option-cases (get_user_by_id user_id db)) [
    | inl missing ↦ rw (missing, delete_user) h
    | inr (x, found) ↦
        rw (found, delete_user)
          (record {
            zoned =
                All-delete_if _ _ (λ (y : User). y.id == user_id) db.users (λ y other k. k) h.zoned;
            keyed = λ i. omega (
              arith,
              h.keyed i,
              count_if-delete (λ (y : User). y.id == i) (λ (y : User). y.id == user_id) db.users,
              count_if_mono (λ (y : User). y.id == i)
                  (λ (y : User). (y.id == i) && not (y.id == user_id)) db.users
                  (λ y k. ground arith),
            );
          })
  ]

  same_users-IsZoned :
      (db db' : AccountDb) → db'.users ≡ db.users → IsZoned places db → IsZoned places db'
  same_users-IsZoned db db' e h = record { zoned = rw e h.zoned; keyed = λ i. rw e (h.keyed i) }

  module _ (hash : Text → Text) (json : Json) (bcrypt : Text → Text) where
    users-create_api_key :
        (id user_id : ℕ) (r : KeyRequest) (payload : Text) (now : ℕ) (db : AccountDb)
        → (create_api_key u hash json id user_id r payload now db).1.users ≡ db.users
    unfolding create_api_key
    users-create_api_key id user_id r payload now db = ground arith

    users-first_key :
        (key_id : ℕ) (role : Role) (payload : Text) (now : ℕ) (x : User) (db : AccountDb)
        → (first_key u places hash json bcrypt key_id role payload now x db).1.users ≡ db.users
    users-first_key key_id role payload now x db = ground (
      arith,
      users-create_api_key key_id x.id
          (record {
            name = some (codes "Default");
            is_live = false;
            scopes = some (key_scopes role);
          })
          payload now db,
    )

    -- The part of `provision_user` behind its checks.
    insert_then-IsZoned :
        (key_id : ℕ) (role : Role) (payload : Text) (now : ℕ) (x : User) (db : AccountDb)
        → count_if (λ (y : User). y.id == x.id) db.users ≡ 0
        → HasZone places x
        → IsZoned places db
        → IsZoned places
            ((insert_user display_name_conflict x
                >>= first_key u places hash json bcrypt key_id role payload now)
              db).1
    insert_then-IsZoned key_id role payload now x db fresh home h =
        elim (Bool-cases (count_if (clashes x) db.users == 0)) [
          | inr taken ↦ rw taken h
          | inl free ↦
              let db' = record db { users = db.users ++ x ∷ [] } in
              let there : IsZoned places db' = record {
                zoned = All-append (HasZone places) db.users (x ∷ []) h.zoned (home, tt);
                keyed = append-keyed db.users x fresh h.keyed;
              } in
              rw free
                (same_users-IsZoned db' _ (users-first_key key_id role payload now x db') there)
        ]

    provision_user-IsZoned :
        (id key_id : ℕ) (payload : Text) (p : Provisioning) (now : ℕ) (db : AccountDb)
        → count_if (λ (y : User). y.id == id) db.users ≡ 0
        → IsZoned places db
        → IsZoned places (provision_user u places hash json bcrypt id key_id payload p now db).1
    unfolding provision_user
    provision_user-IsZoned id key_id payload p now db fresh h =
        let country = places.upper p.country in
        elim (Bool-cases (name_refused u p.display_name db)) [
          | inl refused ↦ rw (refused, provision_user) h
          | inr free ↦ elim (Result-cases (resolve_country_timezone u places country p.timezone)) [
            | inr (e, bad) ↦ rw (free, provision_user, bad) h
            | inl (zone, good) ↦
                let listed = resolve-listed u places country p.timezone zone good in
                rw (free, provision_user, good)
                  (insert_then-IsZoned key_id p.role payload now
                    (provisioned_user u bcrypt id p country zone) db fresh listed h)
          ]
        ]

-- The calls that change users; the identifiers and random parts of new rows come with them.
pub data AccountChange : Type 0 where
  create : ℕ → UserCreate → AccountChange
  update : ℕ → UserUpdate → AccountChange
  remove : ℕ → AccountChange
  provision : ℕ → ℕ → Text → Provisioning → ℕ → AccountChange

-- The identifier of a new user is new.
abbrev pub IsNewUser : AccountChange → AccountDb → Type 0
IsNewUser (create id fields) db = count_if (λ (y : User). y.id == id) db.users ≡ 0
IsNewUser (provision id key_id payload p now) db = count_if (λ (y : User). y.id == id) db.users ≡ 0
IsNewUser _ db = Unit

module _ (u : Unicode) (places : Places) (hash : Text → Text) (json : Json)
    (bcrypt : Text → Text) where
  -- The tables after a call.
  unfoldable pub change : AccountChange → AccountDb → AccountDb
  change (create id fields) db = (create_user u places id fields db).1
  change (update user_id fields) db = (update_user u places user_id fields db).1
  change (remove user_id) db = (delete_user user_id db).1
  change (provision id key_id payload p now) db =
      (provision_user u places hash json bcrypt id key_id payload p now db).1

  -- Whatever the user service is asked to do, and whether it does it or raises an exception, each
  -- user keeps a time zone of the user's own country, if the identifiers of new users are new and
  -- upper case is its own upper case.
  pub change-IsZoned :
      (x : AccountChange) (db : AccountDb)
      → ((s : Text) → places.upper (places.upper s) ≡ places.upper s)
      → IsNewUser x db
      → IsZoned places db
      → IsZoned places (change x db)
  unfolding change
  change-IsZoned (create id fields) db upper_twice fresh h =
      create_user-IsZoned u places id fields db upper_twice fresh h
  change-IsZoned (update user_id fields) db upper_twice fresh h =
      update_user-IsZoned u places user_id fields db h
  change-IsZoned (remove user_id) db upper_twice fresh h = delete_user-IsZoned u places user_id db h
  change-IsZoned (provision id key_id payload p now) db upper_twice fresh h =
      provision_user-IsZoned u places hash json bcrypt id key_id payload p now db fresh h
