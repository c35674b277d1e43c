-- ===== src/User/Tests.antt =====
-- The theorems on users at concrete inputs.
use mnemo_api.Prelude.{
  ◌==◌, if◌then◌else◌, length, All, select, update_if, first?, count_if, Text, codes, text_eq,
  contains, drop_space, strip, ℕ, ◌-◌, ◌*◌, min, ◌≡◌, refl, Bool, true, false, none, some, [], ◌∷◌,
  arith,
}
use mnemo_api.Accounts.{user_role, User, AccountDb}
use mnemo_api.Exec.{invalid_timezone, err}
use mnemo_api.Timezone.{
  lookup_or, raw_timezones_for_country, with_primary, get_timezones_for_country,
}
use mnemo_api.User.{normalize_and_precheck_timezone, UserUpdate, new_timezone, update_user}
use mnemo_api.User.Zoned.{IsZoned, update, change, change-IsZoned}
use mnemo_api.Samples.{tables, packed, two_countries}
use mnemo_api.Models.{Deck, Db}
use mnemo_api.User.Directory.{list_users}
use mnemo_api.User.Search.{any_suffix, is_empty, is_wanted, head_and, IsIlike, list_users_wanted}

abbrev grace : User
grace = record {
  id = 3;
  display_name = some (codes "Grace");
  normalized_display_name = some (codes "Grace");
  country = codes "US";
  locale = none;
  timezone = codes "America/New_York";
  education_level = none;
  preferred_language = codes "en";
  daily_goal_cards = 20;
  password_hash = none;
  role = user_role;
  admin_access_granted = false;
}

abbrev accounts : AccountDb
accounts = record { users = grace ∷ []; keys = [] }

accounts-IsZoned : IsZoned two_countries accounts
unfolding count_if contains text_eq get_timezones_for_country raw_timezones_for_country with_primary
    lookup_or select
accounts-IsZoned = record { zoned = (refl, tt); keyed = λ i. ground arith }

-- A move to Cameroon's zone is refused, but the new name is kept.
abbrev moved : UserUpdate
moved = record {
  display_name = some (codes "Hopper");
  locale = none;
  timezone = some (codes "Africa/Douala");
  education_level = none;
  preferred_language = none;
  daily_goal_cards = none;
}

move_run : (update_user tables two_countries 3 moved accounts).0 ≡ err invalid_timezone
unfolding update_user count_if contains text_eq get_timezones_for_country raw_timezones_for_country
    with_primary lookup_or select new_timezone normalize_and_precheck_timezone strip drop_space
    first? update_if
move_run = refl

change-IsZoned_example :
    IsZoned two_countries
      (change tables two_countries (λ s. s) packed (λ s. s) (update 3 moved) accounts)
change-IsZoned_example =
    change-IsZoned tables two_countries (λ s. s) packed (λ s. s) (update 3 moved) accounts
      (λ s. refl) tt accounts-IsZoned

-- A stand-in for ILIKE that keeps case apart.
abbrev same_code : ℕ → ℕ → Bool
same_code c d = c == d

abbrev skip_one : (Text → Bool) → Text → Bool
skip_one p [] = false
skip_one p (d ∷ t) = p t

like : Text → Text → Bool
like [] t = is_empty t
like (c ∷ []) t =
    if c == 37
    then any_suffix is_empty t
    else if c == 92
    then false
    else if c == 95
    then skip_one is_empty t
    else head_and same_code c is_empty t
like (c ∷ d ∷ p) t =
    if c == 37
    then any_suffix (λ x. like (d ∷ p) x) t
    else if c == 92
    then head_and same_code d (λ x. like p x) t
    else if c == 95
    then skip_one (λ x. like (d ∷ p) x) t
    else head_and same_code c (λ x. like (d ∷ p) x) t

like-wild : (p t : Text) → like (37 ∷ p) t ≡ any_suffix (like p) t
unfolding like
like-wild [] t = refl
like-wild (d ∷ p) t = refl

like-plain :
    (c : ℕ) (p t : Text)
    → (c == 37) ≡ false
    → (c == 95) ≡ false
    → (c == 92) ≡ false
    → like (c ∷ p) t ≡ head_and same_code c (like p) t
unfolding like
like-plain c [] t a b d = ground (arith, a, b, d)
like-plain c (e ∷ p) t a b d = ground (arith, a, b, d)

like-IsIlike : IsIlike same_code like
like-IsIlike = record {
  ends = λ t. unfold like in refl;
  wild = like-wild;
  literal = λ c p t. unfold like in refl;
  plain = like-plain;
}

abbrev no_rows : Db
no_rows = record {
  decks = [];
  cards = [];
  memory_states = [];
  sessions = [];
  session_cards = [];
  import_jobs = [];
}

list_users_wanted_example :
    let (rows, total) = list_users like (λ x. x.id) 1 20 (codes "r%") accounts no_rows in
    All
      (λ (r : User × ℕ).
        (is_wanted same_code (codes "r%") r.0 ≡ true)
        × (r.1 ≡ count_if (λ (d : Deck). d.user_id == r.0.id) no_rows.decks))
      rows
    × (total ≡ count_if (is_wanted same_code (codes "r%")) accounts.users)
    × (length rows ≡ min 20 (total - (1 - 1) * 20))
list_users_wanted_example =
    list_users_wanted same_code like like-IsIlike (λ x. x.id) 1 20 (codes "r%") accounts no_rows
