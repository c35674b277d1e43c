-- ===== src/Timezone.antt =====
-- utils/timezone.py: the time zones of a country. What pytz knows is the argument `places`, and so is
-- `str.upper`.
use mnemo_api.Prelude.{
  ltb, if◌then◌else◌, Bool-cases, length, select, first?, Text, codes, text_eq, text_eq_refl,
  text_eq→eq, contains, ◌≡◌, refl, inl, inr, Bool, true, not, ◌&&◌, ◌||◌, Option, List, [], ◌∷◌,
  arith,
}

-- `pytz.country_timezones.get(code, [])`, whether `pytz.timezone` knows a name, and `str.upper`.
pub record Places : Type 0 where
  pub upper : Text → Text
  pub country_timezones : Text → List Text
  pub is_timezone : Text → Bool

-- `COUNTRY_TIMEZONE_OVERRIDES`
abbrev pub is_uninhabited : Text → Bool
is_uninhabited code = text_eq code (codes "BV") || text_eq code (codes "HM")

-- `PRIMARY_TIMEZONE_OVERRIDES`
abbrev pub primary_overrides : List (Text × Text)
primary_overrides =
    (codes "US", codes "America/New_York")
    ∷ (codes "CA", codes "America/Toronto")
    ∷ (codes "BR", codes "America/Sao_Paulo")
    ∷ (codes "AU", codes "Australia/Sydney")
    ∷ (codes "RU", codes "Europe/Moscow")
    ∷ (codes "MX", codes "America/Mexico_City")
    ∷ []

unfoldable pub lookup_or : Text → Text → List (Text × Text) → Text
lookup_or default key [] = default
lookup_or default key ((k, v) ∷ rest) =
    let later = lookup_or default key rest in if text_eq key k then v else later

-- `_raw_timezones_for_country`
unfoldable pub raw_timezones_for_country : Places → Text → List Text
raw_timezones_for_country places code =
    if is_uninhabited code then codes "Etc/UTC" ∷ [] else places.country_timezones code

-- The list with a primary zone moved to the front.
unfoldable pub with_primary : Text → List Text → List Text
with_primary primary zones =
    if contains primary zones
    then primary ∷ select (λ (z : Text). not (text_eq z primary)) zones
    else zones

abbrev pub primary_first : Text → List Text → List Text
primary_first code [] = []
primary_first code (z ∷ zs) = with_primary (lookup_or z code primary_overrides) (z ∷ zs)

-- `get_timezones_for_country`
unfoldable pub get_timezones_for_country : Places → Text → List Text
get_timezones_for_country places country_code =
    primary_first (places.upper country_code)
      (raw_timezones_for_country places (places.upper country_code))

-- `country_has_multiple_timezones`
abbrev pub country_has_multiple_timezones : Places → Text → Bool
country_has_multiple_timezones places country_code =
    ltb 1 (length (get_timezones_for_country places country_code))

-- `get_timezone_for_country`
abbrev pub get_timezone_for_country : Places → Text → Option Text
get_timezone_for_country places country_code =
    first? (λ (z : Text). true) (get_timezones_for_country places country_code)

pub contains-select :
    (t p : Text) (zs : List Text)
    → contains t (select (λ (z : Text). not (text_eq z p)) zs)
      ≡ (contains t zs && not (text_eq t p))
unfolding contains select
contains-select t p [] = refl
contains-select t p (z ∷ zs) = elim (Bool-cases (text_eq t z)) [
  | inl hit ↦
      let same = text_eq→eq t z hit in
      rw same (ground (arith, text_eq_refl z, contains-select z p zs))
  | inr miss ↦ ground (arith, contains-select t p zs)
]

contains-with_primary :
    (t p : Text) (zs : List Text) → contains t (with_primary p zs) ≡ contains t zs
unfolding with_primary contains
contains-with_primary t p zs = elim (Bool-cases (text_eq t p)) [
  | inl hit ↦
      let same = text_eq→eq t p hit in
      rw same (ground (arith, text_eq_refl p, contains-select p p zs))
  | inr miss ↦ ground (arith, contains-select t p zs)
]

-- The zones of a country are those of the database of time zones, only in another order: the same
-- names stand in both lists.
pub same_timezones :
    (places : Places) (country_code zone : Text)
    → contains zone (get_timezones_for_country places country_code)
      ≡ contains zone (raw_timezones_for_country places (places.upper country_code))
unfolding get_timezones_for_country
same_timezones places country_code zone =
    go (raw_timezones_for_country places (places.upper country_code))
  where
    go :
        (zs : List Text)
        → contains zone (primary_first (places.upper country_code) zs) ≡ contains zone zs
    go [] = refl
    go (z ∷ zs) =
        contains-with_primary zone (lookup_or z (places.upper country_code) primary_overrides)
          (z ∷ zs)
