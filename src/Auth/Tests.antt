-- ===== src/Auth/Tests.antt =====
-- The theorems on tokens at concrete inputs.
use mnemo_api.Prelude.{
  select, first?, count_if, Text, codes, text_eq, contains, drop_space, strip, ◌≡◌, refl, Bool,
  false, none, some, [], ◌∷◌, ◌++◌,
}
use mnemo_api.Accounts.{user_role, admin_role, User, AccountDb, admin}
use mnemo_api.User.{
  resolve_country_timezone, get_user_by_display_name, Provisioning, provisioned_user,
  provision_user,
}
use mnemo_api.Auth.{
  authenticate_user, insufficient_scope, granted, denied, require_user_scope, login,
}
use mnemo_api.Auth.Login.{login_grants}
use mnemo_api.Auth.Provision.{provisioned-authenticates}
use mnemo_api.Samples.{tables, packed, plain_jwt, plain_jwt-IsJwt, two_countries}
use mnemo_api.ApiKey.{split_on, all_hex, extract_api_key_prefix, generate_api_key, create_api_key}
use mnemo_api.Timezone.{
  lookup_or, raw_timezones_for_country, with_primary, get_timezones_for_country,
}
use mnemo_api.Exec.{ok}

-- A password is stored as it is, behind a 7.
abbrev bcrypt : Text → Text
bcrypt s = 7 ∷ s

abbrev check_bcrypt : Text → Text → Bool
check_bcrypt s h = text_eq (bcrypt s) h

abbrev grace : User
grace = record {
  id = 3;
  display_name = some (codes "Grace");
  normalized_display_name = some (codes "Grace");
  country = codes "CM";
  locale = none;
  timezone = codes "Africa/Douala";
  education_level = none;
  preferred_language = codes "en";
  daily_goal_cards = 20;
  password_hash = some (bcrypt (codes "secret"));
  role = admin_role;
  admin_access_granted = false;
}

abbrev accounts : AccountDb
accounts = record { users = grace ∷ []; keys = [] }

grace_known :
    authenticate_user tables check_bcrypt (codes " Grace") (codes "secret") accounts ≡ some grace
unfolding authenticate_user get_user_by_display_name strip drop_space first? text_eq
grace_known = refl

login_grants_example :
    (token : Text) × (login tables check_bcrypt plain_jwt 3600
        (codes " Grace")
        (codes "secret")
        100
        accounts
      ≡ granted token)
    × (require_user_scope plain_jwt admin 200 (some token) accounts ≡ denied 403 insufficient_scope)
login_grants_example =
    login_grants tables check_bcrypt plain_jwt 3600 (codes " Grace") (codes "secret") admin 100 200
      accounts accounts grace grace plain_jwt-IsJwt grace_known (unfold first? in refl)

abbrev wanted : Provisioning
wanted = record {
  display_name = some (codes "Ada");
  country = codes "CM";
  timezone = none;
  password = some (codes "lovelace");
  role = user_role;
}

abbrev digits : Text
digits =
    codes "0123456789abcdef"
    ++ codes "0123456789abcdef"
    ++ codes "0123456789abcdef"
    ++ codes "0123456789abcdef"

abbrev ada : User
ada = provisioned_user tables bcrypt 9 wanted (codes "CM") (codes "Africa/Douala")

ada_provisioned :
    (provision_user tables two_countries bcrypt packed bcrypt 9 1 digits wanted 50 accounts).0
    ≡ ok (ada, generate_api_key false digits)
unfolding provision_user create_api_key resolve_country_timezone get_timezones_for_country
    raw_timezones_for_country with_primary lookup_or contains text_eq count_if strip drop_space
    extract_api_key_prefix split_on all_hex first? select generate_api_key
ada_provisioned = refl

provisioned-authenticates_example :
    authenticate_user tables check_bcrypt
      (codes "Ada")
      (codes "love")
      (provision_user tables two_countries bcrypt packed bcrypt 9 1 digits wanted 50 accounts).1
    ≡ none
unfolding text_eq
provisioned-authenticates_example =
    provisioned-authenticates tables two_countries bcrypt packed bcrypt check_bcrypt 9 1 digits
      wanted 50 accounts ada (generate_api_key false digits) (codes "Ada") (codes "lovelace")
      (codes "love") refl refl refl refl ada_provisioned
