-- ===== src/ApiKey/Tests.antt =====
-- The theorems on API keys at concrete inputs.
use mnemo_api.Prelude.{
  drop, first?, count_if, Text, codes, text_eq, drop_space, strip, ◌≡◌, refl, ◌↔◌, true, false,
  none, some, [], ◌∷◌, ◌++◌, map, arith,
}
use mnemo_api.Exec.{ok}
use mnemo_api.Accounts.{user_role, User, ApiKey, AccountDb, decks_read, value}
use mnemo_api.ApiKey.{
  split_on, all_hex, extract_api_key_prefix, KeyRequest, new_key, create_api_key, validate_api_key,
  get_key_scopes, revoke_api_key,
}
use mnemo_api.ApiKey.Format.{IsKey, extract-IsKey}
use mnemo_api.ApiKey.Lifecycle.{created-valid, revoked-invalid}
use mnemo_api.Samples.{tables, unpack-pack_all, packed}

abbrev sixteen : Text
sixteen = codes "0123456789abcdef"

abbrev digits : Text
digits = sixteen ++ (sixteen ++ (sixteen ++ sixteen))

abbrev digest : Text → Text
digest s = 7 ∷ s

digits-hex : all_hex digits ≡ true
unfolding all_hex
digits-hex = refl

extract-IsKey_example :
    (extract_api_key_prefix tables (codes "mnm_live_" ++ digits) ≡ some (codes "mnm_live_"))
    ↔ IsKey (codes "mnm_live_") (codes "mnm_live_" ++ digits)
extract-IsKey_example = extract-IsKey tables (codes "mnm_live_" ++ digits) (codes "mnm_live_") refl

-- A key with a capital letter among its digits, and one with a segment too many.
malformed_run :
    (extract_api_key_prefix tables (codes "mnm_live_" ++ (65 ∷ drop 1 digits)) ≡ none)
    × (extract_api_key_prefix tables (codes "mnm_live_" ++ (digits ++ codes "_")) ≡ none)
unfolding extract_api_key_prefix strip drop_space split_on text_eq all_hex
malformed_run = (refl, refl)

abbrev ada : User
ada = record {
  id = 7;
  display_name = none;
  normalized_display_name = none;
  country = codes "CM";
  locale = none;
  timezone = codes "Africa/Douala";
  education_level = none;
  preferred_language = codes "en";
  daily_goal_cards = 20;
  password_hash = none;
  role = user_role;
  admin_access_granted = false;
}

abbrev accounts : AccountDb
accounts = record { users = ada ∷ []; keys = [] }

abbrev test_key : KeyRequest
test_key = record { name = none; is_live = false; scopes = some (decks_read ∷ []) }

created-valid_example :
    let (r, db') = create_api_key tables digest packed 1 7 test_key digits 100 accounts in
    (k : ApiKey) × (plain_key : Text) × (v : ApiKey) × (r ≡ ok (k, plain_key))
    × ((validate_api_key tables digest packed plain_key 200 db').0 ≡ some v)
    × (v.id ≡ 1)
    × (v.user_id ≡ 7)
    × (get_key_scopes tables digest packed v ≡ map value (decks_read ∷ []))
created-valid_example =
    created-valid tables digest packed 1 7 test_key digits 100 200 accounts refl unpack-pack_all
      refl digits-hex (unfold count_if in refl) (unfold count_if in refl)

abbrev plain : Text
plain = codes "mnm_test_" ++ digits

abbrev stored : ApiKey
stored = new_key tables digest packed 1 7 test_key plain (codes "mnm_test_") 100

abbrev issued : AccountDb
issued = record { users = ada ∷ []; keys = stored ∷ [] }

issued_valid :
    (validate_api_key tables digest packed plain 150 issued).0
    ≡ some (record stored { last_used_at = some 150 })
unfolding validate_api_key extract_api_key_prefix strip drop_space split_on text_eq all_hex first?
issued_valid = refl

revoked-invalid_example :
    let used = (validate_api_key tables digest packed plain 150 issued).1 in
    let (found, db') = revoke_api_key 1 160 used in
    (found ≡ true) × (validate_api_key tables digest packed plain 170 db' ≡ (none, db'))
revoked-invalid_example =
    revoked-invalid tables digest packed plain 150 160 170 issued
      (record stored { last_used_at = some 150 }) (unfold count_if text_eq in omega arith)
      issued_valid
