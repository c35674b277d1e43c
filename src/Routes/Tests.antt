-- ===== src/Routes/Tests.antt =====
-- The theorem on the routes of profiles at a concrete input.
use mnemo_api.Prelude.{
  first?, count_if, Text, codes, text_eq, contains, ◌+◌, ◌/◌, ◌≡◌, refl, ap, true, false, none,
  some, [], ◌∷◌, map, arith,
}
use mnemo_api.Accounts.{user_role, User, AccountDb, decks_read, admin, value}
use mnemo_api.Auth.{
  texts, create_access_token, allows, granted, user_of_decoded, get_current_user_from_token,
}
use mnemo_api.User.{UserUpdate}
use mnemo_api.Routes.Profiles.{edit_profile, set_consent, handle, Respects, profile_private}
use mnemo_api.Samples.{tables, plain_jwt, plain_jwt-IsJwt, two_countries}
use mnemo_api.Routes.Catalog.{Listing, remove_deck, serve}
use mnemo_api.Routes.Catalog.Private.{Guards, serve_private}
use mnemo_api.Progress.{Zone}
use mnemo_api.Models.{Flashcard, merge, Db}
use mnemo_api.Deck.{new_deck}
use mnemo_api.Routes.Admin.{value_or_failure, get_user_decks, consent_counts}
use mnemo_api.Deck.Listing.{list_decks}
use mnemo_api.Routes.Imports.{Upload}
use mnemo_api.Routes.Memory.{answer_card_route}
use mnemo_api.Routes.Memory.Answered.{IsAnswered, answer_card-IsAnswered}
use mnemo_api.Flashcard.{new_card}

abbrev grace : User
grace = record {
  id = 3;
  display_name = none;
  normalized_display_name = none;
  country = codes "CM";
  locale = none;
  timezone = codes "Africa/Douala";
  education_level = none;
  preferred_language = codes "en";
  daily_goal_cards = 20;
  password_hash = none;
  role = user_role;
  admin_access_granted = false;
}

abbrev accounts : AccountDb
accounts = record { users = grace ∷ record grace { id = 4 } ∷ []; keys = [] }

abbrev token : Text
token = create_access_token plain_jwt 3600 3 (map value (decks_read ∷ [])) 100

abbrev more_cards : UserUpdate
more_cards = record {
  display_name = none;
  locale = none;
  timezone = none;
  education_level = none;
  preferred_language = none;
  daily_goal_cards = some 40;
}

token_known :
    get_current_user_from_token plain_jwt 200 (some token) accounts
    ≡ granted (grace, map value (decks_read ∷ []))
unfolding get_current_user_from_token create_access_token first?
token_known =
    ap (λ d. user_of_decoded d accounts)
      (plain_jwt-IsJwt
        (record {
          sub = some 3;
          scopes = texts (map value (decks_read ∷ []));
          exp = some 3700;
          iat = 100;
        })
        200 3700 refl)

profile_private_example :
    Respects tables two_countries 4 accounts
      (get_current_user_from_token plain_jwt 200 (some token) accounts)
      (handle tables two_countries plain_jwt 200 (some token) (edit_profile 3 more_cards) accounts)
profile_private_example =
    profile_private tables two_countries plain_jwt 200 (some token) (edit_profile 3 more_cards)
      accounts 4

abbrev decks_of_three : Db
decks_of_three = record {
  decks = new_deck 1 3 (codes "maps") none [] 0 ∷ new_deck 2 4 (codes "maps") none [] 0 ∷ [];
  cards = [];
  memory_states = [];
  sessions = [];
  session_cards = [];
  import_jobs = [];
}

abbrev plain_days : Zone
plain_days = record { day = λ t. t / 86400 + 1; end_of_day = λ t. t; iso = λ t. [] }

abbrev plain_listing : Listing
plain_listing = record { collate = λ s t. true; updated_at = λ d. d.version; query = λ t. none }

-- The token, for reading, does not let its user remove a deck.
serve_private_example :
    Guards
      (λ s. s)
      plain_days
      plain_listing
      decks_of_three
      (get_current_user_from_token plain_jwt 200 (some token) accounts)
      (serve
        (λ s. s)
        plain_days
        plain_listing
        plain_jwt
        200
        (some token)
        (remove_deck 1)
        accounts
        decks_of_three)
serve_private_example =
    serve_private (λ s. s) plain_days plain_listing plain_jwt 200 (some token) (remove_deck 1)
      accounts decks_of_three (λ i. unfold count_if in ground arith)
      (λ i. unfold count_if in omega arith)

-- After the user of the token has consented, the deck of the user is shown.
consent_counts_example :
    let (r, accounts') =
      handle tables two_countries plain_jwt 200 (some token) (set_consent true) accounts in
    get_user_decks
      (λ s t. true)
      (λ d. d.version)
      (λ t. none)
      3
      1
      20
      []
      (grace, map value (decks_read ∷ admin ∷ []))
      accounts'
      decks_of_three
    ≡ value_or_failure (
        list_decks
          (λ s t. true)
          (λ d. d.version)
          (λ t. none)
          3
          1
          20
          []
          (codes "created_at")
          (codes "desc")
          decks_of_three)
consent_counts_example =
    consent_counts tables two_countries plain_jwt 200 (some token) true (λ s t. true)
      (λ d. d.version) (λ t. none) 1 20 [] grace grace (map value (decks_read ∷ []))
      (map value (decks_read ∷ admin ∷ [])) accounts decks_of_three token_known
      (unfold first? in refl) (unfold allows contains text_eq value in refl)

abbrev upload : Upload
upload = record {
  filename = none;
  content = codes "question,answer";
  deck_id = none;
  deck_name = some (codes "imported");
  mode = merge;
}

-- A card in a deck of user 4.
abbrev foreign_card : Flashcard
foreign_card =
    new_card 6 2
      (record {
        question = codes "Capital of Italy?";
        answer = codes "Rome";
        source_ref = none;
        tags = [];
        difficulty = 3;
      })
      0

abbrev card_of_four : Db
card_of_four = record decks_of_three { cards = foreign_card ∷ [] }

answer_card-IsAnswered_example :
    IsAnswered 3 6 4 1000
      (λ t. true)
      card_of_four
      foreign_card
      (answer_card_route (λ t. true) 3 6 4 1000 card_of_four)
answer_card-IsAnswered_example =
    answer_card-IsAnswered 3 6 4 1000 (λ t. true) card_of_four foreign_card (unfold first? in refl)
