-- ===== src/Routes/Catalog.antt =====
-- api/v1/routes/decks.py and cards.py: the routes on decks and cards behind their checks of the token. The
-- creation of a deck is in Idempotency.Decks; the creation of a card is modelled as it runs without an
-- idempotency key. A reply holds the rows that the code turns into a body.
pub mod Private
use mnemo_api.Prelude.{if◌then◌else◌, Text, ℕ, Bool, Option, none, some, List, []}
use mnemo_api.Models.{Flashcard, Deck, Db}
use mnemo_api.Exec.{Error, deck_not_found, deck_name_conflict, card_not_found, Result, ok, err}
use mnemo_api.Accounts.{User, AccountDb, PermissionScope, decks_read, decks_write, progress_read}
use mnemo_api.Auth.{
  Jwt, allows, AccessError, insufficient_scope, Access, granted, denied,
  get_current_user_from_token,
}
use mnemo_api.Deck.{get_deck_by_id, given, update_deck, delete_deck}
use mnemo_api.Flashcard.{
  CardFields, create_card, get_card_by_id, CardChanges, update_card, delete_card,
}
use mnemo_api.Flashcard.Listing.{list_cards_for_deck}
use mnemo_api.Deck.Listing.{list_decks}
use mnemo_api.Pages.{Meta}
use mnemo_api.Progress.{Zone, DeckProgress, get_deck_progress}

pub data Body : Type 0 where
  deck_body : Deck → Body
  decks_body : List Deck → Meta → Body
  card_body : Flashcard → Body
  cards_body : List Flashcard → Meta → Body
  stats_body : DeckProgress → Body
  no_body : Body

-- A reply with its status, an error of a service, or a refusal of the token.
pub data Answer : Type 0 where
  answered : ℕ → Body → Answer
  errored : ℕ → Error → Answer
  refused : ℕ → AccessError → Answer

-- The status of an exception in the routes; 500 is that of one that they do not catch.
abbrev pub status_of : Error → ℕ
status_of deck_not_found = 404
status_of card_not_found = 404
status_of deck_name_conflict = 409
status_of _ = 500

abbrev pub respond : {A : Type 0} → ℕ → (A → Body) → Result A × Db → Answer × Db
respond status f (ok a, db) = (answered status (f a), db)
respond status f (err e, db) = (errored (status_of e) e, db)

-- What the list of decks takes from the database.
pub record Listing : Type 0 where
  pub collate : Text → Text → Bool
  pub updated_at : Deck → ℕ
  pub query : Text → Option (Deck → Bool)

-- `list_decks`
unfoldable pub list_decks_route : Listing → ℕ → ℕ → ℕ → Text → Text → Text → Db → Answer × Db
list_decks_route l user_id page per_page tag sort order db =
    respond 200 (λ (x : List Deck × Meta). decks_body x.0 x.1)
      (list_decks l.collate l.updated_at l.query user_id page per_page tag sort order db, db)

-- `get_deck`
unfoldable pub get_deck_route : ℕ → ℕ → Db → Answer × Db
get_deck_route user_id deck_id db = elim (get_deck_by_id user_id deck_id db) [
  | none ↦ (errored 404 deck_not_found, db)
  | some d ↦ (answered 200 (deck_body d), db)
]

-- `update_deck`; `replace_deck` is the same call, with a name.
unfoldable pub update_deck_route :
    (Text → Text) → ℕ → ℕ → Option Text → Option Text → Option (List Text) → Db → Answer × Db
update_deck_route lower user_id deck_id name description tags db =
    respond 200 deck_body (update_deck lower user_id deck_id name description tags db)

-- `delete_deck`
unfoldable pub delete_deck_route : ℕ → ℕ → Db → Answer × Db
delete_deck_route user_id deck_id db = respond 200 (λ x. no_body) (delete_deck user_id deck_id db)

-- `get_deck_stats`
unfoldable pub get_deck_stats : Zone → ℕ → ℕ → ℕ → Db → Answer × Db
get_deck_stats zone user_id deck_id now db = elim (get_deck_by_id user_id deck_id db) [
  | none ↦ (errored 404 deck_not_found, db)
  | some d ↦
      respond 200 stats_body (get_deck_progress zone user_id now (some deck_id) (some d) db, db)
]

-- `list_cards_for_deck`
unfoldable pub list_cards_route : ℕ → ℕ → ℕ → ℕ → Db → Answer × Db
list_cards_route user_id deck_id page per_page db =
    let (r, db') = list_cards_for_deck user_id deck_id page per_page db in
    respond 200 (λ (x : List Flashcard × Meta). cards_body x.0 x.1) (r, db)

-- schemas/flashcard.py: `FlashcardCreate`
pub record NewCard : Type 0 where
  pub question : Text
  pub answer : Text
  pub source_ref : Option Text
  pub tags : Option (List Text)
  pub difficulty : Option ℕ

-- `card_data.tags or []`, and the difficulty or `DEFAULT_DIFFICULTY`.
abbrev pub fields_of : NewCard → CardFields
fields_of x = record {
  question = x.question;
  answer = x.answer;
  source_ref = x.source_ref;
  tags = given x.tags [];
  difficulty = given x.difficulty 3;
}

-- `create_card` without an idempotency key.
unfoldable pub create_card_route : ℕ → ℕ → ℕ → NewCard → ℕ → Db → Answer × Db
create_card_route id user_id deck_id x now db =
    respond 201 card_body (create_card id user_id deck_id (fields_of x) now db)

-- `get_card`
unfoldable pub get_card_route : ℕ → ℕ → Db → Answer × Db
get_card_route user_id card_id db = elim (get_card_by_id user_id card_id db) [
  | none ↦ (errored 404 card_not_found, db)
  | some c ↦ (answered 200 (card_body c), db)
]

-- `update_card`; `replace_card` is the same call, with every field set.
unfoldable pub update_card_route : ℕ → ℕ → CardChanges → Db → Answer × Db
update_card_route user_id card_id x db = respond 200 card_body (update_card user_id card_id x db)

-- `delete_card`
unfoldable pub delete_card_route : ℕ → ℕ → Db → Answer × Db
delete_card_route user_id card_id db = respond 200 (λ x. no_body) (delete_card user_id card_id db)

pub data CatalogRequest : Type 0 where
  get_decks : ℕ → ℕ → Text → Text → Text → CatalogRequest
  get_deck : ℕ → CatalogRequest
  put_deck : ℕ → Text → Option Text → Option (List Text) → CatalogRequest
  patch_deck : ℕ → Option Text → Option Text → Option (List Text) → CatalogRequest
  remove_deck : ℕ → CatalogRequest
  get_stats : ℕ → ℕ → CatalogRequest
  get_cards : ℕ → ℕ → ℕ → CatalogRequest
  post_card : ℕ → ℕ → NewCard → ℕ → CatalogRequest
  get_card : ℕ → CatalogRequest
  put_card : ℕ → Text → Text → Option Text → List Text → ℕ → CatalogRequest
  patch_card : ℕ → CardChanges → CatalogRequest
  remove_card : ℕ → CatalogRequest

-- The scope in the dependencies of a route.
abbrev pub scope_of : CatalogRequest → PermissionScope
scope_of (get_decks page per_page tag sort order) = decks_read
scope_of (get_deck i) = decks_read
scope_of (get_stats i now) = progress_read
scope_of (get_cards i page per_page) = decks_read
scope_of (get_card i) = decks_read
scope_of _ = decks_write

-- The fields of `replace_card`, all of which are set.
abbrev pub replaced : Text → Text → Option Text → List Text → ℕ → CardChanges
replaced question answer source_ref tags difficulty = record {
  question = some question;
  answer = some answer;
  source_ref = some source_ref;
  tags = some tags;
  difficulty = some difficulty;
}

module _ (lower : Text → Text) (zone : Zone) (listing : Listing) where
  abbrev pub route : CatalogRequest → ℕ → Db → Answer × Db
  route (get_decks page per_page tag sort order) user_id db =
      list_decks_route listing user_id page per_page tag sort order db
  route (get_deck i) user_id db = get_deck_route user_id i db
  route (put_deck i name description tags) user_id db =
      update_deck_route lower user_id i (some name) description tags db
  route (patch_deck i name description tags) user_id db =
      update_deck_route lower user_id i name description tags db
  route (remove_deck i) user_id db = delete_deck_route user_id i db
  route (get_stats i now) user_id db = get_deck_stats zone user_id i now db
  route (get_cards i page per_page) user_id db = list_cards_route user_id i page per_page db
  route (post_card id i x now) user_id db = create_card_route id user_id i x now db
  route (get_card i) user_id db = get_card_route user_id i db
  route (put_card i question answer source_ref tags difficulty) user_id db =
      update_card_route user_id i (replaced question answer source_ref tags difficulty) db
  route (patch_card i x) user_id db = update_card_route user_id i x db
  route (remove_card i) user_id db = delete_card_route user_id i db

  -- A route behind the dependencies for the token, its user and its scope.
  abbrev pub behind : CatalogRequest → Access (User × List Text) → Db → Answer × Db
  behind r (denied status e) db = (refused status e, db)
  behind r (granted (x, scopes)) db =
      if allows scopes (scope_of r) then route r x.id db else (refused 403 insufficient_scope, db)

  unfoldable pub serve : Jwt → ℕ → Option Text → CatalogRequest → AccountDb → Db → Answer × Db
  serve jwt now token r accounts db =
      behind r (get_current_user_from_token jwt now token accounts) db
