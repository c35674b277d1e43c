-- ===== src/Idempotency/Decks.antt =====
-- api/v1/routes/decks.py: the creation of a deck, with the responses of earlier requests.
use mnemo_api.Prelude.{
  ==_refl, first?, Text, codes, text_eq_refl, ℕ, ◌+◌, ◌≤◌, ◌≡◌, refl, ap, ◌∙◌, inl, inr, Bool, true,
  Option, none, some, List, [], ◌∷◌, ◌++◌, arith,
}
use mnemo_api.Models.{Deck, Db}
use mnemo_api.Exec.{Error, Result, ok, err, Exec, Result-cases}
use mnemo_api.Deck.{create_deck}
use mnemo_api.Idempotency.{
  IdempotencyKey, idempotency_ttl, is_record, get_idempotency_record, new_record,
  store_idempotency_record,
}

-- schemas/deck.py: `DeckResponse`
pub record DeckResponse : Type 0 where
  pub id : ℕ
  pub name : Text
  pub description : Option Text
  pub tags : List Text
  pub card_count : ℕ
  pub version : ℕ
  pub created_at : ℕ
  pub source_file : Option Text

abbrev pub model_validate : Deck → DeckResponse
model_validate d = record {
  id = d.id;
  name = d.name;
  description = d.description;
  tags = d.tags;
  card_count = d.card_count;
  version = d.version;
  created_at = d.created_at;
  source_file = d.source_file;
}

-- A response: a status with a body, or the status of an error with its code.
pub data Response : Type 0 where
  reply : ℕ → Option DeckResponse → Response
  refuse : ℕ → Error → Response

-- The tables that the route writes to.
pub record RouteDb : Type 0 where
  pub db : Db
  pub records : List (IdempotencyKey DeckResponse)

-- A body of a request for a deck, with the identifier and time of the row to make.
pub record DeckCreate : Type 0 where
  pub id : ℕ
  pub name : Text
  pub description : Option Text
  pub tags : List Text

abbrev pub endpoint : Text
endpoint = codes "POST /v1/decks"

-- The part that stores the response, `if idempotency_key:`.
abbrev pub remember : ℕ → Text → DeckResponse → ℕ → RouteDb → Result Response × RouteDb
remember user_id [] body now s = (ok (reply 201 (some body)), s)
remember user_id (c ∷ key) body now s =
    let (r, records) = store_idempotency_record user_id endpoint (c ∷ key) 201 body now s.records in
    (elim r [ ok x ↦ ok (reply 201 (some body)) | err e ↦ err e ], record s { records = records })

-- The part that makes the deck.
abbrev pub make : (Text → Text) → ℕ → Text → DeckCreate → ℕ → RouteDb → Result Response × RouteDb
make lower user_id key d now s =
    let (r, db) = create_deck lower d.id user_id d.name d.description d.tags now s.db in
    elim r [
      | err e ↦ (ok (refuse 409 e), record s { db = db })
      | ok deck ↦ remember user_id key (model_validate deck) now (record s { db = db })
    ]

-- The part that looks for a stored response, `if idempotency_key:`.
abbrev pub recall : ℕ → Text → ℕ → RouteDb → Result (Option (IdempotencyKey DeckResponse)) × RouteDb
recall user_id [] now s = (ok none, s)
recall user_id (c ∷ key) now s =
    let (r, records) = get_idempotency_record user_id endpoint (c ∷ key) now s.records in
    (r, record s { records = records })

abbrev pub answer_or :
    Option (IdempotencyKey DeckResponse) → Exec RouteDb Response → Exec RouteDb Response
answer_or none m s = m s
answer_or (some r) m s = (ok (reply r.status_code r.response_body), s)

-- `create_deck` of the route; without the header the key is empty.
unfoldable pub create_deck_route : (Text → Text) → ℕ → Text → DeckCreate → ℕ → Exec RouteDb Response
create_deck_route lower user_id key d now s =
    let (found, s') = recall user_id key now s in
    elim found [ err e ↦ (err e, s') | ok r ↦ answer_or r (make lower user_id key d now) s' ]

pub is_record_refl :
    {B : Type 0} (user_id : ℕ) (e key : Text) (r : IdempotencyKey B)
    → r.user_id ≡ user_id
    → r.endpoint ≡ e
    → r.key ≡ key
    → is_record user_id e key r ≡ true
is_record_refl user_id e key r a b c =
    rw (a, b, c) (ground (arith, ==_refl user_id, text_eq_refl e, text_eq_refl key))

pub first?-new :
    {A : Type 0} (p : A → Bool) (xs : List A) (x : A)
    → first? p xs ≡ none
    → p x ≡ true
    → first? p (xs ++ x ∷ []) ≡ some x
unfolding first?
first?-new p [] x h k = ground arith
first?-new p (y ∷ ys) x h k = ground (arith, first?-new p ys x)

-- What the first request leaves when it makes a deck.
first_request :
    (lower : Text → Text) (user_id c : ℕ) (key : Text) (d : DeckCreate) (now : ℕ) (s : RouteDb)
    (b : DeckResponse)
    → first? (is_record user_id endpoint (c ∷ key)) s.records ≡ none
    → (create_deck_route lower user_id (c ∷ key) d now s).0 ≡ ok (reply 201 (some b))
    → (create_deck_route lower user_id (c ∷ key) d now s).1.records
      ≡ s.records ++ new_record user_id endpoint (c ∷ key) 201 (some b) now ∷ []
unfolding create_deck_route get_idempotency_record store_idempotency_record
first_request lower user_id c key d now s b none_yet h =
    elim (Result-cases (create_deck lower d.id user_id d.name d.description d.tags now s.db).0) [
      | inl (deck, e) ↦ ground (arith, e, none_yet)
      | inr (error, e) ↦ ground (arith, e, none_yet)
    ]

replayed :
    (lower : Text → Text) (user_id c : ℕ) (key : Text) (d : DeckCreate) (later : ℕ) (s : RouteDb)
    (r : IdempotencyKey DeckResponse)
    → first? (is_record user_id endpoint (c ∷ key)) s.records ≡ some r
    → later ≤ r.created_at + idempotency_ttl
    → r.status_code ≡ 201
    → create_deck_route lower user_id (c ∷ key) d later s
      ≡ (ok (reply r.status_code r.response_body), s)
unfolding create_deck_route get_idempotency_record
replayed lower user_id c key d later s r found fresh status = ground (arith, found)

-- A request for a deck that is sent again with the same key within a day, whatever its fields, gets
-- the response of the first one, and nothing changes, so that one deck was made.
pub deck_once :
    (lower : Text → Text) (user_id c : ℕ) (key : Text) (d d' : DeckCreate) (now later : ℕ)
    (s : RouteDb) (b : DeckResponse)
    → first? (is_record user_id endpoint (c ∷ key)) s.records ≡ none
    → (create_deck_route lower user_id (c ∷ key) d now s).0 ≡ ok (reply 201 (some b))
    → later ≤ now + idempotency_ttl
    → let s' = (create_deck_route lower user_id (c ∷ key) d now s).1 in
      create_deck_route lower user_id (c ∷ key) d' later s' ≡ (ok (reply 201 (some b)), s')
deck_once lower user_id c key d d' now later s b none_yet h fresh =
    let s' = (create_deck_route lower user_id (c ∷ key) d now s).1 in
    let r = new_record user_id endpoint (c ∷ key) 201 (some b) now in
    let mine = is_record_refl user_id endpoint (c ∷ key) r refl refl refl in
    let found =
      ap (first? (is_record user_id endpoint (c ∷ key)))
        (first_request lower user_id c key d now s b none_yet h)
      ∙ first?-new (is_record user_id endpoint (c ∷ key)) s.records r none_yet mine in
    replayed lower user_id c key d' later s' r found fresh refl
