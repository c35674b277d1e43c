-- ===== src/Idempotency/Tests.antt =====
-- The theorems on repeated requests at concrete inputs.
use mnemo_api.Prelude.{first?, Text, codes, ℕ, ◌≡◌, refl, none, some, [], arith}
use mnemo_api.Exec.{ok}
use mnemo_api.Deck.{new_deck, create_deck}
use mnemo_api.Idempotency.{get_idempotency_record, store_idempotency_record}
use mnemo_api.Idempotency.Decks.{
  DeckResponse, model_validate, reply, RouteDb, DeckCreate, create_deck_route, deck_once,
}

abbrev empty : RouteDb
empty = record {
  db = record {
    decks = [];
    cards = [];
    memory_states = [];
    sessions = [];
    session_cards = [];
    import_jobs = [];
  };
  records = [];
}

abbrev payload : ℕ → DeckCreate
payload id = record { id = id; name = codes "Europe"; description = none; tags = [] }

abbrev first_reply : DeckResponse
first_reply = model_validate (new_deck 2 7 (codes "Europe") none [] 100)

first_run :
    (create_deck_route (λ t. t) 7 (codes "k1") (payload 2) 100 empty).0
    ≡ ok (reply 201 (some first_reply))
unfolding create_deck_route create_deck get_idempotency_record store_idempotency_record first?
first_run = refl

deck_once_example :
    let s' = (create_deck_route (λ t. t) 7 (codes "k1") (payload 2) 100 empty).1 in
    create_deck_route (λ t. t) 7 (codes "k1") (payload 3) 900 s'
    ≡ (ok (reply 201 (some first_reply)), s')
deck_once_example =
    deck_once (λ t. t) 7 107 (codes "1") (payload 2) (payload 3) 100 900 empty first_reply
      (unfold first? in refl) first_run (omega arith)

abbrev card_endpoint : Text
card_endpoint = codes "POST /v1/decks/2/cards"
