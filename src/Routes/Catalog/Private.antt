-- ===== src/Routes/Catalog/Private.antt =====
-- What a token can do to decks and cards.
use mnemo_api.Prelude.{
  Bool-cases, Option-cases, Text, ℕ, ◌≡◌, refl, sym, ap, subst, ◌∙◌, ◌⊎◌, inl, inr, true, Option,
  none, some, List, arith,
}
use mnemo_api.Models.{Db}
use mnemo_api.Exec.{Result, ok, err}
use mnemo_api.Flashcard.Counts.{
  Keyed, Change, change_deck, drop_deck, make_card, change_card, drop_card, apply,
}
use mnemo_api.Progress.{Zone, get_deck_progress}
use mnemo_api.Routes.Catalog.{
  Body, deck_body, card_body, stats_body, no_body, Answer, refused, respond, Listing,
  list_decks_route, get_decks, get_deck_route, update_deck_route, delete_deck_route, get_deck_stats,
  list_cards_route, fields_of, create_card_route, get_card_route, update_card_route,
  delete_card_route, CatalogRequest, get_deck, put_deck, patch_deck, remove_deck, get_stats,
  get_cards, post_card, get_card, put_card, patch_card, remove_card, scope_of, replaced, route,
  serve,
}
use mnemo_api.Accounts.{User, AccountDb, decks_write}
use mnemo_api.Auth.{Jwt, allows, Access, granted, denied, get_current_user_from_token}
use mnemo_api.Deck.Privacy.{IsSameForOthers, DecksKeyed}
use mnemo_api.Flashcard.Privacy.{apply-IsSameForOthers}
use mnemo_api.Deck.{get_deck_by_id}

-- The call of a service that a request makes, if it writes.
abbrev pub change_of : CatalogRequest → Option Change
change_of (put_deck i name description tags) = some (change_deck i (some name) description tags)
change_of (patch_deck i name description tags) = some (change_deck i name description tags)
change_of (remove_deck i) = some (drop_deck i)
change_of (post_card id i x now) = some (make_card id i (fields_of x) now)
change_of (put_card i question answer source_ref tags difficulty) =
    some (change_card i (replaced question answer source_ref tags difficulty))
change_of (patch_card i x) = some (change_card i x)
change_of (remove_card i) = some (drop_card i)
change_of _ = none

abbrev pub apply_or_keep : (Text → Text) → ℕ → Option Change → Db → Db
apply_or_keep lower user none db = db
apply_or_keep lower user (some x) db = apply lower user x db

db-respond :
    {A : Type 0} (status : ℕ) (f : A → Body) (r : Result A × Db) → (respond status f r).1 ≡ r.1
db-respond status f (ok a, db) = refl
db-respond status f (err e, db) = refl

module _ (lower : Text → Text) (zone : Zone) (listing : Listing) where
  db-route :
      (r : CatalogRequest) (user : ℕ) (db : Db)
      → (route lower zone listing r user db).1 ≡ apply_or_keep lower user (change_of r) db
  unfolding list_decks_route get_deck_route update_deck_route delete_deck_route get_deck_stats
      list_cards_route create_card_route get_card_route update_card_route delete_card_route apply
  db-route (get_decks page per_page tag sort order) user db = db-respond 200 _ _
  db-route (get_deck i) user db = ground arith
  db-route (put_deck i name description tags) user db = db-respond 200 deck_body _
  db-route (patch_deck i name description tags) user db = db-respond 200 deck_body _
  db-route (remove_deck i) user db = db-respond 200 (λ x. no_body) _
  db-route (get_stats i now) user db = elim (Option-cases (get_deck_by_id user i db)) [
    | inl missing ↦ rw (missing, get_deck_stats) refl
    | inr (d, found) ↦
        rw (found, get_deck_stats)
          (db-respond 200 stats_body (get_deck_progress zone user now (some i) (some d) db, db))
  ]
  db-route (get_cards i page per_page) user db = db-respond 200 _ _
  db-route (post_card id i x now) user db = db-respond 201 card_body _
  db-route (get_card i) user db = ground arith
  db-route (put_card i question answer source_ref tags difficulty) user db =
      db-respond 200 card_body _
  db-route (patch_card i x) user db = db-respond 200 card_body _
  db-route (remove_card i) user db = db-respond 200 (λ x. no_body) _

  apply_or_keep-others :
      (user : ℕ) (change : Option Change) (db : Db)
      → DecksKeyed db.decks
      → Keyed db.cards
      → IsSameForOthers user db (apply_or_keep lower user change db)
  apply_or_keep-others user none db decks cards = (refl, refl)
  apply_or_keep-others user (some x) db decks cards =
      apply-IsSameForOthers lower user x db decks cards

  reads_or_writes : (r : CatalogRequest) → (change_of r ≡ none) ⊎ (scope_of r ≡ decks_write)
  reads_or_writes (get_decks page per_page tag sort order) = inl refl
  reads_or_writes (get_deck i) = inl refl
  reads_or_writes (put_deck i name description tags) = inr refl
  reads_or_writes (patch_deck i name description tags) = inr refl
  reads_or_writes (remove_deck i) = inr refl
  reads_or_writes (get_stats i now) = inl refl
  reads_or_writes (get_cards i page per_page) = inl refl
  reads_or_writes (post_card id i x now) = inr refl
  reads_or_writes (get_card i) = inl refl
  reads_or_writes (put_card i question answer source_ref tags difficulty) = inr refl
  reads_or_writes (patch_card i x) = inr refl
  reads_or_writes (remove_card i) = inr refl

  serve_private_granted :
      (jwt : Jwt) (now : ℕ) (token : Option Text) (r : CatalogRequest) (accounts : AccountDb)
      (db : Db) (x : User) (scopes : List Text)
      → get_current_user_from_token jwt now token accounts ≡ granted (x, scopes)
      → DecksKeyed db.decks
      → Keyed db.cards
      → let (answer, db') = serve lower zone listing jwt now token r accounts db in
        IsSameForOthers x.id db db' × ((db' ≡ db) ⊎ (allows scopes decks_write ≡ true))
  unfolding serve
  serve_private_granted jwt now token r accounts db x scopes known decks cards =
      elim (Bool-cases (allows scopes (scope_of r))) [
        | inr refused_ ↦ rw (known, serve, refused_) ((refl, refl), inl refl)
        | inl open_ ↦
            let done = db-route r x.id db in
            let others =
              subst (λ t. IsSameForOthers x.id db t) (sym done)
                (apply_or_keep-others x.id (change_of r) db decks cards) in
            rw (known, serve, open_)
              (
                others,
                elim (reads_or_writes r) [
                  | inl reads ↦ inl (done ∙ ap (λ c. apply_or_keep lower x.id c db) reads)
                  | inr writes ↦ inr (ap (allows scopes) (sym writes) ∙ open_)
                ],
              )
      ]

  -- What a request may do for whoever its token names: nothing if it names nobody; otherwise
  -- nothing to others, and nothing at all without the scope for writing.
  abbrev pub Guards : Db → Access (User × List Text) → Answer × Db → Type 0
  Guards db (denied status e) r = r ≡ (refused status e, db)
  Guards db (granted (x, scopes)) (answer, db') =
      IsSameForOthers x.id db db' × ((db' ≡ db) ⊎ (allows scopes decks_write ≡ true))

  Guards-with :
      (jwt : Jwt) (now : ℕ) (token : Option Text) (r : CatalogRequest) (accounts : AccountDb)
      (db : Db) (access : Access (User × List Text))
      → get_current_user_from_token jwt now token accounts ≡ access
      → DecksKeyed db.decks
      → Keyed db.cards
      → Guards db access (serve lower zone listing jwt now token r accounts db)
  unfolding serve
  Guards-with jwt now token r accounts db (denied status e) known decks cards = rw known refl
  Guards-with jwt now token r accounts db (granted (x, scopes)) known decks cards =
      serve_private_granted jwt now token r accounts db x scopes known decks cards

  -- One of the modelled requests on decks and cards, which are those of decks.py and cards.py but
  -- the creation of decks, whose token is refused is answered with that refusal and
  -- changes nothing. With any other token it changes nothing of other users' decks and the cards in
  -- them, and nothing at all unless the token allows writing decks. The identifiers of decks and
  -- those of cards are different.
  pub serve_private :
      (jwt : Jwt) (now : ℕ) (token : Option Text) (r : CatalogRequest) (accounts : AccountDb)
      (db : Db)
      → DecksKeyed db.decks
      → Keyed db.cards
      → Guards db
          (get_current_user_from_token jwt now token accounts)
          (serve lower zone listing jwt now token r accounts db)
  serve_private jwt now token r accounts db decks cards =
      Guards-with jwt now token r accounts db (get_current_user_from_token jwt now token accounts)
        refl decks cards
