-- ===== src/Deck/Listing.antt =====
-- services/deck.py: `list_decks`. The database's order of texts is the argument `collate`, and the time
-- of the last change of a row, which the tables here do not keep, the argument `updated_at`. A page
-- or a page size below zero is raised to 1 like zero, so that both are natural numbers.
pub mod Sorting
use mnemo_api.Prelude.{
  leb, ◌==◌, if◌then◌else◌, All, select, count_if, Text, codes, text_eq, ℕ, zero, suc, min, max,
  ◌≡◌, Bool, true, ◌&&◌, Option, none, some, List, [], ◌∷◌, ◌++◌,
}
use mnemo_api.Models.{Deck, Db}
use mnemo_api.Exec.{database_error, Result, ok, err}
use mnemo_api.Pages.{Meta, pagination_meta, cut}

-- `Deck.tags.contains([tag])`, which asks the database to compare a column of type JSON: what it
-- selects is up to SQLAlchemy and the database, and so it is an argument, `none` where the database
-- refuses the query. No tag, or an empty one, is no filter.
abbrev pub tag_filter : (Text → Option (Deck → Bool)) → Text → Option (Deck → Bool)
tag_filter query [] = some (λ d. true)
tag_filter query (c ∷ s) = query (c ∷ s)

-- `filters`
abbrev pub is_listed : ℕ → (Deck → Bool) → Deck → Bool
is_listed user_id q d = d.user_id == user_id && q d

module _ (collate : Text → Text → Bool) (updated_at : Deck → ℕ) where
  -- Whether one deck may stand before another in ascending order, by `sort_map`.
  unfoldable pub no_later : Text → Deck → Deck → Bool
  no_later sort d e =
      if text_eq sort (codes "name")
      then collate d.name e.name
      else if text_eq sort (codes "updated_at")
      then leb (updated_at d) (updated_at e)
      else leb d.created_at e.created_at

  -- `order_clause`
  unfoldable pub precedes : Text → Text → Deck → Deck → Bool
  precedes sort order d e =
      if text_eq order (codes "asc") then no_later sort d e else no_later sort e d

  unfoldable pub insert_deck : Text → Text → Deck → List Deck → List Deck
  insert_deck sort order d [] = d ∷ []
  insert_deck sort order d (e ∷ es) =
      let rest = insert_deck sort order d es in
      if precedes sort order d e then d ∷ e ∷ es else e ∷ rest

  unfoldable pub sort_decks : Text → Text → List Deck → List Deck
  sort_decks sort order [] = []
  sort_decks sort order (d ∷ ds) = insert_deck sort order d (sort_decks sort order ds)

  -- `list_decks` with the filter for the tag, behind which the queries run.
  unfoldable pub list_page : ℕ → ℕ → ℕ → (Deck → Bool) → Text → Text → Db → List Deck × Meta
  list_page user_id asked_page asked_size q sort order db =
      let page = max asked_page 1 in
      let per_page = min (max asked_size 1) 100 in
      let total = count_if (is_listed user_id q) db.decks in
      (
        cut page per_page (sort_decks sort order (select (is_listed user_id q) db.decks)),
        pagination_meta page per_page total,
      )

  -- `list_decks`, with the database's filter for each tag as an argument.
  unfoldable pub list_decks :
      (Text → Option (Deck → Bool))
      → ℕ
      → ℕ
      → ℕ
      → Text
      → Text
      → Text
      → Db
      → Result (List Deck × Meta)
  list_decks query user_id asked_page asked_size tag sort order db = elim (tag_filter query tag) [
    | none ↦ err database_error
    | some q ↦ ok (list_page user_id asked_page asked_size q sort order db)
  ]

  abbrev pub shown_decks : Result (List Deck × Meta) → List Deck
  shown_decks (ok (ds, meta)) = ds
  shown_decks (err e) = []

  -- The first pages of a listing behind each other, an error as no decks.
  unfoldable pub asked_pages :
      (Text → Option (Deck → Bool)) → ℕ → ℕ → ℕ → Text → Text → Text → Db → List Deck
  asked_pages query zero user_id size tag sort order db = []
  asked_pages query (suc n) user_id size tag sort order db =
      asked_pages query n user_id size tag sort order db
      ++ shown_decks (list_decks query user_id (suc n) size tag sort order db)

  -- The same for one filter.
  unfoldable pub listed_pages : ℕ → ℕ → ℕ → (Deck → Bool) → Text → Text → Db → List Deck
  listed_pages zero user_id size q sort order db = []
  listed_pages (suc n) user_id size q sort order db =
      listed_pages n user_id size q sort order db
      ++ (list_page user_id (suc n) size q sort order db).0

  -- No deck stands before one that has to come first.
  abbrev pub IsSorted : Text → Text → List Deck → Type 0
  IsSorted sort order [] = Unit
  IsSorted sort order (d ∷ ds) =
      All (λ (e : Deck). precedes sort order d e ≡ true) ds × IsSorted sort order ds

  -- What a listing shows: nothing, where the database refuses the filter for the tag; and
  -- otherwise pages that together are in the order that was asked for and hold the decks of the
  -- user that the filter lets through.
  abbrev pub Lists :
      (Text → Option (Deck → Bool))
      → Option (Deck → Bool)
      → ℕ
      → ℕ
      → Text
      → Text
      → Text
      → Db
      → (Deck → Bool)
      → Type 0
  Lists query none user_id size tag sort order db p =
      (page : ℕ) → list_decks query user_id page size tag sort order db ≡ err database_error
  Lists query (some q) user_id size tag sort order db p =
      (first : List Deck) × (meta : Meta) × (list_decks query user_id 1 size tag sort order db
        ≡ ok (first, meta))
      × (let ds = asked_pages query meta.total_pages user_id size tag sort order db in
          IsSorted sort order ds
          × (count_if p ds ≡ count_if (λ d. is_listed user_id q d && p d) db.decks))
