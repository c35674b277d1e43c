-- ===== src/User/Directory.antt =====
-- services/user.py: `list_users`, for administrators. ILIKE and the time at which a user was created,
-- which the rows here do not keep, are arguments. A page or a page size below zero is raised to 1 like
-- zero, so that both are natural numbers.
use mnemo_api.Prelude.{
  leb, ◌==◌, if◌then◌else◌, select, count_if, Text, ℕ, min, max, Bool, true, false, none, some,
  List, [], ◌∷◌, ◌++◌, map,
}
use mnemo_api.Models.{Deck, Db}
use mnemo_api.Accounts.{User, AccountDb}
use mnemo_api.Pages.{cut}

-- `search.replace(c, "\\" + c)`, for one character; 92 is the backslash.
unfoldable pub escape_char : ℕ → Text → Text
escape_char c [] = []
escape_char c (d ∷ s) = let rest = escape_char c s in if d == c then 92 ∷ d ∷ rest else d ∷ rest

-- The backslashes first, then the wildcards % and _.
abbrev pub escaped : Text → Text
escaped s = escape_char 95 (escape_char 37 (escape_char 92 s))

abbrev pub pattern_of : Text → Text
pattern_of s = 37 ∷ (escaped s ++ 37 ∷ [])

-- `where_clauses`
abbrev pub is_found : (Text → Text → Bool) → Text → User → Bool
is_found ilike [] x = true
is_found ilike (c ∷ s) x = elim x.display_name [
  | none ↦ false
  | some name ↦ ilike (pattern_of (c ∷ s)) name
]

unfoldable pub insert_latest : (User → ℕ) → User → List User → List User
insert_latest created_at x [] = x ∷ []
insert_latest created_at x (y ∷ ys) =
    let rest = insert_latest created_at x ys in
    if leb (created_at y) (created_at x) then x ∷ y ∷ ys else y ∷ rest

-- `.order_by(User.created_at.desc())`
unfoldable pub sort_latest : (User → ℕ) → List User → List User
sort_latest created_at [] = []
sort_latest created_at (x ∷ xs) = insert_latest created_at x (sort_latest created_at xs)

-- The subquery for the number of decks.
abbrev pub with_decks : Db → User → User × ℕ
with_decks db x = (x, count_if (λ (d : Deck). d.user_id == x.id) db.decks)

unfoldable pub list_users :
    (Text → Text → Bool) → (User → ℕ) → ℕ → ℕ → Text → AccountDb → Db → List (User × ℕ) × ℕ
list_users ilike created_at asked_page asked_size search accounts db =
    let page = max asked_page 1 in
    let per_page = min (max asked_size 1) 100 in
    (
      map (with_decks db) (
          cut page per_page
            (sort_latest created_at (select (is_found ilike search) accounts.users))),
      count_if (is_found ilike search) accounts.users,
    )
