-- ===== src/User/Search.antt =====
-- What the search for users finds.
use mathlib.Core.List.{append_assoc}
use mnemo_api.Prelude.{
  ◌==◌, if◌then◌else◌, Bool-cases, Option-cases, length, drop, length-map, All, select, count_if,
  length-select, count_if-congr, Text, text_eq, ℕ, suc, ◌-◌, ◌*◌, min, max, ◌≡◌, refl, ap, ◌∙◌, inl,
  inr, Bool, true, false, ◌&&◌, ◌||◌, none, some, List, [], ◌∷◌, ◌++◌, map, arith,
}
use mnemo_api.User.Directory.{
  escape_char, escaped, pattern_of, is_found, insert_latest, sort_latest, with_decks, list_users,
}
use mnemo_api.Pages.{cut, length-take, length-drop, All-take, All-drop}
use mnemo_api.Accounts.{User, AccountDb}
use mnemo_api.Models.{Deck, Db}

abbrev pub any_suffix : (Text → Bool) → Text → Bool
any_suffix p [] = p []
any_suffix p (d ∷ t) = p (d ∷ t) || any_suffix p t

abbrev pub is_empty : Text → Bool
is_empty [] = true
is_empty (d ∷ t) = false

-- Whether the characters of one text begin the other, up to case.
unfoldable pub begins : (ℕ → ℕ → Bool) → Text → Text → Bool
begins same [] t = true
begins same (c ∷ s) [] = false
begins same (c ∷ s) (d ∷ t) = same c d && begins same s t

-- Whether one text is a part of the other, up to case.
abbrev pub occurs : (ℕ → ℕ → Bool) → Text → Text → Bool
occurs same s t = any_suffix (begins same s) t

-- What a search is meant to find: the users whose name has the text as a part, up to case, and all
-- users for no text.
abbrev pub is_wanted : (ℕ → ℕ → Bool) → Text → User → Bool
is_wanted same search x =
    text_eq search []
    || (elim x.display_name [ none ↦ false | some name ↦ occurs same search name ])

-- The first character of a text is one that `same` takes for the given one, and the rest passes a
-- test.
abbrev pub head_and : (ℕ → ℕ → Bool) → ℕ → (Text → Bool) → Text → Bool
head_and same c p [] = false
head_and same c p (d ∷ t) = same c d && p t

-- The documented meaning of ILIKE with the backslash to escape: % stands for any text, an escaped
-- character for itself, and so does every other character than _.
pub record IsIlike (same : ℕ → ℕ → Bool) (ilike : Text → Text → Bool) : Type 0 where
  pub ends : (t : Text) → ilike [] t ≡ is_empty t
  pub wild : (p t : Text) → ilike (37 ∷ p) t ≡ any_suffix (ilike p) t
  pub literal : (c : ℕ) (p t : Text) → ilike (92 ∷ c ∷ p) t ≡ head_and same c (ilike p) t
  pub plain :
      (c : ℕ) (p t : Text)
      → (c == 37) ≡ false
      → (c == 95) ≡ false
      → (c == 92) ≡ false
      → ilike (c ∷ p) t ≡ head_and same c (ilike p) t

-- What becomes of one character.
abbrev escaped_one : ℕ → Text
escaped_one c = if (c == 37) || ((c == 95) || (c == 92)) then 92 ∷ c ∷ [] else c ∷ []

escaped-cons : (c : ℕ) (s : Text) → escaped (c ∷ s) ≡ escaped_one c ++ escaped s
unfolding escape_char
escaped-cons c s = elim (Bool-cases (c == 92)) [
  | inl slash ↦
      let no_percent : (c == 37) ≡ false = ground (arith, slash) in
      let no_line : (c == 95) ≡ false = ground (arith, slash) in
      ground (arith, slash, no_percent, no_line)
  | inr other ↦ elim (Bool-cases (c == 37)) [
    | inl percent ↦
        let no_line : (c == 95) ≡ false = ground (arith, percent) in
        ground (arith, other, percent, no_line)
    | inr no_percent ↦ elim (Bool-cases (c == 95)) [
      | inl line ↦ ground (arith, other, no_percent, line)
      | inr no_line ↦ ground (arith, other, no_percent, no_line)
    ]
  ]
]

escaped-then :
    (c : ℕ) (s : Text) → escaped (c ∷ s) ++ 37 ∷ [] ≡ escaped_one c ++ (escaped s ++ 37 ∷ [])
escaped-then c s =
    ap (λ e. e ++ 37 ∷ []) (escaped-cons c s) ∙ append_assoc (escaped_one c) (escaped s) (37 ∷ [])

module _ (same : ℕ → ℕ → Bool) (ilike : Text → Text → Bool) (law : IsIlike same ilike) where
  ilike-escaped_one :
      (c : ℕ) (p t : Text) → ilike (escaped_one c ++ p) t ≡ head_and same c (ilike p) t
  ilike-escaped_one c p t = elim (Bool-cases ((c == 37) || ((c == 95) || (c == 92)))) [
    | inl special ↦ rw special (law.literal c p t)
    | inr ordinary ↦ rw ordinary (
        law.plain c p t (ground (arith, ordinary)) (ground (arith, ordinary))
          (ground (arith, ordinary)))
  ]

  ends_anywhere : (t : Text) → ilike (37 ∷ []) t ≡ true
  ends_anywhere t = law.wild [] t ∙ go t
    where
      go : (t : Text) → any_suffix (ilike []) t ≡ true
      go [] = law.ends []
      go (d ∷ t) = ground (arith, go t)

  ilike-begins : (s t : Text) → ilike (escaped s ++ 37 ∷ []) t ≡ begins same s t
  unfolding begins
  ilike-begins [] t = unfold escape_char in ends_anywhere t
  ilike-begins (c ∷ s) [] =
      ap (λ p. ilike p []) (escaped-then c s) ∙ ilike-escaped_one c (escaped s ++ 37 ∷ []) []
  ilike-begins (c ∷ s) (d ∷ t) =
      ap (λ p. ilike p (d ∷ t)) (escaped-then c s)
      ∙ ilike-escaped_one c (escaped s ++ 37 ∷ []) (d ∷ t)
      ∙ ap (λ b. same c d && b) (ilike-begins s t)

  any_suffix-congr :
      (p q : Text → Bool) (t : Text) → ((t : Text) → p t ≡ q t) → any_suffix p t ≡ any_suffix q t
  any_suffix-congr p q [] h = h []
  any_suffix-congr p q (d ∷ t) h = ground (arith, h (d ∷ t), any_suffix-congr p q t h)

  pattern-occurs : (s t : Text) → ilike (pattern_of s) t ≡ occurs same s t
  pattern-occurs s t =
      law.wild (escaped s ++ 37 ∷ []) t
      ∙ any_suffix-congr (ilike (escaped s ++ 37 ∷ [])) (begins same s) t (ilike-begins s)

  found-wanted : (search : Text) (x : User) → is_found ilike search x ≡ is_wanted same search x
  unfolding text_eq
  found-wanted [] x = refl
  found-wanted (c ∷ s) x = elim (Option-cases x.display_name) [
    | inl nameless ↦ ground (arith, nameless)
    | inr (name, named_) ↦ ground (arith, named_, pattern-occurs (c ∷ s) name)
  ]

  length-insert_latest :
      (created_at : User → ℕ) (x : User) (xs : List User)
      → length (insert_latest created_at x xs) ≡ suc (length xs)
  unfolding insert_latest
  length-insert_latest created_at x [] = refl
  length-insert_latest created_at x (y ∷ ys) = ground (arith, length-insert_latest created_at x ys)

  length-sort_latest :
      (created_at : User → ℕ) (xs : List User) → length (sort_latest created_at xs) ≡ length xs
  unfolding sort_latest
  length-sort_latest created_at [] = refl
  length-sort_latest created_at (x ∷ xs) =
      length-insert_latest created_at x (sort_latest created_at xs)
      ∙ ap suc (length-sort_latest created_at xs)

  All-insert_latest :
      (P : User → Type 0) (created_at : User → ℕ) (x : User) (xs : List User)
      → P x
      → All P xs
      → All P (insert_latest created_at x xs)
  unfolding insert_latest
  All-insert_latest P created_at x [] k h = (k, tt)
  All-insert_latest P created_at x (y ∷ ys) k h =
      ground (arith, All-insert_latest P created_at x ys k h.1)

  All-sort_latest :
      (P : User → Type 0) (created_at : User → ℕ) (xs : List User)
      → All P xs
      → All P (sort_latest created_at xs)
  unfolding sort_latest
  All-sort_latest P created_at [] h = tt
  All-sort_latest P created_at (x ∷ xs) h =
      All-insert_latest P created_at x (sort_latest created_at xs) h.0
        (All-sort_latest P created_at xs h.1)

  All-select :
      (p q : User → Bool) (xs : List User)
      → ((x : User) → p x ≡ q x)
      → All (λ x. q x ≡ true) (select p xs)
  unfolding select
  All-select p q [] h = tt
  All-select p q (x ∷ xs) h = ground (arith, h x, All-select p q xs h)

  All-with_decks :
      (P : User → Type 0) (db : Db) (xs : List User)
      → All P xs
      → All
          (λ (r : User × ℕ). P r.0 × (r.1 ≡ count_if (λ (d : Deck). d.user_id == r.0.id) db.decks))
          (map (with_decks db) xs)
  All-with_decks P db [] h = tt
  All-with_decks P db (x ∷ xs) h = ((h.0, refl), All-with_decks P db xs h.1)

  -- Given the documented meaning of ILIKE, the list of users holds only users whose name has the
  -- search text as a part, up to case and whatever wildcards the text has, each with the number of
  -- the user's decks; the total counts all such users, and the page has as many of them as its size
  -- and offset leave.
  pub list_users_wanted :
      (created_at : User → ℕ) (page size : ℕ) (search : Text) (accounts : AccountDb) (db : Db)
      → let (rows, total) = list_users ilike created_at page size search accounts db in
        let per_page = min (max size 1) 100 in
        All
          (λ (r : User × ℕ).
            (is_wanted same search r.0 ≡ true)
            × (r.1 ≡ count_if (λ (d : Deck). d.user_id == r.0.id) db.decks))
          rows
        × (total ≡ count_if (is_wanted same search) accounts.users)
        × (length rows ≡ min per_page (total - (max page 1 - 1) * per_page))
  unfolding list_users
  list_users_wanted created_at page size search accounts db =
      let per_page = min (max size 1) 100 in
      let skipped = (max page 1 - 1) * per_page in
      let found = select (is_found ilike search) accounts.users in
      let sorted = sort_latest created_at found in
      let wanted = λ (x : User). is_wanted same search x ≡ true in
      (
        All-with_decks wanted db (cut (max page 1) per_page sorted) (
            All-take wanted per_page (drop skipped sorted) (
              All-drop wanted skipped sorted (
                All-sort_latest wanted created_at found (
                  All-select (is_found ilike search) (is_wanted same search) accounts.users
                    (found-wanted search))))),
        count_if-congr (is_found ilike search) (is_wanted same search) accounts.users
            (found-wanted search),
        length-map (with_decks db) (cut (max page 1) per_page sorted)
            ∙ omega (
              arith,
              length-take per_page (drop skipped sorted),
              length-drop skipped sorted,
              length-sort_latest created_at found,
              length-select (is_found ilike search) accounts.users,
            ),
      )
