-- ===== src/Pages.antt =====
-- services/utils.py: `pagination_meta`, and the pages of a list.
use mnemo_api.Prelude.{
  ◌==◌, if◌then◌else◌, length, take, drop, All, ℕ, zero, suc, ◌+◌, ◌-◌, ◌*◌, ◌/◌, ◌≤◌, min, ◌≡◌,
  refl, sym, ap, ◌∙◌, List, [], ◌∷◌, ◌++◌, arith,
}

pub record Meta : Type 0 where
  pub page : ℕ
  pub per_page : ℕ
  pub total : ℕ
  pub total_pages : ℕ

-- `pagination_meta`, for a page size that is not zero.
abbrev pub pagination_meta : ℕ → ℕ → ℕ → Meta
pagination_meta page per_page total = record {
  page = page;
  per_page = per_page;
  total = total;
  total_pages = if total == 0 then 0 else (total + (per_page - 1)) / per_page;
}

-- `.offset((page - 1) * per_page).limit(per_page)`
abbrev pub cut : {A : Type 0} → ℕ → ℕ → List A → List A
cut page per_page xs = take per_page (drop ((page - 1) * per_page) xs)

-- The first pages behind each other.
unfoldable pub first_pages : {A : Type 0} → ℕ → ℕ → List A → List A
first_pages zero per_page xs = []
first_pages (suc n) per_page xs = first_pages n per_page xs ++ cut (suc n) per_page xs

pub length-take : {A : Type 0} (n : ℕ) (xs : List A) → length (take n xs) ≡ min n (length xs)
length-take zero xs = omega arith
length-take (suc n) [] = omega arith
length-take (suc n) (x ∷ xs) = omega (arith, length-take n xs)

pub length-drop : {A : Type 0} (n : ℕ) (xs : List A) → length (drop n xs) ≡ length xs - n
length-drop zero xs = omega arith
length-drop (suc n) [] = omega arith
length-drop (suc n) (x ∷ xs) = omega (arith, length-drop n xs)

pub All-take : {A : Type 0} (P : A → Type 0) (n : ℕ) (xs : List A) → All P xs → All P (take n xs)
All-take P zero xs h = tt
All-take P (suc n) [] h = tt
All-take P (suc n) (x ∷ xs) h = (h.0, All-take P n xs h.1)

pub All-drop : {A : Type 0} (P : A → Type 0) (n : ℕ) (xs : List A) → All P xs → All P (drop n xs)
All-drop P zero xs h = h
All-drop P (suc n) [] h = tt
All-drop P (suc n) (x ∷ xs) h = All-drop P n xs h.1

enough_pages :
    (total per_page : ℕ)
    → total ≤ (pagination_meta 1 (suc per_page) total).total_pages * suc per_page
enough_pages total per_page = grind arith

pub pages_suffice :
    (total per_page : ℕ)
    → 1 ≤ per_page
    → total ≤ (pagination_meta 1 per_page total).total_pages * per_page
pages_suffice total zero h = absurd (omega arith)
pages_suffice total (suc per_page) h = enough_pages total per_page

take_empty : {A : Type 0} (n : ℕ) → take {A = A} n [] ≡ []
take_empty zero = refl
take_empty (suc n) = refl

take-then_drop :
    {A : Type 0} (m n : ℕ) (xs : List A) → take m xs ++ take n (drop m xs) ≡ take (m + n) xs
take-then_drop zero n xs = ap (λ k. take k xs) (omega arith)
take-then_drop (suc m) n [] = take_empty n ∙ sym (take_empty (suc m + n))
take-then_drop (suc m) n (x ∷ xs) =
    let counted : suc (m + n) ≡ suc m + n = omega arith in
    ap (λ ys. x ∷ ys) (take-then_drop m n xs) ∙ ap (λ k. take k (x ∷ xs)) counted

take-all : {A : Type 0} (n : ℕ) (xs : List A) → length xs ≤ n → take n xs ≡ xs
take-all zero [] h = refl
take-all zero (x ∷ xs) h = absurd (omega arith)
take-all (suc n) [] h = refl
take-all (suc n) (x ∷ xs) h = ap (λ ys. x ∷ ys) (take-all n xs (omega (arith, h)))

first_pages-take :
    {A : Type 0} (n per_page : ℕ) (xs : List A) → first_pages n per_page xs ≡ take (n * per_page) xs
unfolding first_pages
first_pages-take zero per_page xs =
    let none_ : 0 ≡ 0 * per_page = omega arith in ap (λ m. take m xs) none_
first_pages-take (suc n) per_page xs =
    let behind : suc n - 1 ≡ n = omega arith in
    let counted : n * per_page + per_page ≡ suc n * per_page = omega arith in
    ap (λ ys. ys ++ cut (suc n) per_page xs) (first_pages-take n per_page xs)
    ∙ ap (λ k. take (n * per_page) xs ++ take per_page (drop (k * per_page) xs)) behind
    ∙ take-then_drop (n * per_page) per_page xs
    ∙ ap (λ m. take m xs) counted

-- All pages that the numbers report are the whole list.
pub all_pages :
    {A : Type 0} (per_page : ℕ) (xs : List A)
    → 1 ≤ per_page
    → first_pages (pagination_meta 1 per_page (length xs)).total_pages per_page xs ≡ xs
all_pages per_page xs h =
    first_pages-take (pagination_meta 1 per_page (length xs)).total_pages per_page xs
    ∙ take-all _ xs (pages_suffice (length xs) per_page h)
