-- ===== src/Prelude/Tables.antt =====
-- Database tables as lists of rows, with the queries that the services send to them.
-- A row that the program loads and then writes to is the row itself, so a write is `update_if` at
-- the row's primary key. `scalar_one_or_none` and `LIMIT 1` are `first?`: the services use the
-- first only on primary and unique keys.
use Prim.Native.Nat.{ℕ, ◌+◌, ◌≤◌, ◌<◌}
use mathlib.Core.Path.{◌≡◌, refl}
use mathlib.Core.Bool.{Bool, true, false, not, ◌&&◌}
use mathlib.Core.Logic.{◌⊎◌, inl, inr}
use mathlib.Core.Option
use mathlib.Core.Option.{Option, none, some}
use mathlib.Core.List.{List, [], ◌∷◌, ◌++◌}
use native.Mathlib.Omega.{arith}
use mnemo_api.Prelude.Tests.{if◌then◌else◌, Bool-cases}
use mnemo_api.Prelude.Lists.{length, All}

module _ {ℓ} {A : Type ℓ} where
  -- SELECT … WHERE p
  unfoldable pub select : (A → Bool) → List A → List A
  select p [] = []
  select p (x ∷ xs) = let rest = select p xs in if p x then x ∷ rest else rest

  -- DELETE … WHERE p
  unfoldable pub delete_if : (A → Bool) → List A → List A
  delete_if p [] = []
  delete_if p (x ∷ xs) = let rest = delete_if p xs in if p x then rest else x ∷ rest

  -- UPDATE … WHERE p
  unfoldable pub update_if : (A → Bool) → (A → A) → List A → List A
  update_if p f [] = []
  update_if p f (x ∷ xs) = (if p x then f x else x) ∷ update_if p f xs

  -- The first row that fits.
  unfoldable pub first? : (A → Bool) → List A → Option A
  first? p [] = none
  first? p (x ∷ xs) = let rest = first? p xs in if p x then some x else rest

  -- SELECT count(*) … WHERE p
  unfoldable pub count_if : (A → Bool) → List A → ℕ
  count_if p [] = 0
  count_if p (x ∷ xs) = (if p x then 1 else 0) + count_if p xs

  pub length-select : (p : A → Bool) (xs : List A) → length (select p xs) ≡ count_if p xs
  unfolding select count_if
  length-select p [] = refl
  length-select p (x ∷ xs) = ground (arith, length-select p xs)

  pub count_if-append :
      (p : A → Bool) (xs ys : List A) → count_if p (xs ++ ys) ≡ count_if p xs + count_if p ys
  unfolding count_if
  count_if-append p [] ys = omega arith
  count_if-append p (x ∷ xs) ys = omega (arith, count_if-append p xs ys)

  pub count_if-append_one :
      (p : A → Bool) (xs : List A) (x : A)
      → count_if p (xs ++ x ∷ []) ≡ count_if p xs + (if p x then 1 else 0)
  unfolding count_if
  count_if-append_one p [] x = omega arith
  count_if-append_one p (y ∷ ys) x = omega (arith, count_if-append_one p ys x)

  -- A found row satisfies the condition.
  pub first?-holds : (p : A → Bool) (xs : List A) (x : A) → first? p xs ≡ some x → p x ≡ true
  unfolding first?
  first?-holds p [] x h = ground arith
  first?-holds p (y ∷ ys) x h = ground (arith, first?-holds p ys x)

  pub count_if-none : (p : A → Bool) (xs : List A) → first? p xs ≡ none → count_if p xs ≡ 0
  unfolding first? count_if
  count_if-none p [] h = refl
  count_if-none p (x ∷ xs) h = ground (arith, count_if-none p xs)

  pub count_if-congr :
      (p q : A → Bool) (xs : List A) → ((x : A) → p x ≡ q x) → count_if p xs ≡ count_if q xs
  unfolding count_if
  count_if-congr p q [] h = refl
  count_if-congr p q (x ∷ xs) h = ground (arith, h x, count_if-congr p q xs h)

  pub count_if_mono :
      (p q : A → Bool) (xs : List A)
      → ((x : A) → q x ≡ true → p x ≡ true)
      → count_if q xs ≤ count_if p xs
  unfolding count_if
  count_if_mono p q [] h = omega arith
  count_if_mono p q (x ∷ xs) h = ground (arith, h x, count_if_mono p q xs h)

  pub count_if-delete :
      (p q : A → Bool) (xs : List A)
      → count_if p (delete_if q xs) ≡ count_if (λ x. p x && not (q x)) xs
  unfolding count_if delete_if
  count_if-delete p q [] = refl
  count_if-delete p q (x ∷ xs) = ground (arith, count_if-delete p q xs)

  pub first?-none : (p : A → Bool) (xs : List A) → count_if p xs ≡ 0 → first? p xs ≡ none
  unfolding first? count_if
  first?-none p [] h = refl
  first?-none p (x ∷ xs) h = ground (arith, first?-none p xs)

  -- What a lookup finds after a write that keeps what it looks at.
  pub first?-update_any :
      (p q : A → Bool) (f : A → A) (xs : List A)
      → ((x : A) → p (f x) ≡ p x)
      → first? p (update_if q f xs) ≡ Option.map (λ x. if q x then f x else x) (first? p xs)
  unfolding first? update_if
  first?-update_any p q f [] h = refl
  first?-update_any p q f (x ∷ xs) h = ground (arith, h x, first?-update_any p q f xs h)

  pub first?-All {κ} :
      (P : A → Type κ) (p : A → Bool) (xs : List A) (x : A) → All P xs → first? p xs ≡ some x → P x
  unfolding first?
  first?-All P p [] x hs h = ground arith
  first?-All P p (y ∷ ys) x hs h = ground (arith, first?-All P p ys x hs.1)

  -- Rows that a condition misses count for nothing.
  pub count_if-delete_none :
      (p q : A → Bool) (xs : List A)
      → ((x : A) → p x ≡ true → q x ≡ false)
      → count_if p (delete_if q xs) ≡ count_if p xs
  unfolding count_if delete_if
  count_if-delete_none p q [] h = refl
  count_if-delete_none p q (x ∷ xs) h = ground (arith, h x, count_if-delete_none p q xs h)

  pub count_if-delete_all :
      (p q : A → Bool) (xs : List A)
      → ((x : A) → p x ≡ true → q x ≡ true)
      → count_if p (delete_if q xs) ≡ 0
  unfolding count_if delete_if
  count_if-delete_all p q [] h = refl
  count_if-delete_all p q (x ∷ xs) h = ground (arith, h x, count_if-delete_all p q xs h)

  pub count_if-update :
      (p q : A → Bool) (f : A → A) (xs : List A)
      → ((x : A) → p (f x) ≡ p x)
      → count_if p (update_if q f xs) ≡ count_if p xs
  unfolding count_if update_if
  count_if-update p q f [] h = refl
  count_if-update p q f (x ∷ xs) h = ground (arith, h x, count_if-update p q f xs h)

  pub All-delete_if {κ} :
      (P Q : A → Type κ) (q : A → Bool) (xs : List A)
      → ((x : A) → q x ≡ false → P x → Q x)
      → All P xs
      → All Q (delete_if q xs)
  unfolding delete_if
  All-delete_if P Q q [] keep h = h
  All-delete_if P Q q (x ∷ xs) keep h = ground (arith, keep x, All-delete_if P Q q xs keep h.1)

  pub All-update_if {κ} :
      (P Q : A → Type κ) (q : A → Bool) (f : A → A) (xs : List A)
      → ((x : A) → q x ≡ true → P x → Q (f x))
      → ((x : A) → q x ≡ false → P x → Q x)
      → All P xs
      → All Q (update_if q f xs)
  unfolding update_if
  All-update_if P Q q f [] hit miss h = h
  All-update_if P Q q f (x ∷ xs) hit miss h =
      ground (arith, hit x, miss x, All-update_if P Q q f xs hit miss h.1)

  pub All-map {κ μ} :
      (P : A → Type κ) (Q : A → Type μ) (xs : List A) → ((x : A) → P x → Q x) → All P xs → All Q xs
  All-map P Q [] f h = tt
  All-map P Q (x ∷ xs) f h = (f x h.0, All-map P Q xs f h.1)

module _ {A : Type 0} where
  -- Membership that keeps the place.
  abbrev pub Has : A → List A → Type 0
  Has a [] = ⊥
  Has a (x ∷ xs) = (a ≡ x) ⊎ Has a xs

  pub first?-Has : (p : A → Bool) (xs : List A) (a : A) → first? p xs ≡ some a → Has a xs
  unfolding first?
  first?-Has p [] a h = ground arith
  first?-Has p (x ∷ xs) a h = ground (arith, first?-Has p xs a)

  pub Has-select :
      (p : A → Bool) (xs : List A) (a : A) → Has a (select p xs) → Has a xs × (p a ≡ true)
  unfolding select
  Has-select p [] a h = ground arith
  Has-select p (x ∷ xs) a h = ground (arith, Has-select p xs a)

  pub select-Has :
      (p : A → Bool) (xs : List A) (a : A) → Has a xs → p a ≡ true → Has a (select p xs)
  unfolding select
  select-Has p [] a h k = ground arith
  select-Has p (x ∷ xs) a h k = ground (arith, select-Has p xs a)

  pub Has-update_if :
      (q : A → Bool) (f : A → A) (xs : List A) (a : A)
      → Has a (update_if q f xs)
      → (b : A) × Has b xs × (a ≡ (if q b then f b else b))
  unfolding update_if
  Has-update_if q f [] a h = elim h [ ]
  Has-update_if q f (x ∷ xs) a (inl e) = (x, inl refl, e)
  Has-update_if q f (x ∷ xs) a (inr h) = let (b, k, e) = Has-update_if q f xs a h in (b, inr k, e)

  pub count_if-pos :
      (p : A → Bool) (xs : List A) (a : A) → Has a xs → p a ≡ true → 0 < count_if p xs
  unfolding count_if
  count_if-pos p [] a h k = elim h [ ]
  count_if-pos p (x ∷ xs) a h k = ground (arith, count_if-pos p xs a)

  pub update_if-none :
      (q : A → Bool) (f : A → A) (xs : List A) → count_if q xs ≡ 0 → update_if q f xs ≡ xs
  unfolding count_if update_if
  update_if-none q f [] h = refl
  update_if-none q f (x ∷ xs) h = ground (arith, update_if-none q f xs)

  pub delete_if-none : (q : A → Bool) (xs : List A) → count_if q xs ≡ 0 → delete_if q xs ≡ xs
  unfolding count_if delete_if
  delete_if-none q [] h = refl
  delete_if-none q (x ∷ xs) h = ground (arith, delete_if-none q xs)

  -- A write to the one row with a key changes a count by what it changes in that row.
  pub count_if-replace :
      (p q : A → Bool) (f : A → A) (xs : List A) (a : A)
      → Has a xs
      → q a ≡ true
      → count_if q xs ≤ 1
      → count_if p (update_if q f xs) + (if p a then 1 else 0)
        ≡ count_if p xs + (if p (f a) then 1 else 0)
  unfolding count_if update_if
  count_if-replace p q f [] a h k one = elim h [ ]
  count_if-replace p q f (x ∷ xs) a (inl e) k one = ground (arith, update_if-none q f xs)
  count_if-replace p q f (x ∷ xs) a (inr h) k one =
      ground (arith, count_if-replace p q f xs a h k, count_if-pos q xs a h k)

  -- The same for a deletion.
  pub count_if-remove :
      (p q : A → Bool) (xs : List A) (a : A)
      → Has a xs
      → q a ≡ true
      → count_if q xs ≤ 1
      → count_if p (delete_if q xs) + (if p a then 1 else 0) ≡ count_if p xs
  unfolding count_if delete_if
  count_if-remove p q [] a h k one = elim h [ ]
  count_if-remove p q (x ∷ xs) a (inl e) k one = ground (arith, delete_if-none q xs)
  count_if-remove p q (x ∷ xs) a (inr h) k one =
      ground (arith, count_if-remove p q xs a h k, count_if-pos q xs a h k)

  -- What a lookup finds after a write to rows that it may find.
  pub first?-update :
      (p q : A → Bool) (f : A → A) (xs : List A)
      → ((x : A) → p (f x) ≡ p x)
      → ((x : A) → p x ≡ true → q x ≡ true)
      → first? p (update_if q f xs) ≡ Option.map f (first? p xs)
  unfolding first? update_if
  first?-update p q f [] h k = refl
  first?-update p q f (x ∷ xs) h k = ground (arith, h x, k x, first?-update p q f xs h k)

  pub All-Has : (P : A → Type 0) (xs : List A) (a : A) → All P xs → Has a xs → P a
  All-Has P [] a h k = elim k [ ]
  All-Has P (x ∷ xs) a h (inl e) = rw e h.0
  All-Has P (x ∷ xs) a h (inr k) = All-Has P xs a h.1 k

  pub All-intro : (P : A → Type 0) (xs : List A) → ((a : A) → Has a xs → P a) → All P xs
  All-intro P [] h = tt
  All-intro P (x ∷ xs) h = (h x (inl refl), All-intro P xs (λ a k. h a (inr k)))

  -- Where more rows meet `p` than meet `q`, one meets `p` and not `q`.
  pub another :
      (p q : A → Bool) (xs : List A)
      → count_if q xs < count_if p xs
      → (a : A) × Has a xs × (p a ≡ true) × (q a ≡ false)
  unfolding count_if
  another p q [] h = absurd (omega arith)
  another p q (x ∷ xs) h = elim (Bool-cases (p x && not (q x))) [
    | inl new ↦ (x, inl refl, ground arith, ground arith)
    | inr old ↦ let (a, k, pa, qa) = another p q xs (ground arith) in (a, inr k, pa, qa)
  ]
