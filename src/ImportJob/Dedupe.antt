-- ===== src/ImportJob/Dedupe.antt =====
-- Which rows an import adds, and which it skips.
use mnemo_api.Prelude.{
  &&-eq-true, Bool-cases, length, All, All-map, text_eq, text_eq_refl, text_eq→eq, Unicode, ℕ, ◌+◌,
  ◌≡◌, refl, sym, ap, subst, ◌∙◌, inl, inr, true, false, ◌||◌, List, [], ◌∷◌, ◌++◌, map, arith,
}
use mnemo_api.ImportJob.{Pair, normalize_pair, pair_eq, seen_in, also, skipping, dedupe_rows}

pair_eq_refl : (k : Pair) → pair_eq k k ≡ true
pair_eq_refl (q, a) = ground (arith, text_eq_refl q, text_eq_refl a)

pair_eq→eq : (k l : Pair) → pair_eq k l ≡ true → k ≡ l
pair_eq→eq (q, a) (r, b) h =
    let both = &&-eq-true (text_eq q r) (text_eq a b) h in
    rw (text_eq→eq q r both.0, text_eq→eq a b both.1) refl

here : (k : Pair) (ks : List Pair) → seen_in k (k ∷ ks) ≡ true
unfolding seen_in
here k ks = ground (arith, pair_eq_refl k)

pub seen_in-append :
    (key : Pair) (ks ls : List Pair) → seen_in key (ks ++ ls) ≡ (seen_in key ks || seen_in key ls)
unfolding seen_in
seen_in-append key [] ls = refl
seen_in-append key (k ∷ ks) ls = ground (arith, seen_in-append key ks ls)

-- Keys that are all different.
abbrev pub Distinct : List Pair → Type 0
Distinct [] = Unit
Distinct (k ∷ ks) = (seen_in k ks ≡ false) × Distinct ks

module _ (u : Unicode) where
  abbrev pub keys : List Pair → List Pair
  keys rows = map (λ row. normalize_pair u row) rows

  -- Unseen rows stay unseen by fewer keys.
  unseen_tail :
      (k : Pair) (seen rows : List Pair)
      → All (λ row. seen_in (normalize_pair u row) (k ∷ seen) ≡ false) rows
      → All (λ row. seen_in (normalize_pair u row) seen ≡ false) rows
  unfolding seen_in
  unseen_tail k seen rows h = All-map _ _ rows (λ row e. ground arith) h

  unseen_head :
      (k : Pair) (seen rows : List Pair)
      → All (λ row. seen_in (normalize_pair u row) (k ∷ seen) ≡ false) rows
      → seen_in k (keys rows) ≡ false
  unfolding seen_in
  unseen_head k seen [] h = refl
  unseen_head k seen (row ∷ rows) h = elim (Bool-cases (pair_eq k (normalize_pair u row))) [
    | inl e ↦
        let same = pair_eq→eq k (normalize_pair u row) e in
        absurd (ground (arith, h.0, pair_eq_refl (normalize_pair u row), same))
    | inr e ↦ ground (arith, unseen_head k seen rows h.1)
  ]

  -- A key in the middle counts like one in front.
  seen_in-middle :
      (key k : Pair) (ks ls : List Pair) → seen_in key (ks ++ k ∷ ls) ≡ seen_in key (k ∷ ks ++ ls)
  unfolding seen_in
  seen_in-middle key k [] ls = refl
  seen_in-middle key k (l ∷ ks) ls = ground (arith, seen_in-middle key k ks ls)

  dedupe_rows-old :
      (row : Pair) (rows seen : List Pair)
      → seen_in (normalize_pair u row) seen ≡ true
      → dedupe_rows u (row ∷ rows) seen ≡ skipping (dedupe_rows u rows seen)
  unfolding dedupe_rows
  dedupe_rows-old row rows seen h = rw (h, dedupe_rows) refl

  dedupe_rows-new :
      (row : Pair) (rows seen : List Pair)
      → seen_in (normalize_pair u row) seen ≡ false
      → dedupe_rows u (row ∷ rows) seen
        ≡ also row (dedupe_rows u rows (normalize_pair u row ∷ seen))
  unfolding dedupe_rows
  dedupe_rows-new row rows seen h = rw (h, dedupe_rows) refl

  -- What a split of rows into added ones and a number of skipped ones promises.
  abbrev pub Splits : List Pair → List Pair → List Pair × ℕ → Type 0
  Splits rows seen (unique, skipped) =
      (length unique + skipped ≡ length rows)
      × All (λ row. seen_in (normalize_pair u row) seen ≡ false) unique
      × Distinct (keys unique)
      × All (λ row. seen_in (normalize_pair u row) (keys unique ++ seen) ≡ true) rows

  -- Every row is added or skipped; the added ones have keys that are different from each other and
  -- not among the seen ones; and the key of every row is a seen one or that of an added row.
  pub dedupe_rows-Splits : (rows seen : List Pair) → Splits rows seen (dedupe_rows u rows seen)
  unfolding dedupe_rows
  dedupe_rows-Splits [] seen = (refl, tt, tt, tt)
  dedupe_rows-Splits (row ∷ rows) seen =
      let key = normalize_pair u row in
      elim (Bool-cases (seen_in key seen)) [
        | inl old ↦
            let (count, fresh, apart, whole) = dedupe_rows-Splits rows seen in
            let added = (dedupe_rows u rows seen).0 in
            subst (Splits (row ∷ rows) seen) (sym (dedupe_rows-old row rows seen old)) (
              omega (arith, count),
              fresh,
              apart,
              (seen_in-append key (keys added) seen ∙ ground arith, whole),
            )
        | inr new ↦
            let (count, fresh, apart, whole) = dedupe_rows-Splits rows (key ∷ seen) in
            let added = (dedupe_rows u rows (key ∷ seen)).0 in
            subst (Splits (row ∷ rows) seen) (sym (dedupe_rows-new row rows seen new)) (
              omega (arith, count),
              (new, unseen_tail key seen added fresh),
              (unseen_head key seen added fresh, apart),
              (
                here key (keys added ++ seen),
                All-map _ _ rows
                    (λ x h. sym (seen_in-middle (normalize_pair u x) key (keys added) seen) ∙ h)
                    whole,
              ),
            )
      ]

  -- Rows whose keys are all seen are all skipped.
  pub dedupe_rows_seen :
      (rows seen : List Pair)
      → All (λ row. seen_in (normalize_pair u row) seen ≡ true) rows
      → dedupe_rows u rows seen ≡ ([], length rows)
  unfolding dedupe_rows
  dedupe_rows_seen [] seen h = refl
  dedupe_rows_seen (row ∷ rows) seen h =
      dedupe_rows-old row rows seen h.0
      ∙ ap skipping (dedupe_rows_seen rows seen h.1)
      ∙ ground arith
