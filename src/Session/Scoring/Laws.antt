-- ===== src/Session/Scoring/Laws.antt =====
-- What the score of an answer depends on.
use mnemo_api.Prelude.{
  Bool-cases, length, All, select, All-map, Text, text_eq, text_eq_refl, text_eq→eq, text_eq_iff,
  contains, Unicode, ℕ, ◌≤◌, ◌<◌, ◌≡◌, refl, ◌∙◌, ◌≢◌, ◌↔◌, ◌⊎◌, inl, inr, Bool, true, List, [],
  ◌∷◌, arith,
}
use mnemo_api.Session.Scoring.{split, to_set, grade, common_words, evaluate_answer}

grade-le : (common total : ℕ) → grade common total ≤ 5
unfolding grade
grade-le common total = ground arith

grade_full : (total : ℕ) → 0 < total → grade total total ≡ 5
unfolding grade
grade_full total h = ground arith

length-eq-zero_iff : {A : Type 0} (xs : List A) → (length xs ≡ 0) ↔ (xs ≡ [])
length-eq-zero_iff [] = ground arith
length-eq-zero_iff (x ∷ xs) = ground arith

grade_zero_iff : (common total : ℕ) → common ≤ total → (grade common total ≡ 0) ↔ (common ≡ 0)
unfolding grade
grade_zero_iff common total h = ground arith

length-select-le {ℓ} : {A : Type ℓ} (p : A → Bool) (xs : List A) → length (select p xs) ≤ length xs
unfolding select
length-select-le p [] = omega arith
length-select-le p (x ∷ xs) = ground (arith, length-select-le p xs)

length-common_words :
    (u : Unicode) (submitted canonical : Text)
    → length (common_words u submitted canonical) ≤ length (to_set (split u (u.lower canonical)))
unfolding common_words
length-common_words u s c = length-select-le _ (to_set (split u (u.lower c)))

-- A score is at most 5, is 5 for an answer that differs from the expected one in case only, and is
-- 0 exactly when the texts differ in more than case and share no word.
pub evaluate_answer_range :
    (u : Unicode) (submitted canonical : Text)
    → (evaluate_answer u submitted canonical ≤ 5)
      × ((u.lower submitted ≢ u.lower canonical) ⊎ (evaluate_answer u submitted canonical ≡ 5))
      × ((evaluate_answer u submitted canonical ≡ 0)
          ↔ ((u.lower submitted ≢ u.lower canonical) × (common_words u submitted canonical ≡ [])))
unfolding evaluate_answer
evaluate_answer_range u s c = ground (
  arith,
  text_eq_iff (u.lower s) (u.lower c),
  grade-le (length (common_words u s c)) (length (to_set (split u (u.lower c)))),
  grade_zero_iff (length (common_words u s c)) (length (to_set (split u (u.lower c)))),
  length-common_words u s c,
  length-eq-zero_iff (common_words u s c),
)

contains-to_set : (w : Text) (ws : List Text) → contains w (to_set ws) ≡ contains w ws
unfolding contains to_set
contains-to_set w [] = refl
contains-to_set w (v ∷ vs) = elim (Bool-cases (text_eq w v)) [
  | inl e ↦ rw (text_eq→eq w v e) (ground (arith, text_eq_refl v, contains-to_set v vs))
  | inr e ↦ ground (arith, contains-to_set w vs)
]

select_every :
    {A : Type 0} (p : A → Bool) (xs : List A) → All (λ x. p x ≡ true) xs → select p xs ≡ xs
unfolding select
select_every p [] h = refl
select_every p (x ∷ xs) h = ground (arith, select_every p xs h.1)

All-to_set : (P : Text → Type 0) (ws : List Text) → All P ws → All P (to_set ws)
unfolding to_set
All-to_set P [] h = h
All-to_set P (w ∷ ws) h = ground (arith, All-to_set P ws h.1)

to_set-pos : (ws : List Text) → ws ≢ [] → 0 < length (to_set ws)
unfolding to_set contains
to_set-pos [] h = absurd (h refl)
to_set-pos (w ∷ []) h = omega arith
to_set-pos (w ∷ v ∷ vs) h = ground (arith, to_set-pos (v ∷ vs))

-- An answer that holds every word of the expected answer scores 5, whatever else it holds and in
-- whatever order, if the expected answer has a word at all.
pub evaluate_answer_covers :
    (u : Unicode) (submitted canonical : Text)
    → split u (u.lower canonical) ≢ []
    → All (λ w. contains w (split u (u.lower submitted)) ≡ true) (split u (u.lower canonical))
    → evaluate_answer u submitted canonical ≡ 5
unfolding evaluate_answer common_words
evaluate_answer_covers u s c some_word covered =
    let theirs = to_set (split u (u.lower s)) in
    let ours = to_set (split u (u.lower c)) in
    let found =
      All-to_set (λ w. contains w theirs ≡ true) (split u (u.lower c))
        (All-map _ _ (split u (u.lower c)) (λ w h. contains-to_set w (split u (u.lower s)) ∙ h)
          covered) in
    let whole = select_every (λ w. contains w theirs) ours found in
    ground (arith, whole, grade_full (length ours) (to_set-pos _ some_word))
