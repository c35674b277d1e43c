-- ===== src/Session/Scoring.antt =====
-- services/session.py: `_evaluate_answer`. A comparison of the quotient of two set sizes with a
-- threshold is written with the denominators multiplied out; on sizes below 2^50 that is the test
-- that Python makes on floats.
pub mod Laws
use mnemo_api.Prelude.{
  ltb, if◌then◌else◌, length, select, Text, text_eq, contains, Unicode, ℕ, ◌*◌, true, false, List,
  [], ◌∷◌, ◌++◌,
}

module _ (u : Unicode) where
  flush : Text → List Text → List Text
  flush [] rest = rest
  flush (c ∷ word) rest = (c ∷ word) ∷ rest

  -- `str.split()`: the runs of characters that are no white space. `word` is the run so far.
  split_from : Text → Text → List Text
  split_from word [] = flush word []
  split_from word (c ∷ s) = elim (u.is_space c) [
    | true ↦ flush word (split_from [] s)
    | false ↦ split_from (word ++ c ∷ []) s
  ]

  unfoldable pub split : Text → List Text
  unfolding split_from flush
  split s = split_from [] s

-- `set(…)`
unfoldable pub to_set : List Text → List Text
to_set [] = []
to_set (w ∷ ws) = let rest = to_set ws in if contains w ws then rest else w ∷ rest

-- The ladder on `match_percentage = common / total`.
unfoldable pub grade : ℕ → ℕ → ℕ
grade common total =
    if ltb (9 * total) (10 * common)
    then 5
    else if ltb (3 * total) (4 * common)
    then 4
    else if ltb total (2 * common)
    then 3
    else if ltb total (4 * common)
    then 2
    else if ltb 0 common
    then 1
    else 0

module _ (u : Unicode) where
  -- `canonical_words.intersection(submitted_words)`
  unfoldable pub common_words : Text → Text → List Text
  common_words submitted canonical =
      select (λ w. contains w (to_set (split u (u.lower submitted))))
        (to_set (split u (u.lower canonical)))

  unfoldable pub evaluate_answer : Text → Text → ℕ
  evaluate_answer submitted canonical =
      if text_eq (u.lower submitted) (u.lower canonical)
      then 5
      else grade (length (common_words submitted canonical))
          (length (to_set (split u (u.lower canonical))))
