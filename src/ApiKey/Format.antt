-- ===== src/ApiKey/Format.antt =====
-- Which texts are API keys.
use mathlib.Core.List.{append_assoc, reverse, reverse-cons, reverse-append}
use mnemo_api.Prelude.{
  ◌==◌, if◌then◌else◌, Bool-cases, length, Text, codes, text_eq, text_eq_iff, Unicode, drop_space,
  strip, ℕ, ◌≡◌, refl, sym, ap, ◌∙◌, ◌≢◌, ◌↔◌, ◌⊎◌, inl, inr, Bool, true, false, some, List, [],
  ◌∷◌, ◌++◌, arith,
}
use mnemo_api.ApiKey.{
  prepend, split_on, all_hex, underscore, prefix_of_parts, extract_api_key_prefix, key_prefix_for,
  generate_api_key,
}

-- A prefix for live or test keys, and 64 hexadecimal digits.
abbrev pub IsKey : Text → Text → Type 0
IsKey prefix key =
    (payload : Text) × (key ≡ prefix ++ payload)
    × ((prefix ≡ codes "mnm_live_") ⊎ (prefix ≡ codes "mnm_test_"))
    × (length payload ≡ 64)
    × (all_hex payload ≡ true)

join_on : ℕ → List Text → Text
join_on sep [] = []
join_on sep (w ∷ []) = w
join_on sep (w ∷ v ∷ ws) = w ++ sep ∷ join_on sep (v ∷ ws)

split_on-cons : (sep : ℕ) (s : Text) → (w : Text) × (ws : List Text) × (split_on sep s ≡ w ∷ ws)
unfolding split_on
split_on-cons sep [] = ([], [], refl)
split_on-cons sep (c ∷ s) =
    let (w, ws, e) = split_on-cons sep s in
    elim (Bool-cases (c == sep)) [
      | inl hit ↦ ([], w ∷ ws, ground (arith, e))
      | inr miss ↦ (c ∷ w, ws, ground (arith, e))
    ]

join_on-step :
    (sep c : ℕ) (s w : Text) (ws : List Text)
    → join_on sep (w ∷ ws) ≡ s
    → join_on sep (if c == sep then [] ∷ w ∷ ws else prepend c (w ∷ ws)) ≡ c ∷ s
unfolding join_on
join_on-step sep c s w [] e = ground arith
join_on-step sep c s w (v ∷ ws) e = ground arith

join_on-split_on : (sep : ℕ) (s : Text) → join_on sep (split_on sep s) ≡ s
unfolding split_on
join_on-split_on sep [] = unfold join_on in refl
join_on-split_on sep (c ∷ s) =
    let (w, ws, e) = split_on-cons sep s in
    let whole = ap (join_on sep) (sym e) ∙ join_on-split_on sep s in
    ap (λ rest. join_on sep (if c == sep then [] ∷ rest else prepend c rest)) e
    ∙ join_on-step sep c s w ws whole

-- What a list of segments that passes the tests is.
prefix_of_parts-some :
    (parts : List Text) (p : Text)
    → prefix_of_parts parts ≡ some p
    → (kind : Text) × (payload : Text) × (parts ≡ codes "mnm" ∷ kind ∷ payload ∷ [])
      × ((kind ≡ codes "live") ⊎ (kind ≡ codes "test"))
      × (p ≡ codes "mnm" ++ (underscore ∷ (kind ++ (underscore ∷ []))))
      × (length payload ≡ 64)
      × (all_hex payload ≡ true)
prefix_of_parts-some [] p h = absurd (ground arith)
prefix_of_parts-some (a ∷ []) p h = absurd (ground arith)
prefix_of_parts-some (a ∷ b ∷ []) p h = absurd (ground arith)
prefix_of_parts-some (a ∷ b ∷ c ∷ d ∷ rest) p h = absurd (ground arith)
prefix_of_parts-some (a ∷ b ∷ c ∷ []) p h = (
  b,
  c,
  ground (arith, text_eq_iff a (codes "mnm")),
  ground (arith, text_eq_iff b (codes "live"), text_eq_iff b (codes "test")),
  ground (arith, text_eq_iff a (codes "mnm")),
  ground arith,
  ground arith,
)

-- A text of digits is one segment.
split_on-all_hex : (s : Text) → all_hex s ≡ true → split_on underscore s ≡ s ∷ []
unfolding split_on all_hex
split_on-all_hex [] h = refl
split_on-all_hex (c ∷ s) h = ground (arith, split_on-all_hex s)

append_nonempty : {A : Type 0} (xs : List A) (x : A) → (xs ++ x ∷ []) ≢ []
append_nonempty [] x e = ground arith
append_nonempty (y ∷ ys) x e = ground arith

-- Dropping white space in front keeps a last character that is none.
drop_space-last :
    (u : Unicode) (c : ℕ) (xs : Text)
    → u.is_space c ≡ false
    → (ys : Text) × (drop_space u (xs ++ c ∷ []) ≡ ys ++ c ∷ [])
unfolding drop_space
drop_space-last u c [] h = ([], ground (arith, h))
drop_space-last u c (x ∷ xs) h =
    let (ys, e) = drop_space-last u c xs h in
    elim (Bool-cases (u.is_space x)) [
      | inl hit ↦ (ys, ground (arith, e))
      | inr miss ↦ (x ∷ xs, ground (arith, miss))
    ]

-- A text that begins with a character that is no white space is not blank.
not_blank :
    (u : Unicode) (c : ℕ) (s : Text) → u.is_space c ≡ false → text_eq (strip u (c ∷ s)) [] ≡ false
unfolding strip drop_space
not_blank u c s h =
    let front : drop_space u (c ∷ s) ≡ c ∷ s = ground (arith, h) in
    let (ys, e) = drop_space-last u c (reverse s) h in
    let whole : strip u (c ∷ s) ≡ c ∷ reverse ys =
      ap (λ t. reverse (drop_space u (reverse t))) front
      ∙ ap (λ t. reverse (drop_space u t)) (reverse-cons c s)
      ∙ ap reverse e
      ∙ reverse-append ys (c ∷ []) in
    rw whole (unfold text_eq in refl)

join_three :
    (kind payload : Text)
    → join_on underscore (codes "mnm" ∷ kind ∷ payload ∷ [])
      ≡ (codes "mnm" ++ (underscore ∷ (kind ++ (underscore ∷ [])))) ++ payload
unfolding join_on
join_three kind payload =
    ap (λ z. codes "mnm" ++ (underscore ∷ z)) (sym (append_assoc kind (underscore ∷ []) payload))

segments_live :
    (payload : Text)
    → all_hex payload ≡ true
    → split_on underscore (codes "mnm_live_" ++ payload) ≡ codes "mnm" ∷ codes "live" ∷ payload ∷ []
unfolding split_on
segments_live payload hex = ap (λ r. codes "mnm" ∷ codes "live" ∷ r) (split_on-all_hex payload hex)

segments_test :
    (payload : Text)
    → all_hex payload ≡ true
    → split_on underscore (codes "mnm_test_" ++ payload) ≡ codes "mnm" ∷ codes "test" ∷ payload ∷ []
unfolding split_on
segments_test payload hex = ap (λ r. codes "mnm" ∷ codes "test" ∷ r) (split_on-all_hex payload hex)

-- The key of a payload has the prefix of its kind.
pub extract-generate :
    (u : Unicode) (is_live : Bool) (payload : Text)
    → u.is_space 109 ≡ false
    → length payload ≡ 64
    → all_hex payload ≡ true
    → extract_api_key_prefix u (generate_api_key is_live payload) ≡ some (key_prefix_for is_live)
unfolding extract_api_key_prefix generate_api_key text_eq
extract-generate u true payload visible len hex =
    rw (not_blank u 109 (codes "nm_live_" ++ payload) visible, segments_live payload hex, len, hex)
      refl
extract-generate u false payload visible len hex =
    rw (not_blank u 109 (codes "nm_test_" ++ payload) visible, segments_test payload hex, len, hex)
      refl

kind_prefix :
    (kind prefix : Text)
    → (kind ≡ codes "live") ⊎ (kind ≡ codes "test")
    → prefix ≡ codes "mnm" ++ (underscore ∷ (kind ++ (underscore ∷ [])))
    → (prefix ≡ codes "mnm_live_") ⊎ (prefix ≡ codes "mnm_test_")
kind_prefix kind prefix (inl live) shape =
    inl (shape ∙ ap (λ k. codes "mnm" ++ (underscore ∷ (k ++ (underscore ∷ [])))) live)
kind_prefix kind prefix (inr test) shape =
    inr (shape ∙ ap (λ k. codes "mnm" ++ (underscore ∷ (k ++ (underscore ∷ [])))) test)

-- A text is taken for an API key, with its prefix, exactly if it is a prefix for live or test keys
-- followed by 64 hexadecimal digits, given that the letter m is no white space.
pub extract-IsKey :
    (u : Unicode) (key prefix : Text)
    → u.is_space 109 ≡ false
    → (extract_api_key_prefix u key ≡ some prefix) ↔ IsKey prefix key
unfolding extract_api_key_prefix
extract-IsKey u key prefix visible = (
  λ h. elim (Bool-cases (text_eq (strip u key) [])) [
    | inl blank ↦ absurd (ground (arith, blank))
    | inr solid ↦
        let accepted : prefix_of_parts (split_on underscore key) ≡ some prefix =
          ground (arith, h) in
        let (kind, payload, e, which, shape, len, hex) =
          prefix_of_parts-some (split_on underscore key) prefix accepted in
        let whole =
          sym (join_on-split_on underscore key)
          ∙ ap (join_on underscore) e
          ∙ join_three kind payload
          ∙ ap (λ p. p ++ payload) (sym shape) in
        (payload, whole, kind_prefix kind prefix which shape, len, hex)
  ],
  λ k.
      let (payload, e, which, len, hex) = k in
      elim which [
        | inl live ↦
            rw (e, live)
              (unfold generate_api_key in extract-generate u true payload visible len hex)
        | inr test ↦
            rw (e, test)
              (unfold generate_api_key in extract-generate u false payload visible len hex)
      ],
)
