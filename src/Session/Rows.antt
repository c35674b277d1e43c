-- ===== src/Session/Rows.antt =====
-- The queries and writes of the session service on the rows of a session.
use mnemo_api.Prelude.{
  ◌==◌, ==_refl, Option-cases, length, All, select, update_if, count_if, length-select,
  count_if-update, All-map, Has, Has-select, count_if-replace, ℕ, ◌+◌, ◌≤◌, ◌≡◌, refl, ◌↔◌, inl,
  inr, Bool, true, none, some, List, [], ◌∷◌, arith,
}
use mnemo_api.Models.{SessionCard}
use mnemo_api.Session.{pending, done, lowest, next_pending, mark}

-- The primary key of `session_cards`.
abbrev pub IsKeyed : List SessionCard → Type 0
IsKeyed rows = (i : ℕ) → count_if (λ (c : SessionCard). c.id == i) rows ≤ 1

pub lowest-Has : (rows : List SessionCard) (c : SessionCard) → lowest rows ≡ some c → Has c rows
unfolding lowest
lowest-Has [] c h = ground arith
lowest-Has (d ∷ rows) c h = ground (arith, lowest-Has rows c)

lowest-none : (rows : List SessionCard) → lowest rows ≡ none → rows ≡ []
unfolding lowest
lowest-none [] h = refl
lowest-none (d ∷ rows) h = ground arith

lowest-none_iff : (rows : List SessionCard) → (lowest rows ≡ none) ↔ (length rows ≡ 0)
unfolding lowest
lowest-none_iff [] = ground arith
lowest-none_iff (d ∷ rows) = ground arith

pub lowest-le :
    (rows : List SessionCard) (c : SessionCard)
    → lowest rows ≡ some c
    → All (λ (d : SessionCard). c.position ≤ d.position) rows
unfolding lowest
lowest-le [] c h = tt
lowest-le (d ∷ rows) c h = elim (Option-cases (lowest rows)) [
  | inl last ↦ (ground arith, rw (lowest-none rows last) tt)
  | inr (e, found) ↦
      let le : c.position ≤ e.position = ground arith in
      (
        ground arith,
        All-map (λ (x : SessionCard). e.position ≤ x.position)
            (λ (x : SessionCard). c.position ≤ x.position) rows (λ x k. omega arith)
            (lowest-le rows e found),
      )
]

pub next_pending-Has :
    (session_id : ℕ) (rows : List SessionCard) (c : SessionCard)
    → next_pending session_id rows ≡ some c
    → Has c rows × (pending session_id c ≡ true)
unfolding next_pending
next_pending-Has session_id rows c h =
    Has-select (pending session_id) rows c (lowest-Has (select (pending session_id) rows) c h)

pub next_pending-none_iff :
    (session_id : ℕ) (rows : List SessionCard)
    → (next_pending session_id rows ≡ none) ↔ (count_if (pending session_id) rows ≡ 0)
unfolding next_pending
next_pending-none_iff session_id rows = ground (
  arith,
  lowest-none_iff (select (pending session_id) rows),
  length-select (pending session_id) rows,
)

-- Scoring a card takes it out of the pending ones and adds it to those that are done, and touches
-- no other session.
pub mark_counts :
    (session_id score now : ℕ) (rows : List SessionCard) (c : SessionCard)
    → IsKeyed rows
    → next_pending session_id rows ≡ some c
    → let rows' = update_if (λ (d : SessionCard). d.id == c.id) (mark score now) rows in
      (count_if (pending session_id) rows' + 1 ≡ count_if (pending session_id) rows)
      × (count_if (done session_id) rows' ≡ count_if (done session_id) rows + 1)
mark_counts session_id score now rows c keyed h =
    let (here, waits) = next_pending-Has session_id rows c h in
    ground (
      arith,
      count_if-replace (pending session_id) (λ (d : SessionCard). d.id == c.id) (mark score now)
          rows c here (==_refl c.id) (keyed c.id),
      count_if-replace (done session_id) (λ (d : SessionCard). d.id == c.id) (mark score now) rows c
          here (==_refl c.id) (keyed c.id),
    )

-- A write that keeps the identifiers keeps the key.
pub update-IsKeyed :
    (p : SessionCard → Bool) (f : SessionCard → SessionCard) (rows : List SessionCard)
    → ((c : SessionCard) → (f c).id ≡ c.id)
    → IsKeyed rows
    → IsKeyed (update_if p f rows)
update-IsKeyed p f rows same keyed i =
    rw (count_if-update (λ (c : SessionCard). c.id == i) p f rows (λ c. rw (same c))) (keyed i)
