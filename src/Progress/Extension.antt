-- ===== src/Progress/Extension.antt =====
-- How a day of study extends the streak.
use mnemo_api.Prelude.{
  ◌==◌, ==_iff, ==_refl, Bool-cases, All, All-map, ℕ, zero, suc, ◌+◌, ◌-◌, ◌≤◌, ◌<◌, ◌≡◌, refl, sym,
  ap, subst, ◌∙◌, ◌≢◌, inl, inr, true, false, Option, none, some, List, [], ◌∷◌, arith,
}
use mnemo_api.Progress.{Zone, compute_streak_from_datetimes}
use mnemo_api.Progress.Streak.{
  studied_on, Run, over, back, OnDay, IsStreak, compute_streak_from_datetimes-IsStreak,
}

studied-bound :
    (zone : Zone) (P : ℕ → Type 0) (times : List (Option ℕ)) (d : ℕ)
    → All (OnDay zone P) times
    → studied_on zone d times ≡ true
    → P d
studied-bound zone P [] d h k = absurd (ground arith)
studied-bound zone P (none ∷ ts) d h k = studied-bound zone P ts d h.1 k
studied-bound zone P (some t ∷ ts) d h k = elim (Bool-cases (d == zone.day t)) [
  | inl hit ↦ rw ((==_iff d (zone.day t)).0 hit) h.0
  | inr miss ↦ studied-bound zone P ts d h.1 (ground arith)
]

Run-studied :
    (zone : Zone) (times : List (Option ℕ)) (m n : ℕ)
    → Run zone times m n
    → 0 < n
    → studied_on zone m times ≡ true
Run-studied zone times m zero r pos = elim pos [ ]
Run-studied zone times m (suc n) (back hit r) pos = hit

Run-unique :
    (zone : Zone) (times : List (Option ℕ)) (m a b : ℕ)
    → Run zone times m a
    → Run zone times m b
    → a ≡ b
Run-unique zone times m zero zero r q = refl
Run-unique zone times m zero (suc b) (over miss) (back hit q) = absurd (ground arith)
Run-unique zone times m (suc a) zero (back hit r) (over miss) = absurd (ground arith)
Run-unique zone times m (suc a) (suc b) (back hit r) (back hit' q) =
    ap suc (Run-unique zone times (m - 1) a b r q)

-- The description of a streak fits one number only.
pub IsStreak-unique :
    (zone : Zone) (times : List (Option ℕ)) (today a b : ℕ)
    → IsStreak zone times today a
    → IsStreak zone times today b
    → a ≡ b
IsStreak-unique zone times today a b (inl (old, e)) (inl (old', e')) = ground arith
IsStreak-unique zone times today a b (inl (old, e)) (inr (m, near, bound, pos, run)) =
    let late =
      studied-bound zone (λ d. d + 1 < today) times m old (Run-studied zone times m b run pos) in
    absurd (omega arith)
IsStreak-unique zone times today a b (inr (m, near, bound, pos, run)) (inl (old, e)) =
    let late =
      studied-bound zone (λ d. d + 1 < today) times m old (Run-studied zone times m a run pos) in
    absurd (omega arith)
IsStreak-unique zone times today a b (inr (m, near, bound, pos, run))
      (inr (k, near', bound', pos', run')) =
    let ab = studied-bound zone (λ d. d ≤ k) times m bound' (Run-studied zone times m a run pos) in
    let ba = studied-bound zone (λ d. d ≤ m) times k bound (Run-studied zone times k b run' pos') in
    let same : k ≡ m = omega arith in
    Run-unique zone times m a b run (subst (λ d. Run zone times d b) same run')

-- A run that ends before a day is no other when that day is studied too.
Run-later :
    (zone : Zone) (times : List (Option ℕ)) (t m n : ℕ)
    → m < zone.day t
    → Run zone times m n
    → Run zone (some t ∷ times) m n
Run-later zone times t m zero lt (over miss) = over (ground arith)
Run-later zone times t m (suc n) lt (back hit r) =
    back (ground arith) (Run-later zone times t (m - 1) n (omega arith) r)

not_studied :
    (zone : Zone) (times : List (Option ℕ)) (d : ℕ)
    → All (OnDay zone (λ x. x < d)) times
    → studied_on zone d times ≡ false
not_studied zone times d h = elim (Bool-cases (studied_on zone d times)) [
  | inl hit ↦ let late = studied-bound zone (λ x. x < d) times d h hit in absurd (omega arith)
  | inr miss ↦ miss
]

OnDay-map :
    (zone : Zone) (P Q : ℕ → Type 0)
    → ((d : ℕ) → P d → Q d)
    → (o : Option ℕ) → OnDay zone P o
    → OnDay zone Q o
OnDay-map zone P Q f none h = tt
OnDay-map zone P Q f (some t) h = f (zone.day t) h

extended :
    (zone : Zone) (times : List (Option ℕ)) (t s : ℕ)
    → ((x : ℕ) → 0 < zone.day x)
    → studied_on zone (zone.day t) times ≡ false
    → All (OnDay zone (λ d. d ≤ zone.day t)) times
    → IsStreak zone times (zone.day t) s
    → Run zone (some t ∷ times) (zone.day t - 1) s
extended zone times t s pos idle past (inl (old, e)) =
    let before =
      All-map _ (OnDay zone (λ d. d < zone.day t - 1)) times
        (OnDay-map zone (λ d. d + 1 < zone.day t) (λ d. d < zone.day t - 1) (λ d k. omega arith))
        old in
    let miss = not_studied zone times (zone.day t - 1) before in rw e (over (ground (arith, pos t)))
extended zone times t s pos idle past (inr (m, near, bound, some_, run)) =
    let hit = Run-studied zone times m s run some_ in
    let reach = studied-bound zone (λ d. d ≤ zone.day t) times m past hit in
    let apart : m ≢ zone.day t =
      λ e. absurd (ground (arith, ap (λ d. studied_on zone d times) e)) in
    let same : zone.day t - 1 ≡ m = omega arith in
    rw same (Run-later zone times t m s (omega arith) run)

-- If nothing is from a later day than today, and nothing from today, then a first answer today
-- makes the streak longer by exactly one day, also a streak that was broken, which then is 1.
pub streak_extends :
    (zone : Zone) (times : List (Option ℕ)) (t now : ℕ)
    → ((x : ℕ) → 0 < zone.day x)
    → zone.day t ≡ zone.day now
    → studied_on zone (zone.day t) times ≡ false
    → All (OnDay zone (λ d. d ≤ zone.day t)) times
    → (compute_streak_from_datetimes zone (some t ∷ times) now).0
      ≡ (compute_streak_from_datetimes zone times now).0 + 1
streak_extends zone times t now pos same idle past =
    let s = (compute_streak_from_datetimes zone times now).0 in
    let old =
      subst (λ d. IsStreak zone times d s) (sym same)
        (compute_streak_from_datetimes-IsStreak zone times now pos) in
    let run = extended zone times t s pos idle past old in
    let new : IsStreak zone (some t ∷ times) (zone.day now) (suc s) = inr (
      zone.day t,
      omega arith,
      (omega arith, past),
      omega arith,
      back (ground (arith, ==_refl (zone.day t))) run,
    ) in
    IsStreak-unique zone (some t ∷ times) (zone.day now) _ (suc s)
      (compute_streak_from_datetimes-IsStreak zone (some t ∷ times) now pos) new
    ∙ omega arith
