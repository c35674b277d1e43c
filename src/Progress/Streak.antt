-- ===== src/Progress/Streak.antt =====
-- The streak of `compute_streak_from_datetimes` against a description that knows no loop.
use mnemo_api.Prelude.{
  ltb, ◌==◌, ltb→lt, ==_iff, ==_refl, Bool-cases, length, All, delete_if, count_if, All-map, ℕ,
  zero, suc, ◌+◌, ◌-◌, ◌≤◌, ◌<◌, ◌≡◌, refl, sym, ap, ◌∙◌, ◌≢◌, ◌⊎◌, inl, inr, Bool, true, false,
  ◌||◌, Option, none, some, List, [], ◌∷◌, arith,
}
use mnemo_api.Progress.{
  Zone, has_day, add_day, local_dates, most_recent, walk_back, streak_of,
  compute_streak_from_datetimes,
}

-- Whether one of the times is on a local date.
abbrev pub studied_on : Zone → ℕ → List (Option ℕ) → Bool
studied_on zone d [] = false
studied_on zone d (none ∷ ts) = studied_on zone d ts
studied_on zone d (some t ∷ ts) = d == zone.day t || studied_on zone d ts

-- A run of days with study that ends on one day and goes back until a day without.
pub data Run (z : Zone) (ts : List (Option ℕ)) : ℕ → ℕ → Type 0 where
  over : {d : ℕ} → studied_on z d ts ≡ false → Run z ts d 0
  back : {d n : ℕ} → studied_on z d ts ≡ true → Run z ts (d - 1) n → Run z ts d (suc n)

abbrev pub OnDay : Zone → (ℕ → Type 0) → Option ℕ → Type 0
OnDay zone P none = Unit
OnDay zone P (some t) = P (zone.day t)

-- No study on the day before today or later, and no streak; or a day of the last study that is not
-- over for longer, and a run of at least one day that ends on it.
abbrev pub IsStreak : Zone → List (Option ℕ) → ℕ → ℕ → Type 0
IsStreak zone times today s =
    (All (OnDay zone (λ d. d + 1 < today)) times × (s ≡ 0))
    ⊎ ((m : ℕ) × (today ≤ m + 1)
        × All (OnDay zone (λ d. d ≤ m)) times
        × (0 < s)
        × Run zone times m s)

has_day-add_day : (d e : ℕ) (xs : List ℕ) → has_day d (add_day e xs) ≡ (d == e || has_day d xs)
unfolding has_day add_day
has_day-add_day d e xs = elim (Bool-cases (has_day e xs)) [
  | inl old ↦ elim (Bool-cases (d == e)) [
    | inl same ↦ rw ((==_iff d e).0 same, old, add_day) (ground (arith, ==_refl e, old))
    | inr other ↦ ground (arith, old)
  ]
  | inr new ↦ ground (arith, new)
]

pub has_day-local_dates :
    (zone : Zone) (d : ℕ) (times : List (Option ℕ))
    → has_day d (local_dates zone times) ≡ studied_on zone d times
unfolding local_dates has_day
has_day-local_dates zone d [] = refl
has_day-local_dates zone d (none ∷ ts) = has_day-local_dates zone d ts
has_day-local_dates zone d (some t ∷ ts) =
    has_day-add_day d (zone.day t) (local_dates zone ts)
    ∙ ap (λ b. d == zone.day t || b) (has_day-local_dates zone d ts)

most_recent-has_day : (d : ℕ) (ds : List ℕ) → has_day (most_recent (d ∷ ds)) (d ∷ ds) ≡ true
unfolding has_day most_recent
most_recent-has_day d [] = ground arith
most_recent-has_day d (e ∷ ds) = ground (arith, most_recent-has_day e ds)

most_recent-max : (d : ℕ) (ds : List ℕ) → has_day d ds ≡ true → d ≤ most_recent ds
unfolding has_day most_recent
most_recent-max d [] h = ground arith
most_recent-max d (e ∷ ds) h = ground (arith, most_recent-max d ds)

-- All days of a stretch are in a list.
abbrev Stretch : List ℕ → ℕ → ℕ → Type 0
Stretch dates c k = (i : ℕ) → i < k → has_day (c - i) dates ≡ true

length-delete_if :
    (p : ℕ → Bool) (xs : List ℕ) → length (delete_if p xs) + count_if p xs ≡ length xs
unfolding delete_if count_if
length-delete_if p [] = refl
length-delete_if p (x ∷ xs) = ground (arith, length-delete_if p xs)

has_day-count : (d : ℕ) (xs : List ℕ) → has_day d xs ≡ true → 0 < count_if (λ x. x == d) xs
unfolding has_day count_if
has_day-count d [] h = ground arith
has_day-count d (x ∷ xs) h = ground (arith, has_day-count d xs)

has_day-delete :
    (d e : ℕ) (xs : List ℕ) → d ≢ e → has_day d (delete_if (λ x. x == e) xs) ≡ has_day d xs
unfolding has_day delete_if
has_day-delete d e [] h = refl
has_day-delete d e (x ∷ xs) h = ground (arith, has_day-delete d e xs)

-- A stretch of different days in a list is no longer than the list.
Stretch-length :
    (k c : ℕ) (dates : List ℕ) → has_day 0 dates ≡ false → Stretch dates c k → k ≤ length dates
Stretch-length zero c dates no_zero h = omega arith
Stretch-length (suc k) zero dates no_zero h = absurd (ground (arith, h 0 (omega arith)))
Stretch-length (suc k) (suc c) dates no_zero h =
    let same : suc c ≡ suc c - 0 = omega arith in
    let here = ap (λ n. has_day n dates) same ∙ h 0 (omega arith) in
    let fewer = delete_if (λ x. x == suc c) dates in
    let rest : Stretch fewer c k = λ i lt.
      has_day-delete (c - i) (suc c) dates (λ e. absurd (omega arith))
      ∙ ap (λ n. has_day n dates) (omega arith)
      ∙ h (suc i) (omega arith) in
    omega (
      arith,
      length-delete_if (λ x. x == suc c) dates,
      has_day-count (suc c) dates here,
      Stretch-length k c fewer
          (has_day-delete 0 (suc c) dates (λ e. absurd (omega arith)) ∙ no_zero) rest,
    )

Stretch-suc :
    (c k : ℕ) (dates : List ℕ)
    → has_day c dates ≡ true
    → Stretch dates (c - 1) k
    → Stretch dates c (suc k)
Stretch-suc c k dates hit h zero lt =
    let same : c - 0 ≡ c = omega arith in ap (λ n. has_day n dates) same ∙ hit
Stretch-suc c k dates hit h (suc i) lt =
    let same : c - suc i ≡ c - 1 - i = omega arith in
    ap (λ n. has_day n dates) same ∙ h i (omega arith)

-- What the loop returns: the whole fuel, after a stretch of that length, or a run.
walk_back-Stretch :
    (fuel c : ℕ) (dates : List ℕ)
    → Stretch dates c (walk_back fuel dates c)
      × ((walk_back fuel dates c ≡ fuel) ⊎ (has_day (c - walk_back fuel dates c) dates ≡ false))
unfolding walk_back
walk_back-Stretch zero c dates = (λ i lt. absurd (omega arith), inl refl)
walk_back-Stretch (suc fuel) c dates = elim (Bool-cases (has_day c dates)) [
  | inr miss ↦
      let same : c ≡ c - 0 = omega arith in
      rw (miss, walk_back)
        (λ i lt. absurd (omega arith), inr (ap (λ n. has_day n dates) (sym same) ∙ miss))
  | inl hit ↦
      let n = walk_back fuel dates (c - 1) in
      let (stretch, end) = walk_back-Stretch fuel (c - 1) dates in
      let same : c - suc n ≡ c - 1 - n = omega arith in
      let end' : (suc n ≡ suc fuel) ⊎ (has_day (c - suc n) dates ≡ false) = elim end [
        | inl e ↦ inl (ap suc e)
        | inr e ↦ inr (ap (λ k. has_day k dates) same ∙ e)
      ] in
      rw (hit, walk_back) (Stretch-suc c n dates hit stretch, end')
]

-- The loop stops by its test before any fuel beyond the number of dates is used up.
walk_back-ends :
    (fuel c : ℕ) (dates : List ℕ)
    → has_day 0 dates ≡ false
    → length dates < fuel
    → Stretch dates c (walk_back fuel dates c)
      × (has_day (c - walk_back fuel dates c) dates ≡ false)
walk_back-ends fuel c dates no_zero enough =
    let (stretch, end) = walk_back-Stretch fuel c dates in
    let short = Stretch-length (walk_back fuel dates c) c dates no_zero stretch in
    (stretch, elim end [ inl e ↦ absurd (omega arith) | inr e ↦ e ])

-- A stretch that ends where no day follows is a run.
Stretch-Run :
    (zone : Zone) (times : List (Option ℕ)) (k c : ℕ)
    → Stretch (local_dates zone times) c k
    → has_day (c - k) (local_dates zone times) ≡ false
    → Run zone times c k
Stretch-Run zone times zero c h e =
    let same : c ≡ c - 0 = omega arith in
    over (
      sym (has_day-local_dates zone c times)
      ∙ ap (λ n. has_day n (local_dates zone times)) same
      ∙ e)
Stretch-Run zone times (suc k) c h e =
    let dates = local_dates zone times in
    let same : c ≡ c - 0 = omega arith in
    let less : c - 1 - k ≡ c - suc k = omega arith in
    let here = ap (λ n. has_day n dates) same ∙ h 0 (omega arith) in
    let rest : Stretch dates (c - 1) k = λ i lt.
      let step : c - 1 - i ≡ c - suc i = omega arith in
      ap (λ n. has_day n dates) step ∙ h (suc i) (omega arith) in
    back (sym (has_day-local_dates zone c times) ∙ here)
      (Stretch-Run zone times k (c - 1) rest (ap (λ n. has_day n dates) less ∙ e))

Stretch-unique :
    (dates : List ℕ) (c a b : ℕ)
    → Stretch dates c a
    → has_day (c - a) dates ≡ false
    → Stretch dates c b
    → has_day (c - b) dates ≡ false
    → a ≡ b
Stretch-unique dates c a b sa ea sb eb = elim (Bool-cases (ltb a b)) [
  | inl less ↦ absurd (ground (arith, sb a (ltb→lt a b less)))
  | inr other ↦ elim (Bool-cases (ltb b a)) [
    | inl less ↦ absurd (ground (arith, sa b (ltb→lt b a less)))
    | inr other' ↦ ground arith
  ]
]

-- The loop of the streak terminates: on dates, which have no ordinal 0, one round more than there
-- are dates is enough, and further fuel changes nothing.
pub walk_back_enough :
    (fuel c : ℕ) (dates : List ℕ)
    → has_day 0 dates ≡ false
    → length dates < fuel
    → walk_back fuel dates c ≡ walk_back (length dates + 1) dates c
walk_back_enough fuel c dates no_zero enough =
    let (stretch, end) = walk_back-ends fuel c dates no_zero enough in
    let (stretch', end') = walk_back-ends (length dates + 1) c dates no_zero (omega arith) in
    Stretch-unique dates c (walk_back fuel dates c) (walk_back (length dates + 1) dates c) stretch
      end stretch' end'

All-studied :
    (zone : Zone) (P : ℕ → Type 0) (times : List (Option ℕ))
    → ((d : ℕ) → studied_on zone d times ≡ true → P d)
    → All (OnDay zone P) times
All-studied zone P [] h = tt
All-studied zone P (none ∷ ts) h = (tt, All-studied zone P ts h)
All-studied zone P (some t ∷ ts) h = (
  h (zone.day t) (ground (arith, ==_refl (zone.day t))),
  All-studied zone P ts (λ d k. h d (ground arith)),
)

no_day_zero :
    (zone : Zone) (times : List (Option ℕ))
    → ((t : ℕ) → 0 < zone.day t)
    → studied_on zone 0 times ≡ false
no_day_zero zone [] pos = refl
no_day_zero zone (none ∷ ts) pos = no_day_zero zone ts pos
no_day_zero zone (some t ∷ ts) pos = ground (arith, pos t, no_day_zero zone ts pos)

has_day_empty : (d : ℕ) → has_day d [] ≡ false
unfolding has_day
has_day_empty d = refl

OnDay-before :
    (zone : Zone) (m today : ℕ)
    → m + 1 < today
    → (o : Option ℕ) → OnDay zone (λ d. d ≤ m) o
    → OnDay zone (λ d. d + 1 < today) o
OnDay-before zone m today h none k = tt
OnDay-before zone m today h (some t) k = omega arith

positive :
    (n m : ℕ) (dates : List ℕ) → has_day m dates ≡ true → has_day (m - n) dates ≡ false → 0 < n
positive zero m dates h e =
    let same : m - 0 ≡ m = omega arith in absurd (ground (arith, ap (λ k. has_day k dates) same))
positive (suc n) m dates h e = omega arith

streak_of-IsStreak :
    (zone : Zone) (times : List (Option ℕ)) (today : ℕ) (dates : List ℕ)
    → ((t : ℕ) → 0 < zone.day t)
    → local_dates zone times ≡ dates
    → IsStreak zone times today (streak_of dates today)
unfolding streak_of
streak_of-IsStreak zone times today [] pos e =
    let none_ =
      All-studied zone (λ d. d + 1 < today) times
        (λ d h.
          absurd (
            ground (arith, has_day-local_dates zone d times, ap (has_day d) e, has_day_empty d))) in
    inl (none_, refl)
streak_of-IsStreak zone times today (d ∷ ds) pos e =
    let dates = d ∷ ds in
    let m = most_recent dates in
    let known = λ (x : ℕ). ap (has_day x) (sym e) ∙ has_day-local_dates zone x times in
    let bound =
      All-studied zone (λ x. x ≤ m) times (λ x h. most_recent-max x dates (known x ∙ h)) in
    let no_zero = known 0 ∙ no_day_zero zone times pos in
    let n = walk_back (length dates + 1) dates m in
    let (stretch, end) = walk_back-ends (length dates + 1) m dates no_zero (omega arith) in
    let run =
      Stretch-Run zone times n m (λ i lt. ap (has_day (m - i)) e ∙ stretch i lt)
        (ap (has_day (m - n)) e ∙ end) in
    elim (Bool-cases (ltb (m + 1) today)) [
      | inl gap ↦
          rw (gap, streak_of)
            (inl (
              All-map _ _ times (OnDay-before zone m today (ltb→lt (m + 1) today gap)) bound,
              refl,
            ))
      | inr near ↦
          let some_ : 0 < n = positive n m dates (most_recent-has_day d ds) end in
          rw (near, streak_of) (inr (m, ground arith, bound, some_, run))
    ]

-- With local dates from ordinal 1 on, the streak is what its description says: the length of the run
-- of days with study that ends on the day of the last study, or 0 if that day was before yesterday
-- or there is none.
pub compute_streak_from_datetimes-IsStreak :
    (zone : Zone) (times : List (Option ℕ)) (now : ℕ)
    → ((t : ℕ) → 0 < zone.day t)
    → IsStreak zone times (zone.day now) (compute_streak_from_datetimes zone times now).0
unfolding compute_streak_from_datetimes
compute_streak_from_datetimes-IsStreak zone times now pos =
    streak_of-IsStreak zone times (zone.day now) (local_dates zone times) pos refl
