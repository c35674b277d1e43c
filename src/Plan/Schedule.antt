-- ===== src/Plan/Schedule.antt =====
-- What the schedule of a plan promises, and which plan is the active one.
use mnemo_api.Prelude.{
  ltb, leb, ◌==◌, ==_refl, Bool-cases, Option-cases, length, All, select, first?, Text, ℕ, zero,
  suc, ◌+◌, ◌-◌, ◌*◌, ◌/◌, ◌≤◌, ◌<◌, min, max, ◌≡◌, refl, sym, ap, subst, ◌⊎◌, inl, inr, Option,
  some, List, [], ◌∷◌, ◌++◌, arith,
}
use mnemo_api.Plan.{
  Day, StudyPlan, schedule_from, generate_schedule, cards_by_time, target_by_coverage,
  daily_target_of, PlanDb, plan_for, create_plan, latest, get_active_plan,
}
use mnemo_api.Exec.{ok}
use mnemo_api.Models.{Deck}
use mnemo_api.Deck.{owns}

abbrev pub total_of : List Day → ℕ
total_of [] = 0
total_of (x ∷ xs) = x.cards_to_study + total_of xs

-- Days numbered one after another from d on, with their dates, none of which asks for more cards
-- than fit into the minutes at two minutes a card, but that a day may always ask for one.
abbrev pub InOrder : ℕ → ℕ → ℕ → List Day → Type 0
InOrder minutes start d [] = Unit
InOrder minutes start d (x ∷ xs) =
    (x.day ≡ d)
    × (x.date ≡ start + (d - 1))
    × (2 * x.cards_to_study ≤ max 2 minutes)
    × InOrder minutes start (d + 1) xs

module _ (target most start : ℕ) (name : Text) where
  schedule_from-InOrder :
      (minutes days d left studied : ℕ)
      → 2 * most ≤ max 2 minutes
      → InOrder minutes start d (schedule_from target most start name days d left studied)
        × (length (schedule_from target most start name days d left studied) ≡ days)
  unfolding schedule_from
  schedule_from-InOrder minutes zero d left studied fits = (tt, refl)
  schedule_from-InOrder minutes (suc days) d left studied fits =
      let new = min target left in
      let (order, count) =
        schedule_from-InOrder minutes days (d + 1) (left - new) (studied + new) fits in
      ((refl, refl, omega arith, order), ap suc count)

  -- The days together ask for every new card that the target lets in.
  schedule_from-covers :
      (days d left studied : ℕ)
      → target ≤ most
      → min left (days * target)
        ≤ total_of (schedule_from target most start name days d left studied)
  unfolding schedule_from
  schedule_from-covers zero d left studied h = omega arith
  schedule_from-covers (suc days) d left studied h =
      let new = min target left in
      let rest = schedule_from-covers days (d + 1) (left - new) (studied + new) h in
      grind (arith, rest)

-- A ceiling times its divisor is no less than the number divided.
ceiling-le : (total days : ℕ) → total ≤ suc days * ((total + days) / suc days)
ceiling-le total days = grind arith

daily_target-le :
    (total days minutes : ℕ)
    → 0 < total
    → daily_target_of total days minutes ≤ cards_by_time total minutes
daily_target-le total days minutes h = ground arith

mul_le : (k m n : ℕ) → m ≤ n → k * m ≤ k * n
mul_le zero m n h = omega arith
mul_le (suc k) m n h = grind (arith, mul_le k m n h)

target-enough :
    (total days minutes : ℕ)
    → 0 < days
    → target_by_coverage total days ≤ max 1 (cards_by_time total minutes)
    → total ≤ days * daily_target_of total days minutes
target-enough total zero minutes pos h = absurd (omega arith)
target-enough zero (suc days) minutes pos h = omega arith
target-enough (suc total) (suc days) minutes pos h =
    let target = daily_target_of (suc total) (suc days) minutes in
    let high : (suc total + days) / suc days ≤ target = ground arith in
    omega (
      arith,
      ceiling-le (suc total) days,
      mul_le (suc days) ((suc total + days) / suc days) target high,
    )

le-cases : (a b : ℕ) → (a ≤ b) ⊎ (b < a)
le-cases a b = elim (Bool-cases (leb a b)) [
  | inl h ↦ inl (ground arith)
  | inr h ↦ inr (ground arith)
]

le_of_min : (a b c : ℕ) → a ≤ b → min a b ≤ c → a ≤ c
le_of_min a b c h k = omega arith

covers :
    (d : Deck) (days minutes start : ℕ)
    → let target = daily_target_of d.card_count days minutes in
      min d.card_count (days * target)
      ≤ total_of (
          generate_schedule d.card_count days target
            (cards_by_time d.card_count minutes)
            start
            d.name)
unfolding generate_schedule
covers d days minutes start = elim (Bool-cases (ltb 0 d.card_count)) [
  | inl pos ↦
      schedule_from-covers (daily_target_of d.card_count days minutes)
        (cards_by_time d.card_count minutes) start d.name days 1 d.card_count 0
        (daily_target-le d.card_count days minutes (ground arith))
  | inr none_ ↦ ground arith
]

-- What a success of `create_plan` goes through.
create_plan-ok :
    (id user_id deck_id : ℕ) (goal : Option Text) (days minutes start now : ℕ) (db : PlanDb)
    (plan : StudyPlan)
    → (create_plan id user_id deck_id goal days minutes start now db).0 ≡ ok plan
    → (d : Deck) × (first? (owns user_id deck_id) db.decks ≡ some d)
      × (0 < days)
      × (plan ≡ plan_for id user_id d goal days minutes start now)
      × ((create_plan id user_id deck_id goal days minutes start now db).1
          ≡ record db { plans = db.plans ++ plan ∷ [] })
unfolding create_plan
create_plan-ok id user_id deck_id goal days minutes start now db plan h =
    elim (Option-cases (first? (owns user_id deck_id) db.decks)) [
      | inl missing ↦ absurd (ground arith)
      | inr (d, found) ↦ (d, found, ground arith, ground arith, ground arith)
    ]

cards_by_time-fits : (total minutes : ℕ) → 2 * cards_by_time total minutes ≤ max 2 minutes
cards_by_time-fits total minutes = ground arith

ceiling_min : (total days k : ℕ) → total ≤ suc days * k → (total + days) / suc days ≤ k
ceiling_min total days k h = grind arith

rate-fits :
    (total days minutes : ℕ)
    → 0 < days
    → total ≤ days * (minutes / 2)
    → target_by_coverage total days ≤ max 1 (cards_by_time total minutes)
rate-fits total zero minutes pos h = absurd (omega arith)
rate-fits total (suc days) minutes pos h = ground (arith, ceiling_min total days (minutes / 2) h)

-- What the schedule for a deck keeps to.
abbrev pub Serves : Deck → ℕ → ℕ → ℕ → StudyPlan → Type 0
Serves d days minutes start plan =
    (length plan.schedule ≡ days)
    × InOrder minutes start 1 plan.schedule
    × ((days * (minutes / 2) < d.card_count) ⊎ (d.card_count ≤ total_of plan.schedule))

plan_for-Serves :
    (id user_id : ℕ) (d : Deck) (goal : Option Text) (days minutes start now : ℕ)
    → 0 < days
    → Serves d days minutes start (plan_for id user_id d goal days minutes start now)
unfolding plan_for generate_schedule
plan_for-Serves id user_id d goal days minutes start now pos =
    let target = daily_target_of d.card_count days minutes in
    let most = cards_by_time d.card_count minutes in
    let (order, count) =
      schedule_from-InOrder target most start d.name minutes days 1 d.card_count 0
        (cards_by_time-fits d.card_count minutes) in
    (
      count,
      order,
      elim (le-cases d.card_count (days * (minutes / 2))) [
        | inl room ↦
            let fits = rate-fits d.card_count days minutes pos room in
            let enough = target-enough d.card_count days minutes pos fits in
            let asked = covers d days minutes start in inr (le_of_min d.card_count _ _ enough asked)
        | inr slow ↦ inl slow
      ],
    )

-- A plan has one entry for each of its days, in order from the first day on. At two minutes a
-- card, no day asks for more than the daily minutes, but that it may ask for one card where the
-- minutes are fewer than two. The days together ask for at least as many cards as the deck has,
-- unless the deck has more cards than fit into the minutes of all days.
pub create_plan-Serves :
    (id user_id deck_id : ℕ) (goal : Option Text) (days minutes start now : ℕ) (db : PlanDb)
    (plan : StudyPlan)
    → (create_plan id user_id deck_id goal days minutes start now db).0 ≡ ok plan
    → (d : Deck) × (first? (owns user_id deck_id) db.decks ≡ some d)
      × Serves d days minutes start plan
create_plan-Serves id user_id deck_id goal days minutes start now db plan h =
    let (d, found, pos, e, stored) =
      create_plan-ok id user_id deck_id goal days minutes start now db plan h in
    (
      d,
      found,
      subst (Serves d days minutes start) (sym e)
          (plan_for-Serves id user_id d goal days minutes start now pos),
    )

latest-append :
    (user_id : ℕ) (plans : List StudyPlan) (p : StudyPlan)
    → p.user_id ≡ user_id
    → All (λ (q : StudyPlan). q.created_at < p.created_at) plans
    → latest (select (λ (q : StudyPlan). q.user_id == user_id) (plans ++ p ∷ [])) ≡ some p
unfolding latest select
latest-append user_id [] p mine h = ground (arith, ==_refl user_id)
latest-append user_id (q ∷ qs) p mine h = ground (arith, latest-append user_id qs p mine h.1)

-- A new plan is the active one of its user, if it was created after all others.
pub created-active :
    (id user_id deck_id : ℕ) (goal : Option Text) (days minutes start now : ℕ) (db : PlanDb)
    (plan : StudyPlan)
    → (create_plan id user_id deck_id goal days minutes start now db).0 ≡ ok plan
    → All (λ (q : StudyPlan). q.created_at < now) db.plans
    → let db' = (create_plan id user_id deck_id goal days minutes start now db).1 in
      get_active_plan user_id db' ≡ (ok plan, db')
unfolding plan_for get_active_plan
created-active id user_id deck_id goal days minutes start now db plan h earlier =
    let (d, found, pos, e, stored) =
      create_plan-ok id user_id deck_id goal days minutes start now db plan h in
    let mine : plan.user_id ≡ user_id = ap (λ (p : StudyPlan). p.user_id) e in
    let made : plan.created_at ≡ now = ap (λ (p : StudyPlan). p.created_at) e in
    let first = latest-append user_id db.plans plan mine (rw made earlier) in
    subst (λ db'. get_active_plan user_id db' ≡ (ok plan, db')) (sym stored)
      (rw (get_active_plan, first) refl)
