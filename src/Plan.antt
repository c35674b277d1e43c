-- ===== src/Plan.antt =====
-- services/plan.py: study plans. The first day is the argument `start_date`, a number of days; the
-- texts that label the days are constructors of `Focus`, and the list of plans is a table here.
pub mod Schedule
mod Tests
use mnemo_api.Prelude.{
  ltb, leb, ◌==◌, if◌then◌else◌, select, first?, Text, ℕ, zero, suc, ◌+◌, ◌-◌, ◌/◌, min, max, Bool,
  ◌&&◌, ◌||◌, Option, none, some, List, [], ◌∷◌, ◌++◌,
}
use mnemo_api.Models.{Deck}
use mnemo_api.Exec.{deck_not_found, plan_not_found, value_error, ok, err, Exec}
use mnemo_api.Deck.{owns}

-- The labels, the first with the name of the deck.
pub data Focus : Type 0 where
  introduction : Text → Focus
  first_reviews with_reviews remaining consolidation : Focus

-- An entry of the schedule.
pub record Day : Type 0 where
  pub day : ℕ
  pub date : ℕ
  pub cards_to_study : ℕ
  pub focus : Focus

-- models/study_plan.py
pub record StudyPlan : Type 0 where
  pub id : ℕ
  pub user_id : ℕ
  pub deck_id : ℕ
  pub goal : Option Text
  pub days : ℕ
  pub daily_target : ℕ
  pub daily_minutes : ℕ
  pub schedule : List Day
  pub created_at : ℕ

-- `int(studied_cumulative * 0.25) if d > 1 else 0`
abbrev pub review_estimate : ℕ → ℕ → ℕ
review_estimate d studied = if ltb 1 d then studied / 4 else 0

abbrev pub focus_of : ℕ → ℕ → ℕ → Text → Focus
focus_of d new reviews name =
    if d == 1
    then introduction name
    else if ltb 0 new && ltb 0 reviews
    then (if d == 2 then first_reviews else with_reviews)
    else if ltb 0 new
    then remaining
    else consolidation

module _ (target most start : ℕ) (name : Text) where
  -- The rest of the loop: a number of days from day d on, with the new cards that remain and the
  -- cards studied so far.
  unfoldable pub schedule_from : ℕ → ℕ → ℕ → ℕ → List Day
  schedule_from zero d left studied = []
  schedule_from (suc days) d left studied =
      let new = min target left in
      let reviews = review_estimate d studied in
      record {
        day = d;
        date = start + (d - 1);
        cards_to_study = min (new + reviews) most;
        focus = focus_of d new reviews name;
      }
      ∷ schedule_from days (d + 1) (left - new) (studied + new)

unfoldable pub generate_schedule : ℕ → ℕ → ℕ → ℕ → ℕ → Text → List Day
generate_schedule total days target most start name =
    schedule_from target most start name days 1 total 0

-- `daily_minutes // 2`, and at least 1 if there are cards.
abbrev pub cards_by_time : ℕ → ℕ → ℕ
cards_by_time total minutes = if ltb 0 total then max 1 (minutes / 2) else minutes / 2

-- `math.ceil(total_cards / days) if total_cards > 0 else 1`, for at least one day.
abbrev pub target_by_coverage : ℕ → ℕ → ℕ
target_by_coverage total zero = 1
target_by_coverage total (suc days) = if ltb 0 total then (total + days) / (suc days) else 1

abbrev pub daily_target_of : ℕ → ℕ → ℕ → ℕ
daily_target_of total days minutes =
    max (min (target_by_coverage total days) (cards_by_time total minutes)) 1

-- The state of the service: the decks and the plans.
pub record PlanDb : Type 0 where
  pub decks : List Deck
  pub plans : List StudyPlan

-- The plan for a deck.
unfoldable pub plan_for : ℕ → ℕ → Deck → Option Text → ℕ → ℕ → ℕ → ℕ → StudyPlan
plan_for id user_id d goal days minutes start now =
    let target = daily_target_of d.card_count days minutes in
    record {
      id = id;
      user_id = user_id;
      deck_id = d.id;
      goal = goal;
      days = days;
      daily_target = target;
      daily_minutes = minutes;
      schedule =
          generate_schedule d.card_count days target (cards_by_time d.card_count minutes) start
            d.name;
      created_at = now;
    }

unfoldable pub create_plan : ℕ → ℕ → ℕ → Option Text → ℕ → ℕ → ℕ → ℕ → Exec PlanDb StudyPlan
create_plan id user_id deck_id goal days minutes start now db =
    elim (first? (owns user_id deck_id) db.decks) [
      | none ↦ (err deck_not_found, db)
      | some d ↦
          let plan = plan_for id user_id d goal days minutes start now in
          if days == 0 || minutes == 0
          then (err value_error, db)
          else (ok plan, record db { plans = db.plans ++ plan ∷ [] })
    ]

-- Whether `a` comes before `b` in the order of `created_at` and `id`, the latest first.
abbrev pub later_plan : StudyPlan → StudyPlan → Bool
later_plan a b = ltb b.created_at a.created_at || (a.created_at == b.created_at && leb b.id a.id)

unfoldable pub latest : List StudyPlan → Option StudyPlan
latest [] = none
latest (p ∷ ps) = elim (latest ps) [
  | none ↦ some p
  | some q ↦ if later_plan p q then some p else some q
]

unfoldable pub get_active_plan : ℕ → Exec PlanDb StudyPlan
get_active_plan user_id db =
    elim (latest (select (λ (p : StudyPlan). p.user_id == user_id) db.plans)) [
      | none ↦ (err plan_not_found, db)
      | some p ↦ (ok p, db)
    ]
