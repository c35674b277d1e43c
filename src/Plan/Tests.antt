-- ===== src/Plan/Tests.antt =====
-- The theorems on study plans at concrete inputs.
use mnemo_api.Prelude.{first?, codes, ◌≡◌, refl, none, some, [], ◌∷◌, map}
use mnemo_api.Models.{Deck}
use mnemo_api.Exec.{ok}
use mnemo_api.Deck.{owns, new_deck}
use mnemo_api.Plan.{Day, StudyPlan, schedule_from, generate_schedule, PlanDb, plan_for, create_plan}
use mnemo_api.Plan.Schedule.{Serves, create_plan-Serves}

abbrev europe : Deck
europe = record (new_deck 2 7 (codes "Europe") none [] 0) { card_count = 10 }

abbrev old_plan : StudyPlan
old_plan = record {
  id = 1;
  user_id = 7;
  deck_id = 2;
  goal = none;
  days = 1;
  daily_target = 1;
  daily_minutes = 2;
  schedule = [];
  created_at = 50;
}

abbrev shelf : PlanDb
shelf = record { decks = europe ∷ []; plans = old_plan ∷ [] }

abbrev three_days : StudyPlan
three_days = plan_for 3 7 europe none 3 20 900 99

made : (create_plan 3 7 2 none 3 20 900 99 shelf).0 ≡ ok three_days
unfolding create_plan first?
made = refl

create_plan-Serves_example :
    (d : Deck) × (first? (owns 7 2) shelf.decks ≡ some d) × Serves d 3 20 900 three_days
create_plan-Serves_example = create_plan-Serves 3 7 2 none 3 20 900 99 shelf three_days made

-- Ten cards in three days.
three_days_run : map (λ (x : Day). x.cards_to_study) three_days.schedule ≡ 4 ∷ 5 ∷ 4 ∷ []
unfolding plan_for generate_schedule schedule_from
three_days_run = refl
