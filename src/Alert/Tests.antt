-- ===== src/Alert/Tests.antt =====
-- A key that spends, its rows and deliveries, and the theorems applied there.
use amazee_ai.Alert.State.{apply_resets, mark_notified, upsert_state, write_state, event_for}
use amazee_ai.Alert.Crossing.{
  crossing_not_repeated, crossing_retried, row_after, sent_ids, sweep_region_row,
}
use amazee_ai.Alert.Behind.{IsUnique, ids_after}
use amazee_ai.Alert.Run.{Run, delivered_ids-IsUnique}
use amazee_ai.Alert.Row.{IsDistinct}
use amazee_ai.Alert.Delivery.{deliver_events, chunk}
use amazee_ai.Common.{
  [], none, some, true, false, inl, refl, arith, ◌≡◌, ◌≢◌, ◌∷◌, List, ℕ, find_first, any,
}
use amazee_ai.Alert.{
  Subject, AlertState, BudgetAlertEvent, decide, String, build_event, classify, find_state, notify,
  highest_crossed_band, percent_used,
}
use amazee_ai.Alert.Sweep.{Delivery, sweep_region}

abbrev subject : String → ℕ → Subject
subject key spend = record {
  subject_type = "key";
  subject_key = key;
  spend = spend;
  max_budget = some 1_000_000;
  period_key = "pool_topup:1";
  team_id = some 7;
  user_id = none;
  key_id = some 1;
}

abbrev thresholds : List ℕ
thresholds = 50 ∷ 75 ∷ 90 ∷ []

abbrev subjects : List Subject
subjects = subject "key:1" 800_000 ∷ subject "key:2" 100_000 ∷ []

-- Every event is accepted, or none.
abbrev accepting : Delivery
accepting = record { alerts_enabled = true; deliver = deliver_events true 100 (λ b. true) }

abbrev refusing : Delivery
refusing = record { alerts_enabled = true; deliver = deliver_events true 100 (λ b. false) }

program : Unit {0}
unfolding classify highest_crossed_band build_event find_state find_first sweep_region apply_resets
    mark_notified upsert_state write_state event_for any deliver_events chunk percent_used
program = tt

abbrev crossing : BudgetAlertEvent
crossing = build_event 1 (subject "key:1" 800_000) 75 0

crossing_found : decide thresholds 1 [] (subject "key:1" 800_000) ≡ notify crossing
unfolding program
crossing_found = refl

subjects-IsDistinct : IsDistinct subjects
subjects-IsDistinct = ((refl, tt), (tt, tt))

crossing_retried_example :
    decide thresholds 1 (sweep_region refusing thresholds 1 5 subjects []) (subject "key:1" 800_000)
    ≡ notify crossing
crossing_retried_example =
    crossing_retried refusing thresholds 1 5 (subject "key:1" 800_000) subjects [] crossing
      subjects-IsDistinct (inl refl) crossing_found (unfold program in refl)

crossing_not_repeated_example :
    decide thresholds 1
      (sweep_region accepting thresholds 1 5 subjects [])
      (subject "key:1" 850_000)
    ≢ notify crossing
crossing_not_repeated_example =
    crossing_not_repeated accepting thresholds 1 5 (subject "key:1" 800_000) subjects [] crossing
      (subject "key:1" 850_000) crossing subjects-IsDistinct (inl refl) crossing_found
      (unfold program in refl) refl refl (unfold program in omega arith)

abbrev after_first : List AlertState
after_first = sweep_region accepting thresholds 1 5 subjects []

first-Run : Run "key:1" after_first (
    ids_after
      (sent_ids accepting thresholds 1 subjects [])
      (decide thresholds 1 [] (subject "key:1" 800_000))
      [])
first-Run =
    Run.swept accepting thresholds 1 5 subjects (subject "key:1" 800_000) Run.start
      subjects-IsDistinct (inl refl) refl (unfold program in tt)

delivered_ids-IsUnique_example : IsUnique (
    ids_after
      (sent_ids accepting thresholds 1 subjects [])
      (decide thresholds 1 [] (subject "key:1" 800_000))
      [])
delivered_ids-IsUnique_example = delivered_ids-IsUnique first-Run

sweep_region_row_example :
    find_state "key:1" (sweep_region accepting thresholds 1 5 subjects [])
    ≡ row_after thresholds 1 5
        (sent_ids accepting thresholds 1 subjects [])
        (subject "key:1" 800_000)
        (find_state "key:1" [])
sweep_region_row_example =
    sweep_region_row accepting thresholds 1 5 (subject "key:1" 800_000) subjects []
      subjects-IsDistinct (inl refl)
