-- ===== src/Retention/Tests.antt =====
-- A team without products that is warned on the 77th day and deleted on the 91st.
use amazee_ai.Retention.Warned.{run_all_warned}
use amazee_ai.Retention.Runs.{IsWarnedAndDeleted, run_all, Run}
use amazee_ai.Teams.{TeamStore}
use amazee_ai.Retention.{TeamActivity, check_team_retention_policy, sent}
use amazee_ai.Common.{ℕ, [], none, some, true, false, refl, ◌≡◌, ◌∷◌, List, plus_days}

abbrev idle : TeamActivity
idle = record {
  is_pool = false;
  is_anonymous_trial = false;
  created_at = 0;
  has_products = false;
  key_updates = none ∷ [];
  user_creations = [];
  key_creations = [];
}

-- The team makes a key on the 90th day, hours before the run of the 91st.
abbrev active : TeamActivity
active = record idle { key_creations = plus_days 0 90 ∷ [] }

abbrev team_store : TeamStore
team_store = record {
  team = record {
    id = 1;
    is_active = true;
    deleted_at = none;
    retention_warning_sent_at = none;
    updated_at = none;
  };
  users = [];
  keys = [];
  audit = [];
  calls = [];
}

abbrev run : ℕ → TeamActivity → Run
run n a = record { now = plus_days 0 n; mail = sent; activity = a }

abbrev runs : List Run
runs = run 76 idle ∷ run 77 idle ∷ run 90 idle ∷ run 91 active ∷ []

deleted_after : (run_all runs team_store).team.deleted_at ≡ some (plus_days 0 91)
unfolding run_all check_team_retention_policy
deleted_after = refl

-- With the activity one run earlier the team stays.
abbrev resumed : List Run
resumed = run 77 idle ∷ run 90 active ∷ run 91 active ∷ []

kept_after : (run_all resumed team_store).team.retention_warning_sent_at ≡ none
unfolding run_all check_team_retention_policy
kept_after = refl

run_all_warned_example : IsWarnedAndDeleted runs (plus_days 0 91)
run_all_warned_example = run_all_warned runs team_store (plus_days 0 91) refl refl deleted_after
