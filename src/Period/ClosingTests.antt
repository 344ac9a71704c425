-- ===== src/Period/ClosingTests.antt =====
-- A window that two tasks close, and a team with two keys of one name.
use amazee_ai.Period.FirstWrite.{IsFirst, upsert_team_spend_period-IsFirst}
use amazee_ai.Period.Snapshot.{
  KeyRow, LitellmKey, LitellmTeam, Snapshot, fetch_team_spend_snapshot_for_region,
}
use amazee_ai.Period.Closing.{
  Closing, SpendPeriod, Tables, Window, upsert_team_spend_period, integrity_error, new_row,
  query_spend_period, returned, have_clash,
}
use Prim.Native.String.{String}
use amazee_ai.Limits.Model.{pool}
use amazee_ai.Common.Sort.{sort_by}
use amazee_ai.Common.{[], none, some, refl, ◌≡◌, ◌∷◌, ℕ, Option, List, any, select, find_first}

program : Unit {0}
unfolding upsert_team_spend_period query_spend_period fetch_team_spend_snapshot_for_region
    have_clash sort_by select any find_first
program = tt

abbrev window : Window
window = record {
  team_id = 7;
  region_id = 1;
  budget_type = pool;
  period_start = 100;
  period_end = 200;
}

abbrev closing : Closing
closing = record {
  source = "stripe";
  now = 200;
  stripe_event_id = none;
  stripe_invoice_id = some "in_1";
  stripe_subscription_id = none;
  subscription_remaining_cents = some 0;
  topup_remaining_cents = some 500;
  desired_remaining_cents = none;
}

abbrev db_key : ℕ → Option String → KeyRow
db_key id name = record {
  id = id;
  name = name;
  owner_id = some 3;
  team_id = some 7;
  region_id = some 1;
}

abbrev lite_key : ℕ → Option String → LitellmKey
lite_key spend name = record {
  key_name = name;
  owner_id = some 3;
  spend = spend;
  max_budget = none;
  prompt_tokens = none;
  completion_tokens = none;
  total_tokens = none;
}

abbrev lite_team : List LitellmKey → LitellmTeam
lite_team keys = record {
  spend = 30;
  max_budget = some 100;
  prompt_tokens = none;
  completion_tokens = none;
  total_tokens = none;
  keys = keys;
}

abbrev snapshot_of : List LitellmKey → Snapshot
snapshot_of keys =
    fetch_team_spend_snapshot_for_region (lite_team keys) 7 1
      (db_key 1 (some "a") ∷ db_key 2 (some "b") ∷ db_key 3 (some "b") ∷ [])

abbrev apart : Snapshot
apart = snapshot_of (lite_key 10 (some "a") ∷ lite_key 20 (some "b") ∷ [])

abbrev tables : Tables
tables = record { periods = []; period_keys = []; next_id = 4 }

abbrev rival : SpendPeriod
rival = new_row window closing (record apart { total_spend = 29 }) 4

-- The row of the task that came first is returned.
rival_run : (upsert_team_spend_period (rival ∷ []) window closing apart tables).0 ≡ returned rival
unfolding program
rival_run = refl

-- Both keys of the name "b" are taken for the newer one, and the rows of the keys are refused.
same_name_run :
    (upsert_team_spend_period [] window closing
      (snapshot_of (lite_key 10 (some "b") ∷ lite_key 20 (some "b") ∷ []))
      tables).0
    ≡ integrity_error
unfolding program
same_name_run = refl

upsert_team_spend_period-IsFirst_example :
    (row : SpendPeriod) × ((upsert_team_spend_period (rival ∷ []) window closing apart tables).0
      ≡ returned row)
    × (row.window ≡ window)
    × IsFirst (rival ∷ []) window closing apart row
    × (upsert_team_spend_period [] window
          (record closing { source = "sync" })
          (record apart { total_spend = 31 })
          (upsert_team_spend_period (rival ∷ []) window closing apart tables).1
        ≡ (returned row, (upsert_team_spend_period (rival ∷ []) window closing apart tables).1))
upsert_team_spend_period-IsFirst_example =
    upsert_team_spend_period-IsFirst (rival ∷ []) [] window closing
      (record closing { source = "sync" }) apart (record apart { total_spend = 31 }) tables
      (unfold program in refl)
