-- ===== src/Limits/Tests.antt =====
-- A team with a hand-set user limit, a counter of service keys and system defaults.
use amazee_ai.Limits.Startup.{HasDefault, setup_default_limits-idempotent, default_resources}
use amazee_ai.Limits.Resetting.{reset_limit}
use amazee_ai.Limits.Defaults.{setup_default_limits}
use amazee_ai.Limits.Agreeing.{terms, reset_limit-agrees}
use amazee_ai.Limits.Levels.{set_limit-levels}
use amazee_ai.Limits.Setting.{set_limit_with}
use amazee_ai.Common.Table.{find_row, set_row}
use amazee_ai.Limits.Counting.{
  check_key_limits, check_vector_db_limits, counter_request, is_service_key_of,
}
use amazee_ai.Limits.Capacity.{Admits, IsCounter, check_service_key_limits_exact}
use amazee_ai.Limits.Manual.{Holds, set_team_limits-manual}
use amazee_ai.Limits.Model.{
  Key, Limit, LimitedResource, Settings, Store, Team, ResourceType, budget, periodic, raised,
  service_key, team_owner, user, user_key, user_owner, vector_db, default, find_limit, manual,
  payment_required, system, OwnerType, LimitSource, control_plane, count, product, find_team, ok,
}
use amazee_ai.Limits.Applying.{
  set_team_limits, set_limit, trigger_team_budget_propagation, apply_team_resource,
}
use amazee_ai.Common.{
  any, [], none, some, true, false, refl, arith, ◌≡◌, ◌∷◌, ℕ, Option, length, select, find_first,
  All,
}

program : Unit {0}
unfolding set_team_limits check_key_limits check_vector_db_limits find_limit find_team find_row
    set_row find_first set_limit select
program = tt

abbrev settings : Settings
settings = record {
  dedicated_default_user_count = none;
  dedicated_default_service_keys = none;
  dedicated_default_vector_db_count = none;
  dedicated_default_rpm_per_key = none;
  pool_purchase_expiry_days = 365;
}

abbrev team_seven : Team
team_seven = record {
  id = 7;
  budget_type = periodic;
  require_purchase_for_requests = true;
  hide_public_regions = false;
}

abbrev row : ℕ → ResourceType → ℕ → Option ℕ → OwnerType → ℕ → LimitSource → Limit
row id resource value current kind owner source = record {
  id = id;
  limit_type = control_plane;
  resource = resource;
  unit = count;
  max_value = value;
  current_value = current;
  owner_type = kind;
  owner_id = owner;
  limited_by = source;
  set_by = none;
}

abbrev by_hand : Limit
by_hand = row 1 user 12 (some 3) team_owner 7 manual

abbrev services : Limit
services = row 2 service_key 2 (some 0) team_owner 7 default

abbrev databases : Limit
databases = row 3 vector_db 5 (some 5) team_owner 7 default

abbrev personal : Limit
personal = row 4 user_key 1 (some 0) user_owner 9 default

abbrev service : Key
service = record {
  owner_id = none;
  team_id = some 7;
  litellm_token = some "sk";
  database_name = none;
}

abbrev store : Store
store = record {
  limits =
      by_hand
      ∷ services
      ∷ databases
      ∷ personal
      ∷ row 5 budget 2700 (some 0) system 0 default
      ∷ row 6 user 1 (some 0) system 0 default
      ∷ [];
  next_id = 7;
  teams = team_seven ∷ [];
  users = record { id = 9; team_id = some 7 } ∷ [];
  team_products = [];
  keys = service ∷ service ∷ [];
  propagations = [];
}

store-Holds : Holds by_hand store
unfolding program
store-Holds = record { keyed = omega arith; fresh = omega arith; stored = refl }

set_team_limits-manual_example : Holds by_hand (set_team_limits settings team_seven store).1
set_team_limits-manual_example =
    set_team_limits-manual by_hand refl settings team_seven store store-Holds

abbrev lower : LimitedResource
lower = counter_request team_owner 7 user 1 0

services-IsCounter : IsCounter team_owner 7 service_key services store
unfolding program
services-IsCounter = record { keyed = omega arith; found = refl; plane = refl; unit = refl }

-- Both keys exist, so a third is refused although the stored counter says none.
third_key_refused : (check_key_limits settings 7 none store).0 ≡ raised payment_required
unfolding program
third_key_refused = refl

check_service_key_limits_exact_example :
    Admits team_owner 7 service_key
      (length (select (is_service_key_of 7) store.keys))
      services
      (check_key_limits settings 7 none store)
check_service_key_limits_exact_example =
    check_service_key_limits_exact settings 7 services store services-IsCounter

personal-IsCounter : IsCounter user_owner 9 user_key personal store
unfolding program
personal-IsCounter = record { keyed = omega arith; found = refl; plane = refl; unit = refl }

databases-IsCounter : IsCounter team_owner 7 vector_db databases store
unfolding program
databases-IsCounter = record { keyed = omega arith; found = refl; plane = refl; unit = refl }

abbrev team_budget : LimitedResource
team_budget = record (counter_request team_owner 7 budget 5000 0) { limited_by = product }

set_limit-levels_example :
    set_limit_with settings (trigger_team_budget_propagation settings 5) true team_budget store
    ≡ set_limit settings team_budget store
set_limit-levels_example = set_limit-levels settings 4 team_budget store

reset_limit-agrees_example :
    terms
      (find_limit team_owner 7 service_key (reset_limit settings team_owner 7 service_key store).1)
    ≡ terms (
        find_limit team_owner 7 service_key
          (apply_team_resource settings team_seven (databases ∷ services ∷ []) service_key store).1)
unfolding program any
reset_limit-agrees_example =
    reset_limit-agrees settings team_seven service_key services store store-Holds.keyed refl
      (databases ∷ services ∷ []) refl refl refl refl refl

setup_default_limits-idempotent_example :
    ((setup_default_limits settings true store).0 ≡ ok tt)
    × All (λ q. HasDefault q (setup_default_limits settings true store).1) default_resources
    × (setup_default_limits settings true (setup_default_limits settings true store).1
        ≡ (ok tt, (setup_default_limits settings true store).1))
    × (setup_default_limits settings false store ≡ (ok tt, store))
setup_default_limits-idempotent_example = setup_default_limits-idempotent settings store
