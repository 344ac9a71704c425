-- ===== src/Limits/Defaults.antt =====
-- `setup_default_limits` of app/core/limit_service.py: at start, the system's row of each of six
-- resources is written where it is missing. `enabled` is the reading of ENABLE_LIMITS.
use amazee_ai.Limits.Reading.{
  default_user_count, default_keys_per_user, default_service_keys, default_vector_db_count,
  default_max_spend,
}
use amazee_ai.Limits.Applying.{set_limit}
use amazee_ai.Limits.Model.{
  LimitedResource, ResourceType, Settings, Action, LimitType, user, UnitType, control_plane, pure,
  ◌>>=◌, count, gets, system, ◌>>◌, default, find_limit, user_key, service_key, vector_db, budget,
  data_plane, dollar, rpm,
}
use amazee_ai.Limits.Reading.{default_rpm_per_key}
use amazee_ai.Common.{[], none, some, ◌∷◌, List, Option, ℕ, if◌then◌else◌, Bool}

abbrev pub default_request : ResourceType → LimitType → UnitType → ℕ → Option ℕ → LimitedResource
default_request resource kind unit value current = record {
  limit_type = kind;
  resource = resource;
  unit = unit;
  max_value = value;
  current_value = current;
  owner_type = system;
  owner_id = 0;
  limited_by = default;
  set_by = none;
}

unfoldable pub default_limits : List LimitedResource
default_limits =
    default_request user control_plane count default_user_count (some 0)
    ∷ default_request user_key control_plane count default_keys_per_user (some 0)
    ∷ default_request service_key control_plane count default_service_keys (some 0)
    ∷ default_request vector_db control_plane count default_vector_db_count (some 0)
    ∷ default_request budget data_plane dollar default_max_spend none
    ∷ default_request rpm data_plane count default_rpm_per_key none
    ∷ []

module _ (c : Settings) where
  unfoldable pub setup_default_limit : LimitedResource → Action (Unit {0})
  unfolding set_limit
  setup_default_limit r = do
    existing ← gets (find_limit system 0 r.resource)
    elim existing [ none ↦ set_limit c r >> pure tt | some l ↦ pure tt ]

  unfoldable pub setup_limits : List LimitedResource → Action (Unit {0})
  unfolding setup_default_limit
  setup_limits [] = pure tt
  setup_limits (r ∷ rs) = setup_default_limit r >> setup_limits rs

  unfoldable pub setup_default_limits : Bool → Action (Unit {0})
  unfolding setup_limits default_limits
  setup_default_limits enabled = if enabled then setup_limits default_limits else pure tt
