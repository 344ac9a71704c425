-- ===== src/Trial/Model.antt =====
-- The rows of anonymous trials and what the regions hold for them, app/core/trial_cleanup.py and
-- `is_anonymous_trial_team` of app/core/team_service.py. `str.lower` is a parameter.

use amazee_ai.Limits.Model.{OwnerType, ResourceType, same_owner, user_owner, same_resource, budget}
use amazee_ai.Common.{
  none, some, false, ◌&&◌, ◌||◌, ◌==◌, Bool, List, Option, ℕ, Instant, any, map, truthy, select,
  ltb,
}
use Prim.Native.String.{String}
use text.Mathlib.Text.{◌==◌ as same_text}

pub record Region : Type 0 where
  pub id : ℕ
  pub name : String
  pub is_active : Bool

pub record TrialTeam : Type 0 where
  pub id : ℕ
  pub admin_email : Option String

pub record TrialUser : Type 0 where
  pub id : ℕ
  pub team_id : Option ℕ

-- A row of `ai_tokens`.
pub record TrialKey : Type 0 where
  pub id : ℕ
  pub owner_id : Option ℕ
  pub team_id : Option ℕ
  pub region_id : Option ℕ
  pub litellm_token : Option String
  pub database_name : Option String
  pub created_at : Option Instant

-- A row of `limited_resources`.
pub record LimitRow : Type 0 where
  pub owner_type : OwnerType
  pub owner_id : ℕ
  pub resource : ResourceType
  pub current_value : Option ℕ

-- What a row of `spend_caps`, and one of `budget_alert_state`, refers to.
pub record Reference : Type 0 where
  pub key_id : Option ℕ
  pub user_id : Option ℕ

-- What a region holds, by its name there.
pub record Resource : Type 0 where
  pub region_id : ℕ
  pub name : String

-- The rows; for an entry of the audit log its user; the keys of LiteLLM and the databases of every region.
pub record TrialStore : Type 0 where
  pub keys : List TrialKey
  pub users : List TrialUser
  pub teams : List TrialTeam
  pub limits : List LimitRow
  pub caps : List Reference
  pub alerts : List Reference
  pub audit : List (Option ℕ)
  pub tokens : List Resource
  pub databases : List Resource

pub record TrialSettings : Type 0 where
  pub lower : String → String
  pub trial_team_email : String
  pub trial_region : String
  pub trial_region_number : Option ℕ
  pub retention_days : ℕ
  pub reap_batch_size : ℕ

abbrev pub is_number : ℕ → Option ℕ → Bool
is_number n none = false
is_number n (some m) = m == n

unfoldable pub is_anonymous_trial_team : TrialSettings → TrialTeam → Bool
is_anonymous_trial_team c t = elim t.admin_email [
  | none ↦ false
  | some email ↦ truthy (some email) && same_text (c.lower email) (c.lower c.trial_team_email)
]

abbrev pub get_trial_team_ids : TrialSettings → TrialStore → List ℕ
get_trial_team_ids c s = map (λ t. t.id) (select (is_anonymous_trial_team c) s.teams)

abbrev pub is_among : List ℕ → Option ℕ → Bool
is_among ids none = false
is_among ids (some n) = any (λ i. i == n) ids

abbrev pub is_owner : Option ℕ → TrialUser → Bool
is_owner owner u = is_number u.id owner

-- The team's own, or its user's.
abbrev pub is_trial_key : List ℕ → TrialStore → TrialKey → Bool
is_trial_key ids s k =
    is_among ids k.team_id || any (λ u. is_owner k.owner_id u && is_among ids u.team_id) s.users

-- `_has_recorded_spend`, and `key_has_recorded_spend`
unfoldable pub has_recorded_spend : TrialStore → TrialKey → Bool
has_recorded_spend s k =
    any
      (λ l.
        same_owner l.owner_type user_owner
        && is_number l.owner_id k.owner_id
        && same_resource l.resource budget
        && elim l.current_value [ none ↦ false | some v ↦ ltb 0 v ])
      s.limits
