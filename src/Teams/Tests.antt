-- ===== src/Teams/Tests.antt =====
-- A team with two users and two keys, deleted and restored, and the theorems applied there.
use amazee_ai.Teams.Warnings.{key_failed, region_failed, restore_soft_deleted_team-warns}
use amazee_ai.Teams.Deletion.{sets_duration, has_token_in, soft_delete_team-expires}
use amazee_ai.Teams.Roundtrip.{restore-soft_delete_team}
use amazee_ai.Teams.Restoring.{restore_soft_deleted_team, restored, has_name}
use amazee_ai.Common.{
  [], none, some, true, false, refl, ◌≡◌, ◌&&◌, ◌||◌, ◌∷◌, ◌++◌, Bool, List, Option, ℕ, any, select,
}
use amazee_ai.Teams.{
  TeamStore, Region, Member, TeamKey, Call, soft_delete_team, update_key_duration, String,
  create_user, get_team_keys_by_region, set_users_active, is_team_key, in_team, group_keys,
  calls_of,
}
use amazee_ai.Teams.Propagation.{BudgetRequest, propagate_regions}

abbrev eu : Region
eu = record { id = 1; name = "eu"; is_active = true }

abbrev member : ℕ → Option ℕ → Member
member n team = record { id = n; team_id = team; is_active = true }

abbrev key : ℕ → Option ℕ → Option ℕ → Option String → TeamKey
key n owner team token = record {
  id = n;
  owner_id = owner;
  team_id = team;
  litellm_token = token;
  region = some eu;
}

abbrev store : TeamStore
store = record {
  team = record {
    id = 7;
    is_active = true;
    deleted_at = none;
    retention_warning_sent_at = none;
    updated_at = none;
  };
  users = member 1 (some 7) ∷ member 2 (some 8) ∷ [];
  keys =
      key 1 (some 1) none (some "sk-1")
      ∷ key 2 none (some 7) none
      ∷ key 3 (some 2) none (some "sk-3")
      ∷ [];
  audit = [];
  calls = [];
}

-- Only the creation of the user fails.
abbrev fails : Call → Bool
fails (create_user r u) = true
fails _ = false

abbrev models : Region → Option (List String)
models r = some ("basic" ∷ [])

program : Unit {0}
unfolding soft_delete_team restore_soft_deleted_team get_team_keys_by_region propagate_regions
    set_users_active select any group_keys calls_of
program = tt

deleted_run : (soft_delete_team 5 store).calls ≡ update_key_duration 1 "sk-1" 0 ∷ []
unfolding program
deleted_run = refl

restored_run :
    (restore_soft_deleted_team fails models 9 (eu ∷ []) (soft_delete_team 5 store)).0
    ≡ restored ("eu" ∷ [])
unfolding program
restored_run = refl

soft_delete_team-expires_example :
    (requested : List Call) × ((soft_delete_team 5 store).calls ≡ [] ++ requested)
    × (any (sets_duration 0 1 "sk-1") requested
        ≡ any (λ k. is_team_key 7 store.users k && has_token_in 1 "sk-1" k) store.keys)
soft_delete_team-expires_example = soft_delete_team-expires 5 1 "sk-1" store

restore-soft_delete_team_example :
    let after = (restore_soft_deleted_team fails models 9 (eu ∷ []) (soft_delete_team 5 store)).1 in
    (after.users ≡ store.users) × (after.team ≡ record (store.team) { updated_at = some 9 })
restore-soft_delete_team_example =
    restore-soft_delete_team fails models 5 9 (eu ∷ []) store refl refl refl
      ((λ _. refl), ((λ _. refl), tt))

restore_soft_deleted_team-warns_example :
    (warnings : List String) × ((restore_soft_deleted_team fails models 9
        (eu ∷ [])
        (soft_delete_team 5 store)).0
      ≡ restored warnings)
    × (has_name "eu" warnings ≡ (
        any
          (region_failed fails models "eu" 7
            (select (λ u. in_team 7 u.team_id) (soft_delete_team 5 store).users))
          (eu ∷ [])
        || any
            (key_failed fails models "eu")
            (get_team_keys_by_region 7 (soft_delete_team 5 store))))
unfolding soft_delete_team
restore_soft_deleted_team-warns_example =
    restore_soft_deleted_team-warns fails models 9 (eu ∷ []) (soft_delete_team 5 store) 5 "eu" refl

abbrev request : BudgetRequest
request = record {
  budget_amount = 5000;
  budget_duration = "30d";
  region_id = none;
  update_key_limits = true;
  apply_to_keys = true;
}
