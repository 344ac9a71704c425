-- ===== src/Trial/Tests.antt =====
-- Runs on concrete trials: two keys of one user, one of another, in the region trials are issued on.
use amazee_ai.Trial.Selection.{select_trial_keys_live}
use amazee_ai.Trial.Reaper.{is_reapable, reap_trial_keys_spares}
use amazee_ai.Limits.Model.{user_owner, budget}
use Prim.Native.String.{String}
use amazee_ai.Trial.Owners.{IsConsistent, reap_trial_keys-IsConsistent}
use amazee_ai.Trial.Deletion.{IsHandled, has_row, delete_trial_key-IsHandled}
use amazee_ai.Trial.Selecting.{
  assess_selection, resolve_live_trial_region, select_trial_keys, is_older,
  live_region_min_age_days,
}
use amazee_ai.Trial.Reaping.{TrialCleanupSummary, reap_trial_keys}
use amazee_ai.Trial.Deleting.{TrialCall, delete_trial_key, delete_key}
use amazee_ai.Trial.Model.{
  TrialSettings, TrialStore, TrialUser, Region, Resource, TrialKey, is_trial_key,
  get_trial_team_ids, is_number, is_anonymous_trial_team,
}
use amazee_ai.Common.Sort.{sort_by}
use amazee_ai.Common.{
  plus_days, find_first, select, ℕ, [], none, some, true, false, refl, ◌≡◌, ◌⊎◌, ◌∷◌, Instant, List,
  All, Bool, first, map, arith, ◌≢◌, ◌==◌, any,
}

abbrev settings : TrialSettings
settings = record {
  lower = λ x. x;
  trial_team_email = "trial@amazee.ai";
  trial_region = "eu";
  trial_region_number = none;
  retention_days = 30;
  reap_batch_size = 100;
}

abbrev regions : List Region
regions =
    record { id = 1; name = "eu"; is_active = true }
    ∷ record { id = 2; name = "us"; is_active = true }
    ∷ []

abbrev key : ℕ → ℕ → Instant → TrialKey
key id owner created = record {
  id = id;
  owner_id = some owner;
  team_id = none;
  region_id = some 1;
  litellm_token = some "sk";
  database_name = some "db";
  created_at = some created;
}

abbrev resource : String → Resource
resource name = record { region_id = 1; name = name }

abbrev user : ℕ → TrialUser
user id = record { id = id; team_id = some 7 }

-- The second user's key is a day old at `now`.
abbrev store : TrialStore
store = record {
  keys = key 1 11 0 ∷ key 2 11 0 ∷ key 3 12 (plus_days 0 39) ∷ [];
  users = user 11 ∷ user 12 ∷ [];
  teams = record { id = 7; admin_email = some "trial@amazee.ai" } ∷ [];
  limits =
      record { owner_type = user_owner; owner_id = 11; resource = budget; current_value = some 5 }
      ∷ [];
  caps = record { key_id = some 1; user_id = some 11 } ∷ [];
  alerts = record { key_id = some 3; user_id = some 12 } ∷ [];
  audit = some 11 ∷ none ∷ [];
  tokens = resource "sk" ∷ [];
  databases = resource "db" ∷ [];
}

abbrev now : Instant
now = plus_days 0 40

abbrev no_failure : ℕ → TrialCall → Bool
no_failure region call = false

abbrev litellm_down : ℕ → TrialCall → Bool
litellm_down region (delete_key t) = true
litellm_down region call = false

abbrev ids : List TrialKey → List ℕ
ids = map (λ k. k.id)

abbrev reaped : TrialCleanupSummary × TrialStore
reaped = reap_trial_keys settings no_failure regions now store

-- Both keys of the first user go, and with the second the user.
reaped_keys : ids reaped.1.keys ≡ 3 ∷ []
unfolding reap_trial_keys find_first sort_by select any
reaped_keys = refl

reaped_users : reaped.0.users_deleted ≡ 1
unfolding reap_trial_keys find_first sort_by select any
reaped_users = refl

down_keys : ids (reap_trial_keys settings litellm_down regions now store).1.keys ≡ 1 ∷ 2 ∷ 3 ∷ []
unfolding reap_trial_keys find_first sort_by select any
down_keys = refl

-- At a retention of less than 30 days the live region is refused.
young_sweep : select_trial_keys settings regions now 1 (some 29) false none store ≡ none
unfolding select_trial_keys find_first
young_sweep = refl

risk :
    assess_selection now store store.keys
    ≡ record { total = 3; with_spend = 2; younger_than_30d = 1 }
unfolding assess_selection any
risk = refl

delete_trial_key-IsHandled_example :
    IsHandled 1
      (key 1 11 0)
      store
      (delete_trial_key settings litellm_down 1 true true (key 1 11 0) store)
delete_trial_key-IsHandled_example =
    delete_trial_key-IsHandled settings litellm_down 1 true true (key 1 11 0) store

consistent : IsConsistent store
unfolding any
consistent = ((refl, (refl, (refl, tt))), (refl, tt), (refl, tt), (refl, (refl, tt)))

reap_trial_keys-IsConsistent_example :
    IsConsistent (reap_trial_keys settings no_failure regions now store).1
reap_trial_keys-IsConsistent_example =
    reap_trial_keys-IsConsistent settings no_failure regions now store consistent

live_region : resolve_live_trial_region settings regions ≡ first regions
unfolding resolve_live_trial_region find_first
live_region = refl

select_trial_keys_live_example :
    (select_trial_keys settings regions now 1 (some 30) false none store ≡ none)
    ⊎ ((keys : List TrialKey) × (select_trial_keys settings regions now 1 (some 30) false none store
          ≡ some keys)
        × All
            (λ k.
              (is_older now (some live_region_min_age_days) k ≡ true)
              × (is_trial_key (get_trial_team_ids settings store) store k ≡ true)
              × (is_number 1 k.region_id ≡ true))
            keys)
select_trial_keys_live_example =
    select_trial_keys_live settings regions (record { id = 1; name = "eu"; is_active = true }) now
      (some 30) false none store live_region

others : (n : ℕ) → (n == 3) ≡ false → n ≢ 3
others n h = ground arith

too_young : is_reapable settings now store (key 3 12 (plus_days 0 39)) ≡ false
unfolding any select is_anonymous_trial_team
too_young = refl

has_third : has_row 3 store.keys ≡ true
unfolding any
has_third = refl

reap_trial_keys_spares_example :
    has_row 3 (reap_trial_keys settings no_failure regions now store).1.keys ≡ true
reap_trial_keys_spares_example =
    reap_trial_keys_spares settings no_failure regions now 3 store has_third young
  where
    young : All (λ k. k.id ≡ 3 → is_reapable settings now store k ≡ false) store.keys
    young =
        (λ e. elim (others 1 refl e) [ ], (λ e. elim (others 2 refl e) [ ], (λ e. too_young, tt)))
