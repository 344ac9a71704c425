-- ===== src/Trial/Reaping.antt =====
-- The job that deletes abandoned trials, `reap_trial_keys` of app/core/worker.py.
use amazee_ai.Trial.Selecting.{select_trial_keys}
use amazee_ai.Trial.Model.{TrialSettings, Region, TrialKey, TrialStore}
use amazee_ai.Trial.Deleting.{TrialKeyDeletion, TrialCall, delete_trial_key}
use amazee_ai.Common.{
  [], none, some, true, false, suc, ◌&&◌, ◌∷◌, ◌++◌, if◌then◌else◌, ℕ, Bool, List, is_none, Instant,
  not, leb,
}

pub record TrialCleanupSummary : Type 0 where
  pub deleted : ℕ
  pub failed : ℕ
  pub users_deleted : ℕ
  pub results : List TrialKeyDeletion

abbrev pub ok : TrialKeyDeletion → Bool
ok r = is_none r.error

-- `TrialCleanupSummary.add`
abbrev pub add : TrialKeyDeletion → TrialCleanupSummary → TrialCleanupSummary
add r t = record {
  deleted = if ok r then suc t.deleted else t.deleted;
  failed = if ok r then t.failed else suc t.failed;
  users_deleted = if ok r && r.user_deleted then suc t.users_deleted else t.users_deleted;
  results = t.results ++ r ∷ [];
}

abbrev pub max_region_failures : ℕ
max_region_failures = 10

abbrev pub nothing : TrialCleanupSummary
nothing = record { deleted = 0; failed = 0; users_deleted = 0; results = [] }

module _ (c : TrialSettings) (fails : ℕ → TrialCall → Bool) where
  -- The loop over a region's keys, with its failures so far.
  unfoldable pub reap_keys :
      ℕ → ℕ → List TrialKey → TrialCleanupSummary × TrialStore → TrialCleanupSummary × TrialStore
  unfolding delete_trial_key
  reap_keys region failures [] x = x
  reap_keys region failures (k ∷ ks) x =
      let d = delete_trial_key c fails region true true k x.1 in
      let failures' = if ok d.0 then failures else suc failures in
      let rest = reap_keys region failures' ks (add d.0 x.0, d.1) in
      if not (ok d.0) && leb max_region_failures failures' then (add d.0 x.0, d.1) else rest

  unfoldable pub reap_region :
      List Region
      → Instant
      → Region
      → TrialCleanupSummary × TrialStore
      → TrialCleanupSummary × TrialStore
  unfolding select_trial_keys reap_keys
  reap_region regions now r x =
      elim (select_trial_keys c regions now r.id (some c.retention_days) false
        (some c.reap_batch_size) x.1) [ none ↦ x | some keys ↦ reap_keys r.id 0 keys x ]

  unfoldable pub reap_regions :
      List Region
      → Instant
      → List Region
      → TrialCleanupSummary × TrialStore
      → TrialCleanupSummary × TrialStore
  unfolding reap_region
  reap_regions regions now [] x = x
  reap_regions regions now (r ∷ rs) x = reap_regions regions now rs (reap_region regions now r x)

  unfoldable pub reap_trial_keys :
      List Region → Instant → TrialStore → TrialCleanupSummary × TrialStore
  unfolding reap_regions
  reap_trial_keys regions now s = reap_regions regions now regions (nothing, s)
