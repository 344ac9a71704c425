-- ===== src/Trial/Loop.antt =====
-- What the job keeps of the rows when each deletion of a selected key keeps it.
use amazee_ai.Trial.Reaping.{
  reap_keys, reap_region, reap_regions, reap_trial_keys, TrialCleanupSummary, nothing, ok,
  max_region_failures, add,
}
use amazee_ai.Trial.Selecting.{select_trial_keys}
use amazee_ai.Trial.Deleting.{TrialCall, delete_trial_key}
use amazee_ai.Trial.Model.{TrialSettings, Region, TrialStore, TrialKey}
use amazee_ai.Common.{
  leb, ℕ, [], none, some, true, false, inl, inr, suc, refl, ◌≡◌, ◌&&◌, ◌∷◌, if◌then◌else◌, Bool,
  List, Instant, All, Option, Bool-cases, not, subst, sym, if_true, if_false,
}

module _ (c : TrialSettings) (fails : ℕ → TrialCall → Bool) (regions : List Region) (now : Instant)
    (P : TrialStore → Type 0) (Q : TrialKey → Type 0)
    (selected : (r : ℕ) (s : TrialStore) (keys : List TrialKey)
      → P s
      → select_trial_keys c regions now r (some c.retention_days) false (some c.reap_batch_size) s
        ≡ some keys
      → All Q keys)
    (step : (r : ℕ) (k : TrialKey) (s : TrialStore)
      → Q k
      → P s
      → P (delete_trial_key c fails r true true k s).1) where
  reap_keys_loop :
      (r n : ℕ) (keys : List TrialKey) (x : TrialCleanupSummary × TrialStore)
      → All Q keys
      → P x.1
      → P (reap_keys c fails r n keys x).1
  unfolding reap_keys
  reap_keys_loop r n [] x q h = h
  reap_keys_loop r n (k ∷ ks) x q h =
      let R : TrialCleanupSummary × TrialStore → Type 0 = λ y. P y.1 in
      let d = delete_trial_key c fails r true true k x.1 in
      let failures = if ok d.0 then n else suc n in
      let h' = step r k x.1 q.0 h in
      elim (Bool-cases (not (ok d.0) && leb max_region_failures failures)) [
        | inl e ↦ subst R (sym (if_true _ _ e)) h'
        | inr e ↦
            subst R (sym (if_false _ _ e)) (reap_keys_loop r failures ks (add d.0 x.0, d.1) q.1 h')
      ]

  reap_region_loop :
      (r : Region) (x : TrialCleanupSummary × TrialStore)
      → P x.1
      → P (reap_region c fails regions now r x).1
  unfolding reap_region
  reap_region_loop r x h =
      swept
        (select_trial_keys c regions now r.id (some c.retention_days) false (some c.reap_batch_size)
          x.1)
        (λ keys e. selected r.id x.1 keys h e)
    where
      swept :
          (o : Option (List TrialKey))
          → ((keys : List TrialKey) → o ≡ some keys → All Q keys)
          → P
              (elim o as (λ _. TrialCleanupSummary × TrialStore) [
                | none ↦ x
                | some keys ↦ reap_keys c fails r.id 0 keys x
              ]).1
      swept none f = h
      swept (some keys) f = reap_keys_loop r.id 0 keys x (f keys refl) h

  reap_regions_loop :
      (rs : List Region) (x : TrialCleanupSummary × TrialStore)
      → P x.1
      → P (reap_regions c fails regions now rs x).1
  unfolding reap_regions
  reap_regions_loop [] x h = h
  reap_regions_loop (r ∷ rs) x h =
      reap_regions_loop rs (reap_region c fails regions now r x) (reap_region_loop r x h)

  pub reap_trial_keys_loop : (s : TrialStore) → P s → P (reap_trial_keys c fails regions now s).1
  unfolding reap_trial_keys
  reap_trial_keys_loop s h = reap_regions_loop regions (nothing, s) h
