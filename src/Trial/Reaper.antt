-- ===== src/Trial/Reaper.antt =====
-- Whom the reaper of abandoned trials spares, and when it gives a region up.
use amazee_ai.Common.Lists.{All-select, any-false, any-false_inv}
use amazee_ai.Trial.Owners.{any-select_other}
use amazee_ai.Trial.Selection.{select_trial_keys_inv, query_keys-All, is_selected_inv}
use amazee_ai.Trial.Loop.{reap_trial_keys_loop}
use amazee_ai.Trial.Reaping.{reap_trial_keys}
use amazee_ai.Trial.Selecting.{query_keys, is_older}
use amazee_ai.Trial.Branches.{delete_trial_key_cases, delete_owned_rows_cases}
use amazee_ai.Trial.Deletion.{has_row}
use amazee_ai.Trial.Deleting.{
  delete_key_rows, TrialCall, delete_trial_key, remove_user, drop_database, drop_token,
}
use amazee_ai.Trial.Model.{
  TrialSettings, TrialKey, TrialStore, is_trial_key, Region, get_trial_team_ids, is_among, is_owner,
}
use amazee_ai.Common.{
  ℕ, some, true, false, ◌≡◌, ◌≢◌, ◌&&◌, ◌==◌, ◌∙◌, Instant, Bool, All, List, All-mono, subst, inl,
  inr, arith, Bool-cases, any, not, select,
}

abbrev pub is_reapable : TrialSettings → Instant → TrialStore → TrialKey → Bool
is_reapable c now s k =
    is_trial_key (get_trial_team_ids c s) s k && is_older now (some c.retention_days) k

-- The rows of a key are there, and none of them is to be reaped.
abbrev IsSpared : TrialSettings → Instant → ℕ → TrialStore → Type 0
IsSpared c now i s =
    (has_row i s.keys ≡ true) × All (λ k. k.id ≡ i → is_reapable c now s k ≡ false) s.keys

other_lem :
    (i : ℕ) (k : TrialKey)
    → k.id ≢ i
    → (x : TrialKey) → (x.id == i) ≡ true
    → not (x.id == k.id) ≡ true
other_lem i k other x e = ground arith

-- The key that goes is another.
delete_key_rows-IsSpared :
    (c : TrialSettings) (now : Instant) (i : ℕ) (k : TrialKey) (s : TrialStore)
    → k.id ≢ i
    → IsSpared c now i s
    → IsSpared c now i (delete_key_rows k s)
unfolding delete_key_rows
delete_key_rows-IsSpared c now i k s other h = (
  any-select_other (λ x. x.id == i) (λ x. not (x.id == k.id)) s.keys (other_lem i k other) ∙ h.0,
  All-select _ (λ x. not (x.id == k.id)) s.keys h.1,
)

any-select-false :
    {A : Type 0} (p q : A → Bool) (xs : List A) → any p xs ≡ false → any p (select q xs) ≡ false
any-select-false p q xs h = any-false p (select q xs) (All-select _ q xs (any-false_inv p xs h))

-- Without a user no key becomes a trial's.
is_reapable-remove_user :
    (c : TrialSettings) (now : Instant) (u : ℕ) (s : TrialStore) (k : TrialKey)
    → is_reapable c now s k ≡ false
    → is_reapable c now (remove_user u s) k ≡ false
is_reapable-remove_user c now u s k h =
    let ids = get_trial_team_ids c s in
    elim (Bool-cases (is_older now (some c.retention_days) k)) [
      | inr e ↦ ground (arith, e)
      | inl e ↦ elim (Bool-cases (is_among ids k.team_id)) [
        | inl f ↦ ground (arith, e, f)
        | inr f ↦
            let none_of : any (λ x. is_owner k.owner_id x && is_among ids x.team_id) s.users
                ≡ false =
              ground (arith, e, f) in
            ground (
              arith,
              e,
              f,
              any-select-false (λ x. is_owner k.owner_id x && is_among ids x.team_id)
                  (λ x. not (x.id == u)) s.users none_of,
            )
      ]
    ]

remove_user-IsSpared :
    (c : TrialSettings) (now : Instant) (i u : ℕ) (s : TrialStore)
    → IsSpared c now i s
    → IsSpared c now i (remove_user u s)
remove_user-IsSpared c now i u s h =
    (h.0, All-mono _ _ s.keys (λ k f e. is_reapable-remove_user c now u s k (f e)) h.1)

delete_trial_key-IsSpared :
    (c : TrialSettings) (fails : ℕ → TrialCall → Bool) (now : Instant) (i region : ℕ) (k : TrialKey)
    (s : TrialStore)
    → k.id ≢ i
    → IsSpared c now i s
    → IsSpared c now i (delete_trial_key c fails region true true k s).1
delete_trial_key-IsSpared c fails now i region k s other h =
    delete_trial_key_cases (λ x. IsSpared c now i x.1) c fails region true true k s h h h h
      (let s2 = drop_database region k (drop_token region k s) in
        let h' : IsSpared c now i (delete_key_rows k s2) =
          delete_key_rows-IsSpared c now i k s2 other h in
        delete_owned_rows_cases (IsSpared c now i) c true k s2 h'
          (λ u free. remove_user-IsSpared c now i u (delete_key_rows k s2) h'))

query_keys-IsSpared :
    (c : TrialSettings) (now : Instant) (i region : ℕ) (s : TrialStore)
    → IsSpared c now i s
    → All
        (λ k. k.id ≢ i)
        (query_keys c now region (some c.retention_days) false (some c.reap_batch_size) s)
query_keys-IsSpared c now i region s h =
    All-mono _ _ (query_keys c now region (some c.retention_days) false (some c.reap_batch_size) s)
      (λ k x same.
        let young = x.0 same in
        let e = is_selected_inv c now region c.retention_days false s k x.1 in
        ground (arith, young, e.0, e.1))
      (query_keys-All c now region (some c.retention_days) false (some c.reap_batch_size) s
        (λ k. k.id ≡ i → is_reapable c now s k ≡ false) h.1)

-- A key that is no trial's, or not older than the days a trial is kept for, still has its row after the job
-- ran in every region.
pub reap_trial_keys_spares :
    (c : TrialSettings) (fails : ℕ → TrialCall → Bool) (regions : List Region) (now : Instant)
    (i : ℕ) (s : TrialStore)
    → has_row i s.keys ≡ true
    → All (λ k. k.id ≡ i → is_reapable c now s k ≡ false) s.keys
    → has_row i (reap_trial_keys c fails regions now s).1.keys ≡ true
reap_trial_keys_spares c fails regions now i s here young =
    (reap_trial_keys_loop c fails regions now (IsSpared c now i) (λ k. k.id ≢ i)
      (λ r s' keys h e.
        subst (All (λ k. k.id ≢ i))
          (select_trial_keys_inv c regions now r (some c.retention_days) false
            (some c.reap_batch_size) s' keys e)
          (query_keys-IsSpared c now i r s' h))
      (λ r k s' other h. delete_trial_key-IsSpared c fails now i r k s' other h) s (here, young)).0
