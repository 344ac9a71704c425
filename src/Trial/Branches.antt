-- ===== src/Trial/Branches.antt =====
-- The ways through the deletion of a trial key.
use amazee_ai.Trial.Model.{TrialStore, TrialSettings, TrialKey, has_recorded_spend, TrialUser}
use amazee_ai.Trial.Deleting.{
  delete_owned_rows, delete_trial_key, delete_trial_user, TrialKeyDeletion, TrialCall, owns,
  delete_key_rows, deletion, remove_user, recorded_spend, litellm_failed, database_failed,
  drop_token, rows_failed, drop_database, in_trial_team, call_fails, delete_key, delete_database,
  delete_rows, SkipReason, row_gone, no_trial_team,
}
use amazee_ai.Common.{
  ℕ, none, some, true, false, inl, inr, ◌≡◌, ◌&&◌, ◌==◌, Bool, any, Bool-cases, subst, sym, if_true,
  if_false, find_first, not, if◌then◌else◌, Option,
}

-- The ways out of a deletion, with the guard's condition for each.
pub delete_trial_key_cases {ℓ} :
    (P : TrialKeyDeletion × TrialStore → Type ℓ) (c : TrialSettings) (fails : ℕ → TrialCall → Bool)
    (region : ℕ) (delete_user allow_used : Bool) (k : TrialKey) (s : TrialStore)
    → P (deletion k false false false (some recorded_spend) none, s)
    → P (deletion k false false false (some litellm_failed) none, s)
    → P (deletion k true false false (some database_failed) none, drop_token region k s)
    → P (
      deletion k true true false (some rows_failed) none,
      drop_database region k (drop_token region k s),
    )
    → (let x = delete_owned_rows c delete_user k (drop_database region k (drop_token region k s)) in
        P (deletion k true true true none x.0, x.1))
    → P (delete_trial_key c fails region delete_user allow_used k s)
unfolding delete_trial_key
delete_trial_key_cases P c fails region delete_user allow_used k s used token database rows done =
    elim (Bool-cases (not allow_used && has_recorded_spend s k)) [
      | inl e ↦ subst P (sym (if_true _ _ e)) used
      | inr e ↦
          subst P (sym (if_false _ _ e))
            (elim (Bool-cases (call_fails (fails region) delete_key k.litellm_token)) [
              | inl e1 ↦ subst P (sym (if_true _ _ e1)) token
              | inr e1 ↦
                  subst P (sym (if_false _ _ e1))
                    (elim (Bool-cases (call_fails (fails region) delete_database k.database_name)) [
                      | inl e2 ↦ subst P (sym (if_true _ _ e2)) database
                      | inr e2 ↦
                          subst P (sym (if_false _ _ e2))
                            (elim (Bool-cases (fails region (delete_rows k.id))) [
                              | inl e3 ↦ subst P (sym (if_true _ _ e3)) rows
                              | inr e3 ↦ subst P (sym (if_false _ _ e3)) done
                            ])
                    ])
            ])
    ]

delete_trial_user_cases {ℓ} :
    (P : TrialStore → Type ℓ) (c : TrialSettings) (u : ℕ) (s : TrialStore)
    → P s
    → (any (owns u) s.keys ≡ false → P (remove_user u s))
    → P (delete_trial_user c u s).1
unfolding delete_trial_user
delete_trial_user_cases P c u s kept removed =
    let Q : Option SkipReason × TrialStore → Type ℓ = λ y. P y.1 in
    elim (Bool-cases (any (owns u) s.keys)) [
      | inl e ↦ subst Q (sym (if_true _ _ e)) kept
      | inr e ↦ subst Q (sym (if_false _ _ e)) (found (find_first (λ x. x.id == u) s.users) e)
    ]
  where
    found :
        (o : Option TrialUser)
        → any (owns u) s.keys ≡ false
        → P
            (elim o as (λ _. Option SkipReason × TrialStore) [
              | none ↦ (some row_gone, s)
              | some x ↦
                  if in_trial_team c s x then (none, remove_user u s) else (some no_trial_team, s)
            ]).1
    found none e = kept
    found (some x) e =
        let Q : Option SkipReason × TrialStore → Type ℓ = λ y. P y.1 in
        elim (Bool-cases (in_trial_team c s x)) [
          | inl f ↦ subst Q (sym (if_true _ _ f)) (removed e)
          | inr f ↦ subst Q (sym (if_false _ _ f)) kept
        ]

-- The rows that are left: without the key's, or without its owner's too, who has no other key.
pub delete_owned_rows_cases {ℓ} :
    (P : TrialStore → Type ℓ) (c : TrialSettings) (delete_user : Bool) (k : TrialKey)
    (s : TrialStore)
    → P (delete_key_rows k s)
    → ((u : ℕ)
        → any (owns u) (delete_key_rows k s).keys ≡ false
        → P (remove_user u (delete_key_rows k s)))
    → P (delete_owned_rows c delete_user k s).1
unfolding delete_owned_rows
delete_owned_rows_cases P c delete_user k s kept removed = owned k.owner_id
  where
    owned :
        (o : Option ℕ)
        → P
            (elim o as (λ _. Option (Option SkipReason) × TrialStore) [
              | none ↦ (none, delete_key_rows k s)
              | some owner ↦
                  let x = delete_trial_user c owner (delete_key_rows k s) in
                  if delete_user then (some x.0, x.1) else (none, delete_key_rows k s)
            ]).1
    owned none = kept
    owned (some u) =
        let Q : Option (Option SkipReason) × TrialStore → Type ℓ = λ y. P y.1 in
        elim (Bool-cases delete_user) [
          | inl e ↦
              subst Q (sym (if_true _ _ e))
                (delete_trial_user_cases P c u (delete_key_rows k s) kept (removed u))
          | inr e ↦ subst Q (sym (if_false _ _ e)) kept
        ]
