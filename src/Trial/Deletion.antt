-- ===== src/Trial/Deletion.antt =====
-- What is left of a trial key by its deletion, whatever fails.
use amazee_ai.Trial.Branches.{delete_owned_rows_cases, delete_trial_key_cases}
use Prim.Native.String.{String}
use amazee_ai.Trial.Model.{TrialStore, TrialKey, TrialSettings, Resource}
use amazee_ai.Trial.Deleting.{
  delete_owned_rows, delete_trial_key, without, TrialKeyDeletion, delete_key_rows, TrialCall,
  is_resource, recorded_spend, litellm_failed, database_failed, drop_token, rows_failed,
  drop_database, TrialError,
}
use amazee_ai.Common.{
  [], none, some, true, false, inl, inr, refl, arith, ◌≡◌, ◌∷◌, if◌then◌else◌, any, ℕ, List, Option,
  select, Bool, not, Bool-cases, truthy, ◌⊎◌,
}
use amazee_ai.Common.{◌==◌}

-- No resource of the region has the text as its name, where there is a text.
abbrev pub is_released : ℕ → Option String → List Resource → Bool
is_released region name xs = elim name [
  | none ↦ true
  | some t ↦ if truthy (some t) then not (any (is_resource region t) xs) else true
]

any-select-not :
    {A : Type 0} (p : A → Bool) (xs : List A) → any p (select (λ x. not (p x)) xs) ≡ false
unfolding any select
any-select-not p [] = refl
any-select-not p (x ∷ xs) = ground (arith, any-select-not p xs)

is_released-without :
    (region : ℕ) (name : Option String) (xs : List Resource)
    → is_released region name (without region name xs) ≡ true
unfolding without
is_released-without region none xs = refl
is_released-without region (some t) xs = elim (Bool-cases (truthy (some t))) [
  | inl e ↦ ground (arith, e, any-select-not (is_resource region t) xs)
  | inr e ↦ ground (arith, e)
]

abbrev pub has_row : ℕ → List TrialKey → Bool
has_row i = any (λ k. k.id == i)

-- All rows of the two are the same.
abbrev pub IsSameRows : TrialStore → TrialStore → Type 0
IsSameRows s s' =
    (s'.keys ≡ s.keys)
    × (s'.users ≡ s.users)
    × (s'.teams ≡ s.teams)
    × (s'.limits ≡ s.limits)
    × (s'.caps ≡ s.caps)
    × (s'.alerts ≡ s.alerts)
    × (s'.audit ≡ s.audit)

abbrev pub IsGone : ℕ → TrialKey → TrialStore → Type 0
IsGone region k s =
    (has_row k.id s.keys ≡ false)
    × (is_released region k.litellm_token s.tokens ≡ true)
    × (is_released region k.database_name s.databases ≡ true)

IsGone-delete_owned_rows :
    (c : TrialSettings) (region : ℕ) (delete_user : Bool) (k : TrialKey) (s : TrialStore)
    → is_released region k.litellm_token s.tokens ≡ true
    → is_released region k.database_name s.databases ≡ true
    → IsGone region k (delete_owned_rows c delete_user k s).1
unfolding delete_key_rows
IsGone-delete_owned_rows c region delete_user k s token database =
    let gone : IsGone region k (delete_key_rows k s) =
      (any-select-not (λ x. x.id == k.id) s.keys, token, database) in
    delete_owned_rows_cases (IsGone region k) c delete_user k s gone (λ u free. gone)

abbrev pub IsHandled : ℕ → TrialKey → TrialStore → TrialKeyDeletion × TrialStore → Type 0
IsHandled region k s x =
    ((x.0.error ≡ none) × IsGone region k x.1)
    ⊎ ((e : TrialError) × (x.0.error ≡ some e) × IsSameRows s x.1)

-- Whatever fails: either the deletion reports no error, and then the key's row is gone, the region holds
-- no key of LiteLLM under its token and no database under its name; or it reports an error, and then no
-- row of the key, of a user, a team, a limit, a cap, an alert or the audit log is touched.
pub delete_trial_key-IsHandled :
    (c : TrialSettings) (fails : ℕ → TrialCall → Bool) (region : ℕ) (delete_user allow_used : Bool)
    (k : TrialKey) (s : TrialStore)
    → IsHandled region k s (delete_trial_key c fails region delete_user allow_used k s)
delete_trial_key-IsHandled c fails region delete_user allow_used k s =
    let same : IsSameRows s s = (refl, refl, refl, refl, refl, refl, refl) in
    delete_trial_key_cases (IsHandled region k s) c fails region delete_user allow_used k s
      (inr (recorded_spend, refl, same)) (inr (litellm_failed, refl, same))
      (inr (database_failed, refl, same)) (inr (rows_failed, refl, same))
      (inl (
        refl,
        IsGone-delete_owned_rows c region delete_user k
            (drop_database region k (drop_token region k s))
            (is_released-without region k.litellm_token s.tokens)
            (is_released-without region k.database_name s.databases),
      ))
