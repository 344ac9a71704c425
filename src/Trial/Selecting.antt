-- ===== src/Trial/Selecting.antt =====
-- Which keys may be swept from a region, `select_trial_keys` and `assess_selection` of
-- app/core/trial_cleanup.py. `now` is the clock's.

use text.Mathlib.Text.{◌==◌ as same_text}
use amazee_ai.Common.Sort.{sort_by}
use amazee_ai.Trial.Model.{
  TrialSettings, has_recorded_spend, is_anonymous_trial_team, TrialKey, TrialStore, Region,
  is_number, is_trial_key, get_trial_team_ids,
}
use amazee_ai.Common.{
  [], none, some, true, false, zero, suc, ◌&&◌, ◌||◌, ◌∷◌, ◌==◌, if◌then◌else◌, Bool, Instant,
  Option, ℕ, List, ltb, leb, plus_days, find_first, not, select,
}

-- `resolve_live_trial_region`: by name, or by the number where the setting is all digits.
unfoldable pub resolve_live_trial_region : TrialSettings → List Region → Option Region
resolve_live_trial_region c regions =
    elim (find_first (λ r. same_text r.name c.trial_region && r.is_active) regions) [
      | some r ↦ some r
      | none ↦ elim c.trial_region_number [
        | none ↦ none
        | some n ↦ find_first (λ r. r.id == n && r.is_active) regions
      ]
    ]

abbrev pub live_region_min_age_days : ℕ
live_region_min_age_days = 30

-- `assert_safe_for_region` does not raise.
unfoldable pub is_safe_for_region : TrialSettings → List Region → ℕ → Option ℕ → Bool
unfolding resolve_live_trial_region
is_safe_for_region c regions region older_than_days = elim (resolve_live_trial_region c regions) [
  | none ↦ true
  | some live ↦
      if not (live.id == region)
      then true
      else (elim older_than_days [ none ↦ false | some days ↦ leb live_region_min_age_days days ])
]

abbrev pub is_older : Instant → Option ℕ → TrialKey → Bool
is_older now none k = true
is_older now (some days) k = elim k.created_at [
  | none ↦ false
  | some t ↦ ltb (plus_days t days) now
]

unfoldable pub take {ℓ} : {A : Type ℓ} → ℕ → List A → List A
take n [] = []
take zero (x ∷ xs) = []
take (suc n) (x ∷ xs) = x ∷ take n xs

abbrev pub at_most {ℓ} : {A : Type ℓ} → Option ℕ → List A → List A
at_most none xs = xs
at_most (some n) xs = take n xs

abbrev pub is_selected :
    TrialSettings → Instant → ℕ → Option ℕ → Bool → TrialStore → TrialKey → Bool
is_selected c now region older_than_days unused_only s k =
    is_number region k.region_id
    && is_trial_key (get_trial_team_ids c s) s k
    && is_older now older_than_days k
    && (if unused_only then not (has_recorded_spend s k) else true)

-- The query: by id, and the first of them where there is a limit.
unfoldable pub query_keys :
    TrialSettings → Instant → ℕ → Option ℕ → Bool → Option ℕ → TrialStore → List TrialKey
unfolding is_anonymous_trial_team has_recorded_spend take
query_keys c now region older_than_days unused_only limit s = at_most limit (
    sort_by (λ a b. leb a.id b.id)
      (select (is_selected c now region older_than_days unused_only s) s.keys))

-- None where the guard raises LiveTrialRegionError.
unfoldable pub select_trial_keys :
    TrialSettings
    → List Region
    → Instant
    → ℕ
    → Option ℕ
    → Bool
    → Option ℕ
    → TrialStore
    → Option (List TrialKey)
unfolding is_safe_for_region query_keys
select_trial_keys c regions now region older_than_days unused_only limit s =
    if is_safe_for_region c regions region older_than_days
    then some (query_keys c now region older_than_days unused_only limit s)
    else none

pub record SelectionRisk : Type 0 where
  pub total : ℕ
  pub with_spend : ℕ
  pub younger_than_30d : ℕ

abbrev pub needs_attention : SelectionRisk → Bool
needs_attention r = ltb 0 r.with_spend || ltb 0 r.younger_than_30d

-- Created at the cutoff or later.
abbrev pub is_younger : Instant → TrialKey → Bool
is_younger now k = elim k.created_at [ none ↦ false | some t ↦ leb now (plus_days t 30) ]

abbrev pub count_if : Bool → ℕ → ℕ
count_if b n = if b then suc n else n

unfoldable pub assess_selection : Instant → TrialStore → List TrialKey → SelectionRisk
unfolding has_recorded_spend
assess_selection now s [] = record { total = 0; with_spend = 0; younger_than_30d = 0 }
assess_selection now s (k ∷ ks) =
    let rest = assess_selection now s ks in
    record {
      total = suc rest.total;
      with_spend = count_if (has_recorded_spend s k) rest.with_spend;
      younger_than_30d = count_if (is_younger now k) rest.younger_than_30d;
    }
