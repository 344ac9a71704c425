-- ===== src/Trial/Selection.antt =====
-- Which keys the guard lets a sweep take.
use amazee_ai.Trial.Model.{
  TrialSettings, Region, TrialStore, TrialKey, is_trial_key, get_trial_team_ids, is_number,
}
use amazee_ai.Trial.Selecting.{
  select_trial_keys, take, at_most, is_selected, is_older, resolve_live_trial_region,
  is_safe_for_region, live_region_min_age_days, query_keys,
}
use amazee_ai.Common.{
  [], none, some, true, zero, suc, arith, ◌≤◌, ◌≡◌, ◌∷◌, Option, ℕ, List, All, length, Instant,
  Bool, inl, inr, ◌⊎◌, ◌∙◌, Bool-cases, if_true, false, ◌==◌, if_false, leb, ltb, All-zip,
  plus_days, select, ◌&&◌, All-mono, leb→le,
}
use amazee_ai.Common.Lists.{All-select, select_sound, All-of}
use amazee_ai.Common.Sort.{All-sort_by}

All-take : {A : Type 0} (P : A → Type 0) (n : ℕ) (xs : List A) → All P xs → All P (take n xs)
unfolding take
All-take P n [] h = h
All-take P zero (x ∷ xs) h = tt
All-take P (suc n) (x ∷ xs) h = (h.0, All-take P n xs h.1)

length-take : {A : Type 0} (n : ℕ) (xs : List A) → length (take n xs) ≤ n
unfolding take
length-take n [] = omega arith
length-take zero (x ∷ xs) = omega arith
length-take (suc n) (x ∷ xs) = ground (arith, length-take n xs)

All-at_most :
    {A : Type 0} (P : A → Type 0) (limit : Option ℕ) (xs : List A)
    → All P xs
    → All P (at_most limit xs)
All-at_most P none xs h = h
All-at_most P (some n) xs h = All-take P n xs h

-- What is selected was a row that passes the query's conditions.
pub query_keys-All :
    (c : TrialSettings) (now : Instant) (region : ℕ) (older_than_days : Option ℕ)
    (unused_only : Bool) (limit : Option ℕ) (s : TrialStore) (P : TrialKey → Type 0)
    → All P s.keys
    → All
        (λ k. P k × (is_selected c now region older_than_days unused_only s k ≡ true))
        (query_keys c now region older_than_days unused_only limit s)
unfolding query_keys
query_keys-All c now region older_than_days unused_only limit s P h =
    let chosen = is_selected c now region older_than_days unused_only s in
    All-at_most _ limit _ (
      All-sort_by (λ a b. leb a.id b.id) _ (select chosen s.keys)
        (All-zip P (λ k. chosen k ≡ true) (select chosen s.keys) (All-select P chosen s.keys h)
          (select_sound chosen s.keys)))

pub select_trial_keys_inv :
    (c : TrialSettings) (regions : List Region) (now : Instant) (region : ℕ)
    (older_than_days : Option ℕ) (unused_only : Bool) (limit : Option ℕ) (s : TrialStore)
    (keys : List TrialKey)
    → select_trial_keys c regions now region older_than_days unused_only limit s ≡ some keys
    → query_keys c now region older_than_days unused_only limit s ≡ keys
unfolding select_trial_keys
select_trial_keys_inv c regions now region older_than_days unused_only limit s keys e =
    elim (Bool-cases (is_safe_for_region c regions region older_than_days)) [
      | inl f ↦ ground (arith, e, f)
      | inr f ↦ ground (arith, e, f)
    ]

is_older_mono :
    (now : Instant) (a b : ℕ) (k : TrialKey)
    → a ≤ b
    → is_older now (some b) k ≡ true
    → is_older now (some a) k ≡ true
is_older_mono now a b k le h = older k.created_at h
  where
    older :
        (o : Option Instant)
        → elim o as (λ _. Bool) [ none ↦ false | some t ↦ ltb (plus_days t b) now ] ≡ true
        → elim o as (λ _. Bool) [ none ↦ false | some t ↦ ltb (plus_days t a) now ] ≡ true
    older none h' = h'
    older (some t) h' = ground arith

-- The guard for the live region asks only for the age.
abbrev pub is_safe_live : Option ℕ → Bool
is_safe_live none = false
is_safe_live (some days) = leb live_region_min_age_days days

same_lem : (n : ℕ) → (n == n) ≡ true
same_lem n = ground arith

is_safe_lem :
    (c : TrialSettings) (regions : List Region) (live : Region) (older_than_days : Option ℕ)
    → resolve_live_trial_region c regions ≡ some live
    → is_safe_for_region c regions live.id older_than_days ≡ is_safe_live older_than_days
unfolding is_safe_for_region
is_safe_lem c regions live none h = ground (arith, h, same_lem live.id)
is_safe_lem c regions live (some days) h = ground (arith, h, same_lem live.id)

and_split : (a b : Bool) → (a && b) ≡ true → (a ≡ true) × (b ≡ true)
and_split a b h = (ground arith, ground arith)

pub is_selected_inv :
    (c : TrialSettings) (now : Instant) (region days : ℕ) (unused_only : Bool) (s : TrialStore)
    (k : TrialKey)
    → is_selected c now region (some days) unused_only s k ≡ true
    → (is_older now (some days) k ≡ true)
      × (is_trial_key (get_trial_team_ids c s) s k ≡ true)
      × (is_number region k.region_id ≡ true)
is_selected_inv c now region days unused_only s k h =
    let e = and_split _ _ h in
    let e1 = and_split _ _ e.0 in let e2 = and_split _ _ e1.0 in (e1.1, e2.1, e2.0)

selected_lem :
    (c : TrialSettings) (now : Instant) (region days : ℕ) (unused_only : Bool) (s : TrialStore)
    (k : TrialKey)
    → live_region_min_age_days ≤ days
    → is_selected c now region (some days) unused_only s k ≡ true
    → (is_older now (some live_region_min_age_days) k ≡ true)
      × (is_trial_key (get_trial_team_ids c s) s k ≡ true)
      × (is_number region k.region_id ≡ true)
selected_lem c now region days unused_only s k le h =
    let e = is_selected_inv c now region days unused_only s k h in
    (is_older_mono now live_region_min_age_days days k le e.0, e.1, e.2)

-- A sweep of the region that trials are issued on, which is some region's: it is refused, or it has an age
-- limit and all that it takes are keys of trials in that region, created more than 30 days ago.
pub select_trial_keys_live :
    (c : TrialSettings) (regions : List Region) (live : Region) (now : Instant)
    (older_than_days : Option ℕ) (unused_only : Bool) (limit : Option ℕ) (s : TrialStore)
    → resolve_live_trial_region c regions ≡ some live
    → (select_trial_keys c regions now live.id older_than_days unused_only limit s ≡ none)
      ⊎ ((keys : List TrialKey) × (select_trial_keys c regions now live.id older_than_days
              unused_only limit s
            ≡ some keys)
          × All
              (λ k.
                (is_older now (some live_region_min_age_days) k ≡ true)
                × (is_trial_key (get_trial_team_ids c s) s k ≡ true)
                × (is_number live.id k.region_id ≡ true))
              keys)
unfolding select_trial_keys
select_trial_keys_live c regions live now none unused_only limit s h =
    inl (if_false _ _ (is_safe_lem c regions live none h))
select_trial_keys_live c regions live now (some days) unused_only limit s h =
    let safe = is_safe_lem c regions live (some days) h in
    elim (Bool-cases (leb live_region_min_age_days days)) [
      | inr e ↦ inl (if_false _ _ (safe ∙ e))
      | inl e ↦
          let keys = query_keys c now live.id (some days) unused_only limit s in
          inr (
            keys,
            if_true _ _ (safe ∙ e),
            All-mono _ _ keys
                (λ k x. selected_lem c now live.id days unused_only s k (leb→le _ _ e) x.1)
                (query_keys-All c now live.id (some days) unused_only limit s (λ k. Unit)
                  (All-of (λ k. tt) s.keys)),
          )
    ]
