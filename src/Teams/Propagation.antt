-- ===== src/Teams/Propagation.antt =====
-- `propagate_team_budget_to_keys` of app/core/team_service.py: a team's budget goes to LiteLLM in each
-- region, and to its keys there. A failed call is recorded, and the loop goes on.
use amazee_ai.Common.{
  [], none, some, false, ◌+◌, ◌&&◌, ◌∷◌, ◌++◌, ◌==◌, if◌then◌else◌, Bool, ℕ, List, Option, map,
  true, refl, arith, ◌≡◌, not, select, find_first, length, inl, inr, Bool-cases, any, truthy,
  is_some,
}
use Prim.Native.String.{String}
use amazee_ai.Teams.{
  TeamStore, Region, RegionKey, Call, get_team_keys_by_region, TeamKey, is_team_key, update_budget,
  update_team_budget,
}

pub data BudgetError : Type 0 where
  team_not_found region_not_found : ℕ → BudgetError
  team_failed : String → BudgetError
  key_update_failed : ℕ → BudgetError

pub record BudgetRequest : Type 0 where
  pub budget_amount : ℕ
  pub budget_duration : String
  pub region_id : Option ℕ
  pub update_key_limits : Bool
  pub apply_to_keys : Bool

pub record BudgetOutcome : Type 0 where
  pub teams_updated : ℕ
  pub errors : List BudgetError
  pub calls : List Call

module _ (fails : Call → Bool) (req : BudgetRequest) where
  abbrev pub team_budget_call : ℕ → Region → Call
  team_budget_call team r = update_team_budget r.id team req.budget_amount req.budget_duration

  abbrev pub key_budget_call : Region → RegionKey → Call
  key_budget_call r k = update_budget r.id k.token req.budget_duration req.budget_amount

  -- The errors of the keys of a region.
  pub key_errors : Region → List RegionKey → List BudgetError
  key_errors r [] = []
  key_errors r (k ∷ ks) =
      if fails (key_budget_call r k)
      then key_update_failed k.id ∷ key_errors r ks
      else key_errors r ks

  -- The keys that are updated: none unless both flags are set.
  abbrev pub updated_keys : List RegionKey → List RegionKey
  updated_keys ks = if req.update_key_limits && req.apply_to_keys then ks else []

  -- The loop over the regions.
  unfoldable pub propagate_regions : ℕ → List (Region × List RegionKey) → BudgetOutcome
  unfolding key_errors
  propagate_regions team [] = record { teams_updated = 0; errors = []; calls = [] }
  propagate_regions team (g ∷ gs) =
      let rest = propagate_regions team gs in
      let call = team_budget_call team g.0 in
      let bad = fails call in
      let keys = updated_keys g.1 in
      record {
        teams_updated = (if bad then 0 else 1) + rest.teams_updated;
        errors =
            (if bad then team_failed (g.0.name) ∷ [] else [])
            ++ (key_errors g.0 keys ++ rest.errors);
        calls = call ∷ (map (key_budget_call g.0) keys ++ rest.calls);
      }

abbrev pub is_in_region : Region → TeamKey → Bool
is_in_region r k = elim k.region [ none ↦ false | some q ↦ q.id == r.id ]

-- The keys that have a token.
pub tokens_of : List TeamKey → List RegionKey
tokens_of [] = []
tokens_of (k ∷ ks) = elim k.litellm_token [
  | none ↦ tokens_of ks
  | some token ↦
      if truthy (some token)
      then record { id = k.id; token = token } ∷ tokens_of ks
      else tokens_of ks
]

pub keys_in : ℕ → TeamStore → Region → List RegionKey
unfolding tokens_of
keys_in team s r = tokens_of (select (λ k. is_team_key team s.users k && is_in_region r k) s.keys)

-- The regions in which the team has a key whose token is not NULL, without the keys.
pub regions_with_keys : ℕ → TeamStore → List Region → List (Region × List RegionKey)
regions_with_keys team s regions =
    map (λ r. (r, []))
      (select
        (λ r.
          any (λ k. is_team_key team s.users k && is_some k.litellm_token && is_in_region r k)
            s.keys)
        regions)

abbrev pub refused : BudgetError → BudgetOutcome
refused e = record { teams_updated = 0; errors = e ∷ []; calls = [] }

-- `regions` is the table of regions; `found` says whether the team is in its table.
unfoldable pub propagate_team_budget_to_keys :
    (Call → Bool) → BudgetRequest → Bool → List Region → ℕ → TeamStore → BudgetOutcome
unfolding keys_in propagate_regions regions_with_keys
propagate_team_budget_to_keys fails req found regions team s =
    if not found then refused (team_not_found team) else (elim req.region_id [
      | some id ↦ elim (find_first (λ r. r.id == id) regions) [
        | none ↦ refused (region_not_found id)
        | some r ↦
            propagate_regions fails req team
              ((r, if req.apply_to_keys then keys_in team s r else []) ∷ [])
      ]
      | none ↦ propagate_regions fails req team (
          if req.apply_to_keys
          then get_team_keys_by_region team s
          else regions_with_keys team s regions)
    ])

-- The error is that of a region.
abbrev pub is_team_error : BudgetError → Bool
is_team_error (team_failed name) = true
is_team_error e = false

length-select-append {ℓ} :
    {A : Type ℓ} (p : A → Bool) (xs ys : List A)
    → length (select p (xs ++ ys)) ≡ length (select p xs) + length (select p ys)
unfolding select
length-select-append p [] ys = omega arith
length-select-append p (x ∷ xs) ys = ground (arith, length-select-append p xs ys)

length-append {ℓ} : {A : Type ℓ} (xs ys : List A) → length (xs ++ ys) ≡ length xs + length ys
length-append [] ys = omega arith
length-append (x ∷ xs) ys = omega (arith, length-append xs ys)

module _ (fails : Call → Bool) (req : BudgetRequest) where
  key_errors_quiet :
      (r : Region) (ks : List RegionKey)
      → length (select is_team_error (key_errors fails req r ks)) ≡ 0
  unfolding key_errors select
  key_errors_quiet r [] = refl
  key_errors_quiet r (k ∷ ks) = ground (arith, key_errors_quiet r ks)

  key_errors_count :
      (r : Region) (ks : List RegionKey)
      → length (key_errors fails req r ks)
        ≡ length (select fails (map (key_budget_call fails req r) ks))
  unfolding key_errors select
  key_errors_count r [] = refl
  key_errors_count r (k ∷ ks) = ground (arith, key_errors_count r ks)

  -- In the loop over the regions every region is either updated or reported, and there are exactly as
  -- many errors as failed calls.
  propagate_regions_lem :
      (team : ℕ) (gs : List (Region × List RegionKey))
      → let out = propagate_regions fails req team gs in
        (out.teams_updated + length (select is_team_error out.errors) ≡ length gs)
        × (length out.errors ≡ length (select fails out.calls))
  unfolding propagate_regions select
  propagate_regions_lem team [] = (refl, refl)
  propagate_regions_lem team (g ∷ gs) =
      let rest = propagate_regions fails req team gs in
      let keys = updated_keys fails req g.1 in
      let ih = propagate_regions_lem team gs in
      let errors = key_errors fails req g.0 keys in
      elim (Bool-cases (fails (team_budget_call fails req team g.0))) [
        | inl bad ↦ rw bad (
          omega (
            arith,
            ih.0,
            length-select-append is_team_error errors rest.errors,
            key_errors_quiet g.0 keys,
          ),
          omega (
            arith,
            ih.1,
            length-append errors rest.errors,
            key_errors_count g.0 keys,
            length-select-append fails (map (key_budget_call fails req g.0) keys) rest.calls,
          ),
        )
        | inr fine ↦ rw fine (
          omega (
            arith,
            ih.0,
            length-select-append is_team_error errors rest.errors,
            key_errors_quiet g.0 keys,
          ),
          omega (
            arith,
            ih.1,
            length-append errors rest.errors,
            key_errors_count g.0 keys,
            length-select-append fails (map (key_budget_call fails req g.0) keys) rest.calls,
          ),
        )
      ]
