-- ===== src/Teams/Deletion.antt =====
-- What `soft_delete_team` of app/core/team_service.py asks of LiteLLM.
use amazee_ai.Common.{
  false, refl, ◌≡◌, ◌&&◌, ◌++◌, ◌==◌, Instant, ℕ, Bool, List, any, [], arith, ◌||◌, ◌∙◌, select,
}
use amazee_ai.Teams.{
  TeamStore, Call, soft_delete_team, get_team_keys_by_region, String, TeamKey, calls_of,
  is_team_key, same_text, update_key_duration, duration_call, RegionKey, group_keys,
}
use amazee_ai.Teams.Grouping.{
  key_passes, any_grouped, any-calls_of, any_grouped-group_keys, any-select,
}

-- The call sets the duration of the token in the region.
abbrev pub sets_duration : ℕ → ℕ → String → Call → Bool
sets_duration days region token (update_key_duration r t d) =
    r == region && same_text t token && d == days
sets_duration days region token _ = false

-- The key has the token and the region.
abbrev pub has_token_in : ℕ → String → TeamKey → Bool
has_token_in region token = key_passes (λ r k. r == region && same_text k.token token)

or_nothing : (q : ℕ → RegionKey → Bool) (b : Bool) → (b || any_grouped q []) ≡ b
unfolding any_grouped any
or_nothing q b = ground arith

pub duration_calls :
    (days region : ℕ) (token : String) (s : TeamStore)
    → any
        (sets_duration days region token)
        (calls_of (duration_call days) (get_team_keys_by_region s.team.id s))
      ≡ any (λ k. is_team_key s.team.id s.users k && has_token_in region token k) s.keys
unfolding get_team_keys_by_region
duration_calls days region token s =
    let q : ℕ → RegionKey → Bool = λ r k. r == region && same_text k.token token in
    let ks = select (is_team_key s.team.id s.users) s.keys in
    any-calls_of (sets_duration days region token) q (duration_call days) (group_keys ks [])
      (λ r k. ground arith)
    ∙ any_grouped-group_keys q ks []
    ∙ or_nothing q (any (key_passes q) ks)
    ∙ any-select (key_passes q) (is_team_key s.team.id s.users) s.keys

-- A soft deletion requests that a token be expired in a region exactly when it is the nonempty token
-- of a key there that belongs to the team or to one of its users.
pub soft_delete_team-expires :
    (now : Instant) (region : ℕ) (token : String) (s : TeamStore)
    → (requested : List Call) × ((soft_delete_team now s).calls ≡ s.calls ++ requested)
      × (any (sets_duration 0 region token) requested
          ≡ any (λ k. is_team_key s.team.id s.users k && has_token_in region token k) s.keys)
unfolding soft_delete_team
soft_delete_team-expires now region token s = (
  calls_of (duration_call 0) (get_team_keys_by_region s.team.id s),
  refl,
  duration_calls 0 region token s,
)
