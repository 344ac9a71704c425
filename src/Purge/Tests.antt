-- ===== src/Purge/Tests.antt =====
-- The hard deletion of a team with a user and a key, without and with an alert state on the key.
use amazee_ai.Purge.Blocking.{IsClean, hard_delete_team_outcome}
use amazee_ai.Purge.{
  collect, hard_delete_expired_teams, Subject, PurgeStore, touches, hard_delete_team, delete_tokens,
}
use amazee_ai.Common.{
  [], none, some, true, false, refl, ◌≡◌, ◌⊎◌, ◌∷◌, List, Option, any, ℕ, select, map, plus_days,
}
use Prim.Native.String.{String}

abbrev subject : Option ℕ → Subject
subject key = record { team_id = none; user_id = none; key_id = key }

abbrev team_store : List Subject → PurgeStore
team_store alerts = record {
  teams = record { id = 1; deleted_at = some 0 } ∷ record { id = 2; deleted_at = none } ∷ [];
  users =
      record { member = record { id = 11; team_id = some 1; is_active = false }; email = "a" } ∷ [];
  keys =
      record {
        id = 21;
        owner_id = some 11;
        team_id = none;
        litellm_token = some "sk";
        region = some (record { id = 3; name = "eu"; is_active = true });
      }
      ∷ [];
  limits = [];
  caps = subject (some 21) ∷ [];
  alerts = alerts;
  api_tokens = some 11 ∷ [];
  admin_regions = [];
  audit = some 11 ∷ [];
  spend_cache = "a" ∷ "b" ∷ [];
  products = 1 ∷ [];
  team_regions = 1 ∷ [];
  cascades = 1 ∷ 2 ∷ [];
  deleted_tokens = [];
}

abbrev same : String → String
same x = x

abbrev after : List Subject → PurgeStore
after alerts = hard_delete_expired_teams same (plus_days 0 30) 7 (team_store alerts)

purged_run : map (λ t. t.id) (after []).teams ≡ 2 ∷ []
unfolding hard_delete_expired_teams any select
purged_run = refl

purged_cache : (after []).spend_cache ≡ "b" ∷ []
unfolding hard_delete_expired_teams any select
purged_cache = refl

blocked_run : map (λ t. t.id) (after (subject (some 21) ∷ [])).teams ≡ 1 ∷ 2 ∷ []
unfolding hard_delete_expired_teams any select
blocked_run = refl

hard_delete_team_outcome_example :
    (let s = team_store (subject (some 21) ∷ []) in
      let d = collect 1 s in
      ((any (touches d) s.alerts ≡ true) × (hard_delete_team same 1 s ≡ delete_tokens 1 s))
      ⊎ ((any (touches d) s.alerts ≡ false) × IsClean same d s (hard_delete_team same 1 s)))
hard_delete_team_outcome_example =
    hard_delete_team_outcome same 1 (team_store (subject (some 21) ∷ []))
