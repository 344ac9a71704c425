-- ===== src/Reconcile/Tests.antt =====
-- Keys of a team that are reconciled with a renewal period of 31 days and an amount of 500 cents.
use amazee_ai.Reconcile.Settling.{key_update_settles, sent, expiry_after}
use amazee_ai.Reconcile.Sums.{by_owner, told, counted, reconcile_keys_sums}
use amazee_ai.Common.{
  [], none, some, false, refl, arith, ◌+◌, ◌≡◌, ◌≢◌, ◌∷◌, Instant, List, ℕ, Option, plus_days,
  sum_by,
}
use amazee_ai.Reconcile.{
  KeyInfo, KeyUpdate, ReconcileArgs, Totals, days, key_update, reconcile_keys, ReconcileKey, at,
  update_key_budget, Duration, other, Expiry, never, malformed,
}

abbrev args : ReconcileArgs
args = record { expire_keys = false; renewal_period_days = some 31; max_budget_amount = some 500 }

abbrev now : Instant
now = plus_days 0 100

abbrev info : ℕ → Option ℕ → Option Duration → Expiry → KeyInfo
info spend amount duration expires = record {
  spend = spend;
  max_budget = amount;
  budget_duration = duration;
  expires = expires;
}

abbrev key : ℕ → Option ℕ → ReconcileKey
key id owner = record {
  id = id;
  owner_id = owner;
  litellm_token = "sk";
  cached_spend = none;
  updated_at = none;
}

abbrev drifted : KeyInfo
drifted = info 20 (some 300) (some (days 0)) (at (plus_days 0 300))

abbrev rows : List (ReconcileKey × Option KeyInfo)
rows =
    (key 1 (some 11), some drifted)
    ∷ (key 2 none, some (info 5 (some 500) (some (other "1mo")) never))
    ∷ (key 3 none, none)
    ∷ (key 4 (some 11), some (info 7 (some 500) (some (days 31)) malformed))
    ∷ []

abbrev zeros : Totals
zeros = record { by_user = []; service_keys = 0; team = 0 }

drifted_update :
    key_update args now "sk" drifted ≡ some (update_key_budget "sk" (some (days 31)) (some 500))
unfolding key_update
drifted_update = refl

-- The key whose expiry cannot be read counts for its user alone.
team_run : (reconcile_keys args now rows zeros).1.team ≡ 25
unfolding reconcile_keys
team_run = refl

user_run : (reconcile_keys args now rows zeros).1.by_user ≡ (11, 27) ∷ []
unfolding reconcile_keys
user_run = refl

reconcile_keys_sums_example :
    let t = (reconcile_keys args now rows zeros).1 in
    (by_owner t ≡ by_owner zeros + sum_by told rows)
    × (t.team ≡ zeros.team + sum_by (counted args) rows)
reconcile_keys_sums_example = reconcile_keys_sums args now rows zeros

-- An update as LiteLLM documents it.
abbrev set_fields : Instant → KeyUpdate → KeyInfo → KeyInfo
set_fields t u i = record {
  spend = i.spend;
  max_budget = sent u.max_budget i.max_budget;
  budget_duration = sent u.budget_duration i.budget_duration;
  expires = expiry_after t u.duration i.expires;
}

not_zero : args.renewal_period_days ≢ some 0
not_zero = ground arith

key_update_settles_example :
    key_update args now "sk"
      (set_fields now (update_key_budget "sk" (some (days 31)) (some 500)) drifted)
    ≡ none
key_update_settles_example =
    key_update_settles set_fields (λ t u i. refl) (λ t u i. refl) (λ t u i. refl) args now "sk"
      drifted (update_key_budget "sk" (some (days 31)) (some 500)) refl not_zero drifted_update
