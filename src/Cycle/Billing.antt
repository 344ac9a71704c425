-- ===== src/Cycle/Billing.antt =====
-- `apply_billing_cycle_for_team` and `reconcile_periodic_team_budget_drift` of app/core/worker.py: the
-- budget that LiteLLM is given for a team, and for its keys, at the start of a cycle. Amounts are cents.
-- A call of LiteLLM is an entry of a log, and `fails` answers it; the first, which reads the spend, is an
-- argument, and the drift that is found, which is only logged, is left out. `set_team_and_user_limits` comes in as
-- whether it raises, and `get_token_restrictions` as the rate limit, none where it raises; a call that
-- raises leaves what stands outside its transaction.
use amazee_ai.Ledger.Rollover.{compute_active_topup_remaining}
use amazee_ai.Limits.Model.{Team, requires_pool_purchase_gate}
use amazee_ai.Ledger.{Entry, Ledger, free, in_scope, same_type, subscription}
use Prim.Native.String.{String}
use amazee_ai.Common.{
  [], none, some, true, false, ◌+◌, ◌&&◌, ◌∷◌, ◌==◌, if◌then◌else◌, Bool, List, Option, ℕ, Instant,
  ltb, min, select, sum_by, unexpired, not, ◌++◌,
}

-- A subscription that is active and not over.
abbrev pub is_live_subscription : Instant → ℕ → ℕ → Entry → Bool
is_live_subscription now team region e =
    in_scope team region e
    && same_type e.entry_type subscription
    && e.is_active
    && unexpired now e.expires_at

unfoldable pub subscription_remaining : Instant → ℕ → ℕ → Ledger → ℕ
subscription_remaining now team region l =
    sum_by free (select (is_live_subscription now team region) l.entries)

-- What `reconcile_periodic_team_budget_drift` expects of LiteLLM, at a team's spend.
unfoldable pub expected_max_budget : Instant → ℕ → ℕ → ℕ → Ledger → ℕ
unfolding subscription_remaining
expected_max_budget now team region spend l =
    spend
    + subscription_remaining now team region l
    + compute_active_topup_remaining now team region l

-- `min(real_remaining, cap)`, where the operator set a cap.
abbrev pub capped : Option ℕ → ℕ → ℕ
capped none n = n
capped (some cap) n = min n cap

-- The cycle's budget stands in where the ledger has no subscription left.
unfoldable pub real_remaining : Instant → ℕ → ℕ → ℕ → Ledger → ℕ
unfolding subscription_remaining
real_remaining now team region budget l =
    let sub = subscription_remaining now team region l in
    (if sub == 0 && ltb 0 budget then budget else sub)
    + compute_active_topup_remaining now team region l

unfoldable pub projected_budget : Instant → ℕ → ℕ → ℕ → Option ℕ → ℕ → Ledger → ℕ
unfolding real_remaining
projected_budget now team region budget cap spend l =
    spend + capped cap (real_remaining now team region budget l)

pub record CycleKey : Type 0 where
  pub id : ℕ
  pub litellm_token : String
  pub spend_cap : Option ℕ

-- `check_drift` is the call of get_team_info that the drift check makes.
pub data CycleCall : Type 0 where
  check_drift : CycleCall
  update_team_budget : ℕ → CycleCall
  set_key_restrictions : String → Option ℕ → ℕ → CycleCall

pub data CycleError : Type 0 where
  no_projection no_team_budget : CycleError
  no_key_update : ℕ → CycleError

pub data SyncStatus : Type 0 where
  pending success sync_failed : SyncStatus

-- The budget of a key: its cap, else none where the pool is gated, else that of the cycle.
abbrev pub key_budget : Bool → ℕ → Option ℕ → Option ℕ
key_budget gated budget (some cap) = some cap
key_budget true budget none = none
key_budget false budget none = some budget

abbrev pub restriction : Bool → ℕ → ℕ → CycleKey → CycleCall
restriction gated budget rpm k =
    set_key_restrictions k.litellm_token (key_budget gated budget k.spend_cap) rpm

-- What a call leaves: the calls made and the errors.
pub record Synced : Type 0 where
  pub calls : List CycleCall
  pub errors : List CycleError

abbrev pub drift_calls : List CycleKey → List CycleCall
drift_calls [] = []
drift_calls (k ∷ ks) = check_drift ∷ []

module _ (fails : CycleCall → Bool) where
  -- The loop over the keys: a failure is noted and passed over.
  unfoldable pub restrict_keys : Bool → ℕ → ℕ → List CycleKey → Synced
  restrict_keys gated budget rpm [] = record { calls = []; errors = [] }
  restrict_keys gated budget rpm (k ∷ ks) =
      let call = restriction gated budget rpm k in
      let rest = restrict_keys gated budget rpm ks in
      record {
        calls = call ∷ rest.calls;
        errors = if fails call then no_key_update k.id ∷ rest.errors else rest.errors;
      }

  -- The team's budget first; then, where there are keys, the drift check, whose failure is logged and
  -- passed over, and the keys.
  unfoldable pub sync_litellm : Bool → ℕ → ℕ → List CycleKey → Option ℕ → Synced
  unfolding restrict_keys
  sync_litellm gated budget rpm keys none = record { calls = []; errors = no_projection ∷ [] }
  sync_litellm gated budget rpm keys (some max_budget) =
      let call = update_team_budget max_budget in
      let rest = restrict_keys gated budget rpm keys in
      if fails call
      then record { calls = call ∷ []; errors = no_team_budget ∷ [] }
      else record { calls = call ∷ drift_calls keys ++ rest.calls; errors = rest.errors }

-- The payment's status, where there is a payment, and the team's `last_payment`.
pub record Paid : Type 0 where
  pub sync_status : Option SyncStatus
  pub last_payment : Option Instant

pub data Applied : Type 0 where
  returned : List CycleError → Applied
  raised : Applied

abbrev pub with_status : SyncStatus → Paid → Paid
with_status s p = record p { sync_status = elim p.sync_status [ none ↦ none | some old ↦ some s ] }

abbrev pub is_nil {ℓ} : {A : Type ℓ} → List A → Bool
is_nil [] = true
is_nil (x ∷ xs) = false

-- The stamps at the end.
unfoldable pub stamp : Instant → List CycleError → Paid → Paid
stamp start errors p =
    if is_nil errors
    then record (with_status success p) { last_payment = some start }
    else with_status sync_failed p

-- The arguments and what the call reads: LiteLLM's spend of the team, none where the call fails; the
-- operator's cap; the keys of the team in the region.
pub record BillingArgs : Type 0 where
  pub region_id : ℕ
  pub budget_cents : ℕ
  pub period_start : Instant
  pub spend : Option ℕ
  pub team_cap : Option ℕ
  pub keys : List CycleKey
  pub region_found : Bool
  pub rpm_limit : Option ℕ
  pub limits_raise : Bool

abbrev pub projection : Instant → Team → BillingArgs → Ledger → Option ℕ
projection now t a l = elim a.spend [
  | none ↦ none
  | some spend ↦ some (projected_budget now t.id a.region_id a.budget_cents a.team_cap spend l)
]

unfoldable pub sync_team : (CycleCall → Bool) → Instant → Team → BillingArgs → ℕ → Ledger → Synced
unfolding sync_litellm projected_budget
sync_team fails now t a rpm l =
    sync_litellm fails (requires_pool_purchase_gate t) a.budget_cents rpm a.keys
      (projection now t a l)

unfoldable pub apply_billing_cycle_for_team :
    (CycleCall → Bool)
    → Instant
    → Option Team
    → BillingArgs
    → Ledger
    → Paid
    → Applied × List CycleCall × Paid
unfolding sync_team stamp
apply_billing_cycle_for_team fails now none a l p = (returned [], [], p)
apply_billing_cycle_for_team fails now (some t) a l p =
    if not a.region_found then (returned [], [], p) else elim a.rpm_limit [
      | none ↦ (raised, [], with_status sync_failed p)
      | some rpm ↦
          let s = sync_team fails now t a rpm l in
          if a.limits_raise
          then (raised, s.calls, with_status sync_failed p)
          else (returned s.errors, s.calls, stamp a.period_start s.errors p)
    ]
