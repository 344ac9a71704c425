-- ===== src/Cycle/Projection.antt =====
-- The budget that a cycle projects for a team, `apply_billing_cycle_for_team` of app/core/worker.py, beside
-- what the drift check expects and what app/core/pool_budget_service.py calls available.
use amazee_ai.Common.Lists.{sum_by-select, sum_by_cong, All-of}
use amazee_ai.Ledger.{Ledger, free}
use amazee_ai.Pool.{is_valid_subscription, pool_available_budget_for_team_region}
use amazee_ai.Cycle.Billing.{
  expected_max_budget, projected_budget, subscription_remaining, real_remaining, capped,
  is_live_subscription,
}
use amazee_ai.Common.{
  arith, ◌+◌, ◌≡◌, ◌∙◌, ◌==◌, ℕ, Instant, Option, sum_by, if◌then◌else◌, ap, sym, select,
}

subscription_remaining-pool :
    (now : Instant) (team region : ℕ) (l : Ledger)
    → subscription_remaining now team region l
      ≡ sum_by free (select (is_valid_subscription now team region) l.entries)
unfolding subscription_remaining is_valid_subscription
subscription_remaining-pool now team region l =
    sum_by-select free (is_live_subscription now team region) l.entries
    ∙ sum_by_cong (λ e. if is_live_subscription now team region e then free e else 0)
        (λ e. if is_valid_subscription now team region e then free e else 0) l.entries
        (All-of (λ e. ground arith) l.entries)
    ∙ sym (sum_by-select free (is_valid_subscription now team region) l.entries)

expected_max_budget-pool :
    (now : Instant) (team region spend : ℕ) (l : Ledger)
    → expected_max_budget now team region spend l
      ≡ spend + pool_available_budget_for_team_region now team region l
unfolding expected_max_budget pool_available_budget_for_team_region
expected_max_budget-pool now team region spend l =
    omega (arith, subscription_remaining-pool now team region l)

real_remaining-pool :
    (now : Instant) (team region budget : ℕ) (l : Ledger)
    → real_remaining now team region budget l
      ≡ pool_available_budget_for_team_region now team region l
        + (if subscription_remaining now team region l == 0 then budget else 0)
unfolding real_remaining pool_available_budget_for_team_region
real_remaining-pool now team region budget l =
    ground (arith, subscription_remaining-pool now team region l)

-- The budget that is projected for a team is its spend and what the pool service calls available, where
-- the ledger has a subscription left or the cycle has no budget; else the cycle's budget comes on top.
-- An operator's cap bounds what is added to the spend. The drift check expects the same, but for the cap
-- and the cycle's budget.
pub projected_budget-pool :
    (now : Instant) (team region budget spend : ℕ) (cap : Option ℕ) (l : Ledger)
    → let available = pool_available_budget_for_team_region now team region l in
      let extra = if subscription_remaining now team region l == 0 then budget else 0 in
      (projected_budget now team region budget cap spend l ≡ spend + capped cap (available + extra))
      × (expected_max_budget now team region spend l ≡ spend + available)
unfolding projected_budget
projected_budget-pool now team region budget spend cap l = (
  ap (λ n. spend + capped cap n) (real_remaining-pool now team region budget l),
  expected_max_budget-pool now team region spend l,
)
