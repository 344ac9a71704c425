-- ===== src/Pool.antt =====
-- Pool budgets, app/core/pool_budget_service.py: what a pool team can spend in a region, for how
-- long, and whether it has ever paid. It reads the ledger and the table of pool purchases.
pub mod Available
pub mod Purchased
mod Tests
pub mod Window
use amazee_ai.Ledger.Rollover.{compute_active_topup_remaining}
use amazee_ai.Ledger.{Entry, Ledger, in_scope, free, same_type, subscription}
use amazee_ai.Common.{
  [], none, some, true, false, ◌+◌, ◌-◌, ◌/◌, ◌&&◌, ◌∷◌, ◌==◌, if◌then◌else◌, Instant, List, ℕ,
  Bool, Option, leb, select, any, day, max, sum_by, is_some, ltb, unexpired,
}

-- A row of `pool_purchases` (app/db/models.py), as far as the service reads it.
pub record PoolPurchase : Type 0 where
  pub team_id : ℕ
  pub region_id : ℕ
  pub purchased_at : Instant

abbrev pub purchased_in : ℕ → ℕ → PoolPurchase → Bool
purchased_in team region p = p.team_id == team && p.region_id == region

-- SQL's MAX: NULL where there is no row.
pub latest_purchase : List PoolPurchase → Option Instant
latest_purchase [] = none
latest_purchase (p ∷ ps) = elim (latest_purchase ps) [
  | none ↦ some p.purchased_at
  | some t ↦ some (max p.purchased_at t)
]

-- max(0, expiry_days - (now - latest).days); `days` of a negative difference rounds down.
pub days_left : ℕ → Instant → Instant → ℕ
days_left expiry_days now latest =
    if leb latest now
    then expiry_days - (now - latest) / day
    else expiry_days + (latest - now + day - 1) / day

-- The number of days of the text that `_pool_budget_duration_from_last_purchase` returns.
pub pool_budget_duration_from_last_purchase : ℕ → Instant → ℕ → ℕ → List PoolPurchase → ℕ
unfolding latest_purchase days_left
pool_budget_duration_from_last_purchase expiry_days now team region purchases =
    elim (latest_purchase (select (purchased_in team region) purchases)) [
      | none ↦ expiry_days
      | some latest ↦ days_left expiry_days now latest
    ]

unfoldable pub is_valid_subscription : Instant → ℕ → ℕ → Entry → Bool
is_valid_subscription now team region e =
    in_scope team region e
    && same_type e.entry_type subscription
    && e.is_active
    && ltb e.consumed_cents e.amount_cents
    && unexpired now e.expires_at

-- In cents: the source divides the whole cents by 100 and rounds to four places, which is exact.
unfoldable pub pool_available_budget_for_team_region : Instant → ℕ → ℕ → Ledger → ℕ
unfolding is_valid_subscription
pool_available_budget_for_team_region now team region l =
    sum_by free (select (is_valid_subscription now team region) l.entries)
    + compute_active_topup_remaining now team region l

pub pool_team_has_ever_purchased : ℕ → ℕ → Ledger → List PoolPurchase → Bool
pool_team_has_ever_purchased team region l purchases =
    if any (in_scope team region) l.entries then true else any (purchased_in team region) purchases

-- A subscription cycle that is running: NULL is neither a start nor an end.
unfoldable pub is_running_cycle : Instant → ℕ → ℕ → Entry → Bool
is_running_cycle now team region e =
    in_scope team region e
    && same_type e.entry_type subscription
    && e.is_active
    && is_some e.effective_period_start
    && elim e.effective_period_end [ none ↦ false | some t ↦ ltb now t ]

-- The days of the budget duration: those of a cycle, or those left of the last purchase.
pub pool_team_budget_duration_for_enforcement : ℕ → Instant → ℕ → ℕ → Ledger → List PoolPurchase → ℕ
unfolding is_running_cycle pool_budget_duration_from_last_purchase
pool_team_budget_duration_for_enforcement expiry_days now team region l purchases =
    if any (is_running_cycle now team region) l.entries
    then 31
    else pool_budget_duration_from_last_purchase expiry_days now team region purchases
