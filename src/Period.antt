-- ===== src/Period.antt =====
-- Spend periods, app/core/spend_period_service.py: the window in which a team's spend is measured
-- against its budget, and the cycle of a cap that is written in days.
use amazee_ai.Common.Sort.{sort_by}
use amazee_ai.Common.{
  none, some, zero, suc, ◌-◌, ◌*◌, ◌/◌, ◌&&◌, ◌==◌, if◌then◌else◌, Bool, Instant, Option, ℕ, first,
  leb, plus_days, day, ltb, unexpired, is_some, select,
}
pub mod Rolling
pub mod Credit
pub mod Subscription
pub mod Snapshot
pub mod Closing
pub mod FirstWrite
mod Tests
mod ClosingTests
use amazee_ai.Limits.Model.{BudgetType, periodic, pool}
use amazee_ai.Ledger.{Entry, Ledger, in_scope, newer, is_topup_like, same_type, subscription}

-- A row of `teams`, as far as the service reads it.
pub record SpendTeam : Type 0 where
  pub id : ℕ
  pub budget_type : BudgetType
  pub created_at : Option Instant
  pub last_payment : Option Instant

-- The source "litellm" comes only from LiteLLM data.
pub data Source : Type 0 where
  subscription_ledger pool_topup team_anchor : Source

-- `TeamPeriodWindow`; the duration "31d" is its number of days.
pub record TeamPeriodWindow : Type 0 where
  pub period_start : Option Instant
  pub period_end : Option Instant
  pub budget_duration : ℕ
  pub source : Source
  pub active_subscription : Option Entry

abbrev pub end_of : Entry → Instant
end_of e = elim e.effective_period_end [ none ↦ 0 | some t ↦ t ]

-- ORDER BY effective_period_end DESC, id DESC; NULL is filtered out before.
pub ends_later : Entry → Entry → Bool
ends_later a b = if end_of a == end_of b then leb b.id a.id else ltb (end_of b) (end_of a)

pub is_running_subscription : Instant → ℕ → ℕ → Entry → Bool
is_running_subscription now team region e =
    in_scope team region e
    && same_type e.entry_type subscription
    && e.is_active
    && is_some e.effective_period_start
    && is_some e.effective_period_end
    && ltb now (end_of e)

unfoldable pub active_subscription_entry : Instant → ℕ → ℕ → Ledger → Option Entry
unfolding ends_later is_running_subscription
active_subscription_entry now team region l =
    first (sort_by ends_later (select (is_running_subscription now team region) l.entries))

-- A top-up or a rollover that is still valid.
pub is_active_topup : Instant → ℕ → ℕ → Entry → Bool
is_active_topup now team region e =
    in_scope team region e && is_topup_like e && e.is_active && unexpired now e.expires_at

-- ORDER BY purchased_at ASC, id ASC
pub older : Entry → Entry → Bool
older a b =
    if a.purchased_at == b.purchased_at then leb a.id b.id else ltb a.purchased_at b.purchased_at

unfoldable pub oldest_active_topup : Instant → ℕ → ℕ → Ledger → Option Entry
unfolding is_active_topup older
oldest_active_topup now team region l =
    first (sort_by older (select (is_active_topup now team region) l.entries))

unfoldable pub latest_active_topup : Instant → ℕ → ℕ → Ledger → Option Entry
unfolding is_active_topup newer
latest_active_topup now team region l =
    first (sort_by newer (select (is_active_topup now team region) l.entries))

-- `a or b`, where a may be None
abbrev pub or_else : Option Instant → Instant → Instant
or_else none b = b
or_else (some a) b = a

abbrev pub purchase_of : Option Entry → Option Instant
purchase_of none = none
purchase_of (some e) = some e.purchased_at

abbrev pub subscription_window : Entry → TeamPeriodWindow
subscription_window e = record {
  period_start = e.effective_period_start;
  period_end = e.effective_period_end;
  budget_duration = 31;
  source = subscription_ledger;
  active_subscription = some e;
}

-- The window of the credit that a pool team holds without a subscription.
unfoldable pub credit_window : ℕ → Instant → SpendTeam → ℕ → Ledger → TeamPeriodWindow
unfolding oldest_active_topup latest_active_topup
credit_window expiry_days now t region l =
    let start_anchor =
      or_else (purchase_of (oldest_active_topup now t.id region l)) (or_else t.created_at now) in
    let end_anchor = or_else (purchase_of (latest_active_topup now t.id region l)) start_anchor in
    record {
      period_start = some start_anchor;
      period_end = some (plus_days end_anchor expiry_days);
      budget_duration = expiry_days;
      source = pool_topup;
      active_subscription = none;
    }

abbrev pub anchor_window : Instant → SpendTeam → TeamPeriodWindow
anchor_window now t =
    let anchor = or_else t.last_payment (or_else t.created_at now) in
    record {
      period_start = some anchor;
      period_end = some (plus_days anchor 31);
      budget_duration = 31;
      source = team_anchor;
      active_subscription = none;
    }

-- The window, for a caller that passes no LiteLLM data, as the spend API and the alerts do.
unfoldable pub resolve_team_period_window : ℕ → Instant → SpendTeam → ℕ → Ledger → TeamPeriodWindow
unfolding active_subscription_entry credit_window
resolve_team_period_window expiry_days now t region l =
    elim (active_subscription_entry now t.id region l) [
      | some e ↦ subscription_window e
      | none ↦ elim t.budget_type [
        | pool ↦ credit_window expiry_days now t region l
        | periodic ↦ anchor_window now t
      ]
    ]

-- `current_cycle_start` of a cap of a whole number of days ("31d"); "30d" and "1mo" snap to the month.
unfoldable pub current_cycle_start_days : ℕ → Option Instant → Instant → Option Instant
current_cycle_start_days zero anchor now = none
current_cycle_start_days (suc d) anchor now =
    let start = or_else anchor now in
    if leb now start
    then some start
    else some (plus_days start ((now - start) / day / suc d * suc d))
