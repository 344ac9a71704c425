-- ===== src/Cycle.antt =====
-- The billing cycle of a team in a region, app/core/worker.py: the ledger is settled for the window that
-- ends, the window's spend is kept, and the new budget goes to LiteLLM. Amounts are cents; what LiteLLM
-- answers is an argument.
use Prim.Native.String.{String}
use amazee_ai.Common.Sort.{sort_by}
use amazee_ai.Common.{
  none, some, ◌-◌, ◌&&◌, ◌==◌, if◌then◌else◌, Bool, List, Option, ℕ, ℤ, Instant, any, first, leb,
  ltb, pos, select, truthy,
}
use amazee_ai.Ledger.{
  Entry, Ledger, Result, ok, integrity_error, subscription, is_invoice_entry,
  add_subscription_entry,
}
use amazee_ai.Ledger.Allocation.{allocate_period_spend_fifo}
use amazee_ai.Ledger.Expiry.{expire_subscription_entries}
use amazee_ai.Ledger.Rollover.{materialize_topup_rollovers}
use amazee_ai.Period.Closing.{SpendPeriod}
pub mod Keeping
pub mod Closing
pub mod Booking
pub mod Replay
pub mod Billing
pub mod Invoices
pub mod Projection
pub mod Errors
pub mod Splitting
mod Tests

-- The arguments of `_sync_periodic_ledger_for_period`, but for the team's and the region's rows.
pub record CycleArgs : Type 0 where
  pub team_id : ℕ
  pub region_id : ℕ
  pub period_start : Instant
  pub period_end : Instant
  pub amount_cents : ℤ
  pub source_payment_id : Option ℕ
  pub source_invoice_id : Option String

abbrev pub starts_before : CycleArgs → SpendPeriod → Bool
starts_before a p =
    p.window.team_id == a.team_id
    && p.window.region_id == a.region_id
    && ltb p.window.period_start a.period_start

-- ORDER BY period_start DESC
abbrev pub starts_later : SpendPeriod → SpendPeriod → Bool
starts_later p q = leb q.window.period_start p.window.period_start

-- `_previous_period_spend_baseline_cents`
unfoldable pub previous_period_spend_baseline_cents : CycleArgs → List SpendPeriod → ℕ
previous_period_spend_baseline_cents a periods =
    elim (first (sort_by starts_later (select (starts_before a) periods))) [
      | none ↦ 0
      | some p ↦ p.total_spend
    ]

unfoldable pub is_settled : CycleArgs → Ledger → Bool
is_settled a l =
    truthy a.source_invoice_id
    && any (is_invoice_entry subscription a.team_id a.region_id a.source_invoice_id) l.entries

-- max(0, spend_cents - spend_baseline_cents) is charged, unless the invoice was settled before.
unfoldable pub settle_spend : Instant → CycleArgs → ℕ → List SpendPeriod → Ledger → Ledger
unfolding is_settled previous_period_spend_baseline_cents
settle_spend now a spend periods l =
    let new = spend - previous_period_spend_baseline_cents a periods in
    if is_settled a l
    then l
    else (allocate_period_spend_fifo now a.team_id a.region_id (pos new) l).0

abbrev pub table_of : Result (Option Entry × Ledger) → Result Ledger
table_of (ok (e, l)) = ok l
table_of integrity_error = integrity_error

-- The window that ends is closed, and the entry of the new one is booked.
unfoldable pub open_cycle : CycleArgs → Result (ℕ × Ledger) → Result Ledger
open_cycle a integrity_error = integrity_error
open_cycle a (ok (moved, l)) = table_of (
    add_subscription_entry a.team_id a.region_id a.amount_cents a.period_start a.period_start
      a.period_end a.source_payment_id a.source_invoice_id
      (expire_subscription_entries a.team_id a.region_id a.period_end l))

unfoldable pub settle_cycle : Instant → CycleArgs → ℕ → List SpendPeriod → Ledger → Result Ledger
unfolding settle_spend open_cycle
settle_cycle now a spend periods l = open_cycle a (
    materialize_topup_rollovers now a.team_id a.region_id a.source_invoice_id a.period_end
      (settle_spend now a spend periods l))

-- What the sync comes to: LiteLLM may fail to tell the spend.
pub data SyncOutcome : Type 0 where
  synced : Ledger → SyncOutcome
  refused unreachable : SyncOutcome

abbrev pub outcome_of : Result Ledger → SyncOutcome
outcome_of (ok l) = synced l
outcome_of integrity_error = refused

-- `_sync_periodic_ledger_for_period`: the spend is that of the team's info, or, where that call fails,
-- that of a snapshot; none is a failure.
unfoldable pub sync_periodic_ledger_for_period :
    Instant → CycleArgs → Option ℕ → Option ℕ → List SpendPeriod → Ledger → SyncOutcome
unfolding settle_cycle
sync_periodic_ledger_for_period now a (some spend) snapshot periods l =
    outcome_of (settle_cycle now a spend periods l)
sync_periodic_ledger_for_period now a none (some spend) periods l =
    outcome_of (settle_cycle now a spend periods l)
sync_periodic_ledger_for_period now a none none periods l = unreachable

-- An invoice as Stripe sends it, as far as the ledger reads it; an amount that is no number counts 0.
pub record InvoiceObject : Type 0 where
  pub id : Option String
  pub period_start : Option Instant
  pub period_end : Option Instant
  pub amount_paid : ℤ

-- `_sync_periodic_ledger_for_invoice`, for the team of the customer and the region, where each is found.
-- It returns with nothing done where one of them or the window is missing.
unfoldable pub sync_periodic_ledger_for_invoice :
    Instant
    → Option ℕ
    → Option ℕ
    → InvoiceObject
    → Option ℕ
    → Option ℕ
    → List SpendPeriod
    → Ledger
    → SyncOutcome
unfolding settle_cycle
sync_periodic_ledger_for_invoice now team region i payment snapshot periods l = elim team [
  | none ↦ synced l
  | some t ↦ elim i.period_start [
    | none ↦ synced l
    | some start ↦ elim i.period_end [
      | none ↦ synced l
      | some end ↦ elim region [
        | none ↦ synced l
        | some r ↦ elim snapshot [
          | none ↦ unreachable
          | some spend ↦
              let a : CycleArgs = record {
                team_id = t;
                region_id = r;
                period_start = start;
                period_end = end;
                amount_cents = i.amount_paid;
                source_payment_id = payment;
                source_invoice_id = i.id;
              } in
              outcome_of (settle_cycle now a spend periods l)
        ]
      ]
    ]
  ]
]
