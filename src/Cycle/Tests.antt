-- ===== src/Cycle/Tests.antt =====
-- Cycles on the ledger's sample: the entry of its invoice is number 1, of team 7 in region 1.
use amazee_ai.Cycle.Closing.{expired}
use amazee_ai.Cycle.Projection.{projected_budget-pool}
use amazee_ai.Pool.{pool_available_budget_for_team_region}
use amazee_ai.Cycle.Replay.{settle_cycle_again, is_subscription}
use amazee_ai.Cycle.Errors.{ErrorsCounted, apply_billing_cycle_for_team_errors}
use amazee_ai.Limits.Model.{Team, pool}
use amazee_ai.Cycle.Splitting.{cents, split_budget_sum}
use amazee_ai.Cycle.Keeping.{spent}
use amazee_ai.Cycle.Billing.{
  returned, check_drift, no_key_update, apply_billing_cycle_for_team, BillingArgs, CycleCall, Paid,
  projected_budget, capped, pending, set_key_restrictions, subscription_remaining,
  expected_max_budget,
}
use amazee_ai.Cycle.Invoices.{split_budget}
use amazee_ai.Ledger.Allocation.{allocate_period_spend_fifo}
use amazee_ai.Ledger.Rollover.{materialize_topup_rollovers}
use amazee_ai.Ledger.Expiry.{expire_subscription_entries}
use amazee_ai.Ledger.Samples.{cycle, book, book-IsKeyed}
use amazee_ai.Ledger.{Ledger, integrity_error, add_subscription_entry, add_entry}
use amazee_ai.Cycle.{CycleArgs, settle_cycle, Result, ok, previous_period_spend_baseline_cents}
use amazee_ai.Ledger.Allocation.Conservation.{id_of}
use amazee_ai.Common.Sort.{sort_by}
use amazee_ai.Common.Table.{find_row, set_row}
use amazee_ai.Ledger.{returned as returned_row, Result}
use amazee_ai.Common.{
  [], none, some, true, false, refl, arith, ◌+◌, ◌/◌, ◌≡◌, ◌≤◌, ◌∷◌, ◌==◌, ℕ, Bool, any, select,
  sum_by, pos, plus_days, All, if◌then◌else◌, find_first,
}

program : Unit {0}
unfolding settle_cycle expire_subscription_entries materialize_topup_rollovers
    allocate_period_spend_fifo add_subscription_entry split_budget apply_billing_cycle_for_team
    sort_by select any find_row set_row find_first sum_by previous_period_spend_baseline_cents
    add_entry returned_row
program = tt

-- The cycle of the sample's invoice, driven again ten days later.
abbrev again : CycleArgs
again = record {
  team_id = 7;
  region_id = 1;
  period_start = plus_days 100 10;
  period_end = plus_days 100 41;
  amount_cents = pos 3000;
  source_payment_id = none;
  source_invoice_id = some "in_1";
}

abbrev ledger_of : Result Ledger → Ledger
ledger_of (ok l) = l
ledger_of integrity_error = book

abbrev after_again : Ledger
after_again = ledger_of (settle_cycle (plus_days 100 10) again 5000 [] book)

-- The entry that was paid for is closed, and none takes its place.
closed_run : find_row id_of 1 after_again.entries ≡ some (record cycle { is_active = false })
unfolding program
closed_run = refl

settle_cycle_again_example :
    (spent after_again.entries ≡ spent book.entries)
    × All
        (λ e. find_row id_of e.id after_again.entries ≡ some (expired 7 1 (plus_days 100 41) e))
        (select is_subscription book.entries)
settle_cycle_again_example =
    settle_cycle_again (plus_days 100 10) again 5000 [] book {l' = after_again} book-IsKeyed
      (omega arith) (unfold program in refl) (unfold program in refl)

split_budget_sum_example :
    (sum_by cents (split_budget true 1001 (3 ∷ 1 ∷ [])) ≡ 1001)
    × All (λ (x : ℕ × ℕ). 1001 / 2 ≤ x.1) (split_budget true 1001 (3 ∷ 1 ∷ []))
    × All (λ (x : ℕ × ℕ). x.1 ≡ 1001) (split_budget false 1001 (3 ∷ 1 ∷ []))
split_budget_sum_example = split_budget_sum 1001 3 (1 ∷ [])

-- The region with the lower number gets the odd cent.
split_run : split_budget true 1001 (3 ∷ 1 ∷ []) ≡ (1, 501) ∷ (3, 500) ∷ []
unfolding program
split_run = refl

projected_budget-pool_example :
    (projected_budget 200 7 1 3000 (some 4000) 2500 book
      ≡ 2500
        + capped (some 4000) (
            pool_available_budget_for_team_region 200 7 1 book
            + (if subscription_remaining 200 7 1 book == 0 then 3000 else 0)))
    × (expected_max_budget 200 7 1 2500 book
        ≡ 2500 + pool_available_budget_for_team_region 200 7 1 book)
projected_budget-pool_example = projected_budget-pool 200 7 1 3000 2500 (some 4000) book

abbrev team_seven : Team
team_seven = record {
  id = 7;
  budget_type = pool;
  require_purchase_for_requests = true;
  hide_public_regions = false;
}

abbrev billing : BillingArgs
billing = record {
  region_id = 1;
  budget_cents = 3000;
  period_start = 100;
  spend = some 2500;
  team_cap = none;
  keys =
      record { id = 1; litellm_token = "sk-1"; spend_cap = none }
      ∷ record { id = 2; litellm_token = "sk-2"; spend_cap = some 50 }
      ∷ [];
  region_found = true;
  rpm_limit = some 500;
  limits_raise = false;
}

-- LiteLLM refuses the keys with a cap, and does not answer the drift check.
abbrev refuses_caps : CycleCall → Bool
refuses_caps check_drift = true
refuses_caps (set_key_restrictions token (some cap) rpm) = true
refuses_caps _ = false

abbrev unpaid : Paid
unpaid = record { sync_status = some pending; last_payment = none }

apply_billing_cycle_for_team_errors_example :
    ErrorsCounted refuses_caps billing unpaid
      (apply_billing_cycle_for_team refuses_caps 200 (some team_seven) billing book unpaid)
apply_billing_cycle_for_team_errors_example =
    apply_billing_cycle_for_team_errors refuses_caps 200 team_seven billing 500 book unpaid refl
      refl refl

-- The one key with a cap is the one error.
errors_run :
    (apply_billing_cycle_for_team refuses_caps 200 (some team_seven) billing book unpaid).0
    ≡ returned (no_key_update 2 ∷ [])
unfolding program
errors_run = refl
