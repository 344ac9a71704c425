-- ===== src/Pool/Tests.antt =====
-- The pool budget's functions run on the ledger's sample, and its theorems applied there.
use amazee_ai.Pool.Available.{allocate-pool_available_budget, is_spendable}
use amazee_ai.Common.Table.{set_row, find_row}
use amazee_ai.Ledger.Samples.{book, book-IsKeyed}
use amazee_ai.Common.Sort.{sort_by}
use amazee_ai.Pool.{days_left, pool_available_budget_for_team_region}
use amazee_ai.Ledger.Allocation.{allocate_period_spend_fifo}
use amazee_ai.Ledger.Rollover.{compute_active_topup_remaining}
use amazee_ai.Ledger.{active_entries, add_topup_entry, Entry, topup_entry}
use amazee_ai.Common.{pos, refl, ◌+◌, ◌≡◌, plus_days, select, sum_by, any, find_first, none}

program : Unit {0}
unfolding active_entries sort_by select allocate_period_spend_fifo set_row sum_by find_row
    add_topup_entry any find_first pool_available_budget_for_team_region is_spendable days_left
program = tt

available_run : pool_available_budget_for_team_region 200 7 1 book ≡ 5600
unfolding program compute_active_topup_remaining
available_run = refl

allocate-pool_available_budget_example :
    let (l', r) = allocate_period_spend_fifo 200 7 1 (pos 4500) book in
    pool_available_budget_for_team_region 200 7 1 l' + r.allocated_cents
    ≡ pool_available_budget_for_team_region 200 7 1 book
allocate-pool_available_budget_example =
    allocate-pool_available_budget 200 7 1 (pos 4500) book book-IsKeyed
      (unfold program in (refl, (refl, (refl, tt))))

abbrev new_topup : Entry
new_topup = record (topup_entry 9 1 700 70 none "pi_9" (plus_days 70 365)) { id = 5 }
