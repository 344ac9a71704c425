-- ===== src/Ledger/Tests.antt =====
-- The ledger's functions run on a sample, and its theorems applied there.
use amazee_ai.Ledger.Rollover.Balance.{materialize_topup_rollovers_keeps_balance}
use amazee_ai.Ledger.Allocation.Conservation.{allocate_period_spend_fifo_conserves}
use amazee_ai.Ledger.Allocation.Fifo.{consumed_over, allocate_period_spend_fifo_order}
use amazee_ai.Common.Table.{set_row, find_row}
use amazee_ai.Ledger.Samples.{book, other_team, second_topup, cycle, first_topup, book-IsKeyed}
use amazee_ai.Common.Sort.{sort_by}
use amazee_ai.Ledger.Rollover.{
  materialize_topup_rollovers, rollover_entry, compute_active_topup_remaining,
}
use amazee_ai.Ledger.Allocation.{allocate_period_spend_fifo}
use amazee_ai.Ledger.{
  active_entries, ok, add_topup_entry, Entry, Ledger, add_subscription_entry, subscription_entry,
  topup_entry, free, is_invoice_entry,
}
use amazee_ai.Common.{
  [], some, true, false, pos, refl, ◌≡◌, ◌∷◌, map, select, sum_by, any, find_first, plus_days, none,
  ◌+◌, ◌++◌, pos_part, min, ℕ, Bool,
}

program : Unit {0}
unfolding active_entries sort_by select allocate_period_spend_fifo set_row sum_by find_row
    materialize_topup_rollovers add_topup_entry any find_first is_invoice_entry
    add_subscription_entry
program = tt

abbrev summary : Entry → ℕ × ℕ × Bool
summary e = (e.id, e.consumed_cents, e.is_active)

-- 45 dollars of spend use up the cycle of 30 and take 15 of the older top-up.
allocate_run :
    let (l, r) = allocate_period_spend_fifo 200 7 1 (pos 4500) book in
    (map summary l.entries
      ≡ (4, 0, true) ∷ (3, 400, true) ∷ (1, 3000, false) ∷ (2, 1500, true) ∷ [])
    × (r.allocated_cents ≡ 4500)
    × (r.unallocated_cents ≡ 0)
unfolding program
allocate_run = (refl, refl, refl)

rollover_run :
    materialize_topup_rollovers 200 7 1 (some "in_1") 200 book
    ≡ ok (
      2600,
      record {
        entries =
            other_team
            ∷ record second_topup { is_active = false }
            ∷ cycle
            ∷ record first_topup { is_active = false }
            ∷ record (rollover_entry 7 1 (some "in_1") 2600 200 (some (plus_days 90 365))) {
              id = 5;
            }
            ∷ [];
        next_id = 6;
      },
    )
unfolding program
rollover_run = refl

-- The order of the active entries: the cycle, then the top-ups, oldest first.
active_run : active_entries 200 7 1 book ≡ cycle ∷ first_topup ∷ second_topup ∷ []
unfolding program
active_run = refl

allocate_period_spend_fifo_order_example :
    consumed_over
      (allocate_period_spend_fifo 200 7 1 (pos 4500) book).0.entries
      (cycle ∷ first_topup ∷ [])
    ≡ 0 + 4500
unfolding program
allocate_period_spend_fifo_order_example =
    allocate_period_spend_fifo_order 200 7 1 (pos 4500) book (cycle ∷ first_topup ∷ [])
      (second_topup ∷ []) book-IsKeyed refl

allocate_period_spend_fifo_conserves_example :
    let (l', r) = allocate_period_spend_fifo 200 7 1 (pos 4500) book in
    (r.allocated_cents + r.unallocated_cents ≡ pos_part (pos 4500))
    × (r.allocated_cents ≡ min (sum_by free (active_entries 200 7 1 book)) (pos_part (pos 4500)))
    × (sum_by (λ x. x.consumed_cents) l'.entries
        ≡ sum_by (λ x. x.consumed_cents) book.entries + r.allocated_cents)
allocate_period_spend_fifo_conserves_example =
    allocate_period_spend_fifo_conserves 200 7 1 (pos 4500) book book-IsKeyed

materialize_topup_rollovers_keeps_balance_example :
    compute_active_topup_remaining 200 7 1 (record {
      entries =
          other_team
          ∷ record second_topup { is_active = false }
          ∷ cycle
          ∷ record first_topup { is_active = false }
          ∷ record (rollover_entry 7 1 (some "in_1") 2600 200 (some (plus_days 90 365))) { id = 5 }
          ∷ [];
      next_id = 6;
    })
    ≡ compute_active_topup_remaining 200 7 1 book
materialize_topup_rollovers_keeps_balance_example =
    materialize_topup_rollovers_keeps_balance 200 7 1 (some "in_1") 200 book book-IsKeyed
      rollover_run

-- A second cycle of the team, and the same event once more.
abbrev renewed : Ledger
renewed = record {
  entries =
      book.entries
      ++ record (subscription_entry 7 1 3000 300 300 400 none (some "in_2")) { id = 5 } ∷ [];
  next_id = 6;
}

add_subscription_entry_run :
    add_subscription_entry 7 1 (pos 3000) 300 300 400 none (some "in_2") book
    ≡ ok (
      some (record (subscription_entry 7 1 3000 300 300 400 none (some "in_2")) { id = 5 }),
      renewed,
    )
unfolding program
add_subscription_entry_run = refl

-- A top-up dated before the team's newest one gets that one's window.
abbrev late_topup : Entry
late_topup = record (topup_entry 7 1 700 70 none "pi_4" (plus_days 90 365)) { id = 5 }

abbrev topped_up : Ledger
topped_up = record { entries = book.entries ++ late_topup ∷ []; next_id = 6 }

add_topup_entry_run :
    add_topup_entry 365 7 1 (pos 700) 70 none "pi_4" book ≡ ok (some late_topup, topped_up)
unfolding program
add_topup_entry_run = refl
