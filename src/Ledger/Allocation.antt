-- ===== src/Ledger/Allocation.antt =====
-- `allocate_period_spend_fifo` of app/core/periodic_budget_ledger_service.py: a period's spend is
-- charged to the active entries in their order.
pub mod Conservation
pub mod Fifo
use amazee_ai.Common.Table.{set_row}
use amazee_ai.Common.{
  ℕ, ◌+◌, ◌-◌, min, Bool, false, List, [], ◌∷◌, leb, if◌then◌else◌, ℤ, pos_part, Instant,
}
use amazee_ai.Ledger.{Entry, Ledger, AllocationResult, free, active_entries}

-- `consumed_cents += delta`, and the entry is closed once it is used up.
unfoldable pub consume : ℕ → Entry → Entry
consume delta e =
    let consumed = e.consumed_cents + delta in
    record e {
      consumed_cents = consumed;
      is_active = if leb e.amount_cents consumed then false else e.is_active;
    }

-- The variables of the loop, and the table that it writes to.
pub record Progress : Type 0 where
  pub rows : List Entry
  pub allocated : ℕ
  pub remaining : ℕ

-- One round, on an entry with something left.
unfoldable pub charge : Entry → Progress → Progress
unfolding consume
charge e s =
    let delta = min (free e) s.remaining in
    record {
      rows = set_row (λ x. x.id) (consume delta e) s.rows;
      allocated = s.allocated + delta;
      remaining = s.remaining - delta;
    }

unfoldable pub allocate_loop : List Entry → Progress → Progress
unfolding charge
allocate_loop [] s = s
allocate_loop (e ∷ es) s =
    let rest = allocate_loop es (if leb (free e) 0 then s else charge e s) in
    if leb s.remaining 0 then s else rest

unfoldable pub allocate_period_spend_fifo : Instant → ℕ → ℕ → ℤ → Ledger → Ledger × AllocationResult
unfolding allocate_loop
allocate_period_spend_fifo now team region spend l =
    let start : Progress = record { rows = l.entries; allocated = 0; remaining = pos_part spend } in
    let end = allocate_loop (active_entries now team region l) start in
    (
      record l { entries = end.rows },
      record { allocated_cents = end.allocated; unallocated_cents = end.remaining },
    )
