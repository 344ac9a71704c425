-- ===== src/Ledger/Allocation/Conservation.antt =====
-- What the loop of `allocate_period_spend_fifo` adds up to.
use amazee_ai.Common.Lists.{All-select, select_sound}
use amazee_ai.Common.Sort.{All-sort_by, IsKeyed-sort_by}
use amazee_ai.Common.Table.{
  find_row, IsKeyed, IsStored, IsStored-set_row, sum_by-set_row, IsKeyed-select, IsKeyed-IsStored,
}
use amazee_ai.Common.{
  ℕ, ◌+◌, min, ◌≡◌, refl, some, List, [], ◌∷◌, sum_by, arith, true, Instant, ℤ, All, pos_part,
}
use amazee_ai.Ledger.{Entry, free, active_entries, Ledger, before, is_active_entry}
use amazee_ai.Ledger.Allocation.{
  Progress, consume, charge, allocate_loop, allocate_period_spend_fifo,
}

abbrev pub id_of : Entry → ℕ
id_of e = e.id

-- The loop's rounds, without the table: every cent is charged or left over, and what is charged is
-- the spend as far as the entries reach.
pub allocate_loop_total :
    (es : List Entry) (s : Progress)
    → ((allocate_loop es s).allocated + (allocate_loop es s).remaining ≡ s.allocated + s.remaining)
      × ((allocate_loop es s).allocated ≡ s.allocated + min (sum_by free es) s.remaining)
unfolding allocate_loop charge sum_by
allocate_loop_total [] s = (refl, omega arith)
allocate_loop_total (e ∷ es) s =
    ground (arith, allocate_loop_total es s, allocate_loop_total es (charge e s))

-- A round on a stored entry: its row holds the charged entry, and the later entries are stored still.
pub charge-IsStored :
    (e : Entry) (es : List Entry) (s : Progress)
    → IsKeyed id_of (e ∷ es)
    → IsStored id_of s.rows (e ∷ es)
    → IsStored id_of (charge e s).rows es
unfolding charge consume
charge-IsStored e es s k h =
    IsStored-set_row id_of (consume (min (free e) s.remaining) e) e s.rows es h.0 k.0 h.1

charge_consumed :
    (e : Entry) (s : Progress)
    → find_row id_of e.id s.rows ≡ some e
    → sum_by (λ x. x.consumed_cents) (charge e s).rows + s.allocated
      ≡ sum_by (λ x. x.consumed_cents) s.rows + (charge e s).allocated
unfolding charge consume
charge_consumed e s h = omega (
  arith,
  sum_by-set_row id_of (λ x. x.consumed_cents) (consume (min (free e) s.remaining) e) e s.rows h,
)

-- What the table's `consumed_cents` add up to rises by what the loop allocates.
pub allocate_loop_consumed :
    (es : List Entry) (s : Progress)
    → IsKeyed id_of es
    → IsStored id_of s.rows es
    → sum_by (λ x. x.consumed_cents) (allocate_loop es s).rows + s.allocated
      ≡ sum_by (λ x. x.consumed_cents) s.rows + (allocate_loop es s).allocated
unfolding allocate_loop
allocate_loop_consumed [] s k h = refl
allocate_loop_consumed (e ∷ es) s k h = ground (
  arith,
  allocate_loop_consumed es s k.1 h.1,
  allocate_loop_consumed es (charge e s) k.1 (charge-IsStored e es s k h),
  charge_consumed e s h.0,
)

-- Each active entry is stored in the table under its key, and no key comes twice.
pub active_entries-IsKeyed :
    (now : Instant) (team region : ℕ) (l : Ledger)
    → IsKeyed id_of l.entries
    → IsKeyed id_of (active_entries now team region l)
unfolding active_entries
active_entries-IsKeyed now team region l k =
    IsKeyed-sort_by before id_of _
      (IsKeyed-select id_of (is_active_entry now team region) l.entries k)

pub active_entries-IsStored :
    (now : Instant) (team region : ℕ) (l : Ledger)
    → IsKeyed id_of l.entries
    → IsStored id_of l.entries (active_entries now team region l)
unfolding active_entries
active_entries-IsStored now team region l k =
    All-sort_by before (λ x. find_row id_of x.id l.entries ≡ some x) _
      (All-select (λ x. find_row id_of x.id l.entries ≡ some x) (is_active_entry now team region)
        l.entries (IsKeyed-IsStored id_of l.entries k))

pub active_entries_sound :
    (now : Instant) (team region : ℕ) (l : Ledger)
    → All (λ x. is_active_entry now team region x ≡ true) (active_entries now team region l)
unfolding active_entries
active_entries_sound now team region l =
    All-sort_by before (λ x. is_active_entry now team region x ≡ true) _
      (select_sound (is_active_entry now team region) l.entries)

-- What is allocated and what is left over make up the spend (0, if that is negative); it is
-- allocated as far as the active entries reach; and in a table with a primary key the consumed
-- cents rise in all by what is allocated.
pub allocate_period_spend_fifo_conserves :
    (now : Instant) (team region : ℕ) (spend : ℤ) (l : Ledger)
    → IsKeyed id_of l.entries
    → let (l', r) = allocate_period_spend_fifo now team region spend l in
      (r.allocated_cents + r.unallocated_cents ≡ pos_part spend)
      × (r.allocated_cents ≡ min (sum_by free (active_entries now team region l)) (pos_part spend))
      × (sum_by (λ x. x.consumed_cents) l'.entries
          ≡ sum_by (λ x. x.consumed_cents) l.entries + r.allocated_cents)
unfolding allocate_period_spend_fifo
allocate_period_spend_fifo_conserves now team region spend l k =
    let start : Progress = record { rows = l.entries; allocated = 0; remaining = pos_part spend } in
    let total = allocate_loop_total (active_entries now team region l) start in
    (
      omega (arith, total.0),
      omega (arith, total.1),
      omega (
        arith,
        allocate_loop_consumed (active_entries now team region l) start
            (active_entries-IsKeyed now team region l k)
            (active_entries-IsStored now team region l k),
      ),
    )
