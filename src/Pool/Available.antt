-- ===== src/Pool/Available.antt =====
-- The available budget of a pool team, and the charge of a period's spend.
use amazee_ai.Common.Lists.{sum_by-select, sum_by-add}
use amazee_ai.Ledger.Allocation.Conservation.{
  id_of, charge-IsStored, active_entries-IsKeyed, active_entries-IsStored, active_entries_sound,
}
use amazee_ai.Ledger.Rollover.Balance.{held, compute_active_topup_remaining-sum}
use amazee_ai.Common.Table.{IsKeyed, find_row, IsStored, set_row, sum_by-set_row}
use amazee_ai.Ledger.Rollover.{is_valid_topup}
use amazee_ai.Ledger.Allocation.{
  allocate_loop, allocate_period_spend_fifo, charge, consume, Progress,
}
use amazee_ai.Ledger.{
  Entry, Ledger, is_active_entry, free, same_type, subscription, active_entries, is_topup_like,
}
use amazee_ai.Pool.{pool_available_budget_for_team_region, is_valid_subscription}
use amazee_ai.Common.{
  [], some, true, refl, arith, ◌+◌, ◌≤◌, ◌≡◌, ◌&&◌, ◌||◌, ◌∷◌, ◌∙◌, if◌then◌else◌, Instant, ℕ, Bool,
  List, sum_by, ℤ, unexpired, All, min, pos_part, ap₂,
}

-- What an entry adds to the available budget.
abbrev pub available : Instant → ℕ → ℕ → Entry → ℕ
available now team region e =
    (if is_valid_subscription now team region e then free e else 0) + held now team region e

pub pool_available_budget-sum :
    (now : Instant) (team region : ℕ) (l : Ledger)
    → pool_available_budget_for_team_region now team region l
      ≡ sum_by (available now team region) l.entries
unfolding pool_available_budget_for_team_region
pool_available_budget-sum now team region l =
    ap₂ (λ a b. a + b) (sum_by-select free (is_valid_subscription now team region) l.entries)
      (compute_active_topup_remaining-sum now team region l)
    ∙ sum_by-add (λ e. if is_valid_subscription now team region e then free e else 0)
        (held now team region) l.entries

-- A budget that both the charge and the available budget count.
unfoldable pub is_spendable : Instant → ℕ → ℕ → Entry → Bool
is_spendable now team region e =
    unexpired now e.expires_at && (same_type e.entry_type subscription || is_topup_like e)

module _ (now : Instant) (team region : ℕ) where
  available-consume :
      (e : Entry) (delta : ℕ)
      → is_active_entry now team region e ≡ true
      → is_spendable now team region e ≡ true
      → delta ≤ free e
      → available now team region (consume delta e) + delta ≡ available now team region e
  unfolding consume is_active_entry is_spendable is_valid_subscription is_valid_topup
  available-consume e delta a p h = ground arith

  available-charge :
      (e : Entry) (s : Progress)
      → find_row id_of e.id s.rows ≡ some e
      → is_active_entry now team region e ≡ true
      → is_spendable now team region e ≡ true
      → sum_by (available now team region) (charge e s).rows + (charge e s).allocated
        ≡ sum_by (available now team region) s.rows + s.allocated
  unfolding charge
  available-charge e s h a p =
      let delta = min (free e) s.remaining in
      let moved : sum_by (available now team region) (set_row id_of (consume delta e) s.rows)
            + available now team region e
          ≡ sum_by (available now team region) s.rows
            + available now team region (consume delta e) =
        unfold consume in
        sum_by-set_row id_of (available now team region) (consume delta e) e s.rows h in
      omega (arith, moved, available-consume e delta a p (omega arith))

  available-allocate_loop :
      (es : List Entry) (s : Progress)
      → IsKeyed id_of es
      → IsStored id_of s.rows es
      → All (λ e. is_active_entry now team region e ≡ true) es
      → All (λ e. is_spendable now team region e ≡ true) es
      → sum_by (available now team region) (allocate_loop es s).rows
          + (allocate_loop es s).allocated
        ≡ sum_by (available now team region) s.rows + s.allocated
  unfolding allocate_loop
  available-allocate_loop [] s k h a p = refl
  available-allocate_loop (e ∷ es) s k h a p = ground (
    arith,
    available-allocate_loop es s k.1 h.1 a.1 p.1,
    available-allocate_loop es (charge e s) k.1 (charge-IsStored e es s k h) a.1 p.1,
    available-charge e s h.0 a.0 p.0,
  )

  -- Charging a period's spend lowers the available budget by exactly what is allocated, where no
  -- active entry is an expired subscription or of an unknown type, in a table with a primary key.
  pub allocate-pool_available_budget :
      (spend : ℤ) (l : Ledger)
      → IsKeyed id_of l.entries
      → All (λ e. is_spendable now team region e ≡ true) (active_entries now team region l)
      → let (l', r) = allocate_period_spend_fifo now team region spend l in
        pool_available_budget_for_team_region now team region l' + r.allocated_cents
        ≡ pool_available_budget_for_team_region now team region l
  unfolding allocate_period_spend_fifo
  allocate-pool_available_budget spend l k p = omega (
    arith,
    pool_available_budget-sum now team region l,
    pool_available_budget-sum now team region
        (allocate_period_spend_fifo now team region spend l).0,
    available-allocate_loop (active_entries now team region l)
        (record { rows = l.entries; allocated = 0; remaining = pos_part spend })
        (active_entries-IsKeyed now team region l k) (active_entries-IsStored now team region l k)
        (active_entries_sound now team region l) p,
  )
