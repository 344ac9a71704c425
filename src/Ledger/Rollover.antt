-- ===== src/Ledger/Rollover.antt =====
-- `compute_active_topup_remaining` and `materialize_topup_rollovers` of
-- app/core/periodic_budget_ledger_service.py: what is left of the top-ups at a cycle's end moves to
-- one rollover entry.
use amazee_ai.Common.Table.{set_row}
use amazee_ai.Ledger.{
  integrity_error, Entry, Ledger, Result, String, in_scope, ok, topup_rollover, free, is_topup_like,
  is_invoice_entry, add_entry,
}
use amazee_ai.Common.{
  [], none, some, true, false, ◌+◌, ◌&&◌, ◌∷◌, if◌then◌else◌, Instant, List, Option, ℕ, Bool, ltb,
  leb, select, sum_by, truthy, any, unexpired,
}
pub mod Balance

unfoldable pub is_valid_topup : Instant → ℕ → ℕ → Entry → Bool
is_valid_topup now team region e =
    in_scope team region e && is_topup_like e && e.is_active && unexpired now e.expires_at

-- The SUM of amount_cents - consumed_cents, over the entries where that is positive.
unfoldable pub compute_active_topup_remaining : Instant → ℕ → ℕ → Ledger → ℕ
unfolding is_valid_topup
compute_active_topup_remaining now team region l = sum_by free (
    select (λ e. is_valid_topup now team region e && ltb e.consumed_cents e.amount_cents) l.entries)

-- `entry.is_active = False`
unfoldable pub deactivate : Entry → Entry
deactivate e = record e { is_active = false }

-- The variables of the loop, and the table that it writes to.
pub record Rollover : Type 0 where
  pub rows : List Entry
  pub total : ℕ
  pub expiry : Option Instant
  pub has_non_expiring : Bool

-- The expiry so far is replaced by a later one, unless an entry without an expiry was met.
pub later_expiry : Instant → Option Instant → Option Instant
later_expiry t none = some t
later_expiry t (some r) = if ltb r t then some t else some r

pub roll_expiry : Option Instant → Rollover → Rollover
unfolding later_expiry
roll_expiry none s = record s { has_non_expiring = true; expiry = none }
roll_expiry (some t) s =
    if s.has_non_expiring then s else record s { expiry = later_expiry t s.expiry }

-- One round of the loop: the entry is closed, and what is left of it goes to the rollover.
unfoldable pub roll_over : Entry → Rollover → Rollover
unfolding deactivate roll_expiry
roll_over e s =
    let rows = set_row (λ x. x.id) (deactivate e) s.rows in
    let s' = roll_expiry e.expires_at s in
    if leb (free e) 0
    then record s { rows = rows }
    else record s' { rows = rows; total = s.total + free e }

unfoldable pub rollover_loop : List Entry → Rollover → Rollover
unfolding roll_over
rollover_loop [] s = s
rollover_loop (e ∷ es) s = rollover_loop es (roll_over e s)

abbrev pub rollover_entry : ℕ → ℕ → Option String → ℕ → Instant → Option Instant → Entry
rollover_entry team region invoice total rollover_at expiry = record {
  id = 0;
  team_id = team;
  region_id = region;
  entry_type = topup_rollover;
  source_payment_id = none;
  source_invoice_id = invoice;
  stripe_payment_id = none;
  amount_cents = total;
  consumed_cents = 0;
  purchased_at = rollover_at;
  effective_period_start = none;
  effective_period_end = none;
  expires_at = expiry;
  rolled_over_from_id = none;
  is_active = true;
}

-- The loop over the entries that are valid now, from empty variables.
unfoldable pub rolled : Instant → ℕ → ℕ → Ledger → Rollover
unfolding rollover_loop is_valid_topup
rolled now team region l =
    rollover_loop (select (is_valid_topup now team region) l.entries)
      (record { rows = l.entries; total = 0; expiry = none; has_non_expiring = false })

-- `return rollover_total` behind the flush of the new row.
unfoldable pub counted : ℕ → Result (Entry × Ledger) → Result (ℕ × Ledger)
counted total (ok (e, l)) = ok (total, l)
counted total integrity_error = integrity_error

unfoldable pub materialize_topup_rollovers :
    Instant → ℕ → ℕ → Option String → Instant → Ledger → Result (ℕ × Ledger)
unfolding rolled counted
materialize_topup_rollovers now team region invoice rollover_at l =
    let s = rolled now team region l in
    let closed : Ledger = record l { entries = s.rows } in
    if truthy invoice && any (is_invoice_entry topup_rollover team region invoice) l.entries
    then ok (0, l)
    else (if ltb 0 s.total
        then counted s.total
            (add_entry (rollover_entry team region invoice s.total rollover_at s.expiry) closed)
        else ok (0, closed))
