-- ===== src/Period/Rolling.antt =====
-- The cycle of a cap in days, `current_cycle_start` of app/core/spend_period_service.py.
use amazee_ai.Common.{some, suc, ◌+◌, ◌-◌, ◌*◌, ◌/◌, ◌≤◌, ◌<◌, ◌≡◌, ℕ, plus_days, day, arith}
use native.Mathlib.Nat.{div-add-mod', mod-lt}
use amazee_ai.Period.{current_cycle_start_days}

-- For an anchor that is not in the future, the cycle of a cap of a positive number of days starts
-- a whole number of cycles after the anchor, not after the instant asked for, and ends after it.
current_cycle_start_contains :
    (d anchor now : ℕ)
    → anchor ≤ now
    → (k : ℕ) × (current_cycle_start_days (suc d) (some anchor) now
        ≡ some (plus_days anchor (k * suc d)))
      × (plus_days anchor (k * suc d) ≤ now)
      × (now < plus_days anchor (k * suc d + suc d))
unfolding current_cycle_start_days
current_cycle_start_contains d anchor now h = (
  (now - anchor) / day / suc d,
  ground arith,
  omega (arith, div-add-mod' ((now - anchor) / day) (suc d)),
  omega (
    arith,
    div-add-mod' ((now - anchor) / day) (suc d),
    mod-lt ((now - anchor) / day) {m = suc d} (omega arith),
  ),
)
