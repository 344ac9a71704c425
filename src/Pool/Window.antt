-- ===== src/Pool/Window.antt =====
-- The days that a pool team's budget runs, and the purchase that opens its keys.
use amazee_ai.Pool.{days_left}
use amazee_ai.Common.{arith, ◌+◌, ◌≤◌, ◌<◌, ◌≡◌, ℕ, Instant, plus_days, day}

-- The budget runs until the last purchase expires, rounded up to a whole day, while that has not
-- happened yet; this holds of a purchase dated in the future too.
days_left_window :
    (expiry_days : ℕ) (now latest : Instant)
    → now ≤ plus_days latest expiry_days
    → (plus_days latest expiry_days ≤ plus_days now (days_left expiry_days now latest))
      × (plus_days now (days_left expiry_days now latest) < plus_days latest expiry_days + day)
unfolding days_left
days_left_window expiry_days now latest h = ground arith

-- Past the expiry of the last purchase no day is left.
pub days_left_expired :
    (expiry_days : ℕ) (now latest : Instant)
    → plus_days latest expiry_days ≤ now
    → days_left expiry_days now latest ≡ 0
unfolding days_left
days_left_expired expiry_days now latest h = ground arith
