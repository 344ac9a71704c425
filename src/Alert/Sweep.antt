-- ===== src/Alert/Sweep.antt =====
-- One region in the sweep of `monitor_budget_thresholds`, app/core/budget_alert_service.py.
use amazee_ai.Common.{if◌then◌else◌, Bool, List, ℕ, Instant}
use amazee_ai.Alert.{Subject, AlertState, EventId, BudgetAlertEvent, events_of, resets_of}
use amazee_ai.Alert.State.{apply_resets, mark_notified}

-- How alerts are sent: whether at all, and which ids of the events a delivery returns.
pub record Delivery : Type 0 where
  pub alerts_enabled : Bool
  pub deliver : List BudgetAlertEvent → List EventId

-- The subjects are classified, resets are written, and what was delivered is marked.
unfoldable pub sweep_region :
    Delivery → List ℕ → ℕ → Instant → List Subject → List AlertState → List AlertState
unfolding events_of resets_of apply_resets mark_notified
sweep_region d thresholds region now subjects rows =
    let events = events_of thresholds region rows subjects in
    let rewritten = apply_resets region (resets_of thresholds region rows subjects) rows in
    if d.alerts_enabled
    then (mark_notified region now events (d.deliver events) subjects rewritten).1
    else rewritten
