-- ===== src/Alert/Run.antt =====
-- Sweeps one after the other, and the ids that were delivered for one subject,
-- app/core/budget_alert_service.py.
use amazee_ai.Common.{[], ◌≡◌, List, ℕ, Instant, subst, sym, refl, find_first}
use amazee_ai.Alert.{Subject, AlertState, EventId, String, find_state, decide}
use amazee_ai.Alert.Row.{IsDistinct, IsAmong, IsAbsent}
use amazee_ai.Alert.Crossing.{sweep_region_row, sweep_region_other, sent_ids}
use amazee_ai.Alert.Sweep.{Delivery, sweep_region}
use amazee_ai.Alert.Behind.{IsSound, sweep_step, IsCurrentOrNew, IsUnique, ids_after}

-- The tables that sweeps reach from the empty one, with the ids delivered for the subject `key`.
-- Thresholds, subjects and deliveries may differ from sweep to sweep; a period does not come back.
pub data Run (key : String) : List AlertState → List EventId → Type 0 where
  start : Run key [] []
  swept :
      {rows : List AlertState} {ids : List EventId} (d : Delivery) (thresholds : List ℕ)
      (region : ℕ) (now : Instant) (subjects : List Subject) (s : Subject)
      → Run key rows ids
      → IsDistinct subjects
      → IsAmong s subjects
      → s.subject_key ≡ key
      → IsCurrentOrNew (find_state s.subject_key rows) ids s.period_key
      → Run key (sweep_region d thresholds region now subjects rows) (
          ids_after
            (sent_ids d thresholds region subjects rows)
            (decide thresholds region rows s)
            ids)
  passed :
      {rows : List AlertState} {ids : List EventId} (d : Delivery) (thresholds : List ℕ)
      (region : ℕ) (now : Instant) (subjects : List Subject)
      → Run key rows ids
      → IsAbsent key subjects
      → Run key (sweep_region d thresholds region now subjects rows) ids

Run-IsSound :
    {key : String} {rows : List AlertState} {ids : List EventId}
    → Run key rows ids
    → IsSound (find_state key rows) ids
unfolding find_state find_first
Run-IsSound start = (refl, tt)
Run-IsSound {key}
      (swept {rows} {ids} d thresholds region now subjects s run distinct among same current) =
    let sent = sent_ids d thresholds region subjects rows in
    let before : IsSound (find_state s.subject_key rows) ids =
      subst (λ k. IsSound (find_state k rows) ids) (sym same) (Run-IsSound run) in
    subst
      (λ k.
        IsSound (find_state k (sweep_region d thresholds region now subjects rows))
          (ids_after sent (decide thresholds region rows s) ids))
      same
      (subst (λ st. IsSound st (ids_after sent (decide thresholds region rows s) ids))
        (sym (sweep_region_row d thresholds region now s subjects rows distinct among))
        (sweep_step thresholds region now sent s (find_state s.subject_key rows) ids current
          before))
Run-IsSound {key} (passed {rows} {ids} d thresholds region now subjects run absent) =
    subst (λ st. IsSound st ids)
      (sym (sweep_region_other d thresholds region now key subjects rows absent)) (Run-IsSound run)

-- In any sequence of sweeps in which a period of the subject does not come back, no id is delivered
-- twice for a subject: every crossing that a delivery accepted has an id of its own.
pub delivered_ids-IsUnique :
    {key : String} {rows : List AlertState} {ids : List EventId} → Run key rows ids → IsUnique ids
delivered_ids-IsUnique run = (Run-IsSound run).1
