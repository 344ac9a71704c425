-- ===== src/Alert/Crossing.antt =====
-- What a sweep makes of one subject: the crossing that it notifies, again while it is not delivered,
-- and what the row remembers, app/core/budget_alert_service.py.
use amazee_ai.Alert.State.{apply_resets, same_id, write_state}
use amazee_ai.Common.{
  [], none, some, true, false, inl, inr, ◌≡◌, if◌then◌else◌, List, ℕ, Instant, Option, any, refl,
  ◌∙◌, Bool-cases, ap₂, ◌≤◌, ◌≢◌, ap, arith, Bool, sym,
}
use text.Mathlib.TextEquality.{eq_iff}
use amazee_ai.Alert.{
  Subject, AlertState, EventId, BudgetAlertEvent, events_of, resets_of, classify, find_state,
  notify, decide, reset, quiet, Decision, String, highest_crossed_band, percent_used, build_event,
  previous_band,
}
use amazee_ai.Alert.Row.{
  IsDistinct, IsAmong, reset_row, apply_resets_self, row_or_fresh, IsAbsent, apply_resets_other,
}
use amazee_ai.Alert.Marking.{
  marked_row, sent_event, event_for_self, mark_notified_self, classify-notify, mark_notified_other,
}
use amazee_ai.Alert.Sweep.{Delivery, sweep_region}

-- The ids that a sweep delivers.
abbrev pub sent_ids : Delivery → List ℕ → ℕ → List Subject → List AlertState → List EventId
sent_ids d thresholds region subjects rows =
    if d.alerts_enabled then d.deliver (events_of thresholds region rows subjects) else []

-- One subject's row after a sweep, by the decision and what was delivered.
abbrev pub row_by :
    ℕ → Instant → List EventId → Subject → Option AlertState → Decision → Option AlertState
row_by region now delivered s state (notify e) =
    if any (same_id e.event_id) delivered
    then some (
        write_state s region e.threshold_pct e.period_key (some now) false
          (row_or_fresh s region state))
    else state
row_by region now delivered s state (reset b) =
    some (write_state s region b s.period_key none true (row_or_fresh s region state))
row_by region now delivered s state quiet = state

abbrev pub row_after :
    List ℕ → ℕ → Instant → List EventId → Subject → Option AlertState → Option AlertState
row_after thresholds region now delivered s state =
    row_by region now delivered s state (classify thresholds region state s)

module _ (thresholds : List ℕ) (region : ℕ) (now : Instant) (rows : List AlertState) where
  marked_by :
      (delivered : List EventId) (events : List BudgetAlertEvent) (s : Subject)
      (state : Option AlertState) (dec : Decision)
      → marked_row region now events delivered s
          (sent_event thresholds region rows delivered dec)
          (reset_row thresholds region rows s dec state)
        ≡ row_by region now delivered s state dec
  marked_by delivered events s state (notify e) =
      elim (Bool-cases (any (same_id e.event_id) delivered)) [
        | inl sent ↦ rw sent refl
        | inr unsent ↦ rw unsent refl
      ]
  marked_by delivered events s state (reset b) = refl
  marked_by delivered events s state quiet = refl

  unmarked_by :
      (s : Subject) (state : Option AlertState) (dec : Decision)
      → reset_row thresholds region rows s dec state ≡ row_by region now [] s state dec
  unfolding any
  unmarked_by s state (notify e) = refl
  unmarked_by s state (reset b) = refl
  unmarked_by s state quiet = refl

-- A sweep treats each subject's row by itself, where the subjects have distinct keys.
pub sweep_region_row :
    (d : Delivery) (thresholds : List ℕ) (region : ℕ) (now : Instant) (s : Subject)
    (subjects : List Subject) (rows : List AlertState)
    → IsDistinct subjects
    → IsAmong s subjects
    → find_state s.subject_key (sweep_region d thresholds region now subjects rows)
      ≡ row_after thresholds region now
          (sent_ids d thresholds region subjects rows)
          s
          (find_state s.subject_key rows)
unfolding sweep_region
sweep_region_row d thresholds region now s subjects rows distinct among =
    let events = events_of thresholds region rows subjects in
    let rewritten = apply_resets region (resets_of thresholds region rows subjects) rows in
    let state = find_state s.subject_key rows in
    let dec = decide thresholds region rows s in
    let reset_lem = apply_resets_self thresholds region rows s subjects rows distinct among in
    let sent = event_for_self thresholds region rows (d.deliver events) s subjects distinct among in
    elim (Bool-cases d.alerts_enabled) [
      | inl on ↦ rw on (
          mark_notified_self region now events (d.deliver events) s subjects rewritten distinct
            among
          ∙ ap₂ (marked_row region now events (d.deliver events) s) sent reset_lem
          ∙ marked_by thresholds region now rows (d.deliver events) events s state dec)
      | inr off ↦ rw off (reset_lem ∙ unmarked_by thresholds region now rows s state dec)
    ]

-- A sweep leaves the row of a subject that it does not consider.
pub sweep_region_other :
    (d : Delivery) (thresholds : List ℕ) (region : ℕ) (now : Instant) (key : String)
    (subjects : List Subject) (rows : List AlertState)
    → IsAbsent key subjects
    → find_state key (sweep_region d thresholds region now subjects rows) ≡ find_state key rows
unfolding sweep_region
sweep_region_other d thresholds region now key subjects rows absent =
    let events = events_of thresholds region rows subjects in
    let rewritten = apply_resets region (resets_of thresholds region rows subjects) rows in
    let reset_lem = apply_resets_other thresholds region rows key subjects rows absent in
    elim (Bool-cases d.alerts_enabled) [
      | inl on ↦ rw on (
          mark_notified_other region now events (d.deliver events) key subjects rewritten absent
          ∙ reset_lem)
      | inr off ↦ rw off reset_lem
    ]

-- A crossing that was not delivered is found again by the next sweep, with the same event.
pub crossing_retried :
    (d : Delivery) (thresholds : List ℕ) (region : ℕ) (now : Instant) (s : Subject)
    (subjects : List Subject) (rows : List AlertState) (e : BudgetAlertEvent)
    → IsDistinct subjects
    → IsAmong s subjects
    → decide thresholds region rows s ≡ notify e
    → any (same_id e.event_id) (sent_ids d thresholds region subjects rows) ≡ false
    → decide thresholds region (sweep_region d thresholds region now subjects rows) s ≡ notify e
crossing_retried d thresholds region now s subjects rows e distinct among found unsent =
    let state = find_state s.subject_key rows in
    let sent = sent_ids d thresholds region subjects rows in
    let kept : row_after thresholds region now sent s state ≡ state =
      ap (row_by region now sent s state) found ∙ rw unsent refl in
    ap (λ st. classify thresholds region st s)
      (sweep_region_row d thresholds region now s subjects rows distinct among ∙ kept)
    ∙ found

pub previous_band-written :
    (s : Subject) (region band : ℕ) (period : String) (notified : Option Instant) (bump : Bool)
    (r : AlertState) (p : String)
    → period ≡ p
    → previous_band (some (write_state s region band period notified bump r)) p ≡ band
unfolding write_state
previous_band-written s region band period notified bump r p h = ground (arith, eq_iff period p)

-- Once a crossing is delivered, a subject with that key is not notified again in the period while
-- its band is no higher.
pub crossing_not_repeated :
    (d : Delivery) (thresholds : List ℕ) (region : ℕ) (now : Instant) (s : Subject)
    (subjects : List Subject) (rows : List AlertState) (e : BudgetAlertEvent) (later : Subject)
    (e' : BudgetAlertEvent)
    → IsDistinct subjects
    → IsAmong s subjects
    → decide thresholds region rows s ≡ notify e
    → any (same_id e.event_id) (sent_ids d thresholds region subjects rows) ≡ true
    → later.subject_key ≡ s.subject_key
    → later.period_key ≡ s.period_key
    → highest_crossed_band (percent_used later) thresholds ≤ e.threshold_pct
    → decide thresholds region (sweep_region d thresholds region now subjects rows) later
      ≢ notify e'
unfolding build_event
crossing_not_repeated d thresholds region now s subjects rows e later e' distinct among found sent
      key period band again =
    let state = find_state s.subject_key rows in
    let ids = sent_ids d thresholds region subjects rows in
    let swept = sweep_region d thresholds region now subjects rows in
    let row =
      write_state s region e.threshold_pct e.period_key (some now) false
        (row_or_fresh s region state) in
    let period_e : e.period_key ≡ s.period_key =
      ap (λ x. x.period_key) (classify-notify thresholds region state s e found).0 in
    let after : find_state later.subject_key swept ≡ some row =
      ap (λ k. find_state k swept) key
      ∙ sweep_region_row d thresholds region now s subjects rows distinct among
      ∙ ap (row_by region now ids s state) found
      ∙ rw sent refl in
    let again_row : classify thresholds region (some row) later ≡ notify e' =
      ap (λ st. classify thresholds region st later) (sym after) ∙ again in
    let above = (classify-notify thresholds region (some row) later e' again_row).1 in
    let remembered =
      previous_band-written s region e.threshold_pct e.period_key (some now) false
        (row_or_fresh s region state) later.period_key (period_e ∙ sym period) in
    omega (arith, above, remembered, band)
