-- ===== src/Alert.antt =====
-- The thresholds of app/core/budget_alert_service.py: the band that a subject's spend has crossed,
-- which crossings are notified, and the row of budget_alert_state that remembers it.
-- Dollars are in ten-thousandths, as the service rounds them, and so are percentages.
pub mod State
pub mod Delivery
pub mod Sweep
pub mod Band
pub mod Row
pub mod Marking
pub mod Crossing
pub mod Behind
pub mod Run
mod Tests
use Prim.Native.String.{String}
use text.Mathlib.Text.{◌==◌ as same_text}
use amazee_ai.Common.{
  ◌==◌, Instant, [], none, some, false, ◌+◌, ◌*◌, ◌/◌, ◌||◌, ◌∷◌, if◌then◌else◌, List, Option, ℕ,
  Bool, find_first, leb, not, ltb,
}

-- `_Subject`, with the period key of its window and the numbers of the rows it points to.
pub record Subject : Type 0 where
  pub subject_type : String
  pub subject_key : String
  pub spend : ℕ
  pub max_budget : Option ℕ
  pub period_key : String
  pub team_id : Option ℕ
  pub user_id : Option ℕ
  pub key_id : Option ℕ

-- A row of `budget_alert_state`.
pub record AlertState : Type 0 where
  pub subject_key : String
  pub subject_type : String
  pub region_id : ℕ
  pub team_id : Option ℕ
  pub user_id : Option ℕ
  pub key_id : Option ℕ
  pub period_key : String
  pub last_threshold_pct : ℕ
  pub arm_seq : ℕ
  pub spend_at_notify : ℕ
  pub budget_at_notify : ℕ
  pub percent_at_notify : ℕ
  pub notified_at : Option Instant

-- The identity of a crossing, of which `event_id_for` sends a digest.
pub record EventId : Type 0 where
  pub subject_key : String
  pub period_key : String
  pub band : ℕ
  pub arm_seq : ℕ

pub record BudgetAlertEvent : Type 0 where
  pub event_id : EventId
  pub subject_key : String
  pub threshold_pct : ℕ
  pub percent_used : ℕ
  pub spend : ℕ
  pub max_budget : ℕ
  pub region_id : ℕ
  pub period_key : String

abbrev pub budget_of : Subject → ℕ
budget_of s = elim s.max_budget [ none ↦ 0 | some b ↦ b ]

-- 100 * spend / max_budget, rounded to four places: half up here, where the source rounds a float, half
-- to even.
pub percent_used : Subject → ℕ
percent_used s =
    if budget_of s == 0 then 0 else (2_000_000 * s.spend + budget_of s) / (2 * budget_of s)

pub band_loop : ℕ → ℕ → List ℕ → ℕ
band_loop percent crossed [] = crossed
band_loop percent crossed (t ∷ ts) =
    band_loop percent (if leb (10_000 * t) percent then t else crossed) ts

unfoldable pub highest_crossed_band : ℕ → List ℕ → ℕ
unfolding band_loop
highest_crossed_band percent thresholds = band_loop percent 0 thresholds

pub find_state : String → List AlertState → Option AlertState
find_state key rows = find_first (λ r. same_text r.subject_key key) rows

-- What `_classify_subjects` decides of one subject.
pub data Decision : Type 0 where
  notify : BudgetAlertEvent → Decision
  reset : ℕ → Decision
  quiet : Decision

abbrev pub previous_band : Option AlertState → String → ℕ
previous_band none period = 0
previous_band (some r) period = if same_text r.period_key period then r.last_threshold_pct else 0

abbrev pub arm_of : Option AlertState → ℕ
arm_of none = 0
arm_of (some r) = r.arm_seq

abbrev pub is_other_period : Option AlertState → String → Bool
is_other_period none period = false
is_other_period (some r) period = not (same_text r.period_key period)

unfoldable pub build_event : ℕ → Subject → ℕ → ℕ → BudgetAlertEvent
unfolding percent_used
build_event region s band arm = record {
  event_id = record {
    subject_key = s.subject_key;
    period_key = s.period_key;
    band = band;
    arm_seq = arm;
  };
  subject_key = s.subject_key;
  threshold_pct = band;
  percent_used = percent_used s;
  spend = s.spend;
  max_budget = budget_of s;
  region_id = region;
  period_key = s.period_key;
}

unfoldable pub classify : List ℕ → ℕ → Option AlertState → Subject → Decision
unfolding highest_crossed_band percent_used build_event
classify thresholds region state s =
    let band = highest_crossed_band (percent_used s) thresholds in
    let previous = previous_band state s.period_key in
    if budget_of s == 0
    then quiet
    else (if ltb previous band
        then notify (build_event region s band (arm_of state))
        else (if not (band == previous) || is_other_period state s.period_key
            then reset band
            else quiet))

module _ (thresholds : List ℕ) (region : ℕ) (existing : List AlertState) where
  abbrev pub decide : Subject → Decision
  decide s = classify thresholds region (find_state s.subject_key existing) s

  -- `result.events`
  pub events_of : List Subject → List BudgetAlertEvent
  events_of [] = []
  events_of (s ∷ ss) = elim (decide s) [
    | notify e ↦ e ∷ events_of ss
    | reset b ↦ events_of ss
    | quiet ↦ events_of ss
  ]

  -- `result.resets`
  pub resets_of : List Subject → List (Subject × ℕ)
  resets_of [] = []
  resets_of (s ∷ ss) = elim (decide s) [
    | notify e ↦ resets_of ss
    | reset b ↦ (s, b) ∷ resets_of ss
    | quiet ↦ resets_of ss
  ]
