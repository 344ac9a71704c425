-- ===== src/Alert/State.antt =====
-- The writes to budget_alert_state, app/core/budget_alert_service.py: silent resets before delivery,
-- and the crossings that were delivered after it. The subjects of a sweep have distinct keys.
use amazee_ai.Common.{
  [], none, some, true, false, suc, ◌&&◌, ◌∷◌, ◌==◌, if◌then◌else◌, Bool, ℕ, Instant, List, Option,
  any,
}
use amazee_ai.Alert.{
  Subject, AlertState, EventId, BudgetAlertEvent, String, same_text, budget_of, percent_used,
}

-- The row that `_upsert_state` adds.
abbrev pub fresh_state : Subject → ℕ → AlertState
fresh_state s region = record {
  subject_key = s.subject_key;
  subject_type = s.subject_type;
  region_id = region;
  team_id = none;
  user_id = none;
  key_id = none;
  period_key = "";
  last_threshold_pct = 0;
  arm_seq = 0;
  spend_at_notify = 0;
  budget_at_notify = 0;
  percent_at_notify = 0;
  notified_at = none;
}

-- The values that it writes.
unfoldable pub write_state :
    Subject → ℕ → ℕ → String → Option Instant → Bool → AlertState → AlertState
write_state s region band period notified bump r = record r {
  subject_type = s.subject_type;
  region_id = region;
  team_id = s.team_id;
  user_id = s.user_id;
  key_id = s.key_id;
  period_key = period;
  last_threshold_pct = band;
  arm_seq = if bump then suc r.arm_seq else r.arm_seq;
  spend_at_notify = s.spend;
  budget_at_notify = budget_of s;
  percent_at_notify = percent_used s;
  notified_at = elim notified [ none ↦ r.notified_at | some t ↦ some t ];
}

-- The first row of the subject is written, or a new one.
unfoldable pub upsert_state :
    Subject → ℕ → ℕ → String → Option Instant → Bool → List AlertState → List AlertState
unfolding write_state
upsert_state s region band period notified bump [] =
    write_state s region band period notified bump (fresh_state s region) ∷ []
upsert_state s region band period notified bump (r ∷ rs) =
    if same_text r.subject_key s.subject_key
    then write_state s region band period notified bump r ∷ rs
    else r ∷ upsert_state s region band period notified bump rs

unfoldable pub apply_resets : ℕ → List (Subject × ℕ) → List AlertState → List AlertState
unfolding upsert_state
apply_resets region [] rows = rows
apply_resets region ((s, band) ∷ rest) rows =
    apply_resets region rest (upsert_state s region band s.period_key none true rows)

abbrev pub same_id : EventId → EventId → Bool
same_id a b =
    same_text a.subject_key b.subject_key
    && same_text a.period_key b.period_key
    && a.band == b.band
    && a.arm_seq == b.arm_seq

-- `by_subject`: the last event of a subject that was delivered.
unfoldable pub event_for : String → List EventId → List BudgetAlertEvent → Option BudgetAlertEvent
event_for key delivered [] = none
event_for key delivered (e ∷ es) = elim (event_for key delivered es) [
  | some x ↦ some x
  | none ↦
      if same_text e.subject_key key && any (same_id e.event_id) delivered then some e else none
]

-- The number of subjects advanced, and the table after it.
unfoldable pub mark_notified :
    ℕ
    → Instant
    → List BudgetAlertEvent
    → List EventId
    → List Subject
    → List AlertState
    → ℕ × List AlertState
unfolding upsert_state event_for
mark_notified region now events delivered [] rows = (0, rows)
mark_notified region now events delivered (s ∷ ss) rows =
    elim (event_for s.subject_key delivered events) [
      | none ↦ mark_notified region now events delivered ss rows
      | some e ↦
          let (n, rows') =
            mark_notified region now events delivered ss
              (upsert_state s region e.threshold_pct e.period_key (some now) false rows) in
          (suc n, rows')
    ]
