-- ===== src/Alert/Marking.antt =====
-- The delivered crossings and one subject's row, app/core/budget_alert_service.py.
use amazee_ai.Common.{
  [], none, some, false, inl, inr, refl, arith, ◌<◌, ◌≡◌, ◌∷◌, ◌∙◌, if◌then◌else◌, List, ℕ, Instant,
  Option, Option-cases, any, subst, sym, ap,
}
use amazee_ai.Alert.{
  Subject, AlertState, EventId, BudgetAlertEvent, events_of, classify, Decision, String, decide,
  find_state, notify, build_event, highest_crossed_band, percent_used, reset, arm_of, quiet,
  previous_band, same_text,
}
use amazee_ai.Alert.State.{event_for, mark_notified, write_state, same_id, upsert_state}
use amazee_ai.Alert.Row.{
  Decision-cases, find_state-upsert_other, find_state-upsert_self, IsAmong-apart, IsAbsent,
  IsDistinct, IsAmong, row_or_fresh,
}
use text.Mathlib.TextPositions.{eq_refl}

-- An event is built from its subject, its band and the arming of its row, and its band is above
-- the one that the row remembers for the period.
pub classify-notify :
    (thresholds : List ℕ) (region : ℕ) (state : Option AlertState) (s : Subject)
    (e : BudgetAlertEvent)
    → classify thresholds region state s ≡ notify e
    → (e ≡ build_event region s (highest_crossed_band (percent_used s) thresholds) (arm_of state))
      × (previous_band state s.period_key < highest_crossed_band (percent_used s) thresholds)
unfolding classify
classify-notify thresholds region state s e h = ground arith

notify-owner :
    (thresholds : List ℕ) (region : ℕ) (state : Option AlertState) (s : Subject)
    (e : BudgetAlertEvent)
    → classify thresholds region state s ≡ notify e
    → e.subject_key ≡ s.subject_key
unfolding build_event
notify-owner thresholds region state s e h =
    ap (λ x. x.subject_key) (classify-notify thresholds region state s e h).0

module _ (thresholds : List ℕ) (region : ℕ) (existing : List AlertState)
    (delivered : List EventId) where
  event_for-skip :
      (key : String) (e : BudgetAlertEvent) (es : List BudgetAlertEvent)
      → same_text e.subject_key key ≡ false
      → event_for key delivered (e ∷ es) ≡ event_for key delivered es
  unfolding event_for
  event_for-skip key e es apart = elim (Option-cases (event_for key delivered es)) [
    | inl unsent ↦ rw (unsent, apart) refl
    | inr (x, sent) ↦ rw sent refl
  ]

  event_for_absent :
      (key : String) (ss : List Subject)
      → IsAbsent key ss
      → event_for key delivered (events_of thresholds region existing ss) ≡ none
  unfolding event_for events_of
  event_for_absent key [] h = refl
  event_for_absent key (s ∷ ss) h = elim (Decision-cases (decide thresholds region existing s)) [
    | inl (e, q) ↦
        let owner = notify-owner thresholds region (find_state s.subject_key existing) s e q in
        rw (q, events_of, event_for, event_for_absent key ss h.1, owner, h.0) refl
    | inr (inl (b, q)) ↦ rw (q, events_of) (event_for_absent key ss h.1)
    | inr (inr q) ↦ rw (q, events_of) (event_for_absent key ss h.1)
  ]

  -- The event of a decision, where it was delivered.
  abbrev pub sent_event : Decision → Option BudgetAlertEvent
  sent_event (notify e) = if any (same_id e.event_id) delivered then some e else none
  sent_event (reset b) = none
  sent_event quiet = none

  event_for_head :
      (s : Subject) (ss : List Subject)
      → IsAbsent s.subject_key ss
      → event_for s.subject_key delivered (events_of thresholds region existing (s ∷ ss))
        ≡ sent_event (decide thresholds region existing s)
  unfolding event_for events_of
  event_for_head s ss absent = elim (Decision-cases (decide thresholds region existing s)) [
    | inl (e, q) ↦
        let owner = notify-owner thresholds region (find_state s.subject_key existing) s e q in
        rw
          (
            q,
            events_of,
            event_for,
            event_for_absent s.subject_key ss absent,
            owner,
            eq_refl s.subject_key,
          )
          refl
    | inr (inl (b, q)) ↦ rw (q, events_of) (event_for_absent s.subject_key ss absent)
    | inr (inr q) ↦ rw (q, events_of) (event_for_absent s.subject_key ss absent)
  ]

  pub event_for_self :
      (s : Subject) (ss : List Subject)
      → IsDistinct ss
      → IsAmong s ss
      → event_for s.subject_key delivered (events_of thresholds region existing ss)
        ≡ sent_event (decide thresholds region existing s)
  unfolding event_for events_of
  event_for_self s [] d m = elim m [ ]
  event_for_self s (x ∷ xs) d (inl here) =
      subst
        (λ y.
          event_for s.subject_key delivered (events_of thresholds region existing (y ∷ xs))
          ≡ sent_event (decide thresholds region existing s))
        (sym here) (event_for_head s xs (subst (λ y. IsAbsent y.subject_key xs) here d.0))
  event_for_self s (x ∷ xs) d (inr there) =
      let apart = IsAmong-apart x s xs d.0 there in
      elim (Decision-cases (decide thresholds region existing x)) [
        | inl (e, q) ↦
            let owner = notify-owner thresholds region (find_state x.subject_key existing) x e q in
            rw (q, events_of)
              (event_for-skip s.subject_key e (events_of thresholds region existing xs)
                  (rw owner apart)
                ∙ event_for_self s xs d.1 there)
        | inr (inl (b, q)) ↦ rw (q, events_of) (event_for_self s xs d.1 there)
        | inr (inr q) ↦ rw (q, events_of) (event_for_self s xs d.1 there)
      ]

module _ (region : ℕ) (now : Instant) (events : List BudgetAlertEvent)
    (delivered : List EventId) where
  pub mark_notified_other :
      (key : String) (ss : List Subject) (rows : List AlertState)
      → IsAbsent key ss
      → find_state key (mark_notified region now events delivered ss rows).1 ≡ find_state key rows
  unfolding mark_notified
  mark_notified_other key [] rows h = refl
  mark_notified_other key (s ∷ ss) rows h =
      elim (Option-cases (event_for s.subject_key delivered events)) [
        | inl unsent ↦ rw (unsent, mark_notified) (mark_notified_other key ss rows h.1)
        | inr (e, sent) ↦
            rw (sent, mark_notified)
              (mark_notified_other key ss
                  (upsert_state s region e.threshold_pct e.period_key (some now) false rows) h.1
                ∙ find_state-upsert_other key s region e.threshold_pct e.period_key (some now) false
                    rows h.0)
      ]

  -- What a delivered event makes of the subject's row.
  abbrev pub marked_row : Subject → Option BudgetAlertEvent → Option AlertState → Option AlertState
  marked_row s none state = state
  marked_row s (some e) state = some (
      write_state s region e.threshold_pct e.period_key (some now) false
        (row_or_fresh s region state))

  mark_notified_head :
      (s : Subject) (ss : List Subject) (rows : List AlertState)
      → IsAbsent s.subject_key ss
      → find_state s.subject_key (mark_notified region now events delivered (s ∷ ss) rows).1
        ≡ marked_row s (event_for s.subject_key delivered events) (find_state s.subject_key rows)
  unfolding mark_notified
  mark_notified_head s ss rows absent =
      elim (Option-cases (event_for s.subject_key delivered events)) [
        | inl unsent ↦ rw (unsent, mark_notified) (mark_notified_other s.subject_key ss rows absent)
        | inr (e, sent) ↦
            rw (sent, mark_notified)
              (mark_notified_other s.subject_key ss
                  (upsert_state s region e.threshold_pct e.period_key (some now) false rows) absent
                ∙ find_state-upsert_self s region e.threshold_pct e.period_key (some now) false
                    rows)
      ]

  pub mark_notified_self :
      (s : Subject) (ss : List Subject) (rows : List AlertState)
      → IsDistinct ss
      → IsAmong s ss
      → find_state s.subject_key (mark_notified region now events delivered ss rows).1
        ≡ marked_row s (event_for s.subject_key delivered events) (find_state s.subject_key rows)
  unfolding mark_notified
  mark_notified_self s [] rows d m = elim m [ ]
  mark_notified_self s (x ∷ xs) rows d (inl here) =
      subst
        (λ y.
          find_state s.subject_key (mark_notified region now events delivered (y ∷ xs) rows).1
          ≡ marked_row s (event_for s.subject_key delivered events) (find_state s.subject_key rows))
        (sym here) (mark_notified_head s xs rows (subst (λ y. IsAbsent y.subject_key xs) here d.0))
  mark_notified_self s (x ∷ xs) rows d (inr there) =
      let apart = IsAmong-apart x s xs d.0 there in
      elim (Option-cases (event_for x.subject_key delivered events)) [
        | inl unsent ↦ rw (unsent, mark_notified) (mark_notified_self s xs rows d.1 there)
        | inr (e, sent) ↦
            rw (sent, mark_notified)
              (mark_notified_self s xs
                  (upsert_state x region e.threshold_pct e.period_key (some now) false rows) d.1
                  there
                ∙ ap (marked_row s (event_for s.subject_key delivered events)) (
                    find_state-upsert_other s.subject_key x region e.threshold_pct e.period_key
                      (some now) false rows apart))
      ]
