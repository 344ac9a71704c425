-- ===== src/Alert/Behind.antt =====
-- The ids that were delivered for a subject and what its row of budget_alert_state remembers of them,
-- app/core/budget_alert_service.py.
use amazee_ai.Alert.Marking.{classify-notify}
use amazee_ai.Alert.State.{write_state, same_id, fresh_state}
use amazee_ai.Common.{
  [], none, some, true, ◌≤◌, ◌<◌, ◌≡◌, ◌≢◌, ◌⊎◌, ◌∷◌, if◌then◌else◌, List, Option, All, ℕ, Instant,
  any, false, inl, inr, arith, ap, subst, sym, All-mono, refl, ◌∙◌, All-zip, Bool-cases,
}
use text.Mathlib.TextEquality.{eq_iff}
use amazee_ai.Common.Lists.{All-of}
use amazee_ai.Alert.{
  Subject, AlertState, EventId, classify, String, Decision, notify, reset, quiet, previous_band,
  arm_of, build_event, highest_crossed_band, percent_used,
}
use amazee_ai.Alert.Row.{row_or_fresh, Decision-cases}
use amazee_ai.Alert.Crossing.{row_after, row_by}

-- The ids delivered for a subject, after its decision.
abbrev pub ids_after : List EventId → Decision → List EventId → List EventId
ids_after delivered (notify e) ids =
    if any (same_id e.event_id) delivered then e.event_id ∷ ids else ids
ids_after delivered (reset b) ids = ids
ids_after delivered quiet ids = ids

-- The period is the one that the row remembers, or none that an id was delivered for.
abbrev pub IsCurrentOrNew : Option AlertState → List EventId → String → Type 0
IsCurrentOrNew none ids period = All (λ i. i.period_key ≢ period) ids
IsCurrentOrNew (some r) ids period = (r.period_key ≡ period) ⊎ All (λ i. i.period_key ≢ period) ids

-- No two of the ids are the same.
abbrev pub IsUnique : List EventId → Type 0
IsUnique [] = Unit
IsUnique (i ∷ ids) = All (λ j. i ≢ j) ids × IsUnique ids

-- What the row remembers of a delivered id: it was armed before, or belongs to another period, or its
-- band is within the one remembered.
abbrev pub IsBehind : AlertState → EventId → Type 0
IsBehind r i =
    (i.arm_seq < r.arm_seq)
    ⊎ ((i.arm_seq ≡ r.arm_seq) × ((i.period_key ≢ r.period_key) ⊎ (i.band ≤ r.last_threshold_pct)))

abbrev pub IsCovered : Option AlertState → List EventId → Type 0
IsCovered none ids = ids ≡ []
IsCovered (some r) ids = All (IsBehind r) ids

IsBehind-rearmed :
    (s : Subject) (region band : ℕ) (period : String) (r : AlertState) (i : EventId)
    → IsBehind r i
    → IsBehind (write_state s region band period none true r) i
unfolding write_state
IsBehind-rearmed s region band period r i h = ground arith

IsCovered-rearmed :
    (s : Subject) (region band : ℕ) (period : String) (state : Option AlertState)
    (ids : List EventId)
    → IsCovered state ids
    → IsCovered
        (some (write_state s region band period none true (row_or_fresh s region state)))
        ids
IsCovered-rearmed s region band period none ids h = subst (All _) (sym h) tt
IsCovered-rearmed s region band period (some r) ids h =
    All-mono _ _ ids (IsBehind-rearmed s region band period r) h

IsBehind-marked :
    (s : Subject) (region band : ℕ) (period : String) (now : Instant) (r : AlertState) (i : EventId)
    → (r.period_key ≡ period) ⊎ (i.period_key ≢ period)
    → previous_band (some r) period < band
    → IsBehind r i
    → IsBehind (write_state s region band period (some now) false r) i
unfolding write_state
IsBehind-marked s region band period now r i (inl same) above h =
    ground (arith, eq_iff r.period_key period, same, above, h)
IsBehind-marked s region band period now r i (inr new) above (inl before) = inl before
IsBehind-marked s region band period now r i (inr new) above (inr (armed, rest)) =
    inr (armed, inl new)

-- The crossing that is notified now is none that was delivered before.
new_id :
    (r : AlertState) (i j : EventId)
    → (r.period_key ≡ j.period_key) ⊎ (i.period_key ≢ j.period_key)
    → previous_band (some r) j.period_key < j.band
    → j.arm_seq ≡ r.arm_seq
    → IsBehind r i
    → j ≢ i
new_id r i j (inr new) above arm h same = new (ap (λ x. x.period_key) (sym same))
new_id r i j (inl cur) above arm (inl before) same =
    let arms : j.arm_seq ≡ i.arm_seq = ap (λ x. x.arm_seq) same in omega (arith, before, arm, arms)
new_id r i j (inl cur) above arm (inr (armed, inl other)) same =
    other (ap (λ x. x.period_key) (sym same) ∙ sym cur)
new_id r i j (inl cur) above arm (inr (armed, inr within)) same =
    let bands : j.band ≡ i.band = ap (λ x. x.band) same in
    ground (arith, eq_iff r.period_key j.period_key, cur, above, within, bands)

current_each :
    (r : AlertState) (ids : List EventId) (period : String)
    → IsCurrentOrNew (some r) ids period
    → All (λ i. (r.period_key ≡ period) ⊎ (i.period_key ≢ period)) ids
current_each r ids period (inl same) = All-of (λ i. inl same) ids
current_each r ids period (inr new) = All-mono _ _ ids (λ i n. inr n) new

abbrev crossing_id : Subject → ℕ → ℕ → EventId
crossing_id s band arm = record {
  subject_key = s.subject_key;
  period_key = s.period_key;
  band = band;
  arm_seq = arm;
}

abbrev pub IsSound : Option AlertState → List EventId → Type 0
IsSound state ids = IsCovered state ids × IsUnique ids

notified_step :
    (region : ℕ) (now : Instant) (s : Subject) (band : ℕ) (state : Option AlertState)
    (ids : List EventId)
    → previous_band state s.period_key < band
    → IsCurrentOrNew state ids s.period_key
    → IsSound state ids
    → IsSound
        (some
          (write_state s region band s.period_key (some now) false (row_or_fresh s region state)))
        (crossing_id s band (arm_of state) ∷ ids)
unfolding write_state
notified_step region now s band none ids above current (none_yet, unique) =
    subst
      (λ l.
        IsSound
          (some (write_state s region band s.period_key (some now) false (fresh_state s region)))
          (crossing_id s band 0 ∷ l))
      (sym none_yet) (((inr (refl, inr (omega arith)), tt), (tt, tt)))
notified_step region now s band (some r) ids above current (covered, unique) =
    let each = All-zip _ _ ids (current_each r ids s.period_key current) covered in
    (
      (
        inr (refl, inr (omega arith)),
        All-mono _ _ ids (λ i h. IsBehind-marked s region band s.period_key now r i h.0 above h.1)
            each,
      ),
      (
        All-mono _ _ ids (λ i h. new_id r i (crossing_id s band r.arm_seq) h.0 above refl h.1) each,
        unique,
      ),
    )

notify_step :
    (region : ℕ) (now : Instant) (delivered : List EventId) (s : Subject) (band : ℕ)
    (state : Option AlertState) (ids : List EventId)
    → previous_band state s.period_key < band
    → IsCurrentOrNew state ids s.period_key
    → IsSound state ids
    → IsSound
        (row_by region now delivered s state (notify (build_event region s band (arm_of state))))
        (ids_after delivered (notify (build_event region s band (arm_of state))) ids)
unfolding build_event
notify_step region now delivered s band state ids above current sound =
    elim (Bool-cases (any (same_id (crossing_id s band (arm_of state))) delivered)) [
      | inl sent ↦ rw sent (notified_step region now s band state ids above current sound)
      | inr unsent ↦ rw unsent sound
    ]

pub sweep_step :
    (thresholds : List ℕ) (region : ℕ) (now : Instant) (delivered : List EventId) (s : Subject)
    (state : Option AlertState) (ids : List EventId)
    → IsCurrentOrNew state ids s.period_key
    → IsSound state ids
    → IsSound
        (row_after thresholds region now delivered s state)
        (ids_after delivered (classify thresholds region state s) ids)
sweep_step thresholds region now delivered s state ids current sound =
    elim (Decision-cases (classify thresholds region state s)) [
      | inl (e, q) ↦
          let built = classify-notify thresholds region state s e q in
          subst
            (λ dec. IsSound (row_by region now delivered s state dec) (ids_after delivered dec ids))
            (sym (q ∙ ap notify built.0))
            (notify_step region now delivered s (highest_crossed_band (percent_used s) thresholds)
              state ids built.1 current sound)
      | inr (inl (b, q)) ↦
          rw q ((IsCovered-rearmed s region b s.period_key state ids sound.0, sound.1))
      | inr (inr q) ↦ rw q sound
    ]
