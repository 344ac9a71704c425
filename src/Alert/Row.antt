-- ===== src/Alert/Row.antt =====
-- One subject's row of budget_alert_state through a sweep, app/core/budget_alert_service.py.
use text.Mathlib.TextEquality.{eq_iff}
use text.Mathlib.TextPositions.{eq_refl}
use amazee_ai.Common.{
  [], none, some, true, false, inl, inr, refl, arith, ◌≡◌, ◌⊎◌, ◌∷◌, ◌∙◌, List, ℕ, All, Option,
  find_first, Instant, subst, Bool, ap, sym,
}
use amazee_ai.Alert.{
  Subject, AlertState, BudgetAlertEvent, resets_of, String, find_state, Decision, same_text, decide,
  notify, reset, quiet,
}
use amazee_ai.Alert.State.{apply_resets, write_state, fresh_state, upsert_state}

-- The row after a write: the row that was there, or a new one, written over.
abbrev pub row_or_fresh : Subject → ℕ → Option AlertState → AlertState
row_or_fresh s region none = fresh_state s region
row_or_fresh s region (some r) = r

write_state-key :
    (s : Subject) (region band : ℕ) (period : String) (notified : Option Instant) (bump : Bool)
    (r : AlertState)
    → (write_state s region band period notified bump r).subject_key ≡ r.subject_key
unfolding write_state
write_state-key s region band period notified bump r = refl

pub find_state-upsert_other :
    (key : String) (s : Subject) (region band : ℕ) (period : String) (notified : Option Instant)
    (bump : Bool) (rows : List AlertState)
    → same_text s.subject_key key ≡ false
    → find_state key (upsert_state s region band period notified bump rows) ≡ find_state key rows
unfolding find_state find_first upsert_state
find_state-upsert_other key s region band period notified bump [] h =
    ground (arith, h, write_state-key s region band period notified bump (fresh_state s region))
find_state-upsert_other key s region band period notified bump (r ∷ rs) h = ground (
  arith,
  h,
  write_state-key s region band period notified bump r,
  find_state-upsert_other key s region band period notified bump rs h,
  eq_iff r.subject_key s.subject_key,
  eq_iff r.subject_key key,
  eq_iff s.subject_key key,
)

pub find_state-upsert_self :
    (s : Subject) (region band : ℕ) (period : String) (notified : Option Instant) (bump : Bool)
    (rows : List AlertState)
    → find_state s.subject_key (upsert_state s region band period notified bump rows)
      ≡ some (
          write_state s region band period notified bump
            (row_or_fresh s region (find_state s.subject_key rows)))
unfolding find_state find_first upsert_state
find_state-upsert_self s region band period notified bump [] = ground (
  arith,
  write_state-key s region band period notified bump (fresh_state s region),
  eq_refl s.subject_key,
)
find_state-upsert_self s region band period notified bump (r ∷ rs) = ground (
  arith,
  write_state-key s region band period notified bump r,
  find_state-upsert_self s region band period notified bump rs,
)

-- No subject has the key.
abbrev pub IsAbsent : String → List Subject → Type 0
IsAbsent key ss = All (λ x. same_text x.subject_key key ≡ false) ss

-- No two subjects share a key.
abbrev pub IsDistinct : List Subject → Type 0
IsDistinct [] = Unit
IsDistinct (s ∷ ss) = IsAbsent s.subject_key ss × IsDistinct ss

-- The subject is one of the list.
abbrev pub IsAmong : Subject → List Subject → Type 0
IsAmong s [] = ⊥
IsAmong s (x ∷ xs) = (x ≡ s) ⊎ IsAmong s xs

pub IsAmong-IsAbsent :
    (key : String) (s : Subject) (ss : List Subject)
    → IsAbsent key ss
    → IsAmong s ss
    → same_text s.subject_key key ≡ false
IsAmong-IsAbsent key s [] h m = elim m [ ]
IsAmong-IsAbsent key s (x ∷ xs) h (inl e) = subst (λ y. same_text y.subject_key key ≡ false) e h.0
IsAmong-IsAbsent key s (x ∷ xs) h (inr m) = IsAmong-IsAbsent key s xs h.1 m

-- A subject among others is not the one that is absent from them.
pub IsAmong-apart :
    (x s : Subject) (ss : List Subject)
    → IsAbsent x.subject_key ss
    → IsAmong s ss
    → same_text x.subject_key s.subject_key ≡ false
IsAmong-apart x s ss h m =
    let other = IsAmong-IsAbsent x.subject_key s ss h m in
    ground (arith, other, eq_iff s.subject_key x.subject_key, eq_iff x.subject_key s.subject_key)

pub Decision-cases :
    (d : Decision)
    → ((e : BudgetAlertEvent) × (d ≡ notify e)) ⊎ (((b : ℕ) × (d ≡ reset b)) ⊎ (d ≡ quiet))
Decision-cases (notify e) = inl (e, refl)
Decision-cases (reset b) = inr (inl (b, refl))
Decision-cases quiet = inr (inr refl)

module _ (thresholds : List ℕ) (region : ℕ) (existing : List AlertState) where
  -- Resets of other subjects leave the row alone.
  pub apply_resets_other :
      (key : String) (ss : List Subject) (rows : List AlertState)
      → IsAbsent key ss
      → find_state key (apply_resets region (resets_of thresholds region existing ss) rows)
        ≡ find_state key rows
  unfolding apply_resets resets_of
  apply_resets_other key [] rows h = refl
  apply_resets_other key (s ∷ ss) rows h =
      elim (Decision-cases (decide thresholds region existing s)) [
        | inl (e, q) ↦ rw (q, resets_of) (apply_resets_other key ss rows h.1)
        | inr (inl (b, q)) ↦
            rw (q, resets_of)
              (apply_resets_other key ss (upsert_state s region b s.period_key none true rows) h.1
                ∙ find_state-upsert_other key s region b s.period_key none true rows h.0)
        | inr (inr q) ↦ rw (q, resets_of) (apply_resets_other key ss rows h.1)
      ]

  -- What a decision's reset makes of the subject's row.
  abbrev pub reset_row : Subject → Decision → Option AlertState → Option AlertState
  reset_row s (notify e) state = state
  reset_row s (reset b) state =
      some (write_state s region b s.period_key none true (row_or_fresh s region state))
  reset_row s quiet state = state

  apply_resets_head :
      (s : Subject) (ss : List Subject) (rows : List AlertState)
      → IsAbsent s.subject_key ss
      → find_state s.subject_key
          (apply_resets region (resets_of thresholds region existing (s ∷ ss)) rows)
        ≡ reset_row s (decide thresholds region existing s) (find_state s.subject_key rows)
  unfolding apply_resets resets_of
  apply_resets_head s ss rows absent = elim (Decision-cases (decide thresholds region existing s)) [
    | inl (e, q) ↦ rw (q, resets_of) (apply_resets_other s.subject_key ss rows absent)
    | inr (inl (b, q)) ↦
        rw (q, resets_of)
          (apply_resets_other s.subject_key ss (upsert_state s region b s.period_key none true rows)
              absent
            ∙ find_state-upsert_self s region b s.period_key none true rows)
    | inr (inr q) ↦ rw (q, resets_of) (apply_resets_other s.subject_key ss rows absent)
  ]

  -- The resets treat each subject's row by its own decision.
  pub apply_resets_self :
      (s : Subject) (ss : List Subject) (rows : List AlertState)
      → IsDistinct ss
      → IsAmong s ss
      → find_state s.subject_key
          (apply_resets region (resets_of thresholds region existing ss) rows)
        ≡ reset_row s (decide thresholds region existing s) (find_state s.subject_key rows)
  unfolding apply_resets resets_of
  apply_resets_self s [] rows d m = elim m [ ]
  apply_resets_self s (x ∷ xs) rows d (inl here) =
      subst
        (λ y.
          find_state s.subject_key
            (apply_resets region (resets_of thresholds region existing (y ∷ xs)) rows)
          ≡ reset_row s (decide thresholds region existing s) (find_state s.subject_key rows))
        (sym here) (apply_resets_head s xs rows (subst (λ y. IsAbsent y.subject_key xs) here d.0))
  apply_resets_self s (x ∷ xs) rows d (inr there) =
      let rest = apply_resets_self s xs in
      let apart = IsAmong-apart x s xs d.0 there in
      elim (Decision-cases (decide thresholds region existing x)) [
        | inl (e, q) ↦ rw (q, resets_of) (rest rows d.1 there)
        | inr (inl (b, q)) ↦
            rw (q, resets_of)
              (rest (upsert_state x region b x.period_key none true rows) d.1 there
                ∙ ap (reset_row s (decide thresholds region existing s)) (
                    find_state-upsert_other s.subject_key x region b x.period_key none true rows
                      apart))
        | inr (inr q) ↦ rw (q, resets_of) (rest rows d.1 there)
      ]
