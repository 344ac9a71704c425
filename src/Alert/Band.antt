-- ===== src/Alert/Band.antt =====
-- The band of `highest_crossed_band`, app/core/budget_alert_service.py.
use amazee_ai.Common.{
  [], true, inl, inr, refl, arith, ◌*◌, ◌≤◌, ◌<◌, ◌≡◌, ◌⊎◌, ◌∷◌, ◌==◌, List, any, ℕ, All,
  Bool-cases, All-mono, leb, leb→le, subst, sym,
}
use native.Mathlib.Nat.{le_trans}
use amazee_ai.Common.Lists.{All-of}
use amazee_ai.Alert.{highest_crossed_band, band_loop}

-- The thresholds are in ascending order, as `parse_thresholds` leaves them.
abbrev pub IsAscending : List ℕ → Type 0
IsAscending [] = Unit
IsAscending (t ∷ ts) = All (λ u. t < u) ts × IsAscending ts

-- A threshold that the percentage has reached.
abbrev pub IsCrossed : ℕ → ℕ → Type 0
IsCrossed percent t = 10_000 * t ≤ percent

band_loop_at_least :
    (percent crossed : ℕ) (ts : List ℕ)
    → All (λ t. crossed ≤ t) ts
    → IsAscending ts
    → crossed ≤ band_loop percent crossed ts
unfolding band_loop
band_loop_at_least percent crossed [] h a = omega arith
band_loop_at_least percent crossed (t ∷ ts) h a = elim (Bool-cases (leb (10_000 * t) percent)) [
  | inl reached ↦ rw reached (
      le_trans h.0 (
        band_loop_at_least percent t ts
          (All-mono (λ u. t < u) (λ u. t ≤ u) ts (λ u l. omega arith) a.0) a.1))
  | inr below ↦ rw below (band_loop_at_least percent crossed ts h.1 a.1)
]

band_loop-IsCrossed :
    (percent crossed : ℕ) (ts : List ℕ)
    → IsCrossed percent crossed
    → IsCrossed percent (band_loop percent crossed ts)
unfolding band_loop
band_loop-IsCrossed percent crossed [] h = h
band_loop-IsCrossed percent crossed (t ∷ ts) h = elim (Bool-cases (leb (10_000 * t) percent)) [
  | inl reached ↦
      rw reached (band_loop-IsCrossed percent t ts (leb→le (10_000 * t) percent reached))
  | inr below ↦ rw below (band_loop-IsCrossed percent crossed ts h)
]

bounds_at :
    {a b : ℕ} (percent t : ℕ) (ts : List ℕ)
    → a ≡ b
    → (IsCrossed percent t → t ≤ b)
    → All (λ u. IsCrossed percent u → u ≤ b) ts
    → All (λ u. IsCrossed percent u → u ≤ a) (t ∷ ts)
bounds_at percent t ts e h k =
    subst (λ b. All (λ u. IsCrossed percent u → u ≤ b) (t ∷ ts)) (sym e) ((h, k))

band_loop_bounds :
    (percent crossed : ℕ) (ts : List ℕ)
    → All (λ t. crossed ≤ t) ts
    → IsAscending ts
    → All (λ t. IsCrossed percent t → t ≤ band_loop percent crossed ts) ts
unfolding band_loop
band_loop_bounds percent crossed [] h a = tt
band_loop_bounds percent crossed (t ∷ ts) h a =
    let above = All-mono (λ u. t < u) (λ u. t ≤ u) ts (λ u l. omega arith) a.0 in
    elim (Bool-cases (leb (10_000 * t) percent)) [
      | inl reached ↦
          bounds_at percent t ts (rw reached refl) (λ _. band_loop_at_least percent t ts above a.1)
            (band_loop_bounds percent t ts above a.1)
      | inr below ↦
          bounds_at percent t ts (rw below refl) (λ k. absurd (ground arith))
            (band_loop_bounds percent crossed ts h.1 a.1)
    ]

band_loop_member :
    (percent crossed : ℕ) (ts : List ℕ)
    → (band_loop percent crossed ts ≡ crossed)
      ⊎ (any (λ t. t == band_loop percent crossed ts) ts ≡ true)
unfolding band_loop any
band_loop_member percent crossed [] = inl refl
band_loop_member percent crossed (t ∷ ts) =
    ground (arith, band_loop_member percent t ts, band_loop_member percent crossed ts)

-- The band is 0 or one of the thresholds, the percentage has reached it, and it is no lower than any
-- threshold that the percentage has reached, where the thresholds ascend.
highest_crossed_band_lem :
    (percent : ℕ) (thresholds : List ℕ)
    → IsAscending thresholds
    → IsCrossed percent (highest_crossed_band percent thresholds)
      × All (λ t. IsCrossed percent t → t ≤ highest_crossed_band percent thresholds) thresholds
      × ((highest_crossed_band percent thresholds ≡ 0)
          ⊎ (any (λ t. t == highest_crossed_band percent thresholds) thresholds ≡ true))
unfolding highest_crossed_band
highest_crossed_band_lem percent thresholds a = (
  band_loop-IsCrossed percent 0 thresholds (omega arith),
  band_loop_bounds percent 0 thresholds (All-of (λ t. omega arith) thresholds) a,
  band_loop_member percent 0 thresholds,
)
