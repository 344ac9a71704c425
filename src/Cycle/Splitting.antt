-- ===== src/Cycle/Splitting.antt =====
-- The shares of an invoice, `_run_cycle_from_stripe_event` of app/core/worker.py.
use native.Mathlib.Nat.{div-add-mod'}
use amazee_ai.Common.Sort.{sort_by, sum_by-sort_by}
use amazee_ai.Cycle.Invoices.{shares, split_budget}
use amazee_ai.Common.{
  [], true, false, refl, arith, ◌+◌, ◌*◌, ◌/◌, ◌≤◌, ◌≡◌, ◌∷◌, ◌∙◌, ℕ, Bool, List, length, map,
  sum_by, All, sym, suc, ◌-◌, leb, subst, All-mono,
}

abbrev pub cents : ℕ × ℕ → ℕ
cents x = x.1

sum_each : (each : ℕ) (rs : List ℕ) → sum_by cents (map (λ x. (x, each)) rs) ≡ each * length rs
unfolding sum_by
sum_each each [] = ground arith
sum_each each (r ∷ rs) = omega (arith, sum_each each rs)

sum_shares :
    (each rest : ℕ) (r : ℕ) (rs : List ℕ)
    → sum_by cents (shares each rest (r ∷ rs)) ≡ each * length (r ∷ rs) + rest
unfolding sum_by shares
sum_shares each rest r rs = omega (arith, sum_each each rs)

length-ones : (xs : List ℕ) → sum_by (λ x. 1) xs ≡ length xs
unfolding sum_by
length-ones [] = refl
length-ones (x ∷ xs) = omega (arith, length-ones xs)

length-sort_by : (before : ℕ → ℕ → Bool) (xs : List ℕ) → length (sort_by before xs) ≡ length xs
length-sort_by before xs =
    sym (length-ones (sort_by before xs)) ∙ sum_by-sort_by before (λ x. 1) xs ∙ length-ones xs

All-each : (each : ℕ) (rs : List ℕ) → All (λ (x : ℕ × ℕ). x.1 ≡ each) (map (λ r. (r, each)) rs)
All-each each [] = tt
All-each each (r ∷ rs) = (refl, All-each each rs)

-- The shares over sorted regions.
abbrev IsSplit : ℕ → List ℕ → Type 0
IsSplit budget ss =
    (sum_by cents (shares (budget / length ss) (budget - budget / length ss * length ss) ss)
      ≡ budget)
    × All (λ x. budget / length ss ≤ x.1)
        (shares (budget / length ss) (budget - budget / length ss * length ss) ss)
    × All (λ x. x.1 ≡ budget) (shares budget 0 ss)

shares-IsSplit : (budget n : ℕ) (ss : List ℕ) → length ss ≡ suc n → IsSplit budget ss
unfolding shares
shares-IsSplit budget n [] h = absurd (omega (arith, h))
shares-IsSplit budget n (s ∷ ss) h =
    let m = length (s ∷ ss) in
    let each = budget / m in
    (
      sum_shares each (budget - each * m) s ss ∙ omega (arith, div-add-mod' budget m),
      (
        omega arith,
        All-mono (λ x. x.1 ≡ each) (λ x. each ≤ x.1) (map (λ r. (r, each)) ss)
            (λ x e. omega (arith, e)) (All-each each ss),
      ),
      (omega arith, All-each budget ss),
    )

-- However many regions an invoice is for, the shares of a paid amount add up to it, and each is at least
-- the whole part of the division; an allowance goes to each region in full.
pub split_budget_sum :
    (budget r : ℕ) (rs : List ℕ)
    → (sum_by cents (split_budget true budget (r ∷ rs)) ≡ budget)
      × All (λ x. budget / length (r ∷ rs) ≤ x.1) (split_budget true budget (r ∷ rs))
      × All (λ x. x.1 ≡ budget) (split_budget false budget (r ∷ rs))
unfolding split_budget
split_budget_sum budget r rs =
    let sorted = length-sort_by leb (r ∷ rs) in
    let split = shares-IsSplit budget (length rs) (sort_by leb (r ∷ rs)) sorted in
    (
      split.0,
      subst (λ m. All (λ x. budget / m ≤ x.1) (split_budget true budget (r ∷ rs))) sorted split.1,
      split.2,
    )
