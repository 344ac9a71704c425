-- ===== src/Cycle/Invoices.antt =====
-- The `invoice.paid` event of Stripe, `_run_cycle_from_stripe_event` of app/core/worker.py: the regions
-- that the cycle is for, its budget, and each region's share. The answers of Stripe are arguments.
use amazee_ai.Cycle.Billing.{SyncStatus, success, sync_failed, pending}
use amazee_ai.Common.Sort.{sort_by}
use amazee_ai.Common.{
  [], none, some, true, false, ◌+◌, ◌-◌, ◌*◌, ◌/◌, ◌&&◌, ◌∷◌, ◌==◌, if◌then◌else◌, Bool, List,
  Option, ℕ, any, leb, length, ltb, map, select,
}

-- `region_id` where it is set: the numbers of the metadata on the invoice and at Stripe; 0 is no number.
abbrev pub nonzero : Option ℕ → Option ℕ
nonzero none = none
nonzero (some n) = if n == 0 then none else some n

abbrev pub named_region : Option ℕ → Option ℕ → Option ℕ
named_region on_invoice at_stripe = elim (nonzero on_invoice) [
  | some n ↦ some n
  | none ↦ nonzero at_stripe
]

-- The ids of the regions: the one that is named, or else all of the team's. None where there is none.
unfoldable pub target_regions : Option ℕ → List ℕ → List ℕ → List ℕ
target_regions (some n) team_regions regions = select (λ r. r == n) regions
target_regions none team_regions regions = select (λ r. any (λ t. t == r) team_regions) regions

-- A charge of 0 with a subscription is a free plan, whose product has a budget.
unfoldable pub budget_of : ℕ → Bool → Option ℕ → ℕ
budget_of amount_paid has_subscription product_budget =
    if amount_paid == 0 && has_subscription
    then elim product_budget [ none ↦ 0 | some n ↦ n ]
    else amount_paid

-- The loop over the regions in the order of their ids: the first gets what the division leaves.
unfoldable pub shares : ℕ → ℕ → List ℕ → List (ℕ × ℕ)
shares each rest [] = []
shares each rest (r ∷ rs) = (r, each + rest) ∷ map (λ x. (x, each)) rs

-- A paid amount is divided among the regions; an allowance goes to each in full.
unfoldable pub split_budget : Bool → ℕ → List ℕ → List (ℕ × ℕ)
unfolding shares
split_budget paid budget regions =
    let rs = sort_by leb regions in
    let each = if paid then budget / length rs else budget in
    shares each (if paid then budget - each * length rs else 0) rs

-- The regions of an event with their budgets; none where the event is passed over.
unfoldable pub cycle_shares :
    Option SyncStatus → Option ℕ → List ℕ → List ℕ → ℕ → Bool → Option ℕ → Option (List (ℕ × ℕ))
unfolding target_regions budget_of split_budget
cycle_shares (some success) named team_regions regions amount has_subscription product_budget = none
cycle_shares existing named team_regions regions amount has_subscription product_budget =
    elim (target_regions named team_regions regions) [
      | [] ↦ none
      | ◌∷◌ r rs ↦
          some (
            split_budget (ltb 0 amount) (budget_of amount has_subscription product_budget) (r ∷ rs))
    ]

-- The payment's status at the end, whatever errors the regions reported, and after an exception.
abbrev pub status_after : Bool → SyncStatus → SyncStatus
status_after false s = success
status_after true pending = sync_failed
status_after true s = s
