-- ===== src/Period/Subscription.antt =====
-- The subscription that the window of app/core/spend_period_service.py goes by, and the one that
-- app/core/pool_budget_service.py goes by.
use amazee_ai.Common.Sort.{sort_by, insert_by}
use amazee_ai.Pool.{is_running_cycle}
use amazee_ai.Common.{
  arith, ◌≡◌, Bool, ℕ, Instant, List, is_some, any, first, select, [], true, inl, inr, refl, ◌∷◌,
  Bool-cases, Option-cases,
}
use amazee_ai.Period.{
  is_running_subscription, active_subscription_entry, resolve_team_period_window, SpendTeam,
  ends_later, credit_window,
}
use amazee_ai.Ledger.{Entry, Ledger}

same_filter :
    (now team region : ℕ) (e : Entry)
    → is_running_subscription now team region e ≡ is_running_cycle now team region e
unfolding is_running_subscription is_running_cycle
same_filter now team region e = ground arith

first-insert_by : (e : Entry) (es : List Entry) → is_some (first (insert_by ends_later e es)) ≡ true
unfolding insert_by
first-insert_by e [] = refl
first-insert_by e (x ∷ xs) = ground arith

first-some :
    (p q : Entry → Bool)
    → ((x : Entry) → p x ≡ q x)
    → (rows : List Entry) → is_some (first (sort_by ends_later (select p rows))) ≡ any q rows
unfolding select any sort_by
first-some p q h [] = refl
first-some p q h (x ∷ rows) = elim (Bool-cases (q x)) [
  | inl t ↦ rw (h x, t) (first-insert_by x (sort_by ends_later (select p rows)))
  | inr f ↦ rw (h x, f) (first-some p q h rows)
]

-- The window is a subscription's exactly while a subscription cycle of the team in the region runs.
pub window_subscription :
    (expiry_days : ℕ) (now : Instant) (t : SpendTeam) (region : ℕ) (l : Ledger)
    → is_some (resolve_team_period_window expiry_days now t region l).active_subscription
      ≡ any (is_running_cycle now t.id region) l.entries
unfolding resolve_team_period_window active_subscription_entry credit_window
window_subscription expiry_days now t region l =
    let rows = select (is_running_subscription now t.id region) l.entries in
    let some_cycle =
      first-some (is_running_subscription now t.id region) (is_running_cycle now t.id region)
        (same_filter now t.id region) l.entries in
    elim (Option-cases (first (sort_by ends_later rows))) [
      | inl empty ↦ ground (arith, empty, some_cycle)
      | inr (e, found) ↦ ground (arith, found, some_cycle)
    ]
