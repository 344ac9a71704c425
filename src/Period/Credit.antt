-- ===== src/Period/Credit.antt =====
-- The window of a pool team's credit (`resolve_team_period_window` of
-- app/core/spend_period_service.py) and the purchases that are still valid.
use amazee_ai.Ledger.TopupExpiry.{newer-IsTotal, newer-IsTransitive, newer_purchased}
use amazee_ai.Common.Lists.{All-select_inv}
use amazee_ai.Limits.Model.{pool}
use amazee_ai.Ledger.Allocation.Conservation.{id_of}
use amazee_ai.Common.Table.{find_row, find_row-All}
use amazee_ai.Common.Sort.{
  IsTotal, IsTransitive, IsSorted, sort_by, All-sort_by_inv, sort_by-IsSorted,
}
use amazee_ai.Common.{
  [], none, some, true, inl, inr, arith, ◌≤◌, ◌≡◌, ◌∷◌, Bool, List, ℕ, Instant, first, All, select,
  Option-cases, plus_days, false, refl, subst, All-mono,
}
use amazee_ai.Period.{
  older, is_active_topup, oldest_active_topup, latest_active_topup, credit_window,
  resolve_team_period_window, SpendTeam, active_subscription_entry,
}
use amazee_ai.Ledger.{Entry, Ledger, newer}

older-IsTotal : IsTotal older
unfolding older
older-IsTotal x y h = ground arith

older-IsTransitive : IsTransitive older
unfolding older
older-IsTransitive x y z h k = ground arith

older_purchased : (x y : Entry) → older x y ≡ true → x.purchased_at ≤ y.purchased_at
unfolding older
older_purchased x y h = ground arith

-- Nothing in a sorted list comes before its first row.
first_before :
    (before : Entry → Entry → Bool) (P : Entry → Entry → Type 0)
    → ((x : Entry) → P x x)
    → ((x y : Entry) → before x y ≡ true → P x y)
    → (es : List Entry) (e : Entry) → IsSorted before es
    → first es ≡ some e
    → All (P e) es
first_before before P self step [] e s f = tt
first_before before P self step (x ∷ xs) e s f =
    let same : x ≡ e = cc in
    subst (λ y. All (P y) (x ∷ xs)) same
      ((self x, All-mono (λ y. before x y ≡ true) (P x) xs (step x) s.0))

-- A list without a first row has no row.
first-none : (es : List Entry) → first es ≡ none → All (λ _. true ≡ false) es
first-none [] h = tt
first-none (e ∷ es) h = absurd cc

-- A row of the selection is there, so the selection has a first row, before every other.
first_of_select :
    (before : Entry → Entry → Bool) (P : Entry → Entry → Type 0)
    → IsTotal before
    → IsTransitive before
    → ((x : Entry) → P x x)
    → ((x y : Entry) → before x y ≡ true → P x y)
    → (p : Entry → Bool) (k : ℕ) (x : Entry) (rows : List Entry) → find_row id_of k rows ≡ some x
    → p x ≡ true
    → (e : Entry) × (first (sort_by before (select p rows)) ≡ some e) × P e x
first_of_select before P total trans self step p k x rows f t =
    elim (Option-cases (first (sort_by before (select p rows)))) [
      | inl empty ↦ absurd (
          ground (
            arith,
            find_row-All id_of (λ y. p y ≡ true → true ≡ false) k x rows
                (All-select_inv (λ _. true ≡ false) p rows
                  (All-sort_by_inv before (λ _. true ≡ false) (select p rows)
                    (first-none (sort_by before (select p rows)) empty)))
                f t,
          ))
      | inr (e, found) ↦ (
        e,
        found,
        find_row-All id_of (λ y. p y ≡ true → P e y) k x rows
            (All-select_inv (P e) p rows (
              All-sort_by_inv before (P e) (select p rows) (
                first_before before P self step (sort_by before (select p rows)) e
                  (sort_by-IsSorted before total trans (select p rows)) found)))
            f t,
      )
    ]

resolve_credit :
    (expiry_days : ℕ) (now : Instant) (t : SpendTeam) (region : ℕ) (l : Ledger)
    → t.budget_type ≡ pool
    → active_subscription_entry now t.id region l ≡ none
    → resolve_team_period_window expiry_days now t region l
      ≡ credit_window expiry_days now t region l
unfolding resolve_team_period_window
resolve_credit expiry_days now t region l b s = rw (resolve_team_period_window, s, b) refl

credit_start :
    (expiry_days : ℕ) (now : Instant) (t : SpendTeam) (region : ℕ) (l : Ledger) (e : Entry)
    → oldest_active_topup now t.id region l ≡ some e
    → (credit_window expiry_days now t region l).period_start ≡ some e.purchased_at
unfolding credit_window
credit_start expiry_days now t region l e o = rw o refl

credit_end :
    (expiry_days : ℕ) (now : Instant) (t : SpendTeam) (region : ℕ) (l : Ledger) (e : Entry)
    → latest_active_topup now t.id region l ≡ some e
    → (credit_window expiry_days now t region l).period_end
      ≡ some (plus_days e.purchased_at expiry_days)
unfolding credit_window
credit_end expiry_days now t region l e o = rw o refl

-- For a pool team without a running subscription, every top-up or rollover that is still valid was
-- bought no earlier than the window opens, and the window closes no earlier than the expiry days
-- after that purchase.
pub credit_window_spans :
    (expiry_days : ℕ) (now : Instant) (t : SpendTeam) (region : ℕ) (l : Ledger) (k : ℕ) (x : Entry)
    → t.budget_type ≡ pool
    → active_subscription_entry now t.id region l ≡ none
    → find_row id_of k l.entries ≡ some x
    → is_active_topup now t.id region x ≡ true
    → (start : Instant) × (end : Instant) × ((resolve_team_period_window expiry_days now t region
          l).period_start
        ≡ some start)
      × ((resolve_team_period_window expiry_days now t region l).period_end ≡ some end)
      × (start ≤ x.purchased_at)
      × (plus_days x.purchased_at expiry_days ≤ end)
unfolding oldest_active_topup latest_active_topup
credit_window_spans expiry_days now t region l k x b s f a =
    let oldest =
      first_of_select older (λ y z. y.purchased_at ≤ z.purchased_at) older-IsTotal
        older-IsTransitive (λ y. omega arith) older_purchased (is_active_topup now t.id region) k x
        l.entries f a in
    let latest =
      first_of_select newer (λ y z. z.purchased_at ≤ y.purchased_at) newer-IsTotal
        newer-IsTransitive (λ y. omega arith) newer_purchased (is_active_topup now t.id region) k x
        l.entries f a in
    (
      oldest.0.purchased_at,
      plus_days latest.0.purchased_at expiry_days,
      rw (resolve_credit expiry_days now t region l b s)
          (credit_start expiry_days now t region l oldest.0 oldest.1),
      rw (resolve_credit expiry_days now t region l b s)
          (credit_end expiry_days now t region l latest.0 latest.1),
      oldest.2,
      omega (arith, latest.2),
    )
