-- ===== src/Ledger/Adding.antt =====
-- What `add_subscription_entry` and `add_topup_entry` do when they are called again.
use amazee_ai.Common.Lists.{find_first-append_new}
use amazee_ai.Ledger.{
  EntryType, add_subscription_entry, add_topup_entry, String, same_type, Ledger, Entry, ok,
  is_invoice_entry, is_payment_entry, returned, subscription, add_entry, subscription_entry, topup,
  topup_entry, topup_rollover, expiry_anchor, other, last_topup,
}
use amazee_ai.Common.{
  none, some, true, refl, arith, ◌≡◌, Option, ℕ, truthy, ℤ, Instant, sql_eq, inl, inr, Option-cases,
  positive, Bool, find_first, plus_days,
}
use text.Mathlib.TextPositions.{eq_refl}

sql_eq_refl : (o : Option String) → truthy o ≡ true → sql_eq o o ≡ true
sql_eq_refl none h = absurd (ground arith)
sql_eq_refl (some s) h = eq_refl s

same_type_refl : (t : EntryType) → same_type t t ≡ true
same_type_refl subscription = refl
same_type_refl topup = refl
same_type_refl topup_rollover = refl
same_type_refl other = refl

-- The row that was just added is the first that its own filter finds.
added_found :
    (p : Entry → Bool) (e : Entry) (l : Ledger) (r : Option Entry) (l' : Ledger)
    → find_first p l.entries ≡ none
    → p (record e { id = l.next_id }) ≡ true
    → returned (add_entry e l) ≡ ok (r, l')
    → (x : Entry) × (r ≡ some x) × (find_first p l'.entries ≡ some x)
unfolding returned add_entry
added_found p e l r l' h t a = (
  record e { id = l.next_id },
  ground arith,
  ground (arith, find_first-append_new p l.entries (record e { id = l.next_id }) h t),
)

module _ (team region cents : ℕ) (purchased start end : Instant) (payment : Option ℕ)
    (invoice : Option String) (t : truthy invoice ≡ true) where
  invoice_entry_found :
      (id : ℕ)
      → is_invoice_entry subscription team region invoice
          (record (subscription_entry team region cents purchased start end payment invoice) {
            id = id;
          })
        ≡ true
  unfolding is_invoice_entry
  invoice_entry_found id = ground (arith, sql_eq_refl invoice t)

-- A second call for an invoice that has a number changes nothing and returns the same row, so a
-- Stripe event that is delivered again credits a cycle once.
add_subscription_entry_idempotent :
    (team region : ℕ) (amount : ℤ) (purchased start end : Instant) (payment : Option ℕ)
    (invoice : Option String) (l : Ledger) {r : Option Entry} {l' : Ledger}
    → truthy invoice ≡ true
    → add_subscription_entry team region amount purchased start end payment invoice l ≡ ok (r, l')
    → add_subscription_entry team region amount purchased start end payment invoice l' ≡ ok (r, l')
unfolding add_subscription_entry
add_subscription_entry_idempotent team region amount purchased start end payment invoice l {r} {l'}
      t h =
    elim (Option-cases (positive amount)) [
      | inl nothing ↦ ground arith
      | inr (cents, some_cents) ↦
          elim (Option-cases
            (find_first (is_invoice_entry subscription team region invoice) l.entries)) [
              | inl new ↦
                  let (x, e, f) =
                    added_found (is_invoice_entry subscription team region invoice)
                      (subscription_entry team region cents purchased start end payment invoice) l r
                      l' new
                      (invoice_entry_found team region cents purchased start end payment invoice t
                        l.next_id)
                      (ground arith) in
                  ground (arith, e, f)
              | inr (x, found) ↦ ground (arith, found)
            ]
    ]

payment_entry_found :
    (team region cents : ℕ) (purchased : Instant) (source : Option ℕ) (payment : String)
    (expires : Instant) (id : ℕ)
    → is_payment_entry team region payment
        (record (topup_entry team region cents purchased source payment expires) { id = id })
      ≡ true
unfolding is_payment_entry
payment_entry_found team region cents purchased source payment expires id =
    ground (arith, eq_refl payment)

-- A second top-up for the same Stripe payment adds nothing, whatever its amount and dates.
add_topup_entry_idempotent :
    (days team region : ℕ) (amount : ℤ) (purchased : Instant) (source : Option ℕ) (payment : String)
    (l : Ledger) {e : Entry} {l' : Ledger} (days' : ℕ) (amount' : ℤ) (purchased' : Instant)
    (source' : Option ℕ)
    → add_topup_entry days team region amount purchased source payment l ≡ ok (some e, l')
    → add_topup_entry days' team region amount' purchased' source' payment l' ≡ ok (none, l')
unfolding add_topup_entry
add_topup_entry_idempotent days team region amount purchased source payment l {e} {l'} days' amount'
      purchased' source' h =
    elim (Option-cases (positive amount)) [
      | inl nothing ↦ absurd (ground arith)
      | inr (cents, some_cents) ↦
          elim (Option-cases (find_first (is_payment_entry team region payment) l.entries)) [
            | inl new ↦
                let anchor : Instant = expiry_anchor purchased (last_topup team region l) in
                let (x, eq, f) =
                  added_found (is_payment_entry team region payment)
                    (topup_entry team region cents purchased source payment (plus_days anchor days))
                    l (some e) l' new
                    (payment_entry_found team region cents purchased source payment
                      (plus_days anchor days) l.next_id)
                    (ground arith) in
                ground (arith, eq, f)
            | inr (x, found) ↦ absurd (ground (arith, found))
          ]
    ]
