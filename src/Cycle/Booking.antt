-- ===== src/Cycle/Booking.antt =====
-- The entry of a cycle, `add_subscription_entry` of app/core/periodic_budget_ledger_service.py, beside a row
-- that the ledger has.
use Prim.Native.String.{String}
use amazee_ai.Common.{
  none, some, zero, suc, pos, negsuc, refl, if◌then◌else◌, ℕ, Option, ℤ, Instant, truthy,
  find_first,
}
use amazee_ai.Cycle.Keeping.{Keeps, KeepsOk, add_entry-Keeps}
use amazee_ai.Ledger.{
  Result, ok, integrity_error, returned, Entry, Ledger, add_subscription_entry, subscription_entry,
  is_invoice_entry, subscription, add_entry,
}

module _ (e : Entry) (cents : ℕ) where
  returned-KeepsOk :
      (r : Result (Entry × Ledger)) → KeepsOk e cents r → KeepsOk e cents (returned r)
  unfolding returned
  returned-KeepsOk (ok (x, l)) h = h
  returned-KeepsOk integrity_error h = tt

  -- The existing row is returned, or the new one.
  booked-KeepsOk :
      (old : Option Entry) (r : Result (Entry × Ledger)) (l : Ledger)
      → Keeps e cents l
      → KeepsOk e cents r
      → KeepsOk e cents {A = Option Entry} (elim old as (λ _. Result (Option Entry × Ledger)) [
        | some found ↦ ok (some found, l)
        | none ↦ returned r
      ])
  booked-KeepsOk none r l h k = returned-KeepsOk r k
  booked-KeepsOk (some x) r l h k = h

  pub add_subscription_entry-Keeps :
      (team region : ℕ) (amount : ℤ) (purchased start end : Instant) (payment : Option ℕ)
      (invoice : Option String) (l : Ledger)
      → Keeps e cents l
      → KeepsOk e cents
          (add_subscription_entry team region amount purchased start end payment invoice l)
  unfolding add_subscription_entry
  add_subscription_entry-Keeps team region (pos zero) purchased start end payment invoice l h = h
  add_subscription_entry-Keeps team region (negsuc n) purchased start end payment invoice l h = h
  add_subscription_entry-Keeps team region (pos (suc n)) purchased start end payment invoice l h =
      let new = subscription_entry team region (suc n) purchased start end payment invoice in
      let old : Option Entry =
        if truthy invoice
        then find_first (is_invoice_entry subscription team region invoice) l.entries
        else none in
      booked-KeepsOk old (add_entry new l) l h (add_entry-Keeps e cents new l refl h)
