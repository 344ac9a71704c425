-- ===== src/Ledger/Constraints.antt =====
-- The functions that add a row to the ledger and the table's unique constraints.
use text.Mathlib.TextEquality.{eq_iff}
use Prim.Native.String.{String}
use amazee_ai.Common.Lists.{any-false, find_first-none, All-of}
use amazee_ai.Ledger.{
  add_entry, add_topup_entry, conflicts, Entry, is_invoice_entry, is_payment_entry, returned,
  Ledger, String, integrity_error, subscription, topup_entry, subscription_entry, EntryType,
  add_subscription_entry, topup, same_type, expiry_anchor, last_topup,
}
use amazee_ai.Common.{
  false, arith, ◌≡◌, ◌≢◌, Bool, ℕ, Instant, ℤ, All, Option, any, All-mono, none, some, inl, inr,
  refl, Option-cases, sql_eq, positive, find_first, plus_days, if◌then◌else◌, List, ap, truthy,
}

-- Where no row meets `p`, and a row that conflicts with `e` meets `p`, the insert goes through.
add_entry_free :
    (p : Entry → Bool) (e : Entry) (l : Ledger)
    → ((r : Entry) → p r ≡ false → conflicts e r ≡ false)
    → All (λ r. p r ≡ false) l.entries
    → add_entry e l ≢ integrity_error
unfolding add_entry
add_entry_free p e l f h =
    let none_conflicts : any (conflicts e) l.entries ≡ false =
      any-false (conflicts e) l.entries
        (All-mono (λ r. p r ≡ false) (λ r. conflicts e r ≡ false) l.entries f h) in
    ground (arith, none_conflicts)

sql_eq_comm : (a b : Option String) → sql_eq a b ≡ sql_eq b a
sql_eq_comm none none = refl
sql_eq_comm none (some t) = refl
sql_eq_comm (some s) none = refl
sql_eq_comm (some s) (some t) = ground (arith, eq_iff s t, eq_iff t s)

same_type_comm : (a b : EntryType) → same_type a b ≡ same_type b a
same_type_comm a b = ground arith

topup_conflicts :
    (team region cents : ℕ) (purchased : Instant) (source : Option ℕ) (payment : String)
    (expires : Instant) (r : Entry)
    → is_payment_entry team region payment r ≡ false
    → conflicts (topup_entry team region cents purchased source payment expires) r ≡ false
unfolding conflicts is_payment_entry
topup_conflicts team region cents purchased source payment expires r h =
    ground
      (arith, sql_eq_comm (some payment) r.stripe_payment_id, same_type_comm topup r.entry_type)

subscription_conflicts :
    (team region cents : ℕ) (purchased start end : Instant) (payment : Option ℕ)
    (invoice : Option String) (r : Entry)
    → is_invoice_entry subscription team region invoice r ≡ false
    → conflicts (subscription_entry team region cents purchased start end payment invoice) r ≡ false
unfolding conflicts is_invoice_entry
subscription_conflicts team region cents purchased start end payment invoice r h =
    ground
      (arith, sql_eq_comm invoice r.source_invoice_id, same_type_comm subscription r.entry_type)

-- `add_topup_entry` never meets a unique constraint: the lookup by payment comes first.
add_topup_entry_admitted :
    (days team region : ℕ) (amount : ℤ) (purchased : Instant) (source : Option ℕ) (payment : String)
    (l : Ledger)
    → add_topup_entry days team region amount purchased source payment l ≢ integrity_error
unfolding add_topup_entry returned
add_topup_entry_admitted days team region amount purchased source payment l h =
    elim (Option-cases (positive amount)) [
      | inl nothing ↦ ground arith
      | inr (cents, some_cents) ↦
          elim (Option-cases (find_first (is_payment_entry team region payment) l.entries)) [
            | inr (x, found) ↦ ground arith
            | inl new ↦
                let anchor : Instant = expiry_anchor purchased (last_topup team region l) in
                let e : Entry =
                  topup_entry team region cents purchased source payment (plus_days anchor days) in
                let admitted =
                  add_entry_free (is_payment_entry team region payment) e l
                    (topup_conflicts team region cents purchased source payment
                      (plus_days anchor days))
                    (find_first-none (is_payment_entry team region payment) l.entries new) in
                admitted (ground arith)
          ]
    ]

-- What the lookup by invoice shows of the rows.
null_invoice :
    (team region : ℕ) (r : Entry) → is_invoice_entry subscription team region none r ≡ false
unfolding is_invoice_entry
null_invoice team region r = ground (arith, sql_eq_comm none r.source_invoice_id)

v_of : (s : String) → some s ≢ some "" → s ≢ ""
v_of s v e = v (ap some e)

no_invoice_entry :
    (team region : ℕ) (invoice : Option String) (rows : List Entry)
    → invoice ≢ some ""
    → (if truthy invoice
        then find_first (is_invoice_entry subscription team region invoice) rows
        else none)
      ≡ none
    → All (λ r. is_invoice_entry subscription team region invoice r ≡ false) rows
no_invoice_entry team region none rows v h =
    All-of {P = λ r. is_invoice_entry subscription team region none r ≡ false}
      (null_invoice team region) rows
no_invoice_entry team region (some s) rows v h =
    find_first-none (is_invoice_entry subscription team region (some s)) rows
      (ground (arith, eq_iff s "", v_of s v))

-- `add_subscription_entry` meets no unique constraint either, where the invoice has a number or is
-- NULL. (An empty number is stored and not looked up.)
add_subscription_entry_admitted :
    (team region : ℕ) (amount : ℤ) (purchased start end : Instant) (payment : Option ℕ)
    (invoice : Option String) (l : Ledger)
    → invoice ≢ some ""
    → add_subscription_entry team region amount purchased start end payment invoice l
      ≢ integrity_error
unfolding add_subscription_entry returned
add_subscription_entry_admitted team region amount purchased start end payment invoice l v h =
    elim (Option-cases (positive amount)) [
      | inl nothing ↦ ground arith
      | inr (cents, some_cents) ↦
          elim (Option-cases (
            if truthy invoice
            then find_first (is_invoice_entry subscription team region invoice) l.entries
            else none)) [
              | inr (x, found) ↦ ground (arith, found)
              | inl new ↦
                  let admitted =
                    add_entry_free (is_invoice_entry subscription team region invoice)
                      (subscription_entry team region cents purchased start end payment invoice) l
                      (subscription_conflicts team region cents purchased start end payment invoice)
                      (no_invoice_entry team region invoice l.entries v new) in
                  admitted (ground arith)
            ]
    ]
