-- ===== src/Ledger/TopupExpiry.antt =====
-- The expiry that `add_topup_entry` gives to a new top-up.
use amazee_ai.Ledger.Allocation.Conservation.{id_of}
use amazee_ai.Common.Lists.{All-select_inv}
use amazee_ai.Common.Table.{find_row, find_row-All}
use amazee_ai.Common.Sort.{
  IsTotal, IsTransitive, IsSorted, sort_by, All-sort_by_inv, sort_by-IsSorted,
}
use amazee_ai.Ledger.{
  add_topup_entry, expiry_anchor, last_topup, newer, Entry, returned, Ledger, add_entry, String,
  is_topup_of, ok,
}
use amazee_ai.Common.{
  [], none, some, true, arith, ◌≤◌, ◌≡◌, ◌∷◌, ℕ, Instant, ℤ, List, Option, All, first, All-mono,
  plus_days, select,
}

pub newer-IsTotal : IsTotal newer
unfolding newer
newer-IsTotal x y h = ground arith

pub newer-IsTransitive : IsTransitive newer
unfolding newer
newer-IsTransitive x y z h k = ground arith

pub newer_purchased : (x y : Entry) → newer x y ≡ true → y.purchased_at ≤ x.purchased_at
unfolding newer
newer_purchased x y h = ground arith

first_newest :
    (purchased : Instant) (es : List Entry)
    → IsSorted newer es
    → All (λ x. x.purchased_at ≤ expiry_anchor purchased (first es)) es
unfolding expiry_anchor
first_newest purchased [] h = tt
first_newest purchased (e ∷ es) h = (
  ground arith,
  All-mono (λ x. newer e x ≡ true) (λ x. x.purchased_at ≤ expiry_anchor purchased (some e)) es
      (λ x n. ground (arith, newer_purchased e x n)) h.0,
)

-- No top-up of the team in the region was bought after the anchor.
last_topup_newest :
    (purchased : Instant) (team region : ℕ) (l : Ledger)
    → All
        (λ x.
          is_topup_of team region x ≡ true
          → x.purchased_at ≤ expiry_anchor purchased (last_topup team region l))
        l.entries
unfolding last_topup
last_topup_newest purchased team region l =
    let rows = select (is_topup_of team region) l.entries in
    All-select_inv (λ x. x.purchased_at ≤ expiry_anchor purchased (first (sort_by newer rows)))
      (is_topup_of team region) l.entries
      (All-sort_by_inv newer
        (λ x. x.purchased_at ≤ expiry_anchor purchased (first (sort_by newer rows))) rows
        (first_newest purchased (sort_by newer rows)
          (sort_by-IsSorted newer newer-IsTotal newer-IsTransitive rows)))

expiry_anchor-ge : (purchased : Instant) (o : Option Entry) → purchased ≤ expiry_anchor purchased o
unfolding expiry_anchor
expiry_anchor-ge purchased none = omega arith
expiry_anchor-ge purchased (some e) = ground arith

added_expiry :
    (days team region : ℕ) (amount : ℤ) (purchased : Instant) (source : Option ℕ) (payment : String)
    (l : Ledger) {e : Entry} {l' : Ledger}
    → add_topup_entry days team region amount purchased source payment l ≡ ok (some e, l')
    → e.expires_at ≡ some (plus_days (expiry_anchor purchased (last_topup team region l)) days)
unfolding add_topup_entry returned add_entry
added_expiry days team region amount purchased source payment l h = ground arith

-- A new top-up is valid for `days` days from its purchase at least, and for `days` days from the
-- purchase of every earlier top-up of the team in the region: consecutive top-ups extend the window.
add_topup_entry_extends :
    (days team region : ℕ) (amount : ℤ) (purchased : Instant) (source : Option ℕ) (payment : String)
    (l : Ledger) {e : Entry} {l' : Ledger} (k : ℕ) (x : Entry)
    → add_topup_entry days team region amount purchased source payment l ≡ ok (some e, l')
    → find_row id_of k l.entries ≡ some x
    → is_topup_of team region x ≡ true
    → (t : Instant) × (e.expires_at ≡ some t)
      × (plus_days purchased days ≤ t)
      × (plus_days x.purchased_at days ≤ t)
add_topup_entry_extends days team region amount purchased source payment l k x h f p = (
  plus_days (expiry_anchor purchased (last_topup team region l)) days,
  added_expiry days team region amount purchased source payment l h,
  omega (arith, expiry_anchor-ge purchased (last_topup team region l)),
  omega (
    arith,
    find_row-All id_of
        (λ y.
          is_topup_of team region y ≡ true
          → y.purchased_at ≤ expiry_anchor purchased (last_topup team region l))
        k x l.entries (last_topup_newest purchased team region l) f p,
  ),
)
