-- ===== src/Pool/Purchased.antt =====
-- The one criterion that opens a pool team's keys: a purchase was ever recorded.
use Prim.Native.String.{String}
use amazee_ai.Common.Lists.{any-append_new}
use amazee_ai.Ledger.Allocation.Conservation.{
  id_of, charge-IsStored, active_entries-IsKeyed, active_entries-IsStored,
}
use amazee_ai.Common.Table.{IsKeyed, find_row, IsStored, any-set_row}
use amazee_ai.Ledger.Allocation.{
  allocate_loop, allocate_period_spend_fifo, charge, consume, Progress,
}
use amazee_ai.Pool.{pool_team_has_ever_purchased, PoolPurchase}
use amazee_ai.Ledger.{
  add_topup_entry, returned, add_entry, Entry, Ledger, ok, active_entries, in_scope, free,
  expiry_anchor, last_topup, topup_entry,
}
use amazee_ai.Common.{
  [], some, true, inl, inr, refl, arith, ◌≡◌, ◌∷◌, ℕ, Instant, List, ℤ, Bool, Option, any, pos_part,
  min, Option-cases, positive, plus_days,
}

any-returned :
    (p : Entry → Bool) (e x : Entry) (l l' : Ledger)
    → p (record e { id = l.next_id }) ≡ true
    → returned (add_entry e l) ≡ ok (some x, l')
    → any p l'.entries ≡ true
unfolding returned add_entry
any-returned p e x l l' t h =
    ground (arith, any-append_new p l.entries (record e { id = l.next_id }) t)

-- A top-up that is booked opens the keys of the team in the region.
add_topup_entry-ever_purchased :
    (days team region : ℕ) (amount : ℤ) (purchased : Instant) (source : Option ℕ) (payment : String)
    (l : Ledger) {e : Entry} {l' : Ledger} (purchases : List PoolPurchase)
    → add_topup_entry days team region amount purchased source payment l ≡ ok (some e, l')
    → pool_team_has_ever_purchased team region l' purchases ≡ true
unfolding add_topup_entry pool_team_has_ever_purchased
add_topup_entry-ever_purchased days team region amount purchased source payment l {e} {l'} purchases
      h =
    elim (Option-cases (positive amount)) [
      | inl nothing ↦ absurd (ground arith)
      | inr (cents, some_cents) ↦
          let anchor : Instant = expiry_anchor purchased (last_topup team region l) in
          let new : Entry =
            topup_entry team region cents purchased source payment (plus_days anchor days) in
          let mine : in_scope team region (record new { id = l.next_id }) ≡ true = ground arith in
          ground (arith, any-returned (in_scope team region) new e l l' mine)
    ]

module _ (t r : ℕ) where
  any-charge :
      (e : Entry) (s : Progress)
      → find_row id_of e.id s.rows ≡ some e
      → any (in_scope t r) (charge e s).rows ≡ any (in_scope t r) s.rows
  unfolding charge consume
  any-charge e s h =
      any-set_row id_of (in_scope t r) (consume (min (free e) s.remaining) e) e s.rows h refl

  any-allocate_loop :
      (es : List Entry) (s : Progress)
      → IsKeyed id_of es
      → IsStored id_of s.rows es
      → any (in_scope t r) (allocate_loop es s).rows ≡ any (in_scope t r) s.rows
  unfolding allocate_loop
  any-allocate_loop [] s k h = refl
  any-allocate_loop (e ∷ es) s k h = ground (
    arith,
    any-allocate_loop es s k.1 h.1,
    any-allocate_loop es (charge e s) k.1 (charge-IsStored e es s k h),
    any-charge e s h.0,
  )

  -- Spending the budget, to its last cent too, changes no team's answer: keys that a purchase
  -- opened stay open.
  allocate-ever_purchased :
      (now : Instant) (team region : ℕ) (spend : ℤ) (l : Ledger) (purchases : List PoolPurchase)
      → IsKeyed id_of l.entries
      → pool_team_has_ever_purchased t r
          (allocate_period_spend_fifo now team region spend l).0
          purchases
        ≡ pool_team_has_ever_purchased t r l purchases
  unfolding allocate_period_spend_fifo pool_team_has_ever_purchased
  allocate-ever_purchased now team region spend l purchases k = rw (
      any-allocate_loop (active_entries now team region l)
        (record { rows = l.entries; allocated = 0; remaining = pos_part spend })
        (active_entries-IsKeyed now team region l k) (active_entries-IsStored now team region l k))
