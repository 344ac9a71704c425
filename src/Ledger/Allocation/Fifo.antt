-- ===== src/Ledger/Allocation/Fifo.antt =====
-- The order in which `allocate_period_spend_fifo` charges the entries, and what it leaves alone.
use amazee_ai.Common.Lists.{All-take_front}
use amazee_ai.Common.Sort.{IsSorted, IsTotal, IsTransitive, sort_by-IsSorted}
use amazee_ai.Ledger.Allocation.Conservation.{
  id_of, charge-IsStored, active_entries-IsKeyed, active_entries-IsStored, active_entries_sound,
}
use amazee_ai.Common.Table.{IsStored, find_row, IsKeyed, find_row-set_row}
use amazee_ai.Common.{
  List, sum_by, Instant, ℕ, All, ◌≢◌, ◌≡◌, some, true, ◌∷◌, arith, min, [], none, refl, ◌+◌, ◌++◌,
  false, inl, inr, ◌-◌, Bool-cases, leb, ◌∙◌, ℤ, pos_part, All-mono, All-zip, subst,
}
use amazee_ai.Ledger.Allocation.{
  allocate_loop, charge, consume, Progress, allocate_period_spend_fifo,
}
use amazee_ai.Ledger.{active_entries, Entry, Ledger, is_active_entry, before, free}

charge_other :
    (k : ℕ) (e : Entry) (s : Progress)
    → e.id ≢ k
    → find_row id_of e.id s.rows ≡ some e
    → find_row id_of k (charge e s).rows ≡ find_row id_of k s.rows
unfolding charge consume
charge_other k e s n h =
    ground (arith, find_row-set_row id_of k (consume (min (free e) s.remaining) e) e s.rows h)

charge_self :
    (e : Entry) (s : Progress)
    → find_row id_of e.id s.rows ≡ some e
    → find_row id_of e.id (charge e s).rows ≡ some (consume (min (free e) s.remaining) e)
unfolding charge consume
charge_self e s h =
    ground (arith, find_row-set_row id_of e.id (consume (min (free e) s.remaining) e) e s.rows h)

charge_remaining :
    (e : Entry) (s : Progress)
    → ((charge e s).remaining ≡ s.remaining - min (free e) s.remaining)
      × ((consume (min (free e) s.remaining) e).consumed_cents
          ≡ e.consumed_cents + min (free e) s.remaining)
unfolding charge consume
charge_remaining e s = (refl, refl)

-- A row that the loop does not come to is not written.
pub allocate_loop_untouched :
    (k : ℕ) (es : List Entry) (s : Progress)
    → IsKeyed id_of es
    → IsStored id_of s.rows es
    → All (λ x. x.id ≢ k) es
    → find_row id_of k (allocate_loop es s).rows ≡ find_row id_of k s.rows
unfolding allocate_loop
allocate_loop_untouched k [] s d h n = refl
allocate_loop_untouched k (e ∷ es) s d h n = ground (
  arith,
  allocate_loop_untouched k es s d.1 h.1 n.1,
  allocate_loop_untouched k es (charge e s) d.1 (charge-IsStored e es s d h) n.1,
  charge_other k e s n.0 h.0,
)

-- The `consumed_cents` of the row with a given key.
pub consumed_at : List Entry → ℕ → ℕ
consumed_at rows k = elim (find_row id_of k rows) [ none ↦ 0 | some r ↦ r.consumed_cents ]

consumed_at-found :
    (rows : List Entry) (k : ℕ) (r : Entry)
    → find_row id_of k rows ≡ some r
    → consumed_at rows k ≡ r.consumed_cents
unfolding consumed_at
consumed_at-found rows k r h = rw (h, consumed_at)

-- What the rows of the given entries have consumed in all.
pub consumed_over : List Entry → List Entry → ℕ
unfolding sum_by
consumed_over rows es = sum_by (λ x. consumed_at rows x.id) es

consumed_over_cons :
    (rows : List Entry) (e : Entry) (es : List Entry)
    → consumed_over rows (e ∷ es) ≡ consumed_at rows e.id + consumed_over rows es
unfolding consumed_over
consumed_over_cons rows e es = refl

consumed_at-stored :
    (rows es : List Entry)
    → IsStored id_of rows es
    → consumed_over rows es ≡ sum_by (λ x. x.consumed_cents) es
unfolding consumed_over
consumed_at-stored rows [] h = refl
consumed_at-stored rows (e ∷ es) h =
    omega (arith, consumed_at-found rows e.id e h.0, consumed_at-stored rows es h.1)

-- The three ways a round can go.
loop_done :
    (e : Entry) (es : List Entry) (s : Progress)
    → leb s.remaining 0 ≡ true
    → allocate_loop (e ∷ es) s ≡ s
unfolding allocate_loop
loop_done e es s h = rw h

loop_skip :
    (e : Entry) (es : List Entry) (s : Progress)
    → leb s.remaining 0 ≡ false
    → leb (free e) 0 ≡ true
    → allocate_loop (e ∷ es) s ≡ allocate_loop es s
unfolding allocate_loop
loop_skip e es s h k = rw (h, k)

loop_charge :
    (e : Entry) (es : List Entry) (s : Progress)
    → leb s.remaining 0 ≡ false
    → leb (free e) 0 ≡ false
    → allocate_loop (e ∷ es) s ≡ allocate_loop es (charge e s)
unfolding allocate_loop
loop_charge e es s h k = rw (h, k)

-- After the loop the first entries hold what they held and as much of the spend as fits in them.
pub allocate_loop_prefix :
    (front back : List Entry) (s : Progress)
    → IsKeyed id_of (front ++ back)
    → IsStored id_of s.rows (front ++ back)
    → consumed_over (allocate_loop (front ++ back) s).rows front
      ≡ sum_by (λ x. x.consumed_cents) front + min (sum_by free front) s.remaining
unfolding sum_by
allocate_loop_prefix [] back s d h = unfold consumed_over in omega arith
allocate_loop_prefix (e ∷ front) back s d h = elim (Bool-cases (leb s.remaining 0)) [
  | inl empty ↦ rw (loop_done e (front ++ back) s empty) (
      ground (
        arith,
        consumed_at-stored s.rows (e ∷ front)
            (All-take_front (λ x. find_row id_of x.id s.rows ≡ some x) (e ∷ front) back h),
      ))
  | inr more ↦ elim (Bool-cases (leb (free e) 0)) [
    | inl full ↦
        let same = allocate_loop_untouched e.id (front ++ back) s d.1 h.1 d.0 ∙ h.0 in
        rw (loop_skip e (front ++ back) s more full) (
          ground (
            arith,
            consumed_over_cons (allocate_loop (front ++ back) s).rows e front,
            consumed_at-found (allocate_loop (front ++ back) s).rows e.id e same,
            allocate_loop_prefix front back s d.1 h.1,
          ))
    | inr room ↦
        let next = charge-IsStored e (front ++ back) s d h in
        let written =
          allocate_loop_untouched e.id (front ++ back) (charge e s) d.1 next d.0
          ∙ charge_self e s h.0 in
        rw (loop_charge e (front ++ back) s more room) (
          ground (
            arith,
            consumed_over_cons (allocate_loop (front ++ back) (charge e s)).rows e front,
            consumed_at-found (allocate_loop (front ++ back) (charge e s)).rows e.id
                (consume (min (free e) s.remaining) e) written,
            charge_remaining e s,
            allocate_loop_prefix front back (charge e s) d.1 next,
          ))
  ]
]

-- Spend is charged first in, first out: of the active entries in their order, any first ones hold
-- after the call what they held before and as much of the spend (nothing, if that is negative) as
-- fits in them, so an entry is charged only once those before it are used up.
pub allocate_period_spend_fifo_order :
    (now : Instant) (team region : ℕ) (spend : ℤ) (l : Ledger) (front back : List Entry)
    → IsKeyed id_of l.entries
    → active_entries now team region l ≡ front ++ back
    → consumed_over (allocate_period_spend_fifo now team region spend l).0.entries front
      ≡ sum_by (λ x. x.consumed_cents) front + min (sum_by free front) (pos_part spend)
unfolding allocate_period_spend_fifo
allocate_period_spend_fifo_order now team region spend l front back k e = rw e (
    allocate_loop_prefix front back
      (record { rows = l.entries; allocated = 0; remaining = pos_part spend })
      (rw e at (active_entries-IsKeyed now team region l k))
      (rw e at (active_entries-IsStored now team region l k)))

not_charged :
    (now : Instant) (team region : ℕ) (rows : List Entry) (e x : Entry)
    → find_row id_of e.id rows ≡ some e
    → is_active_entry now team region e ≡ false
    → find_row id_of x.id rows ≡ some x
    → is_active_entry now team region x ≡ true
    → x.id ≢ e.id
not_charged now team region rows e x he ne hx ax same =
    let hx' : find_row id_of e.id rows ≡ some x =
      subst (λ k. find_row id_of k rows ≡ some x) same hx in
    let ee : e ≡ x = cc in cc

-- A row that is not an active entry of the team in the region (another team's, an expired or a used
-- one) is left as it was.
allocate_period_spend_fifo_others :
    (now : Instant) (team region : ℕ) (spend : ℤ) (l : Ledger) (e : Entry)
    → IsKeyed id_of l.entries
    → find_row id_of e.id l.entries ≡ some e
    → is_active_entry now team region e ≡ false
    → find_row id_of e.id (allocate_period_spend_fifo now team region spend l).0.entries ≡ some e
unfolding allocate_period_spend_fifo
allocate_period_spend_fifo_others now team region spend l e k h n =
    allocate_loop_untouched e.id (active_entries now team region l)
      (record { rows = l.entries; allocated = 0; remaining = pos_part spend })
      (active_entries-IsKeyed now team region l k) (active_entries-IsStored now team region l k)
      (All-mono
        (λ x. (find_row id_of x.id l.entries ≡ some x) × (is_active_entry now team region x ≡ true))
        (λ x. x.id ≢ e.id) (active_entries now team region l)
        (λ x p. not_charged now team region l.entries e x h n p.0 p.1)
        (All-zip (λ x. find_row id_of x.id l.entries ≡ some x)
          (λ x. is_active_entry now team region x ≡ true) (active_entries now team region l)
          (active_entries-IsStored now team region l k) (active_entries_sound now team region l)))
    ∙ h

before-IsTotal : IsTotal before
unfolding before
before-IsTotal x y h = ground arith

before-IsTransitive : IsTransitive before
unfolding before
before-IsTransitive x y z h k = ground arith

-- The active entries come in the order of the query: subscriptions, then top-ups, then rollovers,
-- each oldest first.
active_entries-IsSorted :
    (now : Instant) (team region : ℕ) (l : Ledger)
    → IsSorted before (active_entries now team region l)
unfolding active_entries
active_entries-IsSorted now team region l =
    sort_by-IsSorted before before-IsTotal before-IsTransitive _
