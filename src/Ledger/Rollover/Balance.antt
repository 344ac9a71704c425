-- ===== src/Ledger/Rollover/Balance.antt =====
-- The money that the valid top-ups hold, before and after `materialize_topup_rollovers`.
use amazee_ai.Ledger.Allocation.Conservation.{id_of}
use amazee_ai.Common.Table.{
  IsKeyed, find_row, IsStored, sum_by-set_row, IsStored-set_row, IsKeyed-select, IsKeyed-IsStored,
}
use amazee_ai.Common.Lists.{
  sum_by-select, sum_by_cong, All-of, select_sound, All-select, sum_by-append,
}
use amazee_ai.Ledger.{Entry, Ledger, free, String, add_entry, ok}
use amazee_ai.Ledger.Rollover.{
  compute_active_topup_remaining, roll_over, deactivate, is_valid_topup, rollover_loop, Rollover,
  roll_expiry, later_expiry, rolled, rollover_entry, materialize_topup_rollovers, counted,
}
use amazee_ai.Common.{
  [], some, true, inl, inr, refl, arith, ◌+◌, ◌≡◌, ◌&&◌, ◌∷◌, ◌∙◌, if◌then◌else◌, Instant, ℕ, List,
  sum_by, All, ltb, unexpired, Bool-cases, leb, none, false, ◌++◌, Option, select, sym,
}

-- What an entry adds to `compute_active_topup_remaining`.
abbrev pub held : Instant → ℕ → ℕ → Entry → ℕ
held now team region e = if is_valid_topup now team region e then free e else 0

pub compute_active_topup_remaining-sum :
    (now : Instant) (team region : ℕ) (l : Ledger)
    → compute_active_topup_remaining now team region l ≡ sum_by (held now team region) l.entries
unfolding compute_active_topup_remaining
compute_active_topup_remaining-sum now team region l =
    sum_by-select free
      (λ e. is_valid_topup now team region e && ltb e.consumed_cents e.amount_cents) l.entries
    ∙ sum_by_cong _ (held now team region) l.entries (All-of (λ e. ground arith) l.entries)

pub roll_over-IsStored :
    (e : Entry) (es : List Entry) (s : Rollover)
    → IsKeyed id_of (e ∷ es)
    → IsStored id_of s.rows (e ∷ es)
    → IsStored id_of (roll_over e s).rows es
unfolding roll_over deactivate
roll_over-IsStored e es s k h = elim (Bool-cases (leb (free e) 0)) [
  | inl c ↦ rw c (IsStored-set_row id_of (deactivate e) e s.rows es h.0 k.0 h.1)
  | inr c ↦ rw c (IsStored-set_row id_of (deactivate e) e s.rows es h.0 k.0 h.1)
]

module _ (now : Instant) (team region : ℕ) where
  held-deactivate : (e : Entry) → held now team region (deactivate e) ≡ 0
  unfolding deactivate is_valid_topup
  held-deactivate e = ground arith

  held-roll_over :
      (e : Entry) (s : Rollover)
      → find_row id_of e.id s.rows ≡ some e
      → is_valid_topup now team region e ≡ true
      → sum_by (held now team region) (roll_over e s).rows + (roll_over e s).total
        ≡ sum_by (held now team region) s.rows + s.total
  unfolding roll_over
  held-roll_over e s h v = ground (
    arith,
    v,
    held-deactivate e,
    sum_by-set_row id_of (held now team region) (deactivate e) e s.rows h,
  )

  held-rollover_loop :
      (es : List Entry) (s : Rollover)
      → IsKeyed id_of es
      → IsStored id_of s.rows es
      → All (λ e. is_valid_topup now team region e ≡ true) es
      → sum_by (held now team region) (rollover_loop es s).rows + (rollover_loop es s).total
        ≡ sum_by (held now team region) s.rows + s.total
  unfolding rollover_loop
  held-rollover_loop [] s k h v = refl
  held-rollover_loop (e ∷ es) s k h v =
      held-rollover_loop es (roll_over e s) k.1 (roll_over-IsStored e es s k h) v.1
      ∙ held-roll_over e s h.0 v.0

  unexpired-roll_over :
      (e : Entry) (s : Rollover)
      → is_valid_topup now team region e ≡ true
      → unexpired now s.expiry ≡ true
      → unexpired now (roll_over e s).expiry ≡ true
  unfolding roll_over is_valid_topup roll_expiry later_expiry
  unexpired-roll_over e s v u = ground arith

  unexpired-rollover_loop :
      (es : List Entry) (s : Rollover)
      → All (λ e. is_valid_topup now team region e ≡ true) es
      → unexpired now s.expiry ≡ true
      → unexpired now (rollover_loop es s).expiry ≡ true
  unfolding rollover_loop
  unexpired-rollover_loop [] s v u = u
  unexpired-rollover_loop (e ∷ es) s v u =
      unexpired-rollover_loop es (roll_over e s) v.1 (unexpired-roll_over e s v.0 u)

  held-rolled :
      (l : Ledger)
      → IsKeyed id_of l.entries
      → sum_by (held now team region) (rolled now team region l).rows
          + (rolled now team region l).total
        ≡ sum_by (held now team region) l.entries
  unfolding rolled
  held-rolled l k =
      held-rollover_loop (select (is_valid_topup now team region) l.entries)
        (record { rows = l.entries; total = 0; expiry = none; has_non_expiring = false })
        (IsKeyed-select id_of (is_valid_topup now team region) l.entries k)
        (All-select (λ x. find_row id_of x.id l.entries ≡ some x) (is_valid_topup now team region)
          l.entries (IsKeyed-IsStored id_of l.entries k))
        (select_sound (is_valid_topup now team region) l.entries)
      ∙ omega arith

  unexpired-rolled : (l : Ledger) → unexpired now (rolled now team region l).expiry ≡ true
  unfolding rolled
  unexpired-rolled l =
      unexpired-rollover_loop (select (is_valid_topup now team region) l.entries)
        (record { rows = l.entries; total = 0; expiry = none; has_non_expiring = false })
        (select_sound (is_valid_topup now team region) l.entries) refl

  held-rollover_entry :
      (id total : ℕ) (invoice : Option String) (at : Instant) (expiry : Option Instant)
      (rows : List Entry)
      → unexpired now expiry ≡ true
      → let e : Entry = rollover_entry team region invoice total at expiry in
        sum_by (held now team region) (rows ++ record e { id = id } ∷ [])
        ≡ sum_by (held now team region) rows + total
  unfolding is_valid_topup sum_by
  held-rollover_entry id total invoice at expiry rows u =
      let e : Entry = rollover_entry team region invoice total at expiry in
      let value : held now team region (record e { id = id }) ≡ total = ground arith in
      sum_by-append (held now team region) rows (record e { id = id } ∷ []) ∙ omega (arith, value)

  add_rollover_held :
      (total : ℕ) (invoice : Option String) (at : Instant) (expiry : Option Instant) (l : Ledger)
      (t : ℕ) (l' : Ledger)
      → unexpired now expiry ≡ true
      → counted total (add_entry (rollover_entry team region invoice total at expiry) l)
        ≡ ok (t, l')
      → (t ≡ total)
        × (sum_by (held now team region) l'.entries
            ≡ sum_by (held now team region) l.entries + total)
  unfolding add_entry counted
  add_rollover_held total invoice at expiry l t l' u h =
      ground (arith, held-rollover_entry l.next_id total invoice at expiry l.entries u)

  materialize_held :
      (invoice : Option String) (at : Instant) (l : Ledger) {t : ℕ} {l' : Ledger}
      → IsKeyed id_of l.entries
      → materialize_topup_rollovers now team region invoice at l ≡ ok (t, l')
      → sum_by (held now team region) l'.entries ≡ sum_by (held now team region) l.entries
  unfolding materialize_topup_rollovers
  materialize_held invoice at l {t} {l'} k h = ground (
    arith,
    held-rolled l k,
    add_rollover_held (rolled now team region l).total invoice at (rolled now team region l).expiry
        (record l { entries = (rolled now team region l).rows }) t l' (unexpired-rolled l),
  )

  -- Closing a cycle moves the top-ups' money and loses none of it: whatever the call does (a first
  -- rollover, a repeated one, nothing to move), what is left of the top-ups that are valid now is
  -- the same before and after, in a table with a primary key, if no constraint refuses the new row.
  pub materialize_topup_rollovers_keeps_balance :
      (invoice : Option String) (at : Instant) (l : Ledger) {t : ℕ} {l' : Ledger}
      → IsKeyed id_of l.entries
      → materialize_topup_rollovers now team region invoice at l ≡ ok (t, l')
      → compute_active_topup_remaining now team region l'
        ≡ compute_active_topup_remaining now team region l
  materialize_topup_rollovers_keeps_balance invoice at l {l' = l'} k h =
      compute_active_topup_remaining-sum now team region l'
      ∙ materialize_held invoice at l k h
      ∙ sym (compute_active_topup_remaining-sum now team region l)
