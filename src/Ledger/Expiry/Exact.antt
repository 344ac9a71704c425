-- ===== src/Ledger/Expiry/Exact.antt =====
-- What `expire_subscription_entries` does to each row.
use amazee_ai.Ledger.Rollover.{deactivate}
use amazee_ai.Ledger.Allocation.Conservation.{id_of}
use amazee_ai.Common.Lists.{any-false, All-select}
use amazee_ai.Common.Table.{
  IsKeyed, IsStored, find_row, set_row, IsStored-set_row, find_row-set_row, IsKeyed-select,
  IsKeyed-IsStored,
}
use amazee_ai.Ledger.{Entry, Ledger}
use amazee_ai.Ledger.Expiry.{expire_loop, expire_subscription_entries, is_ended}
use amazee_ai.Common.{
  [], some, false, arith, ◌≡◌, ◌≢◌, ◌∷◌, ◌==◌, if◌then◌else◌, ℕ, List, any, All, Bool, All-mono,
  inl, inr, refl, Bool-cases, select, Instant, subst,
}

has_id : ℕ → List Entry → Bool
has_id k es = any (λ x. x.id == k) es

has_id_none : (k : ℕ) (es : List Entry) → All (λ x. x.id ≢ k) es → has_id k es ≡ false
unfolding has_id
has_id_none k es h =
    any-false (λ x. x.id == k) es
      (All-mono (λ x. x.id ≢ k) (λ x. (x.id == k) ≡ false) es (λ x n. ground arith) h)

deactivate_id : (x : Entry) → (deactivate x).id ≡ x.id
unfolding deactivate
deactivate_id x = refl

deactivate_row :
    (x : Entry) (rows : List Entry)
    → find_row id_of x.id rows ≡ some x
    → find_row id_of (id_of (deactivate x)) rows ≡ some x
unfolding deactivate
deactivate_row x rows h = h

pub deactivate-IsStored :
    (x : Entry) (es rows : List Entry)
    → IsKeyed id_of (x ∷ es)
    → IsStored id_of rows (x ∷ es)
    → IsStored id_of (set_row id_of (deactivate x) rows) es
unfolding deactivate
deactivate-IsStored x es rows d h = IsStored-set_row id_of (deactivate x) x rows es h.0 d.0 h.1

expire_loop_row :
    (k : ℕ) (es rows : List Entry) (e : Entry)
    → IsKeyed id_of es
    → IsStored id_of rows es
    → find_row id_of k rows ≡ some e
    → find_row id_of k (expire_loop es rows) ≡ some (if has_id k es then deactivate e else e)
unfolding expire_loop has_id any
expire_loop_row k [] rows e d h f = f
expire_loop_row k (x ∷ es) rows e d h f = elim (Bool-cases (x.id == k)) [
  | inl same ↦
      let at_k : x.id ≡ k = ground arith in
      let old : find_row id_of k rows ≡ some x =
        subst (λ j. find_row id_of j rows ≡ some x) at_k h.0 in
      let is_e : x ≡ e = cc in
      let written : find_row id_of k (set_row id_of (deactivate x) rows) ≡ some (deactivate x) =
        ground (
          arith,
          deactivate_id x,
          find_row-set_row id_of k (deactivate x) x rows (deactivate_row x rows h.0),
        ) in
      let absent : has_id k es ≡ false =
        has_id_none k es (subst (λ j. All (λ y. y.id ≢ j) es) at_k d.0) in
      let rest =
        expire_loop_row k es (set_row id_of (deactivate x) rows) (deactivate x) d.1
          (deactivate-IsStored x es rows d h) written in
      ground (arith, same, absent, rest, is_e)
  | inr other ↦
      let kept : find_row id_of k (set_row id_of (deactivate x) rows) ≡ some e = ground (
        arith,
        deactivate_id x,
        find_row-set_row id_of k (deactivate x) x rows (deactivate_row x rows h.0),
      ) in
      let rest =
        expire_loop_row k es (set_row id_of (deactivate x) rows) e d.1
          (deactivate-IsStored x es rows d h) kept in
      ground (arith, other, rest)
]

has_id-select :
    (p : Entry → Bool) (k : ℕ) (rows : List Entry) (e : Entry)
    → IsKeyed id_of rows
    → find_row id_of k rows ≡ some e
    → has_id k (select p rows) ≡ p e
unfolding has_id select any find_row
has_id-select p k [] e d f = absurd (ground arith)
has_id-select p k (x ∷ rows) e d f = elim (Bool-cases (x.id == k)) [
  | inl same ↦
      let at_k : x.id ≡ k = ground arith in
      let absent : has_id k (select p rows) ≡ false =
        has_id_none k (select p rows)
          (All-select (λ y. y.id ≢ k) p rows (subst (λ j. All (λ y. y.id ≢ j) rows) at_k d.0)) in
      let is_e : x ≡ e = ground arith in
      subst (λ y. has_id k (select p (x ∷ rows)) ≡ p y) is_e (ground (arith, absent))
  | inr other ↦ ground (arith, has_id-select p k rows e d.1)
]

-- A subscription of the team in the region that is active and has ended is closed, and every other
-- row is left as it was, in a table with a primary key.
pub expire_subscription_entries_row :
    (team region : ℕ) (period_end : Instant) (l : Ledger) (e : Entry)
    → IsKeyed id_of l.entries
    → find_row id_of e.id l.entries ≡ some e
    → find_row id_of e.id (expire_subscription_entries team region period_end l).entries
      ≡ some (if is_ended team region period_end e then deactivate e else e)
unfolding expire_subscription_entries
expire_subscription_entries_row team region period_end l e k f =
    rw (← has_id-select (is_ended team region period_end) e.id l.entries e k f) (
      expire_loop_row e.id (select (is_ended team region period_end) l.entries) l.entries e
        (IsKeyed-select id_of (is_ended team region period_end) l.entries k)
        (All-select (λ x. find_row id_of x.id l.entries ≡ some x) (is_ended team region period_end)
          l.entries (IsKeyed-IsStored id_of l.entries k))
        f)
