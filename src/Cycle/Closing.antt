-- ===== src/Cycle/Closing.antt =====
-- The expiry of the ended subscriptions, `expire_subscription_entries` of
-- app/core/periodic_budget_ledger_service.py, beside a row that is among them.
use amazee_ai.Common.Lists.{All-select}
use amazee_ai.Ledger.Expiry.Exact.{deactivate-IsStored, expire_subscription_entries_row}
use amazee_ai.Ledger.Rollover.{deactivate}
use amazee_ai.Common.Table.{
  IsKeyed, IsStored, IsKeyed-select, set_row, find_row, set_row-IsKeyed, IsKeyed-IsStored,
}
use amazee_ai.Ledger.{Entry, Ledger}
use amazee_ai.Ledger.Expiry.{expire_loop, is_ended, expire_subscription_entries}
use amazee_ai.Common.{
  [], some, ◌<◌, ◌≡◌, ◌∷◌, ◌∙◌, ℕ, Instant, List, All, select, ap, if_true, inl, inr, if◌then◌else◌,
  Bool-cases, if_false,
}
use amazee_ai.Cycle.Keeping.{Keeps, spent, deactivate_fresh, spent-deactivate}
use amazee_ai.Ledger.Allocation.Conservation.{id_of}

-- The expiry of the subscriptions closes the row, where its period has ended by then.
expire_loop-IsTable :
    (l : Ledger) (es rows : List Entry) (cents : ℕ)
    → IsKeyed id_of es
    → IsStored id_of rows es
    → IsKeyed id_of rows
    → All (λ x. x.id < l.next_id) rows
    → spent rows ≡ cents
    → IsKeyed id_of (expire_loop es rows)
      × All (λ x. x.id < l.next_id) (expire_loop es rows)
      × (spent (expire_loop es rows) ≡ cents)
unfolding expire_loop
expire_loop-IsTable l [] rows cents k at h f c = (h, f, c)
expire_loop-IsTable l (x ∷ es) rows cents k at h f c =
    expire_loop-IsTable l es (set_row id_of (deactivate x) rows) cents k.1
      (deactivate-IsStored x es rows k at) (set_row-IsKeyed id_of (deactivate x) rows h)
      (deactivate_fresh l rows x at.0 f) (spent-deactivate l rows x at.0 ∙ c)

-- What the expiry makes of a row: one of the team in the region that is an active, ended subscription is
-- closed.
abbrev pub expired : ℕ → ℕ → Instant → Entry → Entry
expired team region end e = if is_ended team region end e then deactivate e else e

pub expired_id :
    (team region : ℕ) (end : Instant) (e : Entry) → (expired team region end e).id ≡ e.id
unfolding deactivate
expired_id team region end e = elim (Bool-cases (is_ended team region end e)) [
  | inl h ↦ ap (λ x. x.id) (if_true (deactivate e) e h)
  | inr h ↦ ap (λ x. x.id) (if_false (deactivate e) e h)
]

pub expire-Keeps :
    (e : Entry) (cents team region : ℕ) (end : Instant) (l : Ledger)
    → Keeps e cents l
    → Keeps (expired team region end e) cents (expire_subscription_entries team region end l)
expire-Keeps e cents team region end l h =
    let es = select (is_ended team region end) l.entries in
    let table =
      expire_loop-IsTable l es l.entries cents
        (IsKeyed-select id_of (is_ended team region end) l.entries h.keyed)
        (All-select (λ x. find_row id_of x.id l.entries ≡ some x) (is_ended team region end)
          l.entries (IsKeyed-IsStored id_of l.entries h.keyed))
        h.keyed h.fresh h.charged in
    let l' = expire_subscription_entries team region end l in
    let row : find_row id_of (expired team region end e).id l'.entries
        ≡ some (expired team region end e) =
      ap (λ k. find_row id_of k l'.entries) (expired_id team region end e)
      ∙ expire_subscription_entries_row team region end l e h.keyed h.stored in
    unfold expire_subscription_entries in
    record { keyed = table.0; fresh = table.1; stored = row; charged = table.2 }
