-- ===== src/Ledger/Expiry.antt =====
-- `expire_subscription_entries` of app/core/periodic_budget_ledger_service.py.
pub mod Exact
use amazee_ai.Common.Table.{set_row}
use amazee_ai.Ledger.{Entry, Ledger, in_scope, same_type, subscription}
use amazee_ai.Ledger.Rollover.{deactivate}
use amazee_ai.Common.{[], none, some, false, ◌&&◌, ◌∷◌, ℕ, Instant, List, Bool, select, leb}

-- An entry of the subscription whose period has ended by `period_end`; NULL is no end.
unfoldable pub is_ended : ℕ → ℕ → Instant → Entry → Bool
is_ended team region period_end e =
    in_scope team region e
    && same_type e.entry_type subscription
    && e.is_active
    && elim e.effective_period_end [ none ↦ false | some t ↦ leb t period_end ]

unfoldable pub expire_loop : List Entry → List Entry → List Entry
unfolding deactivate
expire_loop [] rows = rows
expire_loop (e ∷ es) rows = expire_loop es (set_row (λ x. x.id) (deactivate e) rows)

unfoldable pub expire_subscription_entries : ℕ → ℕ → Instant → Ledger → Ledger
unfolding is_ended expire_loop
expire_subscription_entries team region period_end l = record l {
  entries = expire_loop (select (is_ended team region period_end) l.entries) l.entries;
}
