-- ===== src/Cycle/Replay.antt =====
-- A billing cycle that is run again, `_sync_periodic_ledger_for_period` of app/core/worker.py.
use amazee_ai.Common.Table.{find_row, IsKeyed-IsStored, find_row-find_first, IsKeyed}
use Prim.Native.String.{String}
use amazee_ai.Common.Lists.{find_first_sound, select_sound, All-select}
use amazee_ai.Ledger.Rollover.{materialize_topup_rollovers}
use amazee_ai.Cycle.Keeping.{Keeps, KeepsOk, spent, materialize-Keeps}
use amazee_ai.Cycle.Booking.{add_subscription_entry-Keeps}
use amazee_ai.Cycle.Closing.{expire-Keeps, expired, expired_id}
use amazee_ai.Period.Closing.{SpendPeriod}
use amazee_ai.Ledger.{
  Entry, Ledger, add_subscription_entry, integrity_error, EntryType, same_type, subscription, topup,
  topup_rollover, other, is_invoice_entry,
}
use amazee_ai.Cycle.{
  open_cycle, settle_cycle, settle_spend, CycleArgs, Result, is_settled, ok, table_of,
}
use amazee_ai.Ledger.Expiry.{expire_subscription_entries}
use amazee_ai.Ledger.Allocation.Conservation.{id_of}
use amazee_ai.Common.{
  ◌||◌, some, true, false, refl, arith, ◌≡◌, ℕ, List, Option, Instant, subst, [], inl, inr, ◌<◌,
  ◌∷◌, ◌∙◌, Bool, any, All, find_first, Bool-cases, select, All-mono, ap, sym, All-zip,
}

subscription_kind :
    (k : EntryType)
    → same_type k subscription ≡ true
    → (same_type k topup || same_type k topup_rollover) ≡ false
subscription_kind subscription h = refl
subscription_kind topup h = absurd cc
subscription_kind topup_rollover h = absurd cc
subscription_kind other h = absurd cc

any-find_first :
    {A : Type 0} (p : A → Bool) (xs : List A)
    → any p xs ≡ true
    → (x : A) × (find_first p xs ≡ some x)
unfolding any find_first
any-find_first p [] h = absurd (ground arith)
any-find_first p (x ∷ xs) h = elim (Bool-cases (p x)) [
  | inl e ↦ (x, ground (arith, e))
  | inr e ↦
      let (y, found) = any-find_first p xs (ground (arith, e)) in (y, ground (arith, e, found))
]

settled_unchanged :
    (now : Instant) (a : CycleArgs) (spend : ℕ) (periods : List SpendPeriod) (l : Ledger)
    → is_settled a l ≡ true
    → settle_spend now a spend periods l ≡ l
unfolding settle_spend
settled_unchanged now a spend periods l h = rw h refl

table_of-Keeps :
    (e : Entry) (cents : ℕ) (r : Result (Option Entry × Ledger)) {l' : Ledger}
    → KeepsOk e cents r
    → table_of r ≡ ok l'
    → Keeps e cents l'
table_of-Keeps e cents (ok (x, l)) {l'} h a =
    let same : l ≡ l' = ground arith in subst (Keeps e cents) same h
table_of-Keeps e cents integrity_error h a = absurd cc

open_cycle-Keeps :
    (a : CycleArgs) (e : Entry) (cents : ℕ) (r : Result (ℕ × Ledger)) {l' : Ledger}
    → KeepsOk e cents r
    → open_cycle a r ≡ ok l'
    → Keeps (expired a.team_id a.region_id a.period_end e) cents l'
unfolding open_cycle
open_cycle-Keeps a e cents integrity_error h o = absurd cc
open_cycle-Keeps a e cents (ok (moved, l)) h o =
    let e' = expired a.team_id a.region_id a.period_end e in
    table_of-Keeps e' cents
      (add_subscription_entry a.team_id a.region_id a.amount_cents a.period_start a.period_start
        a.period_end a.source_payment_id a.source_invoice_id
        (expire_subscription_entries a.team_id a.region_id a.period_end l))
      (add_subscription_entry-Keeps e' cents a.team_id a.region_id a.amount_cents a.period_start
        a.period_start a.period_end a.source_payment_id a.source_invoice_id
        (expire_subscription_entries a.team_id a.region_id a.period_end l)
        (expire-Keeps e cents a.team_id a.region_id a.period_end l h))
      o

abbrev pub is_subscription : Entry → Bool
is_subscription e = same_type e.entry_type subscription

invoice_kind :
    (team region : ℕ) (invoice : Option String) (e : Entry)
    → is_invoice_entry subscription team region invoice e ≡ true
    → is_subscription e ≡ true
unfolding is_invoice_entry
invoice_kind team region invoice e h = ground (arith, h)

module _ (now : Instant) (a : CycleArgs) (spend : ℕ) (periods : List SpendPeriod) (l : Ledger)
    {l' : Ledger} (keyed : IsKeyed id_of l.entries) (fresh : All (λ x. x.id < l.next_id) l.entries)
    (settled : is_settled a l ≡ true) (o : settle_cycle now a spend periods l ≡ ok l') where
  -- What the repeated cycle does to one subscription that stands in the table.
  settled_row :
      (e : Entry)
      → is_subscription e ≡ true
      → find_row id_of e.id l.entries ≡ some e
      → Keeps (expired a.team_id a.region_id a.period_end e) (spent l.entries) l'
  unfolding settle_cycle
  settled_row e kind stored =
      let h : Keeps e (spent l.entries) l = record {
        keyed = keyed;
        fresh = fresh;
        stored = stored;
        charged = refl;
      } in
      open_cycle-Keeps a e (spent l.entries)
        (materialize_topup_rollovers now a.team_id a.region_id a.source_invoice_id a.period_end l)
        (materialize-Keeps e (spent l.entries) now a.team_id a.region_id a.source_invoice_id
          a.period_end l (subscription_kind e.entry_type kind) h)
        (rw (settled_unchanged now a spend periods l settled) at o)

  -- The entry that tells that the invoice was settled.
  invoice_entry :
      (e : Entry) × (is_subscription e ≡ true) × (find_row id_of e.id l.entries ≡ some e)
  unfolding is_settled
  invoice_entry =
      let p = is_invoice_entry subscription a.team_id a.region_id a.source_invoice_id in
      let (e, found) = any-find_first p l.entries (ground (arith, settled)) in
      let passes : p e ≡ true = find_first_sound p l.entries e found in
      (
        e,
        invoice_kind a.team_id a.region_id a.source_invoice_id e passes,
        find_row-find_first id_of p e l.entries keyed found,
      )

  -- Running a cycle again for an invoice that the ledger has an entry of, where the call returns, in a table
  -- with a primary key: it charges no cent, whatever LiteLLM reports; and of the subscriptions in the table
  -- exactly the active ones of the team in the region that end by the end of the new window are closed,
  -- the entry that was booked for this invoice included, while the others stay as they were.
  pub settle_cycle_again :
      (spent l'.entries ≡ spent l.entries)
      × All
          (λ e.
            find_row id_of e.id l'.entries ≡ some (expired a.team_id a.region_id a.period_end e))
          (select is_subscription l.entries)
  settle_cycle_again =
      let (e, kind, stored) = invoice_entry in
      (
        (settled_row e kind stored).charged,
        All-mono (λ x. (is_subscription x ≡ true) × (find_row id_of x.id l.entries ≡ some x))
            (λ x.
              find_row id_of x.id l'.entries ≡ some (expired a.team_id a.region_id a.period_end x))
            (select is_subscription l.entries)
            (λ x k.
              ap (λ i. find_row id_of i l'.entries)
                (sym (expired_id a.team_id a.region_id a.period_end x))
              ∙ (settled_row x k.0 k.1).stored)
            (All-zip _ _ (select is_subscription l.entries) (select_sound is_subscription l.entries)
              (All-select (λ x. find_row id_of x.id l.entries ≡ some x) is_subscription l.entries
                (IsKeyed-IsStored id_of l.entries keyed))),
      )
