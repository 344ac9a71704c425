-- ===== src/Ledger.antt =====
-- The budget ledger of a team in a region, app/core/periodic_budget_ledger_service.py: the rows of
-- `periodic_budget_ledger_entries` (app/db/models.py) and the functions that read and change them.
-- A function takes the table and the current instant `now`, and returns the table after it.
pub mod Adding
pub mod Samples
mod Tests
pub mod Constraints
pub mod TopupExpiry
pub mod Allocation
pub mod Rollover
pub mod Expiry
use amazee_ai.Common.Table.{set_row}
use amazee_ai.Common.Sort.{sort_by}
use amazee_ai.Common.{
  ℕ, suc, ◌+◌, ◌-◌, min, Bool, true, false, ◌&&◌, ◌||◌, Option, none, some, List, [], ◌∷◌, ◌++◌,
  select, find_first, any, sum_by, ltb, leb, ◌==◌, if◌then◌else◌, is_some, ℤ, pos_part, positive,
  Instant, plus_days, sql_eq, truthy, unexpired, first,
}
use Prim.Native.String.{String}

-- The column `entry_type`; `other` is any text but the three that the service writes.
pub data EntryType : Type 0 where
  subscription topup topup_rollover other : EntryType

pub record Entry : Type 0 where
  pub id : ℕ
  pub team_id : ℕ
  pub region_id : ℕ
  pub entry_type : EntryType
  pub source_payment_id : Option ℕ
  pub source_invoice_id : Option String
  pub stripe_payment_id : Option String
  pub amount_cents : ℕ
  pub consumed_cents : ℕ
  pub purchased_at : Instant
  pub effective_period_start : Option Instant
  pub effective_period_end : Option Instant
  pub expires_at : Option Instant
  pub rolled_over_from_id : Option ℕ
  pub is_active : Bool

-- The table, and the key that the next row gets.
pub record Ledger : Type 0 where
  pub entries : List Entry
  pub next_id : ℕ

pub data Result (A : Type 0) : Type 0 where
  ok : A → Result A
  integrity_error : Result A

pub record AllocationResult : Type 0 where
  pub allocated_cents : ℕ
  pub unallocated_cents : ℕ

abbrev pub same_type : EntryType → EntryType → Bool
same_type subscription subscription = true
same_type topup topup = true
same_type topup_rollover topup_rollover = true
same_type other other = true
same_type _ _ = false

abbrev pub in_scope : ℕ → ℕ → Entry → Bool
in_scope team region e = e.team_id == team && e.region_id == region

abbrev pub is_topup_like : Entry → Bool
is_topup_like e = same_type e.entry_type topup || same_type e.entry_type topup_rollover

-- max(0, amount_cents - consumed_cents)
abbrev pub free : Entry → ℕ
free e = e.amount_cents - e.consumed_cents

-- The `case` of the ORDER BY.
abbrev pub rank : EntryType → ℕ
rank subscription = 0
rank topup = 1
rank topup_rollover = 2
rank other = 3

pub before : Entry → Entry → Bool
before a b =
    if rank a.entry_type == rank b.entry_type
    then (if a.purchased_at == b.purchased_at
        then leb a.id b.id
        else ltb a.purchased_at b.purchased_at)
    else ltb (rank a.entry_type) (rank b.entry_type)

unfoldable pub is_active_entry : Instant → ℕ → ℕ → Entry → Bool
is_active_entry now team region e =
    in_scope team region e
    && e.is_active
    && (same_type e.entry_type subscription || unexpired now e.expires_at)
    && ltb e.consumed_cents e.amount_cents

unfoldable pub active_entries : Instant → ℕ → ℕ → Ledger → List Entry
unfolding before is_active_entry
active_entries now team region l =
    sort_by before (select (is_active_entry now team region) l.entries)

-- The unique constraints of the table: NULL conflicts with nothing.
pub conflicts : Entry → Entry → Bool
conflicts e r =
    in_scope e.team_id e.region_id r
    && same_type e.entry_type r.entry_type
    && (sql_eq e.stripe_payment_id r.stripe_payment_id
        || sql_eq e.source_invoice_id r.source_invoice_id)

-- `db.add(entry); db.flush()`: the row gets its key, or a constraint refuses it.
unfoldable pub add_entry : Entry → Ledger → Result (Entry × Ledger)
unfolding conflicts
add_entry e l =
    let stored : Entry = record e { id = l.next_id } in
    if any (conflicts e) l.entries
    then integrity_error
    else ok (stored, record l { entries = l.entries ++ stored ∷ []; next_id = suc l.next_id })

-- The row that the invoice already paid for.
unfoldable pub is_invoice_entry : EntryType → ℕ → ℕ → Option String → Entry → Bool
is_invoice_entry kind team region invoice e =
    in_scope team region e && same_type e.entry_type kind && sql_eq e.source_invoice_id invoice

abbrev pub subscription_entry :
    ℕ → ℕ → ℕ → Instant → Instant → Instant → Option ℕ → Option String → Entry
subscription_entry team region cents purchased start end payment invoice = record {
  id = 0;
  team_id = team;
  region_id = region;
  entry_type = subscription;
  source_payment_id = payment;
  source_invoice_id = invoice;
  stripe_payment_id = none;
  amount_cents = cents;
  consumed_cents = 0;
  purchased_at = purchased;
  effective_period_start = some start;
  effective_period_end = some end;
  expires_at = some end;
  rolled_over_from_id = none;
  is_active = true;
}

-- What a function that adds a row returns: the row, if any, and the table.
unfoldable pub returned : Result (Entry × Ledger) → Result (Option Entry × Ledger)
returned (ok (e, l)) = ok (some e, l)
returned integrity_error = integrity_error

unfoldable pub add_subscription_entry :
    ℕ
    → ℕ
    → ℤ
    → Instant
    → Instant
    → Instant
    → Option ℕ
    → Option String
    → Ledger
    → Result (Option Entry × Ledger)
unfolding is_invoice_entry add_entry returned
add_subscription_entry team region amount purchased start end payment invoice l =
    elim (positive amount) [
      | none ↦ ok (none, l)
      | some cents ↦
          let existing : Option Entry =
            if truthy invoice
            then find_first (is_invoice_entry subscription team region invoice) l.entries
            else none in
          let e : Entry =
            subscription_entry team region cents purchased start end payment invoice in
          elim existing [ some found ↦ ok (some found, l) | none ↦ returned (add_entry e l) ]
    ]

abbrev pub is_topup_of : ℕ → ℕ → Entry → Bool
is_topup_of team region e = in_scope team region e && same_type e.entry_type topup

pub is_payment_entry : ℕ → ℕ → String → Entry → Bool
is_payment_entry team region payment e =
    is_topup_of team region e && sql_eq e.stripe_payment_id (some payment)

-- purchased_at descending, then id descending
unfoldable pub newer : Entry → Entry → Bool
newer a b =
    if a.purchased_at == b.purchased_at then leb b.id a.id else ltb b.purchased_at a.purchased_at

pub last_topup : ℕ → ℕ → Ledger → Option Entry
unfolding newer
last_topup team region l = first (sort_by newer (select (is_topup_of team region) l.entries))

pub expiry_anchor : Instant → Option Entry → Instant
expiry_anchor purchased none = purchased
expiry_anchor purchased (some last) =
    if ltb purchased last.purchased_at then last.purchased_at else purchased

abbrev pub topup_entry : ℕ → ℕ → ℕ → Instant → Option ℕ → String → Instant → Entry
topup_entry team region cents purchased source_payment payment expires = record {
  id = 0;
  team_id = team;
  region_id = region;
  entry_type = topup;
  source_payment_id = source_payment;
  source_invoice_id = none;
  stripe_payment_id = some payment;
  amount_cents = cents;
  consumed_cents = 0;
  purchased_at = purchased;
  effective_period_start = none;
  effective_period_end = none;
  expires_at = some expires;
  rolled_over_from_id = none;
  is_active = true;
}

-- `expiry_days` is settings.PERIODIC_TOPUP_EXPIRY_DAYS.
unfoldable pub add_topup_entry :
    ℕ → ℕ → ℕ → ℤ → Instant → Option ℕ → String → Ledger → Result (Option Entry × Ledger)
unfolding is_payment_entry last_topup expiry_anchor add_entry returned
add_topup_entry expiry_days team region amount purchased source_payment payment l =
    elim (positive amount) [
      | none ↦ ok (none, l)
      | some cents ↦
          let anchor : Instant = expiry_anchor purchased (last_topup team region l) in
          let e : Entry =
            topup_entry team region cents purchased source_payment payment
              (plus_days anchor expiry_days) in
          elim (find_first (is_payment_entry team region payment) l.entries) [
            | some found ↦ ok (none, l)
            | none ↦ returned (add_entry e l)
          ]
    ]
