-- ===== src/Cycle/Keeping.antt =====
-- What a billing cycle leaves alone in the ledger: a subscription's row but for its flag, and the cents
-- that were charged before.
use amazee_ai.Ledger.Rollover.Balance.{roll_over-IsStored}
use Prim.Native.String.{String}
use amazee_ai.Common.Lists.{All-append_new, sum_by-append, All-select, select_sound}
use amazee_ai.Ledger.Rollover.{
  deactivate, counted, is_valid_topup, materialize_topup_rollovers, roll_over, rolled,
  rollover_loop, Rollover, rollover_entry,
}
use amazee_ai.Common.Table.{
  IsKeyed, find_row, IsKeyed-append, set_row, All-set_row, find_row-set_row, sum_by-set_row,
  find_row-All, find_row-append, set_row-IsKeyed, IsKeyed-select, IsStored, IsKeyed-IsStored,
}
use amazee_ai.Ledger.{
  Entry, Ledger, add_entry, ok, is_topup_like, free, Result, conflicts, integrity_error,
  is_invoice_entry, topup_rollover,
}
use amazee_ai.Common.{
  [], none, some, true, false, refl, arith, inl, inr, ◌<◌, ◌≡◌, ◌≢◌, ◌∷◌, ◌++◌, ◌∙◌, ◌&&◌, ℕ, List,
  Option, Instant, All, All-mono, Bool-cases, sum_by, select, suc, leb, subst, any, truthy, ltb,
}
use amazee_ai.Ledger.Allocation.Conservation.{id_of}

abbrev pub spent : List Entry → ℕ
spent = sum_by (λ x. x.consumed_cents)

-- The table has a primary key, the next key is new, the row stands in it, and the charged cents are
-- those given.
pub record Keeps (e : Entry) (cents : ℕ) (l : Ledger) : Type 0 where
  pub keyed : IsKeyed id_of l.entries
  pub fresh : All (λ x. x.id < l.next_id) l.entries
  pub stored : find_row id_of e.id l.entries ≡ some e
  pub charged : spent l.entries ≡ cents

-- Closing a stored row keeps the keys and the charged cents.
module _ (l : Ledger) (rows : List Entry) (x : Entry) (at : find_row id_of x.id rows ≡ some x) where
  pub spent-deactivate : spent (set_row id_of (deactivate x) rows) ≡ spent rows
  unfolding deactivate
  spent-deactivate =
      omega (arith, sum_by-set_row id_of (λ y. y.consumed_cents) (deactivate x) x rows at)

  pub deactivate_fresh :
      All (λ y. y.id < l.next_id) rows
      → All (λ y. y.id < l.next_id) (set_row id_of (deactivate x) rows)
  unfolding deactivate
  deactivate_fresh h =
      All-set_row id_of (λ y. y.id < l.next_id) (deactivate x) rows h
        (find_row-All id_of (λ y. y.id < l.next_id) x.id x rows h at)

  deactivate_other :
      (e : Entry)
      → find_row id_of e.id rows ≡ some e
      → x.id ≢ e.id
      → find_row id_of e.id (set_row id_of (deactivate x) rows) ≡ some e
  unfolding deactivate
  deactivate_other e h n =
      ground (arith, h, n, find_row-set_row id_of e.id (deactivate x) x rows at)

module _ (e : Entry) (cents : ℕ) where
  -- The table that a call returns keeps them, where it returns one.
  abbrev pub KeepsOk : {A : Type 0} → Result (A × Ledger) → Type 0
  KeepsOk (ok p) = Keeps e cents p.1
  KeepsOk integrity_error = Unit

  add_row-Keeps :
      (y : Entry) (l : Ledger)
      → y.consumed_cents ≡ 0
      → Keeps e cents l
      → Keeps e cents (record {
        entries = l.entries ++ record y { id = l.next_id } ∷ [];
        next_id = suc l.next_id;
      })
  unfolding sum_by
  add_row-Keeps y l z h =
      let new : Entry = record y { id = l.next_id } in
      record {
        keyed = IsKeyed-append id_of new l.entries h.fresh h.keyed;
        fresh =
            All-append_new (λ z. z.id < suc l.next_id) l.entries new
              (All-mono (λ z. z.id < l.next_id) (λ z. z.id < suc l.next_id) l.entries
                (λ z n. omega arith) h.fresh)
              (omega arith);
        stored = find_row-append id_of e.id e new l.entries h.stored;
        charged =
            sum_by-append (λ z. z.consumed_cents) l.entries (new ∷ [])
            ∙ omega (arith, h.charged, z);
      }

  -- A new row with nothing consumed.
  pub add_entry-Keeps :
      (y : Entry) (l : Ledger) → y.consumed_cents ≡ 0 → Keeps e cents l → KeepsOk (add_entry y l)
  unfolding add_entry
  add_entry-Keeps y l z h = elim (Bool-cases (any (conflicts y) l.entries)) [
    | inl clash ↦ rw clash tt
    | inr free ↦ rw free (add_row-Keeps y l z h)
  ]

  -- Closing another stored row.
  deactivate-Keeps :
      (l : Ledger) (rows : List Entry) (x : Entry)
      → find_row id_of x.id rows ≡ some x
      → x.id ≢ e.id
      → Keeps e cents (record l { entries = rows })
      → Keeps e cents (record l { entries = set_row id_of (deactivate x) rows })
  deactivate-Keeps l rows x at n h = record {
    keyed = set_row-IsKeyed id_of (deactivate x) rows h.keyed;
    fresh = deactivate_fresh l rows x at h.fresh;
    stored = deactivate_other l rows x at e h.stored n;
    charged = spent-deactivate l rows x at ∙ h.charged;
  }

  module _ (l : Ledger) where
    abbrev KeepsIn : List Entry → Type 0
    KeepsIn rows = Keeps e cents (record l { entries = rows })

    -- A stored row of another kind has another key.
    other_row :
        (now : Instant) (team region : ℕ) (x : Entry) (rows : List Entry)
        → is_topup_like e ≡ false
        → is_valid_topup now team region x ≡ true
        → find_row id_of x.id rows ≡ some x
        → find_row id_of e.id rows ≡ some e
        → x.id ≢ e.id
    unfolding is_valid_topup
    other_row now team region x rows kind v at stored same =
        let at_e : find_row id_of e.id rows ≡ some x =
          subst (λ k. find_row id_of k rows ≡ some x) same at in
        let one : x ≡ e = cc in
        let valid : is_topup_like e ≡ true =
          subst (λ y. is_topup_like y ≡ true) one (ground (arith, v)) in
        absurd cc

    roll_over-Keeps :
        (x : Entry) (s : Rollover)
        → find_row id_of x.id s.rows ≡ some x
        → x.id ≢ e.id
        → KeepsIn s.rows
        → KeepsIn (roll_over x s).rows
    unfolding roll_over
    roll_over-Keeps x s at n h = elim (Bool-cases (leb (free x) 0)) [
      | inl c ↦ rw c (deactivate-Keeps l s.rows x at n h)
      | inr c ↦ rw c (deactivate-Keeps l s.rows x at n h)
    ]

    rollover_loop-Keeps :
        (now : Instant) (team region : ℕ) (es : List Entry) (s : Rollover)
        → is_topup_like e ≡ false
        → IsKeyed id_of es
        → IsStored id_of s.rows es
        → All (λ x. is_valid_topup now team region x ≡ true) es
        → KeepsIn s.rows
        → KeepsIn (rollover_loop es s).rows
    unfolding rollover_loop
    rollover_loop-Keeps now team region [] s kind k at v h = h
    rollover_loop-Keeps now team region (x ∷ es) s kind k at v h =
        rollover_loop-Keeps now team region es (roll_over x s) kind k.1
          (roll_over-IsStored x es s k at) v.1
          (roll_over-Keeps x s at.0 (other_row now team region x s.rows kind v.0 at.0 h.stored) h)

    rolled-Keeps :
        (now : Instant) (team region : ℕ)
        → is_topup_like e ≡ false
        → Keeps e cents l
        → KeepsIn (rolled now team region l).rows
    unfolding rolled
    rolled-Keeps now team region kind h =
        rollover_loop-Keeps now team region (select (is_valid_topup now team region) l.entries)
          (record { rows = l.entries; total = 0; expiry = none; has_non_expiring = false }) kind
          (IsKeyed-select id_of (is_valid_topup now team region) l.entries h.keyed)
          (All-select (λ x. find_row id_of x.id l.entries ≡ some x) (is_valid_topup now team region)
            l.entries (IsKeyed-IsStored id_of l.entries h.keyed))
          (select_sound (is_valid_topup now team region) l.entries) h

  counted-KeepsOk :
      (total : ℕ) (r : Result (Entry × Ledger)) → KeepsOk r → KeepsOk (counted total r)
  unfolding counted
  counted-KeepsOk total (ok (x, l)) h = h
  counted-KeepsOk total integrity_error h = tt

  pub materialize-Keeps :
      (now : Instant) (team region : ℕ) (invoice : Option String) (at : Instant) (l : Ledger)
      → is_topup_like e ≡ false
      → Keeps e cents l
      → KeepsOk (materialize_topup_rollovers now team region invoice at l)
  unfolding materialize_topup_rollovers
  materialize-Keeps now team region invoice at l kind h =
      let s = rolled now team region l in
      let closed : Ledger = record l { entries = s.rows } in
      let kept : Keeps e cents closed = rolled-Keeps l now team region kind h in
      elim (Bool-cases
        (truthy invoice && any (is_invoice_entry topup_rollover team region invoice) l.entries)) [
          | inl again ↦ rw again h
          | inr new ↦ rw new (elim (Bool-cases (ltb 0 s.total)) [
            | inl some_left ↦ rw some_left (
                counted-KeepsOk s.total _ (
                  add_entry-Keeps (rollover_entry team region invoice s.total at s.expiry) closed
                    refl kept))
            | inr none_left ↦ rw none_left kept
          ])
        ]
