-- ===== src/Common/Table.antt =====
-- A table: rows with a numeric primary key. `find_row` is the identity map of a session, and
-- `set_row` writes a changed row back.
use amazee_ai.Common.{subst, any, find_first, true}
use amazee_ai.Common.Lists.{All, All-mono, All-zip, All-select, select, sum_by}
use amazee_ai.Common.Tests.{◌==◌, if◌then◌else◌, Bool-cases}
use Prim.Native.Nat.{◌<◌, ℕ, ◌+◌}
use mathlib.Core.Path.{◌≡◌}
use mathlib.Core.Logic.{◌≢◌, inl, inr}
use mathlib.Core.Bool.{Bool}
use mathlib.Core.List.{◌++◌, map, List, [], ◌∷◌}
use mathlib.Core.Option.{Option, none, some}
use native.Mathlib.Omega.{arith}

module _ {A : Type 0} (key : A → ℕ) where
  unfoldable pub find_row : ℕ → List A → Option A
  find_row k [] = none
  find_row k (r ∷ rows) = if key r == k then some r else find_row k rows

  unfoldable pub set_row : A → List A → List A
  set_row v [] = []
  set_row v (r ∷ rows) = if key r == key v then v ∷ rows else r ∷ set_row v rows

  -- No two rows share a key.
  abbrev pub IsKeyed : List A → Type 0
  IsKeyed [] = Unit
  IsKeyed (r ∷ rows) = All (λ x. key x ≢ key r) rows × IsKeyed rows

  -- What a query returned is what the table holds.
  abbrev pub IsStored : List A → List A → Type 0
  IsStored rows = All (λ x. find_row (key x) rows ≡ some x)

  pub find_row-set_row :
      (k : ℕ) (v old : A) (rows : List A)
      → find_row (key v) rows ≡ some old
      → find_row k (set_row v rows) ≡ (if key v == k then some v else find_row k rows)
  unfolding find_row set_row
  find_row-set_row k v old [] h = absurd (ground arith)
  find_row-set_row k v old (r ∷ rows) h = ground (arith, find_row-set_row k v old rows)

  -- A write moves a sum by the difference of the two rows.
  pub sum_by-set_row :
      (f : A → ℕ) (v old : A) (rows : List A)
      → find_row (key v) rows ≡ some old
      → sum_by f (set_row v rows) + f old ≡ sum_by f rows + f v
  unfolding find_row set_row sum_by
  sum_by-set_row f v old [] h = absurd (ground arith)
  sum_by-set_row f v old (r ∷ rows) h = ground (arith, sum_by-set_row f v old rows)

  pub All-set_row {κ} :
      (P : A → Type κ) (v : A) (rows : List A) → All P rows → P v → All P (set_row v rows)
  unfolding set_row
  All-set_row P v [] h p = tt
  All-set_row P v (r ∷ rows) h p = elim (Bool-cases (key r == key v)) [
    | inl e ↦ rw (e, if◌then◌else◌) (p, h.1)
    | inr e ↦ rw (e, if◌then◌else◌) (h.0, All-set_row P v rows h.1 p)
  ]

  keys-set_row :
      (k : ℕ) (v : A) (rows : List A)
      → All (λ x. key x ≢ k) rows
      → All (λ x. key x ≢ k) (set_row v rows)
  unfolding set_row
  keys-set_row k v [] h = tt
  keys-set_row k v (r ∷ rows) h = elim (Bool-cases (key r == key v)) [
    | inl e ↦ rw (e, if◌then◌else◌) (ground arith, h.1)
    | inr e ↦ rw (e, if◌then◌else◌) (h.0, keys-set_row k v rows h.1)
  ]

  pub set_row-IsKeyed : (v : A) (rows : List A) → IsKeyed rows → IsKeyed (set_row v rows)
  unfolding set_row
  set_row-IsKeyed v [] h = tt
  set_row-IsKeyed v (r ∷ rows) h = elim (Bool-cases (key r == key v)) [
    | inl e ↦
        let same : key r ≡ key v = ground arith in
        rw (e, if◌then◌else◌)
          (All-mono (λ x. key x ≢ key r) (λ x. key x ≢ key v) rows (λ x n. omega arith) h.0, h.1)
    | inr e ↦ rw (e, if◌then◌else◌) (keys-set_row (key r) v rows h.0, set_row-IsKeyed v rows h.1)
  ]

  pub IsKeyed-select : (p : A → Bool) (rows : List A) → IsKeyed rows → IsKeyed (select p rows)
  unfolding select
  IsKeyed-select p [] h = tt
  IsKeyed-select p (r ∷ rows) h = elim (Bool-cases (p r)) [
    | inl e ↦
        rw (e, if◌then◌else◌)
          (All-select (λ x. key x ≢ key r) p rows h.0, IsKeyed-select p rows h.1)
    | inr e ↦ rw (e, if◌then◌else◌) (IsKeyed-select p rows h.1)
  ]

  IsStored-cons :
      (r : A) (rows xs : List A)
      → All (λ x. key x ≢ key r) xs
      → IsStored rows xs
      → IsStored (r ∷ rows) xs
  unfolding find_row
  IsStored-cons r rows xs n h =
      All-mono (λ x. (key x ≢ key r) × (find_row (key x) rows ≡ some x))
        (λ x. find_row (key x) (r ∷ rows) ≡ some x) xs (λ x e. ground (arith, e.0, e.1))
        (All-zip (λ x. key x ≢ key r) (λ x. find_row (key x) rows ≡ some x) xs n h)

  -- In a table with a primary key every row is found under its key.
  pub IsKeyed-IsStored : (rows : List A) → IsKeyed rows → IsStored rows rows
  unfolding find_row
  IsKeyed-IsStored [] h = tt
  IsKeyed-IsStored (r ∷ rows) h =
      (ground arith, IsStored-cons r rows rows h.0 (IsKeyed-IsStored rows h.1))

  -- A write to one row leaves the others as they were read.
  pub IsStored-set_row :
      (v old : A) (rows xs : List A)
      → find_row (key v) rows ≡ some old
      → All (λ x. key x ≢ key v) xs
      → IsStored rows xs
      → IsStored (set_row v rows) xs
  IsStored-set_row v old rows xs e n h =
      All-mono (λ x. (key x ≢ key v) × (find_row (key x) rows ≡ some x))
        (λ x. find_row (key x) (set_row v rows) ≡ some x) xs
        (λ x k. ground (arith, k.0, k.1, find_row-set_row (key x) v old rows e))
        (All-zip (λ x. key x ≢ key v) (λ x. find_row (key x) rows ≡ some x) xs n h)

  -- What holds of all rows holds of the row that is found.
  pub find_row-All {κ} :
      (P : A → Type κ) (k : ℕ) (x : A) (rows : List A) → All P rows → find_row k rows ≡ some x → P x
  unfolding find_row
  find_row-All P k x [] h e = absurd (ground arith)
  find_row-All P k x (r ∷ rows) h e = elim (Bool-cases (key r == k)) [
    | inl t ↦ let same : r ≡ x = ground arith in subst P same h.0
    | inr t ↦ find_row-All P k x rows h.1 (ground arith)
  ]

  -- A write that keeps a test's answer keeps the answer for the table.
  pub any-set_row :
      (p : A → Bool) (v old : A) (rows : List A)
      → find_row (key v) rows ≡ some old
      → p v ≡ p old
      → any p (set_row v rows) ≡ any p rows
  unfolding find_row set_row any
  any-set_row p v old [] h e = absurd (ground arith)
  any-set_row p v old (r ∷ rows) h e = ground (arith, any-set_row p v old rows)

  pub find_row-append :
      (k : ℕ) (x y : A) (rows : List A)
      → find_row k rows ≡ some x
      → find_row k (rows ++ y ∷ []) ≡ some x
  unfolding find_row
  find_row-append k x y [] h = absurd (ground arith)
  find_row-append k x y (r ∷ rows) h = ground (arith, find_row-append k x y rows)

  keys-append :
      (k : ℕ) (y : A) (rows : List A)
      → key y ≢ k
      → All (λ x. key x ≢ k) rows
      → All (λ x. key x ≢ k) (rows ++ y ∷ [])
  keys-append k y [] n h = (n, tt)
  keys-append k y (r ∷ rows) n h = (h.0, keys-append k y rows n h.1)

  -- A row with a new key may be added.
  pub IsKeyed-append :
      (y : A) (rows : List A)
      → All (λ x. key x < key y) rows
      → IsKeyed rows
      → IsKeyed (rows ++ y ∷ [])
  IsKeyed-append y [] n h = (tt, tt)
  IsKeyed-append y (r ∷ rows) n h =
      (keys-append (key r) y rows (omega (arith, n.0)) h.0, IsKeyed-append y rows n.1 h.1)

  -- A row that a query found first is the row of its key.
  pub find_row-find_first :
      (p : A → Bool) (x : A) (rows : List A)
      → IsKeyed rows
      → find_first p rows ≡ some x
      → find_row (key x) rows ≡ some x
  unfolding find_row find_first
  find_row-find_first p x [] k h = absurd (ground arith)
  find_row-find_first p x (r ∷ rows) k h = elim (Bool-cases (p r)) [
    | inl e ↦ ground arith
    | inr e ↦
        let found : find_row (key x) rows ≡ some x =
          find_row-find_first p x rows k.1 (ground arith) in
        let other : key x ≢ key r = find_row-All (λ y. key y ≢ key r) (key x) x rows k.0 found in
        ground (arith, found, other)
  ]

  module _ (f : A → A) (same : (x : A) → key (f x) ≡ key x) where
    pub find_row-map :
        (k : ℕ) (x : A) (rows : List A)
        → find_row k rows ≡ some x
        → find_row k (map f rows) ≡ some (f x)
    unfolding find_row
    find_row-map k x [] h = absurd (ground arith)
    find_row-map k x (r ∷ rows) h = ground (arith, same r, find_row-map k x rows)

    keys-map :
        (k : ℕ) (rows : List A) → All (λ x. key x ≢ k) rows → All (λ x. key x ≢ k) (map f rows)
    keys-map k [] h = tt
    keys-map k (r ∷ rows) h = (rw (same r) h.0, keys-map k rows h.1)

    pub IsKeyed-map : (rows : List A) → IsKeyed rows → IsKeyed (map f rows)
    IsKeyed-map [] h = tt
    IsKeyed-map (r ∷ rows) h = (rw (same r) (keys-map (key r) rows h.0), IsKeyed-map rows h.1)

  -- After a write to the row that a query finds first, the query finds the new row.
  pub find_first-set_row :
      (p : A → Bool) (v old : A) (rows : List A)
      → IsKeyed rows
      → find_first p rows ≡ some old
      → key v ≡ key old
      → p v ≡ true
      → find_first p (set_row v rows) ≡ some v
  unfolding find_first set_row
  find_first-set_row p v old [] k h e t = absurd (ground arith)
  find_first-set_row p v old (r ∷ rows) k h e t = elim (Bool-cases (p r)) [
    | inl here ↦ ground (arith, here)
    | inr later ↦
        let rest : find_first p rows ≡ some old = ground arith in
        let found : find_row (key old) rows ≡ some old = find_row-find_first p old rows k.1 rest in
        let other : key old ≢ key r =
          find_row-All (λ y. key y ≢ key r) (key old) old rows k.0 found in
        ground (arith, later, other, find_first-set_row p v old rows k.1 rest e t)
  ]
