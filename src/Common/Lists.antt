-- ===== src/Common/Lists.antt =====
-- Lists of rows: the WHERE, SUM, COUNT and EXISTS of a query, and predicates on all rows.
use Prim.Native.Nat.{ℕ, suc, ◌+◌}
use mathlib.Core.Path.{◌≡◌, refl}
use mathlib.Core.Logic.{inl, inr}
use mathlib.Core.Bool.{Bool, true, false, ◌||◌}
use mathlib.Core.List.{map, List, [], ◌∷◌, ◌++◌, map}
use mathlib.Core.Option.{Option, none, some}
use native.Mathlib.Omega.{arith}
use amazee_ai.Common.Tests.{if◌then◌else◌, Bool-cases}

module _ {ℓ} {A : Type ℓ} where
  abbrev pub length : List A → ℕ
  length [] = 0
  length (x ∷ xs) = suc (length xs)

  -- WHERE
  unfoldable pub select : (A → Bool) → List A → List A
  select p [] = []
  select p (x ∷ xs) = if p x then x ∷ select p xs else select p xs

  -- The first row that matches: `.first()` without an ORDER BY takes the table's order.
  unfoldable pub find_first : (A → Bool) → List A → Option A
  find_first p [] = none
  find_first p (x ∷ xs) = if p x then some x else find_first p xs

  -- `.first()` of an ordered query
  abbrev pub first : List A → Option A
  first [] = none
  first (x ∷ xs) = some x

  unfoldable pub any : (A → Bool) → List A → Bool
  any p [] = false
  any p (x ∷ xs) = p x || any p xs

  -- SUM, 0 when there is no row.
  unfoldable pub sum_by : (A → ℕ) → List A → ℕ
  sum_by f [] = 0
  sum_by f (x ∷ xs) = f x + sum_by f xs

  abbrev pub All {κ} : (A → Type κ) → List A → Type κ
  All P [] = Unit
  All P (x ∷ xs) = P x × All P xs

  pub All-mono {κ μ} :
      (P : A → Type κ) (Q : A → Type μ) (xs : List A) → ((x : A) → P x → Q x) → All P xs → All Q xs
  All-mono P Q [] f h = tt
  All-mono P Q (x ∷ xs) f h = (f x h.0, All-mono P Q xs f h.1)

  pub All-zip {κ μ} :
      (P : A → Type κ) (Q : A → Type μ) (xs : List A)
      → All P xs
      → All Q xs
      → All (λ x. P x × Q x) xs
  All-zip P Q [] h k = tt
  All-zip P Q (x ∷ xs) h k = ((h.0, k.0), All-zip P Q xs h.1 k.1)

  pub All-select {κ} :
      (P : A → Type κ) (p : A → Bool) (xs : List A) → All P xs → All P (select p xs)
  unfolding select
  All-select P p [] h = tt
  All-select P p (x ∷ xs) h = elim (Bool-cases (p x)) [
    | inl e ↦ rw (e, if◌then◌else◌) (h.0, All-select P p xs h.1)
    | inr e ↦ rw (e, if◌then◌else◌) (All-select P p xs h.1)
  ]

  -- Every row that WHERE keeps meets the condition.
  pub select_sound : (p : A → Bool) (xs : List A) → All (λ x. p x ≡ true) (select p xs)
  unfolding select
  select_sound p [] = tt
  select_sound p (x ∷ xs) = elim (Bool-cases (p x)) [
    | inl e ↦ rw (e, if◌then◌else◌) (e, select_sound p xs)
    | inr e ↦ rw (e, if◌then◌else◌) (select_sound p xs)
  ]

  pub sum_by-append : (f : A → ℕ) (xs ys : List A) → sum_by f (xs ++ ys) ≡ sum_by f xs + sum_by f ys
  unfolding sum_by
  sum_by-append f [] ys = omega arith
  sum_by-append f (x ∷ xs) ys = omega (arith, sum_by-append f xs ys)

  -- A row that WHERE drops may as well count 0.
  pub sum_by-select :
      (f : A → ℕ) (p : A → Bool) (xs : List A)
      → sum_by f (select p xs) ≡ sum_by (λ x. if p x then f x else 0) xs
  unfolding sum_by select
  sum_by-select f p [] = refl
  sum_by-select f p (x ∷ xs) = ground (arith, sum_by-select f p xs)

  pub sum_by_cong :
      (f g : A → ℕ) (xs : List A) → All (λ x. f x ≡ g x) xs → sum_by f xs ≡ sum_by g xs
  unfolding sum_by
  sum_by_cong f g [] h = refl
  sum_by_cong f g (x ∷ xs) h = omega (arith, h.0, sum_by_cong f g xs h.1)

  pub find_first_sound :
      (p : A → Bool) (xs : List A) (x : A) → find_first p xs ≡ some x → p x ≡ true
  unfolding find_first
  find_first_sound p [] x e = cc
  find_first_sound p (y ∷ xs) x e = ground (arith, find_first_sound p xs x)

  pub find_first-none :
      (p : A → Bool) (xs : List A) → find_first p xs ≡ none → All (λ x. p x ≡ false) xs
  unfolding find_first
  find_first-none p [] e = tt
  find_first-none p (y ∷ xs) e = elim (Bool-cases (p y)) [
    | inl t ↦ absurd (ground arith)
    | inr f ↦ (f, find_first-none p xs (ground arith))
  ]

  pub any-false : (p : A → Bool) (xs : List A) → All (λ x. p x ≡ false) xs → any p xs ≡ false
  unfolding any
  any-false p [] h = refl
  any-false p (x ∷ xs) h = ground (arith, h.0, any-false p xs h.1)

  pub any-false_inv : (p : A → Bool) (xs : List A) → any p xs ≡ false → All (λ x. p x ≡ false) xs
  unfolding any
  any-false_inv p [] h = tt
  any-false_inv p (x ∷ xs) h = (ground arith, any-false_inv p xs (ground arith))

  pub All-take_front {κ} : (P : A → Type κ) (xs ys : List A) → All P (xs ++ ys) → All P xs
  All-take_front P [] ys h = tt
  All-take_front P (x ∷ xs) ys h = (h.0, All-take_front P xs ys h.1)

  pub All-of {κ} : {P : A → Type κ} → ((x : A) → P x) → (xs : List A) → All P xs
  All-of f [] = tt
  All-of f (x ∷ xs) = (f x, All-of f xs)

  pub find_first-append_new :
      (p : A → Bool) (xs : List A) (y : A)
      → find_first p xs ≡ none
      → p y ≡ true
      → find_first p (xs ++ y ∷ []) ≡ some y
  unfolding find_first
  find_first-append_new p [] y h t = rw t
  find_first-append_new p (x ∷ xs) y h t = ground (arith, find_first-append_new p xs y)

  pub any-append_new :
      (p : A → Bool) (xs : List A) (y : A) → p y ≡ true → any p (xs ++ y ∷ []) ≡ true
  unfolding any
  any-append_new p [] y t = rw t
  any-append_new p (x ∷ xs) y t = ground (arith, any-append_new p xs y t)

  pub All-select_inv {κ} :
      (P : A → Type κ) (p : A → Bool) (xs : List A)
      → All P (select p xs)
      → All (λ x. p x ≡ true → P x) xs
  unfolding select
  All-select_inv P p [] h = tt
  All-select_inv P p (x ∷ xs) h = elim (Bool-cases (p x)) [
    | inl e ↦
        let h' : All P (x ∷ select p xs) = rw (e, if◌then◌else◌) at h in
        (λ _. h'.0, All-select_inv P p xs h'.1)
    | inr e ↦
        let h' : All P (select p xs) = rw (e, if◌then◌else◌) at h in
        (λ t. absurd (ground arith), All-select_inv P p xs h')
  ]

  pub sum_by-add :
      (f g : A → ℕ) (xs : List A) → sum_by f xs + sum_by g xs ≡ sum_by (λ x. f x + g x) xs
  unfolding sum_by
  sum_by-add f g [] = omega arith
  sum_by-add f g (x ∷ xs) = omega (arith, sum_by-add f g xs)

  pub All-append_new {κ} :
      (P : A → Type κ) (xs : List A) (y : A) → All P xs → P y → All P (xs ++ y ∷ [])
  All-append_new P [] y h p = (p, tt)
  All-append_new P (x ∷ xs) y h p = (h.0, All-append_new P xs y h.1 p)

  pub All-map_self {κ} :
      (P : A → Type κ) (f : A → A) (xs : List A)
      → ((x : A) → P x → P (f x))
      → All P xs
      → All P (map f xs)
  All-map_self P f [] g h = tt
  All-map_self P f (x ∷ xs) g h = (g x h.0, All-map_self P f xs g h.1)

  pub any_mono :
      (p q : A → Bool) (xs : List A)
      → ((x : A) → p x ≡ true → q x ≡ true)
      → any p xs ≡ true
      → any q xs ≡ true
  unfolding any
  any_mono p q [] f h = h
  any_mono p q (x ∷ xs) f h = ground (arith, f x, any_mono p q xs f)
