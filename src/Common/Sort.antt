-- ===== src/Common/Sort.antt =====
-- ORDER BY, as insertion by a Boolean order.
use amazee_ai.Common.Lists.{All, sum_by}
use amazee_ai.Common.Table.{IsKeyed}
use amazee_ai.Common.Tests.{if◌then◌else◌, Bool-cases}
use Prim.Native.Nat.{ℕ, ◌+◌}
use mathlib.Core.Path.{◌≡◌, refl, sym}
use mathlib.Core.Logic.{◌≢◌, inl, inr}
use mathlib.Core.Bool.{Bool, true, false}
use mathlib.Core.List.{List, [], ◌∷◌}
use native.Mathlib.Omega.{arith}

module _ {A : Type 0} (before : A → A → Bool) where
  unfoldable pub insert_by : A → List A → List A
  insert_by x [] = x ∷ []
  insert_by x (y ∷ ys) = if before x y then x ∷ y ∷ ys else y ∷ insert_by x ys

  unfoldable pub sort_by : List A → List A
  unfolding insert_by
  sort_by [] = []
  sort_by (x ∷ xs) = insert_by x (sort_by xs)

  sum_by-insert_by :
      (f : A → ℕ) (x : A) (ys : List A) → sum_by f (insert_by x ys) ≡ f x + sum_by f ys
  unfolding insert_by sum_by
  sum_by-insert_by f x [] = refl
  sum_by-insert_by f x (y ∷ ys) = ground (arith, sum_by-insert_by f x ys)

  pub sum_by-sort_by : (f : A → ℕ) (xs : List A) → sum_by f (sort_by xs) ≡ sum_by f xs
  unfolding sort_by sum_by
  sum_by-sort_by f [] = refl
  sum_by-sort_by f (x ∷ xs) = omega (arith, sum_by-insert_by f x (sort_by xs), sum_by-sort_by f xs)

  All-insert_by {κ} :
      (P : A → Type κ) (x : A) (ys : List A) → P x → All P ys → All P (insert_by x ys)
  unfolding insert_by
  All-insert_by P x [] p h = (p, tt)
  All-insert_by P x (y ∷ ys) p h = elim (Bool-cases (before x y)) [
    | inl e ↦ rw (e, if◌then◌else◌) (p, h)
    | inr e ↦ rw (e, if◌then◌else◌) (h.0, All-insert_by P x ys p h.1)
  ]

  pub All-sort_by {κ} : (P : A → Type κ) (xs : List A) → All P xs → All P (sort_by xs)
  unfolding sort_by
  All-sort_by P [] h = tt
  All-sort_by P (x ∷ xs) h = All-insert_by P x (sort_by xs) h.0 (All-sort_by P xs h.1)

  All-insert_by_inv {κ} :
      (P : A → Type κ) (x : A) (ys : List A) → All P (insert_by x ys) → P x × All P ys
  unfolding insert_by
  All-insert_by_inv P x [] h = (h.0, tt)
  All-insert_by_inv P x (y ∷ ys) h = elim (Bool-cases (before x y)) [
    | inl e ↦ let h' : All P (x ∷ y ∷ ys) = rw (e, if◌then◌else◌) at h in (h'.0, h'.1)
    | inr e ↦
        let h' : All P (y ∷ insert_by x ys) = rw (e, if◌then◌else◌) at h in
        let rest = All-insert_by_inv P x ys h'.1 in (rest.0, (h'.0, rest.1))
  ]

  pub All-sort_by_inv {κ} : (P : A → Type κ) (xs : List A) → All P (sort_by xs) → All P xs
  unfolding sort_by
  All-sort_by_inv P [] h = tt
  All-sort_by_inv P (x ∷ xs) h =
      let rest = All-insert_by_inv P x (sort_by xs) h in (rest.0, All-sort_by_inv P xs rest.1)

  module _ (key : A → ℕ) where
    IsKeyed-insert_by :
        (x : A) (ys : List A)
        → All (λ y. key y ≢ key x) ys
        → IsKeyed key ys
        → IsKeyed key (insert_by x ys)
    unfolding insert_by
    IsKeyed-insert_by x [] n h = (tt, tt)
    IsKeyed-insert_by x (y ∷ ys) n h = elim (Bool-cases (before x y)) [
      | inl e ↦ rw (e, if◌then◌else◌) ((n.0, n.1), h)
      | inr e ↦
          rw (e, if◌then◌else◌)
            (
              All-insert_by (λ z. key z ≢ key y) x ys (λ k. n.0 (sym k)) h.0,
              IsKeyed-insert_by x ys n.1 h.1,
            )
    ]

    pub IsKeyed-sort_by : (xs : List A) → IsKeyed key xs → IsKeyed key (sort_by xs)
    unfolding sort_by
    IsKeyed-sort_by [] h = tt
    IsKeyed-sort_by (x ∷ xs) h =
        IsKeyed-insert_by x (sort_by xs) (All-sort_by (λ y. key y ≢ key x) xs h.0)
          (IsKeyed-sort_by xs h.1)

  -- Each row is allowed to stand before all later ones.
  abbrev pub IsSorted : List A → Type 0
  IsSorted [] = Unit
  IsSorted (x ∷ xs) = All (λ y. before x y ≡ true) xs × IsSorted xs

  -- The order is total and transitive.
  abbrev pub IsTotal : Type 0
  IsTotal = (x y : A) → before x y ≡ false → before y x ≡ true

  abbrev pub IsTransitive : Type 0
  IsTransitive = (x y z : A) → before x y ≡ true → before y z ≡ true → before x z ≡ true

  module _ (total : IsTotal) (trans : IsTransitive) where
    All-before :
        (x y : A) (ys : List A)
        → before x y ≡ true
        → All (λ z. before y z ≡ true) ys
        → All (λ z. before x z ≡ true) ys
    All-before x y [] b h = tt
    All-before x y (z ∷ ys) b h = (trans x y z b h.0, All-before x y ys b h.1)

    insert_by-IsSorted : (x : A) (ys : List A) → IsSorted ys → IsSorted (insert_by x ys)
    unfolding insert_by
    insert_by-IsSorted x [] h = (tt, tt)
    insert_by-IsSorted x (y ∷ ys) h = elim (Bool-cases (before x y)) [
      | inl e ↦ rw (e, if◌then◌else◌) ((e, All-before x y ys e h.0), h)
      | inr e ↦
          rw (e, if◌then◌else◌)
            (
              All-insert_by (λ z. before y z ≡ true) x ys (total x y e) h.0,
              insert_by-IsSorted x ys h.1,
            )
    ]

    pub sort_by-IsSorted : (xs : List A) → IsSorted (sort_by xs)
    unfolding sort_by
    sort_by-IsSorted [] = tt
    sort_by-IsSorted (x ∷ xs) = insert_by-IsSorted x (sort_by xs) (sort_by-IsSorted xs)
