-- ===== src/Base/Sort.antt =====
-- `sort.Slice`, as an insertion sort over the comparison that the program passes. The result of Go's
-- sort differs from it at most in the order of elements that compare equal.
use Prim.Native.Nat.{ℕ, suc, ◌+◌}
use mathlib.Core.Path.{◌≡◌, refl}
use mathlib.Core.Bool.{Bool, true, false}
use mathlib.Core.Logic.{inl, inr}
use mathlib.Core.List.{List, [], ◌∷◌, Perm}
use mathlib.Core.List.Perm
use native.Mathlib.Omega.{arith}
use tarion.Base.Tests.{if◌then◌else◌, Bool-cases}
use tarion.Base.Lists.{length, sum_by, count_by, All, keep}

module _ {ℓ} {A : Type ℓ} (less : A → A → Bool) where
  unfoldable pub insert : A → List A → List A
  insert a [] = a ∷ []
  insert a (x ∷ xs) = let rest = insert a xs in if less x a then x ∷ rest else a ∷ x ∷ xs

  unfoldable pub sort : List A → List A
  unfolding insert
  sort [] = []
  sort (x ∷ xs) = insert x (sort xs)

  insert-perm : (a : A) (xs : List A) → Perm (insert a xs) (a ∷ xs)
  unfolding insert
  insert-perm a [] = Perm.refl _
  insert-perm a (x ∷ xs) =
      elim (less x a) as (λ b. Perm (if b then x ∷ insert a xs else a ∷ x ∷ xs) (a ∷ x ∷ xs)) [
        | true ↦ Perm.trans (Perm.cons x (insert-perm a xs)) (Perm.swap _ _ _)
        | false ↦ Perm.refl _
      ]

  -- Sorting keeps every element, as often as it was there.
  pub sort-perm : (xs : List A) → Perm (sort xs) xs
  unfolding sort
  sort-perm [] = Perm.refl _
  sort-perm (x ∷ xs) = Perm.trans (insert-perm x (sort xs)) (Perm.cons x (sort-perm xs))

  abbrev pub IsSorted : List A → Type 0
  IsSorted [] = Unit {0}
  IsSorted (x ∷ xs) = All (λ y. less y x ≡ false) xs × IsSorted xs

  sum_by-insert : (f : A → ℕ) (a : A) (xs : List A) → sum_by f (insert a xs) ≡ f a + sum_by f xs
  unfolding insert
  sum_by-insert f a [] = refl
  sum_by-insert f a (x ∷ xs) = ground (arith, sum_by-insert f a xs)

  pub sum_by-sort : (f : A → ℕ) (xs : List A) → sum_by f (sort xs) ≡ sum_by f xs
  unfolding sort
  sum_by-sort f [] = refl
  sum_by-sort f (x ∷ xs) = omega (arith, sum_by-insert f x (sort xs), sum_by-sort f xs)

  length-insert : (a : A) (xs : List A) → length (insert a xs) ≡ suc (length xs)
  unfolding insert
  length-insert a [] = refl
  length-insert a (x ∷ xs) = ground (arith, length-insert a xs)

  pub length-sort : (xs : List A) → length (sort xs) ≡ length xs
  unfolding sort
  length-sort [] = refl
  length-sort (x ∷ xs) = omega (arith, length-insert x (sort xs), length-sort xs)

  count_by-insert :
      (p : A → Bool) (a : A) (xs : List A) → count_by p (insert a xs) ≡ count_by p (a ∷ xs)
  unfolding insert
  count_by-insert p a [] = refl
  count_by-insert p a (x ∷ xs) = ground (arith, count_by-insert p a xs)

  pub count_by-sort : (p : A → Bool) (xs : List A) → count_by p (sort xs) ≡ count_by p xs
  unfolding sort
  count_by-sort p [] = refl
  count_by-sort p (x ∷ xs) = ground (arith, count_by-insert p x (sort xs), count_by-sort p xs)

  pub All-insert {κ} : (P : A → Type κ) (a : A) (xs : List A) → P a → All P xs → All P (insert a xs)
  unfolding insert
  All-insert P a [] h k = (h, tt)
  All-insert P a (x ∷ xs) h k =
      elim (less x a) as (λ b. All P (if b then x ∷ insert a xs else a ∷ x ∷ xs)) [
        | true ↦ (k.0, All-insert P a xs h k.1)
        | false ↦ (h, k)
      ]

  pub All-sort {κ} : (P : A → Type κ) (xs : List A) → All P xs → All P (sort xs)
  unfolding sort
  All-sort P [] h = tt
  All-sort P (x ∷ xs) h = All-insert P x (sort xs) h.0 (All-sort P xs h.1)

  -- A strict weak order: what Go asks of the comparison.
  pub record IsOrder : Type ℓ where
    pub asym : (a b : A) → less a b ≡ true → less b a ≡ false
    pub le_trans : (a b c : A) → less b a ≡ false → less c b ≡ false → less c a ≡ false

  All-le :
      IsOrder
      → (a x : A) (xs : List A) → less x a ≡ false
      → All (λ y. less y x ≡ false) xs
      → All (λ y. less y a ≡ false) xs
  All-le o a x [] h k = tt
  All-le o a x (y ∷ xs) h k = (o.le_trans a x y h k.0, All-le o a x xs h k.1)

  insert-IsSorted : IsOrder → (a : A) (xs : List A) → IsSorted xs → IsSorted (insert a xs)
  unfolding insert
  insert-IsSorted o a [] s = (tt, tt)
  insert-IsSorted o a (x ∷ xs) s = elim (Bool-cases (less x a)) [
    | inl e ↦
        rw e
          (All-insert (λ y. less y x ≡ false) a xs (o.asym x a e) s.0, insert-IsSorted o a xs s.1)
    | inr e ↦ rw e ((e, All-le o a x xs e s.0), s)
  ]

  pub sort-IsSorted : IsOrder → (xs : List A) → IsSorted (sort xs)
  unfolding sort
  sort-IsSorted o [] = tt
  sort-IsSorted o (x ∷ xs) = insert-IsSorted o x (sort xs) (sort-IsSorted o xs)

  insert-head : (a : A) (xs : List A) → All (λ y. less y a ≡ false) xs → insert a xs ≡ a ∷ xs
  unfolding insert
  insert-head a [] h = refl
  insert-head a (x ∷ xs) h = rw h.0

  pub All-keep {κ} : (P : A → Type κ) (p : A → Bool) (xs : List A) → All P xs → All P (keep p xs)
  All-keep P p [] h = tt
  All-keep P p (x ∷ xs) h = elim (p x) as (λ b. All P (if b then x ∷ keep p xs else keep p xs)) [
    | true ↦ (h.0, All-keep P p xs h.1)
    | false ↦ All-keep P p xs h.1
  ]

  keep-insert :
      IsOrder
      → (p : A → Bool) (a : A) (xs : List A) → IsSorted xs
      → keep p (insert a xs) ≡ (if p a then insert a (keep p xs) else keep p xs)
  unfolding insert
  keep-insert o p a [] s = refl
  keep-insert o p a (x ∷ xs) s = elim (Bool-cases (less x a)) [
    | inl e ↦ ground (arith, keep-insert o p a xs s.1)
    | inr e ↦ ground (
      arith,
      insert-head a (keep p xs) (All-keep (λ y. less y a ≡ false) p xs (All-le o a x xs e s.0)),
    )
  ]

  -- A selection of a sorted list is the sorted selection.
  pub keep-sort : IsOrder → (p : A → Bool) (xs : List A) → keep p (sort xs) ≡ sort (keep p xs)
  unfolding sort
  keep-sort o p [] = refl
  keep-sort o p (x ∷ xs) =
      ground (arith, keep-insert o p x (sort xs) (sort-IsSorted o xs), keep-sort o p xs)
