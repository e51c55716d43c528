-- ===== src/Prelude/Sort.antt =====
-- `list.sort`: a stable insertion sort by a strict order, which keeps the items and puts them in order.
use mathlib.Core.Path.{◌≡◌}
use mathlib.Core.Logic.{◌⊎◌, inl, inr}
use mathlib.Core.Bool.{Bool, true, false}
use mathlib.Core.List.{List, [], ◌∷◌, Perm}
use mathlib.Core.List.Perm
use native.Mathlib.Omega.{arith}
use clarityos.Prelude.Tests.{if◌then◌else◌, Bool-cases}
use clarityos.Prelude.Lists.{In, All, All-In}

module _ {ℓ} {A : Type ℓ} (before : A → A → Bool) where
  -- Equal items stay in their order: `x` stood in front of the list.
  unfoldable pub insert_sorted : A → List A → List A
  insert_sorted x [] = x ∷ []
  insert_sorted x (y ∷ ys) = if before y x then y ∷ insert_sorted x ys else x ∷ y ∷ ys

  unfoldable pub sort_by : List A → List A
  unfolding insert_sorted
  sort_by [] = []
  sort_by (x ∷ xs) = insert_sorted x (sort_by xs)

  pub insert_sorted-perm : (x : A) (xs : List A) → Perm (insert_sorted x xs) (x ∷ xs)
  unfolding insert_sorted
  insert_sorted-perm x [] = Perm.rfl
  insert_sorted-perm x (y ∷ ys) =
      let moved = Perm.trans (Perm.cons y (insert_sorted-perm x ys)) (Perm.swap x y ys) in
      ground (arith, moved, Perm.refl (x ∷ y ∷ ys))

  pub sort_by-perm : (xs : List A) → Perm (sort_by xs) xs
  unfolding sort_by
  sort_by-perm [] = Perm.rfl
  sort_by-perm (x ∷ xs) =
      Perm.trans (insert_sorted-perm x (sort_by xs)) (Perm.cons x (sort_by-perm xs))

module _ {A : Type 0} (before : A → A → Bool) where
  pub In-insert_sorted :
      (a x : A) (xs : List A) → In a (insert_sorted before x xs) → (a ≡ x) ⊎ In a xs
  unfolding insert_sorted
  In-insert_sorted a x [] m = m
  In-insert_sorted a x (y ∷ ys) m = ground (arith, In-insert_sorted a x ys)

  pub insert_sorted-In :
      (a x : A) (xs : List A) → (a ≡ x) ⊎ In a xs → In a (insert_sorted before x xs)
  unfolding insert_sorted
  insert_sorted-In a x [] m = m
  insert_sorted-In a x (y ∷ ys) m = ground (arith, insert_sorted-In a x ys)

  pub In-sort_by : (a : A) (xs : List A) → In a (sort_by before xs) → In a xs
  unfolding sort_by
  In-sort_by a [] m = m
  In-sort_by a (x ∷ xs) m =
      ground (arith, In-insert_sorted a x (sort_by before xs), In-sort_by a xs)

  pub sort_by-In : (a : A) (xs : List A) → In a xs → In a (sort_by before xs)
  unfolding sort_by
  sort_by-In a [] m = m
  sort_by-In a (x ∷ xs) m =
      ground (arith, insert_sorted-In a x (sort_by before xs), sort_by-In a xs)

-- A strict order up to ties.
pub record IsWeakOrder {A : Type 0} (before : A → A → Bool) : Type 0 where
  pub asym : (a b : A) → before a b ≡ true → before b a ≡ false
  pub trans_not : (a b c : A) → before a b ≡ false → before b c ≡ false → before a c ≡ false

-- No item stands behind one that it is before.
abbrev pub IsSorted : {A : Type 0} → (A → A → Bool) → List A → Type 0
IsSorted before [] = Unit
IsSorted before (x ∷ xs) = All (λ y. before y x ≡ false) xs × IsSorted before xs

module _ {A : Type 0} {before : A → A → Bool} (order : IsWeakOrder before) where
  All-weaken :
      (y x : A) (zs : List A)
      → before y x ≡ false
      → All (λ z. before z y ≡ false) zs
      → All (λ z. before z x ≡ false) zs
  All-weaken y x [] e h = tt
  All-weaken y x (z ∷ zs) e h = (order.trans_not z y x h.0 e, All-weaken y x zs e h.1)

  All-insert :
      (y x : A) (zs : List A)
      → before x y ≡ false
      → All (λ z. before z y ≡ false) zs
      → All (λ z. before z y ≡ false) (insert_sorted before x zs)
  unfolding insert_sorted
  All-insert y x [] e h = (e, tt)
  All-insert y x (z ∷ zs) e h = ground (arith, All-insert y x zs)

  insert-IsSorted :
      (x : A) (xs : List A) → IsSorted before xs → IsSorted before (insert_sorted before x xs)
  unfolding insert_sorted
  insert-IsSorted x [] h = (tt, tt)
  insert-IsSorted x (y ∷ ys) h = elim (Bool-cases (before y x)) [
    | inl e ↦ rw e (All-insert y x ys (order.asym y x e) h.0, insert-IsSorted x ys h.1)
    | inr e ↦ rw e ((e, All-weaken y x ys e h.0), h)
  ]

  pub sort_by-IsSorted : (xs : List A) → IsSorted before (sort_by before xs)
  unfolding sort_by
  sort_by-IsSorted [] = tt
  sort_by-IsSorted (x ∷ xs) = insert-IsSorted x (sort_by before xs) (sort_by-IsSorted xs)

  pub irrefl : (a : A) → before a a ≡ false
  irrefl a = ground (arith, order.asym a a)

  -- The first of a sorted list has nothing before it.
  pub first_of_sorted :
      (a x : A) (xs : List A) → IsSorted before (x ∷ xs) → In a (x ∷ xs) → before a x ≡ false
  first_of_sorted a x xs h (inl e) = rw e (irrefl x)
  first_of_sorted a x xs h (inr m) = All-In _ xs h.0 m
