-- ===== src/Base/Sort.antt =====
-- `usort` of PHP 8, a stable sort: elements that compare equal keep their order. It is written as an
-- insertion sort; on a comparison by rank every stable sort has the same result. The rank is a pair
-- compared by its first number, then by its second.
use mathlib.Core.Path.{◌≡◌, refl}
use mathlib.Core.Logic.{inl, inr}
use mathlib.Core.Bool.{Bool, true, false}
use mathlib.Core.List.{List, [], ◌∷◌, Perm}
use mathlib.Core.List.Perm
use native.Mathlib.Omega.{arith}
use t3api.Base.Tests.{if◌then◌else◌, Bool-cases}
use t3api.Base.Lists.{keep, All}

module _ {ℓ} {A : Type ℓ} (before : A → A → Bool) where
  -- `x` goes in front of the first element that it has to stand before.
  pub insert : A → List A → List A
  insert x [] = x ∷ []
  insert x (y ∷ ys) = if before y x then y ∷ insert x ys else x ∷ y ∷ ys

  unfoldable pub sort : List A → List A
  unfolding insert
  sort [] = []
  sort (x ∷ xs) = insert x (sort xs)

  insert-perm : (x : A) (ys : List A) → Perm (insert x ys) (x ∷ ys)
  unfolding insert
  insert-perm x [] = Perm.refl (x ∷ [])
  insert-perm x (y ∷ ys) = elim (Bool-cases (before y x)) [
    | inl first ↦ rw first (Perm.trans (Perm.cons y (insert-perm x ys)) (Perm.swap x y ys))
    | inr later ↦ rw later (Perm.refl (x ∷ y ∷ ys))
  ]

  -- The sorted list holds the same elements, as often.
  pub sort-perm : (xs : List A) → Perm (sort xs) xs
  unfolding sort
  sort-perm [] = Perm.refl []
  sort-perm (x ∷ xs) = Perm.trans (insert-perm x (sort xs)) (Perm.cons x (sort-perm xs))

  -- No element has to stand before one that is earlier in the list.
  abbrev pub IsSorted : List A → Type 0
  IsSorted [] = Unit
  IsSorted (x ∷ xs) = All (λ y. before y x ≡ false) xs × IsSorted xs

  -- On the elements that satisfy `D` the comparison is that of a weak order.
  module _ (D : A → Type 0)
      (follows : (x y z : A)
        → D x
        → D y
        → D z
        → before y x ≡ false
        → before z y ≡ false
        → before z x ≡ false)
      (asym : (x y : A) → before y x ≡ true → before x y ≡ false) where
    All-follows :
        (x y : A) (ys : List A)
        → D x
        → D y
        → All D ys
        → before y x ≡ false
        → All (λ z. before z y ≡ false) ys
        → All (λ z. before z x ≡ false) ys
    All-follows x y [] dx dy ds e h = tt
    All-follows x y (z ∷ zs) dx dy (dz, ds) e (f, h) =
        (follows x y z dx dy dz e f, All-follows x y zs dx dy ds e h)

    All-insert : (P : A → Type 0) (x : A) (ys : List A) → P x → All P ys → All P (insert x ys)
    unfolding insert
    All-insert P x [] p h = (p, tt)
    All-insert P x (z ∷ zs) p (q, h) = elim (Bool-cases (before z x)) [
      | inl first ↦ rw first (q, All-insert P x zs p h)
      | inr later ↦ rw later (p, (q, h))
    ]

    All-sort : (xs : List A) → All D xs → All D (sort xs)
    unfolding sort
    All-sort [] h = tt
    All-sort (x ∷ xs) (d, h) = All-insert D x (sort xs) d (All-sort xs h)

    insert-IsSorted : (x : A) (ys : List A) → D x → All D ys → IsSorted ys → IsSorted (insert x ys)
    unfolding insert
    insert-IsSorted x [] dx ds h = (tt, tt)
    insert-IsSorted x (y ∷ ys) dx (dy, ds) (h, s) = elim (Bool-cases (before y x)) [
      | inl first ↦ rw first (
        All-insert (λ z. before z y ≡ false) x ys (asym x y first) h,
        insert-IsSorted x ys dx ds s,
      )
      | inr later ↦ rw later ((later, All-follows x y ys dx dy ds later h), (h, s))
    ]

    pub sort-IsSorted : (xs : List A) → All D xs → IsSorted (sort xs)
    unfolding sort
    sort-IsSorted [] h = tt
    sort-IsSorted (x ∷ xs) (d, h) =
        insert-IsSorted x (sort xs) d (All-sort xs h) (sort-IsSorted xs h)

  -- Elements of a class within which nothing has to stand before anything keep their order.
  module _ (q : A → Bool) (level : (x y : A) → q x ≡ true → q y ≡ true → before y x ≡ false) where
    keep-insert : (x : A) (ys : List A) → keep q (insert x ys) ≡ keep q (x ∷ ys)
    unfolding insert
    keep-insert x [] = refl
    keep-insert x (y ∷ ys) = ground (arith, keep-insert x ys, level x y)

    pub keep-sort : (xs : List A) → keep q (sort xs) ≡ keep q xs
    unfolding sort
    keep-sort [] = refl
    keep-sort (x ∷ xs) = ground (arith, keep-insert x (sort xs), keep-sort xs)
