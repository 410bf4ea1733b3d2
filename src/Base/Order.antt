-- ===== src/Base/Order.antt =====
-- A total order by a Boolean test, and Python's `sorted` over it: a stable sort, by insertion.
use mathlib.Core.Path.{◌≡◌, refl, ap, ◌∙◌}
use mathlib.Core.Bool.{Bool, true, false}
use mathlib.Core.List.{List, [], ◌∷◌, Permᴰ}
use mathlib.Core.List.Permᴰ
use mathlib.Core.Logic.{inl, inr}
use native.Mathlib.Omega.{arith}
use trustplane_auth_sdk_pyth.Base.Tests.{if◌then◌else◌, Bool-cases}
use trustplane_auth_sdk_pyth.Base.Lists.{All}

pub record TotalOrder {ℓ} {A : Type ℓ} (le : A → A → Bool) : Type ℓ where
  pub total : (x y : A) → le x y ≡ false → le y x ≡ true
  pub trans : (x y z : A) → le x y ≡ true → le y z ≡ true → le x z ≡ true
  pub antisym : (x y : A) → le x y ≡ true → le y x ≡ true → x ≡ y

module _ {ℓ} {A : Type ℓ} (le : A → A → Bool) where
  -- Before the first element that is not smaller.
  unfoldable pub insert : A → List A → List A
  insert x [] = x ∷ []
  insert x (y ∷ ys) = let rest = insert x ys in if le x y then x ∷ y ∷ ys else y ∷ rest

  unfoldable pub sort : List A → List A
  unfolding insert
  sort [] = []
  sort (x ∷ xs) = insert x (sort xs)

  -- Every element comes before all that follow it.
  abbrev pub IsSorted : List A → Type 0
  IsSorted [] = Unit
  IsSorted (x ∷ xs) = All (λ y. le x y ≡ true) xs × IsSorted xs

module _ {ℓ} {A : Type ℓ} (le : A → A → Bool) where
  pub All-insert : (P : A → Type 0) (x : A) (xs : List A) → P x → All P xs → All P (insert le x xs)
  unfolding insert
  All-insert P x [] p h = (p, tt)
  All-insert P x (y ∷ ys) p (q, h) = ground (arith, All-insert P x ys p h)

  pub All-sort : (P : A → Type 0) (xs : List A) → All P xs → All P (sort le xs)
  unfolding sort
  All-sort P [] h = tt
  All-sort P (x ∷ xs) (p, h) = All-insert P x (sort le xs) p (All-sort P xs h)

  pub insert-perm : (x : A) (xs : List A) → Permᴰ (insert le x xs) (x ∷ xs)
  unfolding insert
  insert-perm x [] = Permᴰ.refl (x ∷ [])
  insert-perm x (y ∷ ys) = elim (Bool-cases (le x y)) [
    | inl before ↦ rw before (Permᴰ.refl _)
    | inr after ↦ rw after (Permᴰ.trans (Permᴰ.cons refl (insert-perm x ys)) (Permᴰ.swap refl refl))
  ]

  pub sort-perm : (xs : List A) → Permᴰ (sort le xs) xs
  unfolding sort
  sort-perm [] = Permᴰ.nil
  sort-perm (x ∷ xs) = Permᴰ.trans (insert-perm x (sort le xs)) (Permᴰ.cons refl (sort-perm xs))

module _ {ℓ} {A : Type ℓ} (le : A → A → Bool) (order : TotalOrder le) where
  open order use {total, trans, antisym}

  pub insert_head : (x : A) (xs : List A) → All (λ y. le x y ≡ true) xs → insert le x xs ≡ x ∷ xs
  unfolding insert
  insert_head x [] h = refl
  insert_head x (y ∷ ys) (p, h) = ground arith

  All-trans :
      (x y : A) (xs : List A)
      → le x y ≡ true
      → All (λ z. le y z ≡ true) xs
      → All (λ z. le x z ≡ true) xs
  All-trans x y [] p h = tt
  All-trans x y (z ∷ xs) p (q, h) = (trans x y z p q, All-trans x y xs p h)

  insert-IsSorted : (x : A) (xs : List A) → IsSorted le xs → IsSorted le (insert le x xs)
  unfolding insert
  insert-IsSorted x [] h = (tt, tt)
  insert-IsSorted x (y ∷ ys) (first, h) = elim (Bool-cases (le x y)) [
    | inl before ↦ rw before ((before, All-trans x y ys before first), (first, h))
    | inr after ↦ rw after (All-insert le _ x ys (total x y after) first, insert-IsSorted x ys h)
  ]

  pub sort-IsSorted : (xs : List A) → IsSorted le (sort le xs)
  unfolding sort
  sort-IsSorted [] = tt
  sort-IsSorted (x ∷ xs) = insert-IsSorted x (sort le xs) (sort-IsSorted xs)

  -- A sorted list is left as it is.
  pub sort_of_IsSorted : (xs : List A) → IsSorted le xs → sort le xs ≡ xs
  unfolding sort
  sort_of_IsSorted [] h = refl
  sort_of_IsSorted (x ∷ xs) (first, h) =
      ap (insert le x) (sort_of_IsSorted xs h) ∙ insert_head x xs first

  -- The order of two insertions does not matter.
  insert_comm :
      (x y : A) (xs : List A) → insert le x (insert le y xs) ≡ insert le y (insert le x xs)
  unfolding insert
  insert_comm x y [] = ground (arith, total x y, antisym x y)
  insert_comm x y (z ∷ zs) = ground (
    arith,
    insert_comm x y zs,
    total x y,
    antisym x y,
    trans x y z,
    trans y x z,
    total x z,
    total y z,
  )

  pub sort_permᴰ : {xs ys : List A} → Permᴰ xs ys → sort le xs ≡ sort le ys
  unfolding sort
  sort_permᴰ Permᴰ.nil = refl
  sort_permᴰ (Permᴰ.cons e p) = cc (e, sort_permᴰ p)
  sort_permᴰ (Permᴰ.swap {a} {b} {l} e f) = rw (← e, ← f) (insert_comm a b (sort le l))
  sort_permᴰ (Permᴰ.trans p q) = sort_permᴰ p ∙ sort_permᴰ q
