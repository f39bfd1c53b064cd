-- ===== src/Base/Sort.antt =====
-- `std::sort` by a strict weak order. The standard leaves the order of equivalent elements open;
-- this insertion sort is one of the results that it allows.
use mathlib.Core.List.{Perm}
use mathlib.Core.List.Perm
use mathlib.Core.Path.{◌≡◌}
use mathlib.Core.Logic.{inl, inr}
use mathlib.Core.Bool.{Bool, true, false}
use mathlib.Core.List.{List, [], ◌∷◌}
use client_server.Base.Bools.{if◌then◌else◌, Bool-cases}

module _ {A : Type 0} (lt : A → A → Bool) where
  unfoldable pub insert_sorted : A → List A → List A
  insert_sorted x [] = x ∷ []
  insert_sorted x (y ∷ ys) = if lt y x then y ∷ insert_sorted x ys else x ∷ y ∷ ys

  unfoldable pub sort : List A → List A
  unfolding insert_sorted
  sort [] = []
  sort (x ∷ xs) = insert_sorted x (sort xs)

  -- No entry of the list comes before `x`.
  abbrev pub NoneBefore : A → List A → Type 0
  NoneBefore x [] = Unit {0}
  NoneBefore x (y ∷ ys) = (lt y x ≡ false) × NoneBefore x ys

  abbrev pub IsSorted : List A → Type 0
  IsSorted [] = Unit {0}
  IsSorted (x ∷ xs) = NoneBefore x xs × IsSorted xs

  pub insert_sorted-perm : (x : A) (xs : List A) → Perm (insert_sorted x xs) (x ∷ xs)
  unfolding insert_sorted
  insert_sorted-perm x [] = Perm.refl (x ∷ [])
  insert_sorted-perm x (y ∷ ys) = elim (Bool-cases (lt y x)) [
    | inl e ↦ rw e (Perm.trans (Perm.cons y (insert_sorted-perm x ys)) (Perm.swap x y ys))
    | inr e ↦ rw e (Perm.refl (x ∷ y ∷ ys))
  ]

  pub sort-perm : (xs : List A) → Perm (sort xs) xs
  unfolding sort
  sort-perm [] = Perm.refl []
  sort-perm (x ∷ xs) = Perm.trans (insert_sorted-perm x (sort xs)) (Perm.cons x (sort-perm xs))

-- What a strict weak order is, as far as sorting needs it.
pub record StrictOrder {A : Type 0} (lt : A → A → Bool) : Type 0 where
  pub asym : (x y : A) → lt x y ≡ true → lt y x ≡ false
  pub chain : (x y z : A) → lt y x ≡ false → lt z y ≡ false → lt z x ≡ false

module _ {A : Type 0} (lt : A → A → Bool) (o : StrictOrder lt) where
  NoneBefore-trans :
      (x y : A) (ys : List A) → lt y x ≡ false → NoneBefore lt y ys → NoneBefore lt x ys
  NoneBefore-trans x y [] h k = tt
  NoneBefore-trans x y (z ∷ zs) h k = (o.chain x y z h k.0, NoneBefore-trans x y zs h k.1)

  NoneBefore-insert :
      (x y : A) (ys : List A)
      → lt x y ≡ false
      → NoneBefore lt y ys
      → NoneBefore lt y (insert_sorted lt x ys)
  unfolding insert_sorted
  NoneBefore-insert x y [] h k = (h, tt)
  NoneBefore-insert x y (z ∷ zs) h k = elim (Bool-cases (lt z x)) [
    | inl e ↦ rw e (k.0, NoneBefore-insert x y zs h k.1)
    | inr e ↦ rw e (h, k)
  ]

  insert_sorted-IsSorted :
      (x : A) (xs : List A) → IsSorted lt xs → IsSorted lt (insert_sorted lt x xs)
  unfolding insert_sorted
  insert_sorted-IsSorted x [] s = (tt, tt)
  insert_sorted-IsSorted x (y ∷ ys) s = elim (Bool-cases (lt y x)) [
    | inl e ↦ rw e (NoneBefore-insert x y ys (o.asym y x e) s.0, insert_sorted-IsSorted x ys s.1)
    | inr e ↦ rw e ((e, NoneBefore-trans x y ys e s.0), s)
  ]

  pub sort-IsSorted : (xs : List A) → IsSorted lt (sort lt xs)
  unfolding sort
  sort-IsSorted [] = tt
  sort-IsSorted (x ∷ xs) = insert_sorted-IsSorted x (sort lt xs) (sort-IsSorted xs)
