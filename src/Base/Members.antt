-- ===== src/Base/Members.antt =====
-- Where an entry stands in a list, and that sorting neither loses nor invents one.
use Prim.Native.Nat.{ℕ, zero, suc, ◌<◌}
use mathlib.Core.Path.{◌≡◌, refl, sym, ap, ◌∙◌}
use mathlib.Core.Logic.{◌⊎◌, inl, inr, ◌≢◌}
use mathlib.Core.Bool.{Bool}
use mathlib.Core.Option.{some, some-injective}
use mathlib.Core.List.{List, [], ◌∷◌}
use native.Mathlib.Omega.{arith}
use client_server.Base.Bools.{Bool-cases}
use client_server.Base.Lists.{length, get_elem?, get_or, set}
use client_server.Base.Sort.{insert_sorted, sort}

module _ {A : Type 0} where
  abbrev pub Stands : A → List A → Type 0
  Stands x [] = ⊥
  Stands x (y ∷ ys) = (x ≡ y) ⊎ Stands x ys

  pub place_of :
      (x : A) (xs : List A) → Stands x xs → (j : ℕ) × (j < length xs) × (get_elem? xs j ≡ some x)
  place_of x [] s = elim s [ ]
  place_of x (y ∷ ys) (inl e) = (0, omega arith, ap some (sym e))
  place_of x (y ∷ ys) (inr s) = let (j, below, e) = place_of x ys s in (suc j, omega arith, e)

  pub get_elem?-Stands : (xs : List A) (j : ℕ) (x : A) → get_elem? xs j ≡ some x → Stands x xs
  get_elem?-Stands [] j x h = cc
  get_elem?-Stands (y ∷ ys) zero x h = inl (sym (some-injective _ _ h))
  get_elem?-Stands (y ∷ ys) (suc j) x h = inr (get_elem?-Stands ys j x h)

  pub get_or-get_elem? :
      (xs : List A) (j : ℕ) (x d : A) → get_elem? xs j ≡ some x → get_or xs j d ≡ x
  get_or-get_elem? [] j x d h = cc
  get_or-get_elem? (y ∷ ys) zero x d h = some-injective _ _ h
  get_or-get_elem? (y ∷ ys) (suc j) x d h = get_or-get_elem? ys j x d h

  pub get_or-Stands : (xs : List A) (j : ℕ) (d : A) → j < length xs → Stands (get_or xs j d) xs
  get_or-Stands [] j d h = absurd (omega arith)
  get_or-Stands (y ∷ ys) zero d h = inl refl
  get_or-Stands (y ∷ ys) (suc j) d h = inr (get_or-Stands ys j d (omega arith))

  pub get_or-set_self :
      (xs : List A) (i : ℕ) (v d : A) → i < length xs → get_or (set xs i v) i d ≡ v
  get_or-set_self [] i v d h = absurd (omega arith)
  get_or-set_self (x ∷ xs) zero v d h = refl
  get_or-set_self (x ∷ xs) (suc i) v d h = get_or-set_self xs i v d (omega arith)

  pub get_or-set_ne :
      (xs : List A) (i j : ℕ) (v d : A) → i ≢ j → get_or (set xs i v) j d ≡ get_or xs j d
  get_or-set_ne [] i j v d h = refl
  get_or-set_ne (x ∷ xs) zero zero v d h = absurd (h refl)
  get_or-set_ne (x ∷ xs) zero (suc j) v d h = refl
  get_or-set_ne (x ∷ xs) (suc i) zero v d h = refl
  get_or-set_ne (x ∷ xs) (suc i) (suc j) v d h = get_or-set_ne xs i j v d (λ e. h (ap suc e))

  module _ (lt : A → A → Bool) where
    insert_sorted-Stands :
        (x y : A) (ys : List A) → (x ≡ y) ⊎ Stands x ys → Stands x (insert_sorted lt y ys)
    unfolding insert_sorted
    insert_sorted-Stands x y [] s = s
    insert_sorted-Stands x y (z ∷ zs) s = elim (Bool-cases (lt z y)) [
      | inr e ↦ rw e s
      | inl e ↦ rw e (elim s [
        | inl same ↦ inr (insert_sorted-Stands x y zs (inl same))
        | inr (inl head) ↦ inl head
        | inr (inr tail) ↦ inr (insert_sorted-Stands x y zs (inr tail))
      ])
    ]

    Stands-insert_sorted :
        (x y : A) (ys : List A) → Stands x (insert_sorted lt y ys) → (x ≡ y) ⊎ Stands x ys
    unfolding insert_sorted
    Stands-insert_sorted x y [] s = s
    Stands-insert_sorted x y (z ∷ zs) s = elim (Bool-cases (lt z y)) [
      | inr e ↦ rw e at s
      | inl e ↦ elim (rw e at s) [
        | inl head ↦ inr (inl head)
        | inr tail ↦ elim (Stands-insert_sorted x y zs tail) [
          | inl same ↦ inl same
          | inr later ↦ inr (inr later)
        ]
      ]
    ]

    pub sort-Stands : (x : A) (xs : List A) → Stands x xs → Stands x (sort lt xs)
    unfolding sort
    sort-Stands x [] s = elim s [ ]
    sort-Stands x (y ∷ ys) (inl e) = insert_sorted-Stands x y (sort lt ys) (inl e)
    sort-Stands x (y ∷ ys) (inr s) =
        insert_sorted-Stands x y (sort lt ys) (inr (sort-Stands x ys s))

    pub Stands-sort : (x : A) (xs : List A) → Stands x (sort lt xs) → Stands x xs
    unfolding sort
    Stands-sort x [] s = s
    Stands-sort x (y ∷ ys) s = elim (Stands-insert_sorted x y (sort lt ys) s) [
      | inl e ↦ inl e
      | inr later ↦ inr (Stands-sort x ys later)
    ]

    length-insert_sorted : (y : A) (ys : List A) → length (insert_sorted lt y ys) ≡ suc (length ys)
    unfolding insert_sorted
    length-insert_sorted y [] = refl
    length-insert_sorted y (z ∷ zs) = elim (Bool-cases (lt z y)) [
      | inr e ↦ rw e refl
      | inl e ↦ rw e (ap suc (length-insert_sorted y zs))
    ]

    pub length-sort : (xs : List A) → length (sort lt xs) ≡ length xs
    unfolding sort
    length-sort [] = refl
    length-sort (x ∷ xs) = length-insert_sorted x (sort lt xs) ∙ ap suc (length-sort xs)
