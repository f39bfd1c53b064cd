-- ===== src/TaskController/Entries.antt =====
-- Lists whose entries stand for one another.
use mathlib.Core.Option.{some-injective}
use client_server.Base.{
  ℕ, zero, suc, List, [], ◌∷◌, ◌++◌, some, ◌≡◌, refl, ap, ◌∙◌, subst, All, map, get_elem?,
}

-- Two lists, entry by entry.
abbrev pub All2 : {A B : Type 0} → (A → B → Type 0) → List A → List B → Type 0
All2 R [] [] = Unit
All2 R (x ∷ xs) (y ∷ ys) = R x y × All2 R xs ys
All2 R _ _ = ⊥

module _ {A B : Type 0} (R : A → B → Type 0) where
  pub All2-append :
      (ls ms : List A) (xs ys : List B) → All2 R ls xs → All2 R ms ys → All2 R (ls ++ ms) (xs ++ ys)
  All2-append [] ms [] ys h k = k
  All2-append (a ∷ ls) ms (x ∷ xs) ys h k = (h.0, All2-append ls ms xs ys h.1 k)
  All2-append [] ms (x ∷ xs) ys h k = absurd h
  All2-append (a ∷ ls) ms [] ys h k = absurd h

  -- One entry is replaced.
  pub All2-at :
      (ls : List A) (xs ys : List B) (x y : B)
      → ((a : A) → R a x → R a y)
      → All2 R ls (xs ++ (x ∷ ys))
      → All2 R ls (xs ++ (y ∷ ys))
  All2-at [] [] ys x y f h = absurd h
  All2-at (a ∷ ls) [] ys x y f h = (f a h.0, h.1)
  All2-at [] (z ∷ xs) ys x y f h = absurd h
  All2-at (a ∷ ls) (z ∷ xs) ys x y f h = (h.0, All2-at ls xs ys x y f h.1)

module _ {A B : Type 0} (R : A → B → Type 0) (P : B → Type 0) where
  -- The images of the entries in front are equal, where the related entries' images are.
  pub All2-map :
      {C : Type 0} (f : A → C) (g : B → C) (ls : List A) (xs ys : List B)
      → ((a : A) (x : B) → R a x → P x → g x ≡ f a)
      → All2 R ls (xs ++ ys)
      → All P xs
      → (rest : List C) × (map g xs ++ rest ≡ map f ls)
  All2-map f g ls [] ys e h all = (map f ls, refl)
  All2-map f g [] (x ∷ xs) ys e h all = absurd h
  All2-map f g (a ∷ ls) (x ∷ xs) ys e h all =
      let later = All2-map f g ls xs ys e h.1 all.1 in
      (later.0, ap (λ c. c ∷ (map g xs ++ later.0)) (e a x h.0 all.0) ∙ ap (◌∷◌ (f a)) later.1)

pub All-get_elem? :
    {A : Type 0} (P : A → Type 0) (xs : List A) (i : ℕ) (x : A)
    → All P xs
    → get_elem? xs i ≡ some x
    → P x
All-get_elem? P [] i x h e = cc
All-get_elem? P (y ∷ xs) zero x h e = subst P (some-injective _ _ e) h.0
All-get_elem? P (y ∷ xs) (suc i) x h e = All-get_elem? P xs i x h.1 e
