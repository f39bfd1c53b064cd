-- ===== src/Base/Text.antt =====
-- The order and the searches of `std::string_view`.
use mathlib.Core.Path.{◌≡◌, refl}
use mathlib.Core.Bool.{Bool, true, false, ◌&&◌}
use mathlib.Core.Option.{Option, none, some}
use mathlib.Core.List.{List, [], ◌∷◌}
use native.Mathlib.Omega.{arith}
use client_server.Base.Bools.{if◌then◌else◌, ltb, ◌==◌}
use client_server.Base.Sort.{StrictOrder}
use Prim.Native.Nat.{ℕ}

-- `operator<`: the bytes are compared as unsigned characters.
unfoldable pub bytes_lt : List ℕ → List ℕ → Bool
bytes_lt [] [] = false
bytes_lt [] (b ∷ t) = true
bytes_lt (a ∷ s) [] = false
bytes_lt (a ∷ s) (b ∷ t) =
    let rest = bytes_lt s t in if ltb a b then true else if ltb b a then false else rest

pub bytes_lt_irrefl : (s : List ℕ) → bytes_lt s s ≡ false
unfolding bytes_lt
bytes_lt_irrefl [] = refl
bytes_lt_irrefl (a ∷ s) = ground (arith, bytes_lt_irrefl s)

bytes_lt_asym : (s t : List ℕ) → bytes_lt s t ≡ true → bytes_lt t s ≡ false
unfolding bytes_lt
bytes_lt_asym [] [] h = cc
bytes_lt_asym [] (b ∷ t) h = refl
bytes_lt_asym (a ∷ s) [] h = cc
bytes_lt_asym (a ∷ s) (b ∷ t) h = ground (arith, bytes_lt_asym s t)

bytes_lt_chain :
    (s t u : List ℕ) → bytes_lt t s ≡ false → bytes_lt u t ≡ false → bytes_lt u s ≡ false
unfolding bytes_lt
bytes_lt_chain [] t [] h k = refl
bytes_lt_chain (a ∷ s) [] [] h k = cc
bytes_lt_chain (a ∷ s) (b ∷ t) [] h k = cc
bytes_lt_chain [] [] (c ∷ u) h k = refl
bytes_lt_chain (a ∷ s) [] (c ∷ u) h k = cc
bytes_lt_chain [] (b ∷ t) (c ∷ u) h k = refl
bytes_lt_chain (a ∷ s) (b ∷ t) (c ∷ u) h k = ground (arith, bytes_lt_chain s t u)

pub bytes_lt_total : (s t : List ℕ) → bytes_lt s t ≡ false → bytes_lt t s ≡ false → s ≡ t
unfolding bytes_lt
bytes_lt_total [] [] h k = refl
bytes_lt_total [] (b ∷ t) h k = cc
bytes_lt_total (a ∷ s) [] h k = cc
bytes_lt_total (a ∷ s) (b ∷ t) h k = ground (arith, bytes_lt_total s t)

pub bytes_order : StrictOrder bytes_lt
bytes_order = record { asym = bytes_lt_asym; chain = bytes_lt_chain }

unfoldable pub starts_with : List ℕ → List ℕ → Bool
starts_with [] s = true
starts_with (a ∷ p) [] = false
starts_with (a ∷ p) (b ∷ s) = a == b && starts_with p s

-- `find`: the text from the first place on at which the pattern stands.
unfoldable pub find_text : List ℕ → List ℕ → Option (List ℕ)
unfolding starts_with
find_text p [] = if starts_with p [] then some [] else none
find_text p (c ∷ s) =
    let rest = find_text p s in if starts_with p (c ∷ s) then some (c ∷ s) else rest
