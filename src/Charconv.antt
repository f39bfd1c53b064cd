-- ===== src/Charconv.antt =====
-- Decimal conversion of unsigned integers. `Charconv` is what common/IOUtility.h relies on in
-- Boost.Charconv, by its documentation: `to_chars` and `from_chars` for unsigned integers. The
-- standard library's functions of the same names, used by business/Transaction.cpp and the
-- clients, are defined in the child `Std` and meet the same laws.
pub mod Std
pub mod Laws
use client_server.Base.{
  ℕ, ◌+◌, ◌^◌, ◌≤◌, ◌<◌, Bool, false, true, ◌&&◌, List, [], ◌∷◌, ◌++◌, ◌≡◌, Option, some, leb,
  Bytes, All, length,
}

unfoldable pub is_digit : ℕ → Bool
is_digit c = leb b'0' c && leb c b'9'

-- What follows is no further digit.
abbrev pub Stops : Bytes → Type 0
Stops [] = Unit {0}
Stops (c ∷ _) = is_digit c ≡ false

abbrev pub Digits : Bytes → Type 0
Digits = All (λ c. is_digit c ≡ true)

-- `from_chars bound s` is the conversion into a type whose values lie below `bound`: the value
-- and the text behind it, or `none` for an error code.
pub record Charconv : Type 0 where
  pub to_chars : ℕ → Bytes
  pub from_chars : ℕ → Bytes → Option (ℕ × Bytes)
  pub to_chars-Digits : (v : ℕ) → Digits (to_chars v)
  pub to_chars_size : (v k : ℕ) → v < 10 ^ k → 0 < k → length (to_chars v) ≤ k
  pub from_chars-to_chars :
      (bound v : ℕ) (rest : Bytes)
      → v < 2 ^ 64
      → v < bound
      → Stops rest
      → from_chars bound (to_chars v ++ rest) ≡ some (v, rest)
