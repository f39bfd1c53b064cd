-- ===== src/Charconv/Std.antt =====
-- std::to_chars and std::from_chars for unsigned integers.
use client_server.Base.{
  ℕ, zero, suc, ◌+◌, ◌-◌, ◌*◌, ◌/◌, ◌%◌, ◌≡◌, refl, [], ◌∷◌, Option, none, some, ltb, ◌==◌,
  if◌then◌else◌, Bytes, codes,
}
use client_server.Charconv.{is_digit}

-- The digits of `n` in front of `out`, at most `fuel` of them.
unfoldable pub digits : ℕ → ℕ → Bytes → Bytes
digits zero n out = out
digits (suc fuel) n out =
    let more = digits fuel (n / 10) ((b'0' + n % 10) ∷ out) in
    if n / 10 == 0 then (b'0' + n % 10) ∷ out else more

-- A 64-bit number has at most 20 digits.
unfoldable pub to_chars : ℕ → Bytes
unfolding digits
to_chars v = digits 20 v []

unfoldable pub read_digits : ℕ → Bytes → ℕ × Bytes
unfolding is_digit
read_digits acc [] = (acc, [])
read_digits acc (c ∷ s) =
    let more = read_digits (acc * 10 + (c - b'0')) s in if is_digit c then more else (acc, c ∷ s)

unfoldable pub fits : ℕ → ℕ × Bytes → Option (ℕ × Bytes)
fits bound (v, rest) = if ltb v bound then some (v, rest) else none

-- No digit is `invalid_argument`, a value out of the type is `result_out_of_range`.
unfoldable pub from_chars : ℕ → Bytes → Option (ℕ × Bytes)
unfolding read_digits fits is_digit
from_chars bound [] = none
from_chars bound (c ∷ s) = if is_digit c then fits bound (read_digits 0 (c ∷ s)) else none

to_chars_test : to_chars 18446744073709551615 ≡ codes "18446744073709551615"
unfolding to_chars
to_chars_test = refl

from_chars_test : from_chars 4294967296 (codes "300x250") ≡ some (300, codes "x250")
unfolding from_chars
from_chars_test = refl

from_chars_out_of_range : from_chars 4294967296 (codes "4294967296") ≡ none
unfolding from_chars
from_chars_out_of_range = refl
