-- ===== src/Charconv/Laws.antt =====
-- The standard conversions meet the laws of `Charconv`.
use mathlib.Core.List.{cons-ne-nil}
use native.Mathlib.Nat.{pow-suc}
use client_server.Base.{
  ℕ, zero, suc, ◌+◌, ◌-◌, ◌*◌, ◌/◌, ◌%◌, ◌^◌, ◌≤◌, ◌<◌, true, ◌≡◌, refl, [], ◌∷◌, ◌++◌, some, arith,
  ◌==◌, Bytes, length, inl, inr, Bool-cases, ap, ◌∙◌, ◌≢◌, lt→ltb,
}
use client_server.Charconv.Std.{digits, to_chars, read_digits, from_chars, fits}
use client_server.Charconv.{is_digit, Stops, Digits, Charconv}

digit_of-IsDigit : (n : ℕ) → is_digit (b'0' + n % 10) ≡ true
unfolding is_digit
digit_of-IsDigit n = ground arith

digits-Digits : (fuel n : ℕ) (out : Bytes) → Digits out → Digits (digits fuel n out)
unfolding digits
digits-Digits zero n out h = h
digits-Digits (suc fuel) n out h = elim (Bool-cases (n / 10 == 0)) [
  | inl done ↦ rw done (digit_of-IsDigit n, h)
  | inr more ↦ rw more (digits-Digits fuel (n / 10) _ (digit_of-IsDigit n, h))
]

length-digits :
    (fuel k n : ℕ) (out : Bytes) → n < 10 ^ suc k → length (digits fuel n out) ≤ suc k + length out
unfolding digits
length-digits zero k n out h = omega arith
length-digits (suc fuel) zero n out h = ground arith
length-digits (suc fuel) (suc k) n out h = elim (Bool-cases (n / 10 == 0)) [
  | inl done ↦ rw done (omega arith)
  | inr more ↦ rw more (
      omega (
        arith,
        length-digits fuel k (n / 10) ((b'0' + n % 10) ∷ out) (omega (arith, pow-suc 10 (suc k))),
      ))
]

read_digits_digit :
    (acc c : ℕ) (s : Bytes)
    → is_digit c ≡ true
    → read_digits acc (c ∷ s) ≡ read_digits (acc * 10 + (c - b'0')) s
unfolding read_digits
read_digits_digit acc c s h = rw h

read_digits_last :
    (n : ℕ) (s : Bytes) → read_digits (n / 10) ((b'0' + n % 10) ∷ s) ≡ read_digits n s
read_digits_last n s =
    read_digits_digit (n / 10) (b'0' + n % 10) s (digit_of-IsDigit n)
    ∙ ap (λ (m : ℕ). read_digits m s) (omega arith)

-- With digits left to print there is a round left to print them.
some_round : (fuel n : ℕ) → n < 10 ^ suc fuel → n / 10 ≢ 0 → 0 < fuel
some_round zero n h more = absurd (more (omega arith))
some_round (suc fuel) n h more = omega arith

pub to_chars-Digits_lem : (v : ℕ) → Digits (to_chars v)
unfolding to_chars
to_chars-Digits_lem v = digits-Digits 20 v [] tt

pub to_chars_size_lem : (v k : ℕ) → v < 10 ^ k → 0 < k → length (to_chars v) ≤ k
unfolding to_chars
to_chars_size_lem v zero h p = absurd (omega arith)
to_chars_size_lem v (suc k) h p = omega (arith, length-digits 20 k v [] h)

read_digits-digits :
    (fuel n : ℕ) (s rest : Bytes)
    → 0 < fuel
    → n < 10 ^ fuel
    → read_digits 0 (digits fuel n s ++ rest) ≡ read_digits n (s ++ rest)
unfolding digits
read_digits-digits zero n s rest p h = absurd (omega arith)
read_digits-digits (suc fuel) n s rest p h = elim (Bool-cases (n / 10 == 0)) [
  | inl done ↦ rw done (
      ap (λ (m : ℕ). read_digits m ((b'0' + n % 10) ∷ (s ++ rest))) (ground arith)
      ∙ read_digits_last n (s ++ rest))
  | inr more ↦ rw more (
      read_digits-digits fuel (n / 10) ((b'0' + n % 10) ∷ s) rest
        (some_round fuel n h (ground arith)) (omega (arith, pow-suc 10 fuel))
      ∙ read_digits_last n (s ++ rest))
]

read_digits_stop : (n : ℕ) (rest : Bytes) → Stops rest → read_digits n rest ≡ (n, rest)
unfolding read_digits
read_digits_stop n [] h = refl
read_digits_stop n (c ∷ rest) h = rw h

from_chars_digit :
    (bound c : ℕ) (s : Bytes)
    → is_digit c ≡ true
    → from_chars bound (c ∷ s) ≡ fits bound (read_digits 0 (c ∷ s))
unfolding from_chars
from_chars_digit bound c s h = rw h

fits-lt : (bound v : ℕ) (rest : Bytes) → v < bound → fits bound (v, rest) ≡ some (v, rest)
unfolding fits
fits-lt bound v rest h = rw (lt→ltb v bound h)

-- Digits that read as a number below the bound are converted.
from_chars-Digits :
    (bound v : ℕ) (s rest : Bytes)
    → s ≢ []
    → Digits s
    → read_digits 0 (s ++ rest) ≡ (v, rest)
    → v < bound
    → from_chars bound (s ++ rest) ≡ some (v, rest)
from_chars-Digits bound v [] rest ne d e h = absurd (ne refl)
from_chars-Digits bound v (c ∷ s) rest ne d e h =
    from_chars_digit bound c (s ++ rest) d.0 ∙ ap (fits bound) e ∙ fits-lt bound v rest h

digits-ne-nil : (fuel n : ℕ) (s : Bytes) → s ≢ [] → digits fuel n s ≢ []
unfolding digits
digits-ne-nil zero n s h = h
digits-ne-nil (suc fuel) n s h = elim (Bool-cases (n / 10 == 0)) [
  | inl done ↦ rw done (cons-ne-nil _ s)
  | inr more ↦ rw more (digits-ne-nil fuel (n / 10) _ (cons-ne-nil _ s))
]

to_chars-ne-nil : (v : ℕ) → to_chars v ≢ []
unfolding to_chars
to_chars-ne-nil v = elim (Bool-cases (v / 10 == 0)) [
  | inl done ↦ rw done (cons-ne-nil _ [])
  | inr more ↦ rw more (digits-ne-nil 19 (v / 10) _ (cons-ne-nil _ []))
]

-- The value is read back whatever stands behind its digits.
pub from_chars-to_chars_lem :
    (bound v : ℕ) (rest : Bytes)
    → v < 2 ^ 64
    → v < bound
    → Stops rest
    → from_chars bound (to_chars v ++ rest) ≡ some (v, rest)
from_chars-to_chars_lem bound v rest small h stop =
    from_chars-Digits bound v (to_chars v) rest (to_chars-ne-nil v) (to_chars-Digits_lem v)
      (unfold to_chars in
        (read_digits-digits 20 v [] rest (omega arith) (omega arith)
          ∙ read_digits_stop v rest stop))
      h

-- The standard conversions as the parameter that the rest of the program takes.
unfoldable pub std_charconv : Charconv
unfolding to_chars from_chars
std_charconv = record {
  to_chars = to_chars;
  from_chars = from_chars;
  to_chars-Digits = to_chars-Digits_lem;
  to_chars_size = to_chars_size_lem;
  from_chars-to_chars = from_chars-to_chars_lem;
}
