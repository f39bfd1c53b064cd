-- ===== src/Crypto/HiddenKey.antt =====
-- The key that is handed out is the key that was hidden.
use Prim.Native.Nat.{bit_xor, bit_xor-bitwise, digits, differ}
use client_server.Base.{
  ℕ, zero, suc, ◌+◌, ◌*◌, ◌/◌, ◌%◌, ◌≤◌, ◌<◌, [], ◌∷◌, Bool, false, Bytes, ◌≡◌, refl, sym, ap, ◌∙◌,
  arith, subst, Bool-cases, inl, inr,
}
use client_server.Crypto.Hiding.{KeyHandler, xor_bytes, hide_key, recover_key, set_aes_key}

-- The digits of an exclusive or, on fuel.
abbrev xor_digits : ℕ → ℕ → ℕ → ℕ
xor_digits n a b = digits (λ c. c) differ n a b

differ_self : (x : ℕ) → differ x x ≡ 0
differ_self zero = refl
differ_self (suc x) = differ_self x

differ_small : (x y : ℕ) → x < 2 → y < 2 → (differ (differ x y) y ≡ x) × (differ x y < 2)
differ_small zero zero h k = (refl, omega arith)
differ_small zero (suc y) h k = (differ_self y, omega arith)
differ_small (suc x) zero h k = (refl, omega arith)
differ_small (suc zero) (suc zero) h k = (refl, omega arith)
differ_small (suc (suc x)) (suc y) h k = absurd (omega arith)
differ_small (suc zero) (suc (suc y)) h k = absurd (omega arith)

xor_digits_self : (n b : ℕ) → b ≤ n → xor_digits n b b ≡ 0
xor_digits_self zero b h = omega arith
xor_digits_self (suc n) zero h = refl
xor_digits_self (suc n) (suc b) h =
    omega (arith, xor_digits_self n (suc b / 2) (omega arith), differ_self (suc b % 2))

xor_digits_zero : (n b : ℕ) → xor_digits n 0 b ≡ b
xor_digits_zero zero b = refl
xor_digits_zero (suc n) b = refl

xor_digits_step :
    (n a b : ℕ) → xor_digits (suc n) a b ≡ xor_digits n (a / 2) (b / 2) * 2 + differ (a % 2) (b % 2)
xor_digits_step n zero b = omega (arith, xor_digits_zero n (b / 2))
xor_digits_step n (suc a) b = refl

xor_digits_twice :
    (n m a b : ℕ) → a ≤ n → xor_digits n a b ≤ m → xor_digits m (xor_digits n a b) b ≡ a
xor_digits_twice zero m zero b h k = xor_digits_self m b k
xor_digits_twice zero m (suc a) b h k = absurd (omega arith)
xor_digits_twice (suc n) m zero b h k = xor_digits_self m b k
xor_digits_twice (suc n) zero (suc a) b h k =
    let half = xor_digits_twice n 0 (suc a / 2) (b / 2) (omega arith) (omega (arith, k)) in
    let digit = differ_small (suc a % 2) (b % 2) (omega arith) (omega arith) in
    let same : differ (suc a % 2) (b % 2) ≡ 0 = omega (arith, k) in
    omega (arith, half, ap (λ (d : ℕ). differ d (b % 2)) (sym same) ∙ digit.0)
xor_digits_twice (suc n) (suc m) (suc a) b h k =
    let w = xor_digits n (suc a / 2) (b / 2) in
    let d = differ (suc a % 2) (b % 2) in
    let digit = differ_small (suc a % 2) (b % 2) (omega arith) (omega arith) in
    let half : (w * 2 + d) / 2 ≡ w = omega (arith, digit.1) in
    let low : (w * 2 + d) % 2 ≡ d = omega (arith, digit.1) in
    let rest = xor_digits_twice n m (suc a / 2) (b / 2) (omega arith) (omega (arith, k)) in
    xor_digits_step m (w * 2 + d) b
    ∙ omega (
      arith,
      ap (λ (v : ℕ). xor_digits m v (b / 2)) half ∙ rest,
      ap (λ (v : ℕ). differ v (b % 2)) low ∙ digit.0,
    )

bit_xor_twice : (a b : ℕ) → bit_xor (bit_xor a b) b ≡ a
bit_xor_twice a b =
    bit_xor-bitwise (bit_xor a b) b
    ∙ ap (λ (v : ℕ). xor_digits v v b) (bit_xor-bitwise a b)
    ∙ xor_digits_twice a (xor_digits a a b) a b (omega arith) (omega arith)

xor_bytes_twice : (key mask : Bytes) → xor_bytes (xor_bytes key mask) mask ≡ key
unfolding xor_bytes
xor_bytes_twice [] mask = refl
xor_bytes_twice (b ∷ key) [] = refl
xor_bytes_twice (b ∷ key) (m ∷ mask) =
    ap (λ c. c ∷ xor_bytes (xor_bytes key mask) mask) (bit_xor_twice b m)
    ∙ ap (◌∷◌ b) (xor_bytes_twice key mask)

-- What the stored bytes and the handler stand for: the key.
abbrev pub Hides : KeyHandler → Bytes → Bytes → Type 0
Hides h stored key = (recover_key h stored).1 ≡ key

hide_key-Hides :
    (random : Bytes) (h : KeyHandler) (key : Bytes)
    → h.obfuscated ≡ false
    → Hides (hide_key random h key).0 (hide_key random h key).1 key
unfolding hide_key recover_key
hide_key-Hides random h key e =
    let plain : KeyHandler → KeyHandler = λ g. record g { obfuscated = false } in
    let same : h ≡ plain h =
      ap (λ (b : Bool). record { obfuscator = h.obfuscator; obfuscated = b }) e in
    subst (λ g. Hides (hide_key random g key).0 (hide_key random g key).1 key) (sym same)
      (xor_bytes_twice key random)

recovered : (h : KeyHandler) (stored : Bytes) → (recover_key h stored).0.obfuscated ≡ false
unfolding recover_key
recovered h stored = elim (Bool-cases h.obfuscated) [
  | inl e ↦ rw (recover_key, e) refl
  | inr e ↦ rw (recover_key, e) refl
]

-- If the key was not hidden before it was hidden for the first time: setAESKey hands out the key,
-- whatever the random bytes, and behind it the stored bytes and the handler stand for the key
-- again.
pub set_aes_key-Hides :
    (first random : Bytes) (h : KeyHandler) (key : Bytes)
    → h.obfuscated ≡ false
    → let hidden = hide_key first h key in
      let used = set_aes_key random hidden.0 hidden.1 in (used.0 ≡ key) × Hides used.1 used.2 key
unfolding set_aes_key
set_aes_key-Hides first random h key e =
    let hidden = hide_key first h key in
    let there = hide_key-Hides first h key e in
    (
      there,
      hide_key-Hides random (recover_key hidden.0 hidden.1).0 (recover_key hidden.0 hidden.1).1
            (recovered hidden.0 hidden.1)
          ∙ there,
    )
