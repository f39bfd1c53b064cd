-- ===== src/Message/Fields.antt =====
-- The loop of `processMessage`: a string whose size is announced gets its part of the payload.
use mathlib.Core.Option
use mathlib.Core.List.{flatten}
use client_server.Base.{
  ℕ, ◌+◌, ◌≤◌, List, [], ◌∷◌, ◌++◌, map, Option, none, some, if◌then◌else◌, ◌==◌, true, Bytes,
  length, take, drop, ◌≡◌, refl, sym, ap, ◌∙◌, arith, append_assoc, append-nil, length-append,
  drop-skip, take-append_eq, drop-append_eq, length-drop, drop-drop, Bool-cases, inl, inr, le→ltb,
}
use client_server.Message.Defs.{substr, assign_fields}

-- The caller's string after a payload was read into it.
abbrev pub refill : Bytes → Bytes → Bytes
refill old payload = if length payload == 0 then old else payload

abbrev pub refills : List Bytes → List Bytes → List Bytes
refills [] payloads = []
refills (x ∷ xs) [] = x ∷ xs
refills (x ∷ xs) (p ∷ ps) = refill x p ∷ refills xs ps

pub total : List Bytes → ℕ
total [] = 0
total (p ∷ ps) = length p + total ps

map-nil-append : (o : Option (List Bytes)) → Option.map (◌++◌ []) o ≡ o
map-nil-append none = refl
map-nil-append (some s) = refl

map-cons-append :
    (x : Bytes) (xs : List Bytes) (o : Option (List Bytes))
    → Option.map (◌∷◌ x) (Option.map (◌++◌ xs) o) ≡ Option.map (◌++◌ (x ∷ xs)) o
map-cons-append x xs none = refl
map-cons-append x xs (some s) = refl

module _ (whole : Bytes) where
  substr_part :
      (shift : ℕ) (part after : Bytes)
      → shift ≤ length whole
      → drop shift whole ≡ part ++ after
      → substr whole shift (length part) ≡ some part
  unfolding substr
  substr_part shift part after fits here =
      rw (le→ltb (length whole) shift fits, here, take-append_eq (length part) part after refl)

  step_fits :
      (shift : ℕ) (part after : Bytes)
      → shift ≤ length whole
      → drop shift whole ≡ part ++ after
      → shift + length part ≤ length whole
  step_fits shift part after fits here =
      omega (arith, ap length here, length-drop shift whole, length-append part after)

  step_here :
      (shift : ℕ) (part after : Bytes)
      → drop shift whole ≡ part ++ after
      → drop (shift + length part) whole ≡ after
  step_here shift part after here =
      sym (drop-drop (length part) shift whole)
      ∙ ap (drop (length part)) here
      ∙ drop-append_eq (length part) part after refl

  shift_same : (shift n : ℕ) → (n == 0) ≡ true → shift ≡ shift + n
  shift_same shift n e = ground arith

  shift_sum :
      (shift m n : ℕ) (sizes : List ℕ) (ys : List Bytes)
      → assign_fields whole (shift + m + n) sizes ys
        ≡ assign_fields whole (shift + (m + n)) sizes ys
  shift_sum shift m n sizes ys = ap (λ (k : ℕ). assign_fields whole k sizes ys) (omega arith)

  -- The strings whose sizes come first are filled, and the loop goes on behind them.
  pub assign_fields-flatten :
      (shift : ℕ) (after : Bytes) (payloads : List Bytes) (sizes : List ℕ) (xs ys : List Bytes)
      → length xs ≡ length payloads
      → shift ≤ length whole
      → drop shift whole ≡ flatten payloads ++ after
      → assign_fields whole shift (map (λ p. length p) payloads ++ sizes) (xs ++ ys)
        ≡ Option.map
            (◌++◌ (refills xs payloads))
            (assign_fields whole (shift + total payloads) sizes ys)
  unfolding assign_fields total flatten
  assign_fields-flatten shift after [] sizes [] ys h fits here =
      ap (λ (n : ℕ). assign_fields whole n sizes ys) (omega arith) ∙ sym (map-nil-append _)
  assign_fields-flatten shift after [] sizes (x ∷ xs) ys h fits here = absurd (omega arith)
  assign_fields-flatten shift after (p ∷ ps) sizes [] ys h fits here = absurd (omega arith)
  assign_fields-flatten shift after (p ∷ ps) sizes (x ∷ xs) ys h fits here =
      let first = here ∙ append_assoc p (flatten ps) after in
      let rest =
        assign_fields-flatten (shift + length p) after ps sizes xs ys (omega arith)
          (step_fits shift p (flatten ps ++ after) fits first)
          (step_here shift p (flatten ps ++ after) first) in
      let again = shift_sum shift (length p) (total ps) sizes ys in
      elim (Bool-cases (length p == 0)) [
        | inl e ↦ rw e (
            ap
              (λ (n : ℕ).
                Option.map (◌∷◌ x)
                  (assign_fields whole n (map (λ p. length p) ps ++ sizes) (xs ++ ys)))
              (shift_same shift (length p) e)
            ∙ ap (Option.map (◌∷◌ x)) rest
            ∙ map-cons-append x (refills xs ps) _
            ∙ ap (Option.map (◌++◌ (x ∷ refills xs ps))) again)
        | inr e ↦
            rw (e, substr_part shift p (flatten ps ++ after) fits first)
              (ap (Option.map (◌∷◌ p)) rest
                ∙ map-cons-append p (refills xs ps) _
                ∙ ap (Option.map (◌++◌ (p ∷ refills xs ps))) again)
      ]

pub assign_fields_last :
    (whole : Bytes) (shift n : ℕ) (after x : Bytes)
    → shift ≤ length whole
    → drop shift whole ≡ after
    → assign_fields whole shift (n ∷ []) (x ∷ []) ≡ some ((if n == 0 then x else take n after) ∷ [])
unfolding assign_fields substr
assign_fields_last whole shift n after x fits here = elim (Bool-cases (n == 0)) [
  | inl e ↦ rw e
  | inr e ↦ rw (e, le→ltb (length whole) shift fits, here)
]

pub assign_fields_none :
    (whole : Bytes) (shift n : ℕ) → assign_fields whole shift (n ∷ []) [] ≡ some []
unfolding assign_fields
assign_fields_none whole shift n = refl

module _ (p1 p2 p3 p4 : Bytes) where
  unfoldable pub three : List Bytes
  three = p1 ∷ p2 ∷ p3 ∷ []

  pub flatten-three : p1 ++ (p2 ++ (p3 ++ p4)) ≡ flatten three ++ p4
  unfolding flatten three
  flatten-three = simp (append_assoc, append-nil)

  pub three_fit : total three ≤ length (p1 ++ (p2 ++ (p3 ++ p4)))
  unfolding total three
  three_fit =
      omega (
        arith,
        length-append p1 (p2 ++ (p3 ++ p4)),
        length-append p2 (p3 ++ p4),
        length-append p3 p4,
      )

  pub behind_three : drop (total three) (p1 ++ (p2 ++ (p3 ++ p4))) ≡ p4
  unfolding total three
  behind_three =
      drop-skip (length p1) _ p1 _ refl
      ∙ drop-skip (length p2) _ p2 _ refl
      ∙ drop-skip (length p3) 0 p3 p4 refl

  pub assign_fields-three :
      (n : ℕ) (x1 x2 x3 : Bytes) (ys : List Bytes)
      → assign_fields
          (p1 ++ (p2 ++ (p3 ++ p4)))
          0
          (length p1 ∷ length p2 ∷ length p3 ∷ n ∷ [])
          (x1 ∷ x2 ∷ x3 ∷ ys)
        ≡ Option.map
            (◌++◌ (refill x1 p1 ∷ refill x2 p2 ∷ refill x3 p3 ∷ []))
            (assign_fields (p1 ++ (p2 ++ (p3 ++ p4))) (total three) (n ∷ []) ys)
  unfolding three
  assign_fields-three n x1 x2 x3 ys =
      assign_fields-flatten (p1 ++ (p2 ++ (p3 ++ p4))) 0 p4 three (n ∷ []) (x1 ∷ x2 ∷ x3 ∷ []) ys
        refl (omega arith) flatten-three
      ∙ ap
          (λ (k : ℕ).
            Option.map (◌++◌ (refill x1 p1 ∷ refill x2 p2 ∷ refill x3 p3 ∷ []))
              (assign_fields (p1 ++ (p2 ++ (p3 ++ p4))) k (n ∷ []) ys))
          (omega arith)
