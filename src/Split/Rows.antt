-- ===== src/Split/Rows.antt =====
-- What `split` returns.
use mathlib.Core.List.{flatten, reverse, reverse-cons}
use client_server.Base.{
  Bool-cases, ℕ, zero, suc, ◌≤◌, false, List, [], ◌∷◌, ◌++◌, Option, none, some, ◌==◌,
  if◌then◌else◌, Bytes, length, arith, ◌≡◌, refl, sym, ap, ◌∙◌, append_assoc, append-nil, All,
  length-append, Option-cases, inl, inr, ==_iff,
}
use client_server.Split.Defs.{
  find, row, split_loop, split, split_reversed_loop, split_reversed_order,
}

-- The rows of a text with no delimiter kept, by recursion on its bytes: an open last row counts.
abbrev pub grow : ℕ → List Bytes → List Bytes
grow c [] = (c ∷ []) ∷ []
grow c (r ∷ rows) = (c ∷ r) ∷ rows

abbrev pub rows_of : ℕ → Bytes → List Bytes
rows_of delim [] = []
rows_of delim (c ∷ s) = if c == delim then [] ∷ rows_of delim s else grow c (rows_of delim s)

abbrev pub Without : ℕ → Bytes → Type 0
Without delim = All (λ c. (c == delim) ≡ false)

pub data Found (delim : ℕ) (s : Bytes) : Option (Bytes × Bytes) → Type 0 where
  nowhere : Without delim s → Found delim s none
  between :
      (before after : Bytes)
      → s ≡ before ++ (delim ∷ after)
      → Without delim before
      → Found delim s (some (before, after))

Found-cons :
    (delim c : ℕ) (s : Bytes) (o : Option (Bytes × Bytes))
    → (c == delim) ≡ false
    → Found delim s o
    → Found delim (c ∷ s) (elim o [ none ↦ none | some (before, after) ↦ some (c ∷ before, after) ])
Found-cons delim c s none e (nowhere w) = nowhere (e, w)
Found-cons delim c s (some (b, a)) e (between _ _ eq w) = between (c ∷ b) a (ap (◌∷◌ c) eq) (e, w)

-- What `find` returns says where the delimiter is.
pub find-Found : (delim : ℕ) (s : Bytes) → Found delim s (find delim s)
unfolding find
find-Found delim [] = nowhere tt
find-Found delim (c ∷ s) = elim (Bool-cases (c == delim)) [
  | inl e ↦ rw e (between [] s (ap (λ x. x ∷ s) ((==_iff c delim).0 e)) tt)
  | inr e ↦ rw e (Found-cons delim c s (find delim s) e (find-Found delim s))
]

rows_of_closed :
    (delim : ℕ) (before after : Bytes)
    → Without delim before
    → rows_of delim (before ++ (delim ∷ after)) ≡ before ∷ rows_of delim after
rows_of_closed delim [] after w = rw ((==_iff delim delim).1 refl)
rows_of_closed delim (c ∷ b) after w = rw (w.0, rows_of_closed delim b after w.1)

rows_of_open :
    (delim c : ℕ) (s : Bytes) → Without delim (c ∷ s) → rows_of delim (c ∷ s) ≡ (c ∷ s) ∷ []
rows_of_open delim c [] w = rw w.0
rows_of_open delim c (d ∷ s) w = rw (w.0, rows_of_open delim d s w.1)

pub shorter :
    (delim fuel c : ℕ) (s before after : Bytes)
    → c ∷ s ≡ before ++ (delim ∷ after)
    → length s ≤ fuel
    → length after ≤ fuel
shorter delim fuel c s before after e h =
    omega (arith, ap length e, length-append before (delim ∷ after))

reverse-last {ℓ} :
    {A : Type ℓ} (x : A) (xs ys : List A) → reverse xs ++ x ∷ ys ≡ reverse (x ∷ xs) ++ ys
reverse-last x xs ys = simp (reverse-cons, append_assoc)

-- One round of `split_loop`, given what `find` returned.
unfoldable pub round : ℕ → ℕ → ℕ → Bytes → Option (Bytes × Bytes) → List Bytes
round fuel delim keep input none = input ∷ []
round fuel delim keep input (some (before, after)) =
    row delim keep before after ∷ split_loop fuel delim keep after

pub split_loop-round :
    (fuel delim keep c : ℕ) (s : Bytes)
    → split_loop (suc fuel) delim keep (c ∷ s) ≡ round fuel delim keep (c ∷ s) (find delim (c ∷ s))
unfolding split_loop round
split_loop-round fuel delim keep c s = refl

-- The loop with the rows that it returns in front of a text's own rows.
round-rows_of :
    (fuel delim c : ℕ) (s : Bytes) (o : Option (Bytes × Bytes))
    → ((after : Bytes) → length after ≤ fuel → split_loop fuel delim 0 after ≡ rows_of delim after)
    → length s ≤ fuel
    → Found delim (c ∷ s) o
    → round fuel delim 0 (c ∷ s) o ≡ rows_of delim (c ∷ s)
unfolding round
round-rows_of fuel delim c s none ih h (nowhere w) = sym (rows_of_open delim c s w)
round-rows_of fuel delim c s (some (b, a)) ih h (between _ _ e w) =
    rw (append-nil, ih a (shorter delim fuel c s b a e h))
      (sym (ap (rows_of delim) e ∙ rows_of_closed delim b a w))

split_loop-rows_of :
    (fuel delim : ℕ) (s : Bytes) → length s ≤ fuel → split_loop fuel delim 0 s ≡ rows_of delim s
unfolding split_loop
split_loop-rows_of zero delim [] h = refl
split_loop-rows_of zero delim (c ∷ s) h = absurd (omega arith)
split_loop-rows_of (suc fuel) delim [] h = refl
split_loop-rows_of (suc fuel) delim (c ∷ s) h =
    split_loop-round fuel delim 0 c s
    ∙ round-rows_of fuel delim c s _ (split_loop-rows_of fuel delim) (omega arith)
        (find-Found delim (c ∷ s))

-- The loop of split, with no delimiter kept, returns the rows of a text as recursion on its bytes
-- describes them, an open last row included.
pub split-rows_of : (input : Bytes) (delim : ℕ) → split input delim 0 ≡ rows_of delim input
unfolding split
split-rows_of input delim = split_loop-rows_of (length input) delim input (omega arith)

round-flatten :
    (fuel delim c : ℕ) (s : Bytes) (o : Option (Bytes × Bytes))
    → ((after : Bytes) → length after ≤ fuel → flatten (split_loop fuel delim 1 after) ≡ after)
    → length s ≤ fuel
    → Found delim (c ∷ s) o
    → flatten (round fuel delim 1 (c ∷ s) o) ≡ c ∷ s
unfolding round flatten
round-flatten fuel delim c s none ih h (nowhere w) = rw append-nil
round-flatten fuel delim c s (some (b, a)) ih h (between _ _ e w) =
    rw (ih a (shorter delim fuel c s b a e h), e) (append_assoc b (delim ∷ []) a)

split_loop-flatten :
    (fuel delim : ℕ) (s : Bytes) → length s ≤ fuel → flatten (split_loop fuel delim 1 s) ≡ s
unfolding split_loop flatten
split_loop-flatten zero delim [] h = refl
split_loop-flatten zero delim (c ∷ s) h = absurd (omega arith)
split_loop-flatten (suc fuel) delim [] h = refl
split_loop-flatten (suc fuel) delim (c ∷ s) h =
    ap flatten (split_loop-round fuel delim 1 c s)
    ∙ round-flatten fuel delim c s _ (split_loop-flatten fuel delim) (omega arith)
        (find-Found delim (c ∷ s))

-- The rows of split with their delimiters kept, put together, are the text.
pub flatten-split : (input : Bytes) (delim : ℕ) → flatten (split input delim 1) ≡ input
unfolding split
flatten-split input delim = split_loop-flatten (length input) delim input (omega arith)

pub split_reversed_loop-reverse :
    (fuel delim keep : ℕ) (s : Bytes) (rows : List Bytes)
    → split_reversed_loop fuel delim keep s rows ≡ reverse (split_loop fuel delim keep s) ++ rows
unfolding split_reversed_loop split_loop
split_reversed_loop-reverse zero delim keep s rows = refl
split_reversed_loop-reverse (suc fuel) delim keep [] rows = refl
split_reversed_loop-reverse (suc fuel) delim keep (c ∷ s) rows =
    elim (Option-cases (find delim (c ∷ s))) [
      | inl e ↦ rw (e, split_reversed_loop, split_loop)
      | inr ((b, a), e) ↦
          rw (e, split_reversed_loop, split_loop)
            (split_reversed_loop-reverse fuel delim keep a (row delim keep b a ∷ rows)
              ∙ reverse-last (row delim keep b a) (split_loop fuel delim keep a) rows)
    ]

-- splitReversedOrder returns the rows of split, the last one first.
pub split_reversed_order-reverse :
    (input : Bytes) (delim keep : ℕ)
    → split_reversed_order input delim keep ≡ reverse (split input delim keep)
unfolding split_reversed_order split
split_reversed_order-reverse input delim keep =
    split_reversed_loop-reverse (length input) delim keep input [] ∙ append-nil _
