-- ===== src/Split/Reuse.antt =====
-- What `splitReuseVector` leaves in the vector, and the count that it returns.
use client_server.Base.{
  ℕ, zero, suc, ◌+◌, ◌≤◌, List, [], ◌∷◌, ◌++◌, Option, none, some, ◌==◌, if◌then◌else◌, Bytes,
  length, take, arith, ◌≡◌, refl, sym, ap, subst, ◌∙◌, append_assoc, append-nil, map, ==_iff,
}
use client_server.Split.Defs.{find, row, split_loop, split, store, reuse_loop, split_reuse_vector}
use client_server.Split.Rows.{
  Found, nowhere, between, find-Found, Without, shorter, round, split_loop-round,
}

-- How often a byte stands in a text.
abbrev pub count : ℕ → Bytes → ℕ
count b [] = 0
count b (c ∷ s) = (if c == b then 1 else 0) + count b s

count-Without : (delim : ℕ) (s : Bytes) → Without delim s → count delim s ≡ 0
count-Without delim [] w = refl
count-Without delim (c ∷ s) w = rw w.0 (omega (arith, count-Without delim s w.1))

count-closed :
    (delim : ℕ) (before after : Bytes)
    → Without delim before
    → count delim (before ++ (delim ∷ after)) ≡ suc (count delim after)
count-closed delim [] after w = rw ((==_iff delim delim).1 refl) (omega arith)
count-closed delim (c ∷ b) after w = rw w.0 (omega (arith, count-closed delim b after w.1))

module _ {A : Type 0} (fresh : A) (assign : A → Bytes → A) (input_of : A → Bytes) where
  -- Up to the row that is written the inputs stay, and the row has the text.
  store_inputs :
      ((a : A) (text : Bytes) → input_of (assign a text) ≡ text)
      → (index : ℕ) (text : Bytes) (rows : List A) → index ≤ length rows
      → map input_of (take (suc index) (store fresh assign index text rows))
        ≡ map input_of (take index rows) ++ text ∷ []
  unfolding store
  store_inputs takes zero text [] h = rw (takes fresh text)
  store_inputs takes zero text (r ∷ rows) h = rw (takes r text)
  store_inputs takes (suc index) text [] h = absurd (omega arith)
  store_inputs takes (suc index) text (r ∷ rows) h =
      ap (◌∷◌ (input_of r)) (store_inputs takes index text rows (omega arith))

  length-store :
      (index : ℕ) (text : Bytes) (rows : List A)
      → index ≤ length rows
      → suc index ≤ length (store fresh assign index text rows)
  unfolding store
  length-store zero text [] h = omega arith
  length-store zero text (r ∷ rows) h = omega arith
  length-store (suc index) text [] h = absurd (omega arith)
  length-store (suc index) text (r ∷ rows) h =
      omega (arith, length-store index text rows (omega arith))

  -- The vector holds the rows of the text from `index` on, and the count is that of delimiters.
  pub record Filled (delim index : ℕ) (s : Bytes) (out : List Bytes) (rows : List A)
      (r : ℕ × List A) : Type 0 where
    pub counted : r.0 ≡ index + count delim s
    pub filled :
        map input_of (take (index + length out) r.1) ≡ map input_of (take index rows) ++ out
    pub enough : index + length out ≤ length r.1

  reuse_round : ℕ → ℕ → ℕ → Bytes → ℕ → List A → Option (Bytes × Bytes) → ℕ × List A
  reuse_round fuel delim keep input index rows none = (index, store fresh assign index input rows)
  reuse_round fuel delim keep input index rows (some (b, a)) =
      reuse_loop fresh assign fuel delim keep a (index + 1)
        (store fresh assign index (row delim keep b a) rows)

  reuse_loop-round :
      (fuel delim keep c : ℕ) (s : Bytes) (index : ℕ) (rows : List A)
      → reuse_loop fresh assign (suc fuel) delim keep (c ∷ s) index rows
        ≡ reuse_round fuel delim keep (c ∷ s) index rows (find delim (c ∷ s))
  unfolding reuse_loop reuse_round
  reuse_loop-round fuel delim keep c s index rows = refl

  one_more : (n : ℕ) (out : List Bytes) → n + 1 + length out ≡ n + suc (length out)
  one_more n out = omega arith

  Filled-step :
      (delim index : ℕ) (s b a text : Bytes) (out : List Bytes) (rows : List A) (r : ℕ × List A)
      → ((x : A) (t : Bytes) → input_of (assign x t) ≡ t)
      → index ≤ length rows
      → s ≡ b ++ (delim ∷ a)
      → Without delim b
      → Filled delim (index + 1) a out (store fresh assign index text rows) r
      → Filled delim index s (text ∷ out) rows r
  Filled-step delim index s b a text out rows r takes h e w f = record {
    counted = omega (arith, f.counted, ap (count delim) e, count-closed delim b a w);
    filled =
        ap (λ (n : ℕ). map input_of (take n r.1)) (sym (one_more index out))
        ∙ f.filled
        ∙ ap (λ (n : ℕ). map input_of (take n (store fresh assign index text rows)) ++ out)
            {y = suc index} (omega arith)
        ∙ ap (λ l. l ++ out) (store_inputs takes index text rows h)
        ∙ append_assoc (map input_of (take index rows)) (text ∷ []) out;
    enough = omega (arith, f.enough);
  }

  Filled-last :
      (delim index : ℕ) (s : Bytes) (rows : List A)
      → ((x : A) (t : Bytes) → input_of (assign x t) ≡ t)
      → index ≤ length rows
      → Without delim s
      → Filled delim index s (s ∷ []) rows (index, store fresh assign index s rows)
  Filled-last delim index s rows takes h w = record {
    counted = omega (arith, count-Without delim s w);
    filled =
        ap (λ (n : ℕ). map input_of (take n (store fresh assign index s rows))) {y = suc index}
          (omega arith)
        ∙ store_inputs takes index s rows h;
    enough = omega (arith, length-store index s rows h);
  }

  Filled-none :
      (delim index : ℕ) (rows : List A)
      → index ≤ length rows
      → Filled delim index [] [] rows (index, rows)
  Filled-none delim index rows h = record {
    counted = omega arith;
    filled = ap (λ (n : ℕ). map input_of (take n rows)) (omega arith) ∙ sym (append-nil _);
    enough = omega arith;
  }

  module _ (takes : (x : A) (t : Bytes) → input_of (assign x t) ≡ t) (delim keep : ℕ) where
    reuse_round-Filled :
        (fuel c : ℕ) (s : Bytes) (index : ℕ) (rows : List A) (o : Option (Bytes × Bytes))
        → ((after : Bytes) (i : ℕ) (rs : List A)
            → length after ≤ fuel
            → i ≤ length rs
            → Filled delim i after
                (split_loop fuel delim keep after)
                rs
                (reuse_loop fresh assign fuel delim keep after i rs))
        → length s ≤ fuel
        → index ≤ length rows
        → Found delim (c ∷ s) o
        → Filled delim index
            (c ∷ s)
            (round fuel delim keep (c ∷ s) o)
            rows
            (reuse_round fuel delim keep (c ∷ s) index rows o)
    unfolding round reuse_round
    reuse_round-Filled fuel c s index rows none ih h i (nowhere w) =
        Filled-last delim index (c ∷ s) rows takes i w
    reuse_round-Filled fuel c s index rows (some (b, a)) ih h i (between _ _ e w) =
        Filled-step delim index (c ∷ s) b a (row delim keep b a) _ rows _ takes i e w (
          ih a (index + 1) _ (shorter delim fuel c s b a e h)
            (omega (arith, length-store index (row delim keep b a) rows i)))

    reuse_loop-Filled :
        (fuel : ℕ) (s : Bytes) (index : ℕ) (rows : List A)
        → length s ≤ fuel
        → index ≤ length rows
        → Filled delim index s
            (split_loop fuel delim keep s)
            rows
            (reuse_loop fresh assign fuel delim keep s index rows)
    unfolding reuse_loop split_loop
    reuse_loop-Filled zero [] index rows h i = Filled-none delim index rows i
    reuse_loop-Filled zero (c ∷ s) index rows h i = absurd (omega arith)
    reuse_loop-Filled (suc fuel) [] index rows h i = Filled-none delim index rows i
    reuse_loop-Filled (suc fuel) (c ∷ s) index rows h i =
        subst
          (λ l.
            Filled delim index (c ∷ s) l rows
              (reuse_loop fresh assign (suc fuel) delim keep (c ∷ s) index rows))
          (sym (split_loop-round fuel delim keep c s))
          (subst
            (λ l.
              Filled delim index (c ∷ s) (round fuel delim keep (c ∷ s) (find delim (c ∷ s))) rows
                l)
            (sym (reuse_loop-round fuel delim keep c s index rows))
            (reuse_round-Filled fuel c s index rows _ (reuse_loop-Filled fuel) (omega arith) i
              (find-Found delim (c ∷ s))))

    -- If a row that takes a text has this text as its input, splitReuseVector leaves the rows of
    -- the text at the start of the vector, whatever it held, and returns the number of
    -- delimiters: a last row that no delimiter ends is stored and not counted.
    pub split_reuse_vector-Filled :
        (input : Bytes) (rows : List A)
        → Filled delim 0 input
            (split input delim keep)
            rows
            (split_reuse_vector fresh assign input delim keep rows)
    unfolding split_reuse_vector split
    split_reuse_vector-Filled input rows =
        reuse_loop-Filled (length input) input 0 rows (omega arith) (omega arith)
