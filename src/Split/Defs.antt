-- ===== src/Split/Defs.antt =====
-- The splitting loops of common/Utility.h. The loop variable `start` is the text from there on,
-- and each round takes a row and its delimiter away from it.
use client_server.Base.{
  ℕ, zero, suc, ◌+◌, List, [], ◌∷◌, ◌++◌, Option, none, some, ◌==◌, if◌then◌else◌, Bytes, length,
  take,
}

-- `input.find(delim, start)`: the text before the delimiter and the text behind it.
unfoldable pub find : ℕ → Bytes → Option (Bytes × Bytes)
find delim [] = none
find delim (c ∷ s) =
    if c == delim
    then some ([], s)
    else elim (find delim s) [ none ↦ none | some (before, after) ↦ some (c ∷ before, after) ]

-- With `keep` = 1 a row keeps its delimiter.
abbrev pub row : ℕ → ℕ → Bytes → Bytes → Bytes
row delim keep before after = before ++ take keep (delim ∷ after)

unfoldable pub split_loop : ℕ → ℕ → ℕ → Bytes → List Bytes
split_loop zero delim keep input = []
split_loop (suc fuel) delim keep [] = []
split_loop (suc fuel) delim keep (c ∷ s) = elim (find delim (c ∷ s)) [
  | none ↦ (c ∷ s) ∷ []
  | some (before, after) ↦ row delim keep before after ∷ split_loop fuel delim keep after
]

-- Every round but the last takes a delimiter away, so the size of the text is fuel enough.
unfoldable pub split : Bytes → ℕ → ℕ → List Bytes
unfolding split_loop
split input delim keep = split_loop (length input) delim keep input

-- `rows.emplace_front` in place of `emplace_back`.
unfoldable pub split_reversed_loop : ℕ → ℕ → ℕ → Bytes → List Bytes → List Bytes
split_reversed_loop zero delim keep input rows = rows
split_reversed_loop (suc fuel) delim keep [] rows = rows
split_reversed_loop (suc fuel) delim keep (c ∷ s) rows = elim (find delim (c ∷ s)) [
  | none ↦ (c ∷ s) ∷ rows
  | some (before, after) ↦
      split_reversed_loop fuel delim keep after (row delim keep before after ∷ rows)
]

unfoldable pub split_reversed_order : Bytes → ℕ → ℕ → List Bytes
unfolding split_reversed_loop
split_reversed_order input delim keep = split_reversed_loop (length input) delim keep input []

-- The rows of a vector that is used again: what a new row is, and how a row takes a text.
module _ {A : Type 0} (fresh : A) (assign : A → Bytes → A) where
  -- `rows[index] = …`, with `emplace_back` first if there is no such row.
  unfoldable pub store : ℕ → Bytes → List A → List A
  store zero text [] = assign fresh text ∷ []
  store zero text (r ∷ rows) = assign r text ∷ rows
  store (suc index) text [] = assign fresh text ∷ []
  store (suc index) text (r ∷ rows) = r ∷ store index text rows

  -- The count that is returned, and the vector.
  unfoldable pub reuse_loop : ℕ → ℕ → ℕ → Bytes → ℕ → List A → ℕ × List A
  reuse_loop zero delim keep input index rows = (index, rows)
  reuse_loop (suc fuel) delim keep [] index rows = (index, rows)
  reuse_loop (suc fuel) delim keep (c ∷ s) index rows = elim (find delim (c ∷ s)) [
    | none ↦ (index, store index (c ∷ s) rows)
    | some (before, after) ↦
        reuse_loop fuel delim keep after (index + 1)
          (store index (row delim keep before after) rows)
  ]

  unfoldable pub split_reuse_vector : Bytes → ℕ → ℕ → List A → ℕ × List A
  unfolding reuse_loop store
  split_reuse_vector input delim keep rows = reuse_loop (length input) delim keep input 0 rows
