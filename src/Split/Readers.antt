-- ===== src/Split/Readers.antt =====
-- common/Lines2.h, common/StringLines2.cpp and common/FileLines2.cpp: readers that cut a text into
-- rows, the last one first, and give them out from the back.
use mathlib.Core.List.{reverse, reverse-reverse}
use client_server.Base.{
  ◌≤◌, append-nil, ℕ, zero, suc, ◌+◌, List, [], ◌∷◌, Option, none, some, ◌≡◌, refl, ap, ◌∙◌, Bytes,
  length, arith,
}
use client_server.Split.Defs.{split, split_reversed_loop}
use client_server.Split.Rows.{split_reversed_loop-reverse}

-- `read` counts the lines given out: `_index` is one less.
pub record Lines2 : Type 0 where
  pub lines : List Bytes
  pub read : ℕ

-- The deque is static: what another reader of the thread left there stays behind the new rows.
unfoldable pub string_lines2 : List Bytes → Bytes → ℕ → ℕ → Lines2
string_lines2 old source delim keep = record {
  lines = split_reversed_loop (length source) delim keep source old;
  read = 0;
}

unfoldable pub get_line : Lines2 → Option (Bytes × Lines2)
get_line r = elim (reverse r.lines) [
  | [] ↦ none
  | line ∷ rest ↦ some (line, record { lines = reverse rest; read = r.read + 1 })
]

-- The lines that a caller reads until there are no more, `fuel` of them at most.
unfoldable pub read_all : ℕ → Lines2 → List Bytes
read_all zero r = []
read_all (suc fuel) r = elim (get_line r) [ none ↦ [] | some (line, r') ↦ line ∷ read_all fuel r' ]

given : List Bytes → ℕ → Option (Bytes × Lines2)
given [] k = none
given (line ∷ rest) k = some (line, record { lines = reverse rest; read = k + 1 })

get_line-given :
    (xs : List Bytes) (k : ℕ) → get_line (record { lines = reverse xs; read = k }) ≡ given xs k
unfolding get_line given
get_line-given xs k = rw (get_line, reverse-reverse xs) (same xs k)
  where
    same :
        (ys : List Bytes) (k : ℕ)
        → elim ys [
          | [] ↦ none
          | line ∷ rest ↦ some (line, record { lines = reverse rest; read = k + 1 })
        ]
          ≡ given ys k
    same [] k = refl
    same (y ∷ ys) k = refl

read_all-reverse :
    (fuel k : ℕ) (xs : List Bytes)
    → length xs ≤ fuel
    → read_all fuel (record { lines = reverse xs; read = k }) ≡ xs
unfolding read_all given
read_all-reverse zero k [] enough = refl
read_all-reverse zero k (x ∷ xs) enough = absurd (omega arith)
read_all-reverse (suc fuel) k [] enough = rw (read_all, get_line-given [] k) refl
read_all-reverse (suc fuel) k (x ∷ xs) enough =
    rw (read_all, get_line-given (x ∷ xs) k)
      (ap (◌∷◌ x) (read_all-reverse fuel (k + 1) xs (omega arith)))

-- If no reader of the thread left lines behind, a reader over a text gives out just the rows of
-- split, in their order, to a caller who asks for as many lines or more.
pub read_all-string_lines2 :
    (source : Bytes) (delim keep fuel : ℕ)
    → length (split source delim keep) ≤ fuel
    → read_all fuel (string_lines2 [] source delim keep) ≡ split source delim keep
unfolding string_lines2 split
read_all-string_lines2 source delim keep fuel enough =
    ap (λ ls. read_all fuel (record { lines = ls; read = 0 }))
      (split_reversed_loop-reverse (length source) delim keep source [] ∙ append-nil _)
    ∙ read_all-reverse fuel 0 (split source delim keep) enough
