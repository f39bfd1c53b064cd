-- ===== src/Split/Any.antt =====
-- `split` by a set of separators (common/Utility.h). The loop variables are the text from there
-- on. A text has no more tokens than bytes, so its size is fuel enough.
use client_server.Base.{
  ℕ, zero, suc, Bool, false, List, [], ◌∷◌, ◌||◌, ◌==◌, if◌then◌else◌, Bytes, length,
}

unfoldable pub is_any_of : Bytes → ℕ → Bool
is_any_of [] c = false
is_any_of (b ∷ separators) c = b == c || is_any_of separators c

-- `find_first_not_of`
unfoldable pub skip_any : Bytes → Bytes → Bytes
unfolding is_any_of
skip_any separators [] = []
skip_any separators (c ∷ s) =
    let rest = skip_any separators s in if is_any_of separators c then rest else c ∷ s

-- `find_first_of`: the text before the first separator and what follows it.
unfoldable pub until_any : Bytes → Bytes → Bytes × Bytes
unfolding is_any_of
until_any separators [] = ([], [])
until_any separators (c ∷ s) =
    let (token, rest) = until_any separators s in
    if is_any_of separators c then ([], s) else (c ∷ token, rest)

unfoldable pub split_any_loop : ℕ → Bytes → Bytes → List Bytes
unfolding skip_any until_any
split_any_loop zero separators input = []
split_any_loop (suc fuel) separators input = elim (skip_any separators input) [
  | [] ↦ []
  | c ∷ s ↦
      (until_any separators (c ∷ s)).0
      ∷ split_any_loop fuel separators (until_any separators (c ∷ s)).1
]

unfoldable pub split_any : Bytes → Bytes → List Bytes
unfolding split_any_loop
split_any input separators = split_any_loop (length input) separators input
