-- ===== src/Transaction/SizeKey.antt =====
-- `createSizeKey` of business/Transaction.cpp. `none` where the source throws.
use client_server.Base.{
  ℕ, ◌^◌, Bool, Option, none, some, [], ◌∷◌, if◌then◌else◌, Bytes, codes, find_text,
}
use client_server.Charconv.{is_digit}
use client_server.Charconv.Std.{from_chars}
use client_server.Request.{SizeTuple, zero_size}

unfoldable pub remove_non_digits : Bytes → Bytes
remove_non_digits [] = []
remove_non_digits (c ∷ s) = let rest = remove_non_digits s in if is_digit c then c ∷ s else rest

-- `std::from_chars` into an `unsigned`.
abbrev pub read_unsigned : Bytes → Option (ℕ × Bytes)
read_unsigned = from_chars (2 ^ 32)

-- Two numbers, each behind what is no digit.
unfoldable pub read_size_key : Bytes → Option SizeTuple
read_size_key text = elim (read_unsigned (remove_non_digits text)) [
  | none ↦ none
  | some (width, rest) ↦ elim (read_unsigned (remove_non_digits rest)) [
    | none ↦ none
    | some (height, _) ↦ some (record { width = width; height = height })
  ]
]

-- Without a regular expression: a request that names no size has the size zero.
unfoldable pub create_size_key_find : Bytes → Option SizeTuple
create_size_key_find request = elim (find_text (codes "size=") request) [
  | some text ↦ read_size_key text
  | none ↦ elim (find_text (codes "ad_width=") request) [
    | some text ↦ read_size_key text
    | none ↦ some zero_size
  ]
]

-- Boost.Regex is the argument `search`: the first match of a pattern in a text.
module _ (search : Bytes → Bytes → Option Bytes) where
  unfoldable pub create_size_key_reg_expr : Bytes → Option SizeTuple
  create_size_key_reg_expr request = elim (search (codes "size=\\d+x\\d+") request) [
    | some matched ↦ read_size_key matched
    | none ↦ elim (search (codes "ad_width=\\d+&ad_height=\\d+") request) [
      | some matched ↦ read_size_key matched
      | none ↦ read_size_key []
    ]
  ]

  unfoldable pub create_size_key : Bool → Bytes → Option SizeTuple
  create_size_key use_regex request =
      if use_regex then create_size_key_reg_expr request else create_size_key_find request
