-- ===== src/Ad/Defs.antt =====
-- business/Ad.h, business/Ad.cpp and business/AdBid.h: an advertisement with its bids, read from a
-- line of text, and the map of the advertisements by size.
use mathlib.Core.Option
use client_server.Base.{
  ℕ, ◌^◌, ◌+◌, Bool, false, List, [], ◌∷◌, ◌++◌, Option, none, some, if◌then◌else◌, Bytes, codes,
  length, ℤ, pos, negsuc, is_zero, bytes_lt, sort, get_elem?,
}
use client_server.Charconv.{Charconv}
use client_server.Header.{to_chars_boost, from_chars_boost}
use client_server.Request.{SizeTuple, size_eq}
use client_server.Split.Any.{split_any}

-- Floating point. `cents_of` is `lround(d * 100)` for the number `d` that `std::from_chars` reads,
-- or `none` where that throws; `show_cents` prints a number of cents over 100 with one decimal.
pub record Money : Type 0 where
  pub cents_of : Bytes → Option ℤ
  pub show_cents : ℤ → Bytes

-- A bid knows its advertisement by a weak pointer: here its place among the advertisements read.
pub record AdBid : Type 0 where
  pub ad : ℕ
  pub keyword : Bytes
  pub money : ℤ

pub record Ad : Type 0 where
  pub id : Bytes
  pub size_key : SizeTuple
  pub bids : List AdBid
  pub default_bid : ℤ
  pub input : Bytes
  pub array : Bytes

abbrev pub bid_lt : AdBid → AdBid → Bool
bid_lt a b = bytes_lt a.keyword b.keyword

-- The static state: the advertisements that were read, and the map by size.
pub record AdBook : Type 0 where
  pub ads : List Ad
  pub map_by_size : List (SizeTuple × List Ad)

abbrev pub empty_book : AdBook
empty_book = record { ads = []; map_by_size = [] }

-- `_mapBySize.emplace(key, empty)`, then `push_back`
unfoldable pub add_ad : SizeTuple → Ad → List (SizeTuple × List Ad) → List (SizeTuple × List Ad)
add_ad key ad [] = (key, ad ∷ []) ∷ []
add_ad key ad ((k, ads) ∷ rest) =
    if size_eq k key then (k, ads ++ ad ∷ []) ∷ rest else (k, ads) ∷ add_ad key ad rest

module _ ⦃conv : Charconv⦄ ⦃m : Money⦄ where
  -- `parseAttributes` on the four fields of the first part; `none` where the constructor throws.
  unfoldable pub parse_attributes : Bytes → Option Ad
  parse_attributes line = elim (split_any line (codes "[]")) [
    | ad_part ∷ bid_part ∷ [] ↦ elim (split_any ad_part (codes ", ")) [
      | id ∷ width ∷ height ∷ money ∷ [] ↦ elim (from_chars_boost (2 ^ 32) width) [
        | none ↦ none
        | some w ↦ elim (from_chars_boost (2 ^ 32) height) [
          | none ↦ none
          | some h ↦
              Option.map
                (λ bid. record {
                  id = id;
                  size_key = record { width = w; height = h };
                  bids = [];
                  default_bid = bid;
                  input = line;
                  array = bid_part;
                })
                (m.cents_of money)
        ]
      ]
      | _ ↦ none
    ]
    | _ ↦ none
  ]

  -- A bid of 0 stands for the default bid.
  unfoldable pub bids_of : ℕ → ℤ → List Bytes → Option (List AdBid)
  bids_of ad default_bid (keyword ∷ money ∷ rest) = elim (m.cents_of money) [
    | none ↦ none
    | some c ↦
        Option.map
          (◌∷◌
            (record { ad = ad; keyword = keyword; money = if is_zero c then default_bid else c }))
          (bids_of ad default_bid rest)
  ]
  bids_of ad default_bid (keyword ∷ []) = some []
  bids_of ad default_bid [] = some []

  -- `parseArray`; the bids are sorted by keyword.
  unfoldable pub parse_array : ℕ → Ad → Option Ad
  parse_array handle ad =
      Option.map (λ bids. record ad { bids = sort bid_lt bids })
        (bids_of handle ad.default_bid (split_any ad.array (codes "\", ")))

  -- One line that `readAds` takes up, as the advertisement with the given place.
  unfoldable pub read_ad : ℕ → Bytes → Option Ad
  read_ad handle line = elim (parse_attributes line) [
    | none ↦ none
    | some ad ↦ parse_array handle ad
  ]

  unfoldable pub take_line : AdBook → Bytes → AdBook
  take_line book line = elim (read_ad (length book.ads) line) [
    | none ↦ book
    | some ad ↦ record {
      ads = book.ads ++ ad ∷ [];
      map_by_size = add_ad ad.size_key ad book.map_by_size;
    }
  ]

  -- `readAds` on the lines of the file: a line that throws is skipped.
  unfoldable pub read_ads : AdBook → List Bytes → AdBook
  unfolding take_line
  read_ads book [] = book
  read_ads book (line ∷ lines) = read_ads (take_line book line) lines

-- `getAdsBySize`
unfoldable pub find_ads : SizeTuple → List (SizeTuple × List Ad) → List Ad
find_ads key [] = []
find_ads key ((k, ads) ∷ rest) =
    let later = find_ads key rest in if size_eq k key then ads else later

unfoldable pub get_ads_by_size : AdBook → SizeTuple → List Ad
unfolding find_ads
get_ads_by_size book key = find_ads key book.map_by_size

-- `_ad.lock()`
unfoldable pub lock_ad : AdBook → AdBid → Option Ad
lock_ad book bid = get_elem? book.ads bid.ad

module _ ⦃conv : Charconv⦄ where
  unfoldable pub show_long : ℤ → Bytes
  show_long (pos n) = to_chars_boost n false
  show_long (negsuc n) = b'-' ∷ to_chars_boost (n + 1) false

  unfoldable pub show_size : SizeTuple → Bytes
  show_size key = to_chars_boost key.width false ++ b'x' ∷ to_chars_boost key.height false

  unfoldable pub print_bids : List AdBid → Bytes
  unfolding show_long
  print_bids [] = []
  print_bids (bid ∷ bids) =
      codes "  " ++ (bid.keyword ++ (b' ' ∷ (show_long bid.money ++ b'\n' ∷ print_bids bids)))

  -- What `print` appends to the output.
  unfoldable pub print_ad : Ad → Bytes
  unfolding show_size print_bids
  print_ad ad =
      codes "Ad"
      ++ (ad.id
          ++ (codes " size="
              ++ (show_size ad.size_key
                  ++ (codes " defaultBid="
                      ++ (show_long ad.default_bid
                          ++ (codes "\n " ++ (ad.input ++ b'\n' ∷ print_bids ad.bids)))))))
