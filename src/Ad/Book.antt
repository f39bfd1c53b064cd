-- ===== src/Ad/Book.antt =====
-- What `readAds` builds: the map groups the advertisements by size, in the order of the lines, and
-- the bids of each are sorted.
use mathlib.Core.Option.{some-injective}
use client_server.Base.{
  ℕ, true, List, [], ◌∷◌, ◌++◌, some, ◌≡◌, refl, subst, arith, if◌then◌else◌, Bytes, All,
  All-append, IsSorted, sort-IsSorted, bytes_order, Bool-cases, Option-cases, inl, inr, append-nil,
  StrictOrder, length, codes,
}
use client_server.Charconv.{Charconv}
use client_server.Request.{SizeTuple, size_eq, size_eq_iff}
use client_server.Split.Any.{split_any}
use client_server.Ad.Defs.{
  Ad, AdBook, Money, bid_lt, empty_book, parse_attributes, bids_of, parse_array, read_ad, add_ad,
  take_line, read_ads, find_ads, get_ads_by_size,
}

-- The advertisements of one size, in their order.
abbrev pub of_size : SizeTuple → List Ad → List Ad
of_size key [] = []
of_size key (ad ∷ ads) = if size_eq ad.size_key key then ad ∷ of_size key ads else of_size key ads

of_size-append :
    (key : SizeTuple) (xs ys : List Ad) → of_size key (xs ++ ys) ≡ of_size key xs ++ of_size key ys
of_size-append key [] ys = refl
of_size-append key (x ∷ xs) ys = ground (arith, of_size-append key xs ys)

size_eq_refl : (k : SizeTuple) → size_eq k k ≡ true
size_eq_refl k = (size_eq_iff k k).1 refl

-- A look-up after `emplace` and `push_back`.
find_ads-add_ad :
    (key k : SizeTuple) (ad : Ad) (m : List (SizeTuple × List Ad))
    → find_ads key (add_ad k ad m)
      ≡ (if size_eq k key then find_ads key m ++ ad ∷ [] else find_ads key m)
unfolding find_ads add_ad
find_ads-add_ad key k ad [] = refl
find_ads-add_ad key k ad ((j, ads) ∷ m) =
    ground
      (arith, size_eq_iff j k, size_eq_iff j key, size_eq_iff k key, find_ads-add_ad key k ad m)

-- The map shows what was read.
pub Agrees : AdBook → Type 0
Agrees book = (key : SizeTuple) → find_ads key book.map_by_size ≡ of_size key book.ads

abbrev pub BidsSorted : Ad → Type 0
BidsSorted ad = IsSorted bid_lt ad.bids

bid_order : StrictOrder bid_lt
bid_order = record {
  asym = λ a b h. bytes_order.asym a.keyword b.keyword h;
  chain = λ a b c h k. bytes_order.chain a.keyword b.keyword c.keyword h k;
}

Agrees-add :
    (book : AdBook) (ad : Ad)
    → Agrees book
    → Agrees
        (record { ads = book.ads ++ ad ∷ []; map_by_size = add_ad ad.size_key ad book.map_by_size })
unfolding Agrees
Agrees-add book ad g key = ground (
  arith,
  find_ads-add_ad key ad.size_key ad book.map_by_size,
  of_size-append key book.ads (ad ∷ []),
  g key,
  append-nil (of_size key book.ads),
)

module _ ⦃conv : Charconv⦄ ⦃m : Money⦄ where
  take_line-Agrees : (book : AdBook) (line : Bytes) → Agrees book → Agrees (take_line book line)
  unfolding take_line
  take_line-Agrees book line g = elim (Option-cases (read_ad (length book.ads) line)) [
    | inl e ↦ rw (e, take_line) g
    | inr (ad, e) ↦ rw (e, take_line) (Agrees-add book ad g)
  ]

  read_ads-Agrees :
      (book : AdBook) (lines : List Bytes) → Agrees book → Agrees (read_ads book lines)
  unfolding read_ads
  read_ads-Agrees book [] g = g
  read_ads-Agrees book (line ∷ lines) g =
      read_ads-Agrees (take_line book line) lines (take_line-Agrees book line g)

  empty_book-Agrees : Agrees empty_book
  unfolding Agrees find_ads
  empty_book-Agrees key = refl

  -- After any lines were read, the look-up of a size returns all advertisements of this size that
  -- were taken up, in the order of their lines.
  pub get_ads_by_size-read_ads :
      (lines : List Bytes) (key : SizeTuple)
      → get_ads_by_size (read_ads empty_book lines) key
        ≡ of_size key (read_ads empty_book lines).ads
  unfolding get_ads_by_size Agrees
  get_ads_by_size-read_ads lines key = read_ads-Agrees empty_book lines empty_book-Agrees key

  parse_array-BidsSorted :
      (handle : ℕ) (ad ad' : Ad) → parse_array handle ad ≡ some ad' → BidsSorted ad'
  unfolding parse_array
  parse_array-BidsSorted handle ad ad' h =
      let bids = bids_of handle ad.default_bid (split_any ad.array (codes "\", ")) in
      elim (Option-cases bids) [
        | inl e ↦ cc (rw (e, parse_array) at h)
        | inr (bs, e) ↦
            subst BidsSorted (some-injective _ _ (rw (e, parse_array) at h))
              (sort-IsSorted bid_lt bid_order bs)
      ]

  read_ad-BidsSorted :
      (handle : ℕ) (line : Bytes) (ad : Ad) → read_ad handle line ≡ some ad → BidsSorted ad
  unfolding read_ad
  read_ad-BidsSorted handle line ad h = elim (Option-cases (parse_attributes line)) [
    | inl e ↦ cc (rw (e, read_ad) at h)
    | inr (ad0, e) ↦ parse_array-BidsSorted handle ad0 ad (rw (e, read_ad) at h)
  ]

  take_line-BidsSorted :
      (book : AdBook) (line : Bytes)
      → All BidsSorted book.ads
      → All BidsSorted (take_line book line).ads
  unfolding take_line
  take_line-BidsSorted book line s = elim (Option-cases (read_ad (length book.ads) line)) [
    | inl e ↦ rw (e, take_line) s
    | inr (ad, e) ↦
        rw (e, take_line)
          (All-append BidsSorted book.ads (ad ∷ []) s
            (read_ad-BidsSorted (length book.ads) line ad e, tt))
  ]

  read_ads-BidsSorted :
      (book : AdBook) (lines : List Bytes)
      → All BidsSorted book.ads
      → All BidsSorted (read_ads book lines).ads
  unfolding read_ads
  read_ads-BidsSorted book [] s = s
  read_ads-BidsSorted book (line ∷ lines) s =
      read_ads-BidsSorted (take_line book line) lines (take_line-BidsSorted book line s)

  of_size-BidsSorted :
      (key : SizeTuple) (ads : List Ad) → All BidsSorted ads → All BidsSorted (of_size key ads)
  of_size-BidsSorted key [] s = tt
  of_size-BidsSorted key (ad ∷ ads) s = elim (Bool-cases (size_eq ad.size_key key)) [
    | inl e ↦ rw e (s.0, of_size-BidsSorted key ads s.1)
    | inr e ↦ rw e (of_size-BidsSorted key ads s.1)
  ]

  -- After any lines were read, the bids of every advertisement that a look-up returns are sorted
  -- by keyword.
  pub get_ads_by_size-BidsSorted :
      (lines : List Bytes) (key : SizeTuple)
      → All BidsSorted (get_ads_by_size (read_ads empty_book lines) key)
  get_ads_by_size-BidsSorted lines key =
      rw (get_ads_by_size-read_ads lines key)
        (of_size-BidsSorted key _ (read_ads-BidsSorted empty_book lines tt))
