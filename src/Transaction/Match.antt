-- ===== src/Transaction/Match.antt =====
-- Matching of business/Transaction.cpp: the bids of an advertisement whose keywords were asked
-- for, and the bid that wins.
use client_server.Base.{
  ℕ, ◌+◌, List, [], ◌∷◌, ◌++◌, Option, none, if◌then◌else◌, Bytes, ℤ, to_int, ltb_ℤ, bytes_lt,
  get_elem?,
}
use client_server.Ad.{AdBid, Ad}

-- `std::set_intersection` with `Comparator`: a step of the merge drops the smaller head, or copies
-- the bid and drops both.
unfoldable pub set_intersection : List AdBid → List Bytes → List AdBid
set_intersection [] keywords = []
set_intersection (bid ∷ bids) [] = []
set_intersection (bid ∷ bids) (keyword ∷ keywords) =
    let next_bid = set_intersection bids (keyword ∷ keywords) in
    let next_keyword = set_intersection (bid ∷ bids) keywords in
    let next_both = set_intersection bids keywords in
    if bytes_lt bid.keyword keyword
    then next_bid
    else if bytes_lt keyword bid.keyword
    then next_keyword
    else bid ∷ next_both

unfoldable pub match_bids : List Ad → List Bytes → List AdBid
unfolding set_intersection
match_bids [] keywords = []
match_bids (ad ∷ ads) keywords = set_intersection ad.bids keywords ++ match_bids ads keywords

-- The loop of `findWinningBid` from the place `i` on: amounts are compared as `int`s.
unfoldable pub find_max : List AdBid → ℕ → ℕ → ℤ → ℕ
find_max [] i index max = index
find_max (bid ∷ bids) i index max =
    let money = to_int bid.money in
    find_max bids (i + 1) (if ltb_ℤ max money then i else index)
      (if ltb_ℤ max money then money else max)

-- It is called with one bid at least.
unfoldable pub find_winning_bid : List AdBid → Option AdBid
unfolding find_max
find_winning_bid [] = none
find_winning_bid (bid ∷ bids) = get_elem? (bid ∷ bids) (find_max bids 1 0 (to_int bid.money))
