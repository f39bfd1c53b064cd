-- ===== src/Tests/Logic.antt =====
-- Requests and advertisements at concrete inputs.
use client_server.Base.{
  ℕ, ◌++◌, List, [], ◌∷◌, Option, some, ◌≡◌, refl, Bytes, codes, arith, length, All, min, ◌⊎◌,
  bytes_lt, IsSorted, Bool, true, false, pos, map,
}
use client_server.Request.{SizeTuple, Request, zero_size}
use client_server.Ad.{AdBid, Ad, AdBook, bid_lt, read_ads, empty_book, get_ads_by_size}
use client_server.Ad.Book.{
  of_size, BidsSorted, get_ads_by_size-read_ads, get_ads_by_size-BidsSorted,
}
use client_server.Transaction.{
  Transaction, init, match_ads, Cache, empty_cache, process_request_sort, process_request_no_sort,
  create_size_key_find, set_intersection, find_winning_bid,
}
use client_server.Transaction.Matching.{occurrences, keywords_of, occurrences-set_intersection}
use client_server.Transaction.Winner.{Leads, find_winning_bid-Leads}
use client_server.Transaction.Parsing.{Parts, init-Parts}
use client_server.Transaction.Reply.{
  reply, IsFresh, empty_cache-IsFresh, process_request_sort-reply, process_request_no_sort-sort,
  zero_size_reply, process_request_sort-zero_size, total_matches, match_ads-read_ads,
}
use client_server.Tests.Data.{conv, whole_money, ad_lines, request_text}

abbrev size_300x250 : SizeTuple
size_300x250 = record { width = 300; height = 250 }

abbrev book : AdBook
book = read_ads empty_book ad_lines

abbrev sized_request : Request
sized_request = record { size_key = size_300x250; input = request_text }

get_ads_by_size-read_ads_example : get_ads_by_size book size_300x250 ≡ of_size size_300x250 book.ads
get_ads_by_size-read_ads_example = get_ads_by_size-read_ads ad_lines size_300x250

get_ads_by_size-BidsSorted_example : All BidsSorted (get_ads_by_size book size_300x250)
get_ads_by_size-BidsSorted_example = get_ads_by_size-BidsSorted ad_lines size_300x250

book_test : map (λ ad. ad.id) (get_ads_by_size book size_300x250) ≡ codes "1" ∷ codes "2" ∷ []
unfolding read_ads get_ads_by_size client_server.Ad.read_ad client_server.Ad.parse_attributes
    client_server.Split.Any.split_any client_server.Header.from_chars_boost
    client_server.Charconv.Laws.std_charconv client_server.Ad.parse_array client_server.Ad.bids_of
    client_server.Ad.add_ad client_server.Request.size_eq
book_test = refl

create_size_key_find_test : create_size_key_find request_text ≡ some size_300x250
unfolding create_size_key_find client_server.Base.find_text client_server.Transaction.read_size_key
    client_server.Charconv.Std.from_chars client_server.Transaction.remove_non_digits
create_size_key_find_test = refl

process_request_sort_test :
    (process_request_sort book size_300x250 sized_request false empty_cache).0
    ≡ codes "[7] 2, 900\n"
unfolding process_request_sort client_server.Transaction.is_empty
    client_server.Transaction.print_reply match_ads client_server.Transaction.match_bids
    client_server.Transaction.refresh client_server.Request.size_eq get_ads_by_size read_ads
    client_server.Ad.read_ad client_server.Ad.parse_attributes client_server.Split.Any.split_any
    client_server.Header.from_chars_boost client_server.Charconv.Laws.std_charconv
    client_server.Ad.parse_array client_server.Ad.bids_of client_server.Ad.add_ad
    client_server.Base.sort client_server.Ad.lock_ad client_server.Base.to_int bytes_lt
    client_server.Base.find_text client_server.Charconv.Std.to_chars client_server.Split.find
    client_server.Split.split init client_server.Transaction.parse_any_keywords
    client_server.Transaction.print_summary find_winning_bid set_intersection
    client_server.Transaction.break_keywords client_server.Transaction.parse_keywords
    client_server.Transaction.until
process_request_sort_test = refl

process_request_sort-reply_example :
    ((process_request_sort book size_300x250 sized_request false empty_cache).0
      ≡ reply book size_300x250 request_text false)
    × IsFresh book (process_request_sort book size_300x250 sized_request false empty_cache).1
process_request_sort-reply_example =
    process_request_sort-reply book size_300x250 sized_request false empty_cache
      (empty_cache-IsFresh book)

process_request_no_sort-sort_example :
    process_request_no_sort book create_size_key_find sized_request true empty_cache
    ≡ some (process_request_sort book size_300x250 sized_request true empty_cache)
process_request_no_sort-sort_example =
    process_request_no_sort-sort book create_size_key_find sized_request true empty_cache
      create_size_key_find_test

abbrev no_size : Request
no_size = record { size_key = zero_size; input = codes "[7]hello" }

process_request_sort-zero_size_example :
    (process_request_sort book zero_size no_size true empty_cache).0 ≡ zero_size_reply book true
unfolding client_server.Transaction.is_empty
process_request_sort-zero_size_example =
    process_request_sort-zero_size book no_size true empty_cache refl

match_ads-read_ads_example :
    occurrences (codes "car") (
      keywords_of
        (match_ads (init size_300x250 request_text) (get_ads_by_size book size_300x250)).bids)
    ≡ total_matches
        (codes "car")
        (get_ads_by_size book size_300x250)
        (init size_300x250 request_text).keywords
match_ads-read_ads_example = match_ads-read_ads ad_lines size_300x250 request_text (codes "car")

init-Parts_example :
    Parts size_300x250 request_text
      (init size_300x250 request_text).id
      (init size_300x250 request_text).request
init-Parts_example = init-Parts size_300x250 request_text

abbrev bid_a : AdBid
bid_a = record { ad = 0; keyword = codes "bus"; money = pos 400 }

abbrev bid_b : AdBid
bid_b = record { ad = 0; keyword = codes "car"; money = pos 900 }

find_winning_bid-Leads_example :
    (index : ℕ) × (w : AdBid) × (find_winning_bid (bid_a ∷ bid_b ∷ []) ≡ some w)
    × Leads (bid_a ∷ bid_b ∷ []) (length (bid_a ∷ bid_b ∷ [])) index w
find_winning_bid-Leads_example = find_winning_bid-Leads bid_a (bid_b ∷ [])

bids_IsSorted : IsSorted bid_lt (bid_a ∷ bid_b ∷ [])
unfolding bytes_lt
bids_IsSorted = ((refl, tt), (tt, tt))

words_IsSorted : IsSorted bytes_lt (codes "car" ∷ codes "toy" ∷ [])
unfolding bytes_lt
words_IsSorted = ((refl, tt), (tt, tt))

occurrences-set_intersection_example :
    occurrences
      (codes "car")
      (keywords_of (set_intersection (bid_a ∷ bid_b ∷ []) (codes "car" ∷ codes "toy" ∷ [])))
    ≡ min
        (occurrences (codes "car") (keywords_of (bid_a ∷ bid_b ∷ [])))
        (occurrences (codes "car") (codes "car" ∷ codes "toy" ∷ []))
occurrences-set_intersection_example =
    occurrences-set_intersection (codes "car") (bid_a ∷ bid_b ∷ []) (codes "car" ∷ codes "toy" ∷ [])
      bids_IsSorted words_IsSorted
