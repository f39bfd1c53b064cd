-- ===== src/Transaction/Defs.antt =====
-- business/Transaction.h and business/Transaction.cpp: one request is matched with the
-- advertisements of its size, and the reply is printed.
use client_server.Base.{
  ℕ, Bool, true, false, List, [], ◌∷◌, ◌++◌, Option, none, some, ◌==◌, if◌then◌else◌, Bytes, codes,
  length, drop, bytes_lt, sort, find_text,
}
use client_server.Ad.{
  AdBid, Ad, AdBook, Money, get_ads_by_size, lock_ad, show_long, show_size, print_ad,
}
use client_server.Charconv.{Charconv}
use client_server.Header.{to_chars_boost}
use client_server.Request.{SizeTuple, zero_size, size_eq, Request}
use client_server.Split.{find, split}
use client_server.Transaction.Match.{match_bids, find_winning_bid}

-- The object, with the thread-local vectors that every transaction clears.
pub record Transaction : Type 0 where
  pub id : Bytes
  pub request : Bytes
  pub bids : List AdBid
  pub keywords : List Bytes
  pub size_key : SizeTuple
  pub winning_bid : Option AdBid
  pub no_match : Bool
  pub invalid : Bool

abbrev pub cleared : SizeTuple → Transaction
cleared key = record {
  id = [];
  request = [];
  bids = [];
  keywords = [];
  size_key = key;
  winning_bid = none;
  no_match = false;
  invalid = false;
}

unfoldable pub break_keywords : Transaction → Bytes → Transaction
break_keywords t text = record t { keywords = sort bytes_lt (split text b'+' 0) }

-- The text up to the delimiter, or all of it.
unfoldable pub until : ℕ → Bytes → Bytes
until delim text = elim (find delim text) [ none ↦ text | some (before, after) ↦ before ]

-- `none` where it returns false.
unfoldable pub parse_keywords : Transaction → Bytes → Option Transaction
unfolding break_keywords until
parse_keywords t start = elim (find_text start t.request) [
  | none ↦ none
  | some text ↦ some (break_keywords t (drop (length start) (until b'&' text)))
]

unfoldable pub parse_any_keywords : Transaction → Transaction
unfolding parse_keywords
parse_any_keywords t = elim (parse_keywords t (codes "kw=")) [
  | some t' ↦ t'
  | none ↦ elim (parse_keywords t (codes "keywords=")) [ some t' ↦ t' | none ↦ t ]
]

unfoldable pub starts_with_bracket : Bytes → Bool
starts_with_bracket [] = false
starts_with_bracket (c ∷ s) = c == b'['

-- The id ends with the first closing bracket of the input.
unfoldable pub init : SizeTuple → Bytes → Transaction
unfolding starts_with_bracket parse_any_keywords
init key input =
    if size_eq key zero_size
    then record (cleared key) { invalid = true }
    else elim (find b']' input) [
      | none ↦ cleared key
      | some (before, after) ↦
          if starts_with_bracket input
          then parse_any_keywords
              (record (cleared key) { id = before ++ b']' ∷ []; request = after })
          else cleared key
    ]

unfoldable pub is_empty {ℓ} : {A : Type ℓ} → List A → Bool
is_empty [] = true
is_empty (x ∷ xs) = false

unfoldable pub match_ads : Transaction → List Ad → Transaction
unfolding is_empty
match_ads t ads =
    let bids = match_bids ads t.keywords in
    if is_empty bids
    then record t { bids = bids; no_match = true }
    else record t { bids = bids; winning_bid = find_winning_bid bids }

-- The static variables of `processRequestSort` and `processRequestNoSort`, one copy in each thread.
pub record Cache : Type 0 where
  pub prev_key : SizeTuple
  pub ad_vector : List Ad

abbrev pub empty_cache : Cache
empty_cache = record { prev_key = zero_size; ad_vector = [] }

unfoldable pub refresh : AdBook → SizeTuple → Cache → Cache
refresh book key cache =
    if size_eq key cache.prev_key
    then cache
    else record { prev_key = key; ad_vector = get_ads_by_size book key }

abbrev empty_reply : Bytes
empty_reply = codes "0, 0.0\n"

abbrev invalid_request : Bytes
invalid_request = codes " Invalid request\n"

module _ ⦃conv : Charconv⦄ ⦃m : Money⦄ (book : AdBook) where
  unfoldable pub print_keywords : List Bytes → Bytes
  print_keywords [] = []
  print_keywords (k ∷ ks) = b' ' ∷ (k ++ b'\n' ∷ print_keywords ks)

  unfoldable pub print_request_data : Transaction → Bytes
  unfolding print_keywords
  print_request_data t =
      t.id
      ++ (codes " Transaction size="
          ++ (show_size t.size_key
              ++ (codes " #matches="
                  ++ (to_chars_boost (length t.bids) false
                      ++ (b'\n'
                          ∷ (t.request
                              ++ (codes "\nrequest keywords:\n" ++ print_keywords t.keywords)))))))

  print_locked : Option Ad → Bytes
  print_locked none = []
  print_locked (some ad) = print_ad ad

  unfoldable pub print_bid_matches : List AdBid → Bytes
  unfolding print_locked
  print_bid_matches [] = []
  print_bid_matches (bid ∷ bids) =
      print_locked (lock_ad book bid)
      ++ (codes " match:"
          ++ (bid.keyword ++ (b' ' ∷ (show_long bid.money ++ b'\n' ∷ print_bid_matches bids))))

  unfoldable pub print_matching_ads : Transaction → Bytes
  unfolding print_bid_matches
  print_matching_ads t = codes "matching ads:\n" ++ print_bid_matches t.bids

  -- The two printers below are called after a match, so there is a winning bid.
  unfoldable pub print_winning_ad : Transaction → Bytes
  print_winning_ad t = elim t.winning_bid [
    | none ↦ []
    | some bid ↦
        elim (lock_ad book bid) [
          | none ↦ []
          | some ad ↦ ad.id ++ (codes ", " ++ (bid.keyword ++ codes ", "))
        ]
        ++ (m.show_cents bid.money ++ codes "\n*****\n")
  ]

  unfoldable pub print_summary : Transaction → Bytes
  print_summary t = elim t.winning_bid [
    | none ↦ []
    | some bid ↦
        t.id
        ++ b' ' ∷ elim (lock_ad book bid) [
          | none ↦ []
          | some ad ↦ ad.id ++ (codes ", " ++ (m.show_cents bid.money ++ b'\n' ∷ []))
        ]
  ]

  unfoldable pub print_diagnostics : Transaction → Bytes
  unfolding print_request_data print_matching_ads print_winning_ad
  print_diagnostics t =
      print_request_data t
      ++ (print_matching_ads t
          ++ (codes "summary:"
              ++ (if t.no_match
                  then empty_reply ++ codes "*****\n"
                  else if t.invalid
                  then invalid_request ++ codes "*****\n"
                  else print_winning_ad t)))

  -- The reply of a transaction whose bids were matched.
  unfoldable pub print_reply : Bool → Transaction → Bytes
  unfolding print_summary
  print_reply diagnostics t =
      if diagnostics
      then print_diagnostics t
      else if t.no_match
      then t.id ++ b' ' ∷ empty_reply
      else print_summary t

  -- `processRequestSort`: the reply, and what the thread keeps for its next request.
  unfoldable pub process_request_sort : SizeTuple → Request → Bool → Cache → Bytes × Cache
  process_request_sort key request diagnostics cache =
      if is_empty request.input
      then (codes "[unknown]" ++ invalid_request, cache)
      else let cache' = refresh book key cache in
        (print_reply diagnostics (match_ads (init key request.input) cache'.ad_vector), cache')

  -- `processRequestNoSort` makes the size key once more for the transaction, by `create`, and takes
  -- the advertisements by the key of the request. `none` where `create` throws.
  unfoldable pub process_request_no_sort :
      (Bytes → Option SizeTuple) → Request → Bool → Cache → Option (Bytes × Cache)
  process_request_no_sort create request diagnostics cache = elim (create request.input) [
    | none ↦ none
    | some key ↦
        if is_empty request.input
        then some (codes "[unknown]" ++ invalid_request, cache)
        else let cache' = refresh book request.size_key cache in
          some
            (print_reply diagnostics (match_ads (init key request.input) cache'.ad_vector), cache')
  ]
