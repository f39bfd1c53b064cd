-- ===== src/Transaction/Reply.antt =====
-- The replies of the two policies: what the caches of the threads may not change, and what a
-- request of size zero gets.
use client_server.Base.{
  ℕ, ◌+◌, min, Bool, true, false, List, [], ◌∷◌, ◌++◌, Option, some, ◌≡◌, refl, sym, ap, ◌∙◌, arith,
  if◌then◌else◌, Bytes, IsSorted, bytes_lt, Bool-cases, inl, inr, codes, All, subst, append_assoc,
}
use client_server.Ad.{Ad, AdBid, AdBook, show_size, Money, get_ads_by_size, empty_book, read_ads}
use client_server.Ad.Book.{BidsSorted, get_ads_by_size-BidsSorted}
use client_server.Charconv.{Charconv}
use client_server.Header.{to_chars_boost}
use client_server.Request.{SizeTuple, Request, zero_size, size_eq, size_eq_iff}
use client_server.Transaction.Match.{match_bids, set_intersection}
use client_server.Transaction.Matching.{occurrences, keywords_of, occurrences-set_intersection}
use client_server.Transaction.Parsing.{init-IsSorted}
use client_server.Transaction.Defs.{
  Transaction, init, is_empty, match_ads, Cache, empty_cache, refresh, print_reply,
  print_diagnostics, print_request_data, print_keywords, print_matching_ads, print_bid_matches,
  process_request_sort, process_request_no_sort,
}

nothing_left : (bids : List AdBid) → set_intersection bids [] ≡ []
unfolding set_intersection
nothing_left [] = refl
nothing_left (b ∷ bids) = refl

nothing_asked : (ads : List Ad) → match_bids ads [] ≡ []
unfolding match_bids
nothing_asked [] = refl
nothing_asked (ad ∷ ads) = rw (nothing_left ad.bids, nothing_asked ads)

-- The reply, with no cache.
abbrev pub reply : ⦃conv : Charconv⦄ ⦃m : Money⦄ → AdBook → SizeTuple → Bytes → Bool → Bytes
reply book key input diagnostics =
    if is_empty input
    then codes "[unknown] Invalid request\n"
    else print_reply book diagnostics (match_ads (init key input) (get_ads_by_size book key))

-- What a thread keeps: the advertisements of the size that it was last asked for. At size zero it
-- may keep anything.
abbrev pub IsFresh : AdBook → Cache → Type 0
IsFresh book c =
    size_eq c.prev_key zero_size ≡ false → c.ad_vector ≡ get_ads_by_size book c.prev_key

pub empty_cache-IsFresh : (book : AdBook) → IsFresh book empty_cache
unfolding size_eq
empty_cache-IsFresh book h = cc

refresh-IsFresh :
    (book : AdBook) (key : SizeTuple) (c : Cache)
    → IsFresh book c
    → IsFresh book (refresh book key c)
unfolding refresh
refresh-IsFresh book key c f = elim (Bool-cases (size_eq key c.prev_key)) [
  | inl e ↦ rw e f
  | inr e ↦ rw e (λ h. refl)
]

refresh-ads :
    (book : AdBook) (key : SizeTuple) (c : Cache)
    → IsFresh book c
    → size_eq key zero_size ≡ false
    → (refresh book key c).ad_vector ≡ get_ads_by_size book key
unfolding refresh
refresh-ads book key c f z = elim (Bool-cases (size_eq key c.prev_key)) [
  | inl e ↦
      let same = (size_eq_iff key c.prev_key).0 e in
      rw e
        (f (subst (λ k. size_eq k zero_size ≡ false) same z) ∙ ap (get_ads_by_size book) (sym same))
  | inr e ↦ rw e refl
]

-- A request of size zero asks for nothing, so no advertisement matters.
no_ads_matter :
    (input : Bytes) (ads : List Ad)
    → match_ads (init zero_size input) ads ≡ match_ads (init zero_size input) []
unfolding match_ads init match_bids size_eq
no_ads_matter input ads = rw (nothing_asked ads)

module _ ⦃conv : Charconv⦄ ⦃m : Money⦄ (book : AdBook) where
  reply-refresh :
      (key : SizeTuple) (input : Bytes) (c : Cache)
      → IsFresh book c
      → match_ads (init key input) (refresh book key c).ad_vector
        ≡ match_ads (init key input) (get_ads_by_size book key)
  reply-refresh key input c f = elim (Bool-cases (size_eq key zero_size)) [
    | inl z ↦
        rw ((size_eq_iff key zero_size).0 z)
          (no_ads_matter input _ ∙ sym (no_ads_matter input (get_ads_by_size book zero_size)))
    | inr z ↦ ap (match_ads (init key input)) (refresh-ads book key c f z)
  ]

  -- If what a thread keeps from earlier requests is fresh, the reply to a request is the one that
  -- a look-up of its size in the map gives, and what the thread keeps afterwards is fresh again.
  pub process_request_sort-reply :
      (key : SizeTuple) (request : Request) (diagnostics : Bool) (c : Cache)
      → IsFresh book c
      → ((process_request_sort book key request diagnostics c).0
          ≡ reply book key request.input diagnostics)
        × IsFresh book (process_request_sort book key request diagnostics c).1
  unfolding process_request_sort
  process_request_sort-reply key request diagnostics c f =
      elim (Bool-cases (is_empty request.input)) [
        | inl e ↦ rw e (refl, f)
        | inr e ↦ rw e (
          ap (print_reply book diagnostics) (reply-refresh key request.input c f),
          refresh-IsFresh book key c f,
        )
      ]

  -- If the size key of a request is the one made from its text, the policy that does not sort
  -- gives the same reply and keeps the same state as the one that does.
  pub process_request_no_sort-sort :
      (create : Bytes → Option SizeTuple) (request : Request) (diagnostics : Bool) (c : Cache)
      → create request.input ≡ some request.size_key
      → process_request_no_sort book create request diagnostics c
        ≡ some (process_request_sort book request.size_key request diagnostics c)
  unfolding process_request_no_sort process_request_sort
  process_request_no_sort-sort create request diagnostics c e =
      elim (Bool-cases (is_empty request.input)) [
        | inl h ↦ rw (process_request_no_sort, e, h, process_request_sort)
        | inr h ↦ rw (process_request_no_sort, e, h, process_request_sort)
      ]

  -- The reply to a request of size zero: that nothing matches, with an empty id, never that the
  -- request is invalid.
  abbrev pub zero_size_reply : Bool → Bytes
  zero_size_reply false = codes " 0, 0.0\n"
  zero_size_reply true =
      codes " Transaction size="
      ++ (show_size zero_size
          ++ (codes " #matches="
              ++ (to_chars_boost 0 false
                  ++ codes "\n\nrequest keywords:\nmatching ads:\nsummary:0, 0.0\n*****\n")))

  diagnostics_behind :
      (size count rest behind : Bytes)
      → (codes " Transaction size=" ++ (size ++ (codes " #matches=" ++ (count ++ rest)))) ++ behind
        ≡ codes " Transaction size="
          ++ (size ++ (codes " #matches=" ++ (count ++ (rest ++ behind))))
  diagnostics_behind size count rest behind =
      append_assoc (codes " Transaction size=") (size ++ (codes " #matches=" ++ (count ++ rest)))
        behind
      ∙ ap (λ (s : Bytes). codes " Transaction size=" ++ s)
          (append_assoc size (codes " #matches=" ++ (count ++ rest)) behind
            ∙ ap (λ (s : Bytes). size ++ (codes " #matches=" ++ s))
                (append_assoc count rest behind))

  -- If its text is not empty, a request of size zero gets, whatever the thread keeps, a reply
  -- that says that nothing matches, and never that the request is invalid: " 0, 0.0", with no id,
  -- and with diagnostics the empty request data, no matching ads, and the summary "0, 0.0".
  pub process_request_sort-zero_size :
      (request : Request) (diagnostics : Bool) (c : Cache)
      → is_empty request.input ≡ false
      → (process_request_sort book zero_size request diagnostics c).0 ≡ zero_size_reply diagnostics
  unfolding process_request_sort print_reply print_diagnostics print_request_data print_keywords
      print_matching_ads print_bid_matches match_ads init match_bids refresh size_eq
  process_request_sort-zero_size request false c e =
      rw (e, nothing_asked (refresh book zero_size c).ad_vector) refl
  process_request_sort-zero_size request true c e =
      rw (e, nothing_asked (refresh book zero_size c).ad_vector)
        (diagnostics_behind (show_size zero_size) (to_chars_boost 0 false) _ _)

-- How many bids for the keyword `x` a request for the keywords must be shown, per advertisement:
-- one for each pair.
abbrev pub total_matches : Bytes → List Ad → List Bytes → ℕ
total_matches x [] keywords = 0
total_matches x (ad ∷ ads) keywords =
    min (occurrences x (keywords_of ad.bids)) (occurrences x keywords)
    + total_matches x ads keywords

keywords_of-append :
    (xs ys : List AdBid) → keywords_of (xs ++ ys) ≡ keywords_of xs ++ keywords_of ys
keywords_of-append [] ys = refl
keywords_of-append (x ∷ xs) ys = ap (◌∷◌ x.keyword) (keywords_of-append xs ys)

occurrences-append :
    (x : Bytes) (ks ls : List Bytes)
    → occurrences x (ks ++ ls) ≡ occurrences x ks + occurrences x ls
occurrences-append x [] ls = omega arith
occurrences-append x (k ∷ ks) ls = omega (arith, occurrences-append x ks ls)

occurrences-match_bids :
    (x : Bytes) (ads : List Ad) (keywords : List Bytes)
    → All BidsSorted ads
    → IsSorted bytes_lt keywords
    → occurrences x (keywords_of (match_bids ads keywords)) ≡ total_matches x ads keywords
unfolding match_bids
occurrences-match_bids x [] keywords s k = refl
occurrences-match_bids x (ad ∷ ads) keywords s k =
    ap (occurrences x)
      (keywords_of-append (set_intersection ad.bids keywords) (match_bids ads keywords))
    ∙ omega (
      arith,
      occurrences-append x (keywords_of (set_intersection ad.bids keywords))
          (keywords_of (match_bids ads keywords)),
      occurrences-set_intersection x ad.bids keywords s.0 k,
      occurrences-match_bids x ads keywords s.1 k,
    )

same_bids : (t : Transaction) (ads : List Ad) → (match_ads t ads).bids ≡ match_bids ads t.keywords
unfolding match_ads
same_bids t ads = elim (Bool-cases (is_empty (match_bids ads t.keywords))) [
  | inl e ↦ rw (e, match_ads) refl
  | inr e ↦ rw (e, match_ads) refl
]

-- Of the advertisements that were read from any lines, a request is matched with a bid for a
-- keyword as often as both an advertisement of its size bids for that keyword and the request
-- names it: the smaller of the two counts, summed over the advertisements.
pub match_ads-read_ads :
    ⦃conv : Charconv⦄ ⦃m : Money⦄
    → (lines : List Bytes) (key : SizeTuple) (input x : Bytes)
    → occurrences x (
        keywords_of
          (match_ads (init key input) (get_ads_by_size (read_ads empty_book lines) key)).bids)
      ≡ total_matches x (get_ads_by_size (read_ads empty_book lines) key) (init key input).keywords
match_ads-read_ads lines key input x =
    ap (λ bids. occurrences x (keywords_of bids)) (same_bids (init key input) _)
    ∙ occurrences-match_bids x _ _ (get_ads_by_size-BidsSorted lines key) (init-IsSorted key input)
