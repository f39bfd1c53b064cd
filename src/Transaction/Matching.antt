-- ===== src/Transaction/Matching.antt =====
-- What the merge of `matchAds` finds: the multiset intersection that std::set_intersection
-- promises for sorted ranges.
use client_server.Base.{
  ℕ, ◌+◌, min, true, false, List, [], ◌∷◌, map, ◌≡◌, refl, sym, ap, ◌∙◌, arith, if◌then◌else◌,
  Bytes, bytes_eq, bytes_eq_iff, bytes_lt, bytes_lt_irrefl, bytes_lt_total, IsSorted, NoneBefore,
  Bool-cases, inl, inr,
}
use client_server.Ad.{AdBid, bid_lt}
use client_server.Transaction.Match.{set_intersection}

-- How often a text stands in a list.
abbrev pub occurrences : Bytes → List Bytes → ℕ
occurrences x [] = 0
occurrences x (y ∷ ys) = (if bytes_eq y x then 1 else 0) + occurrences x ys

abbrev pub keywords_of : List AdBid → List Bytes
keywords_of = map (λ b. b.keyword)

differs : (x y k : Bytes) → bytes_lt x k ≡ true → bytes_lt y k ≡ false → bytes_eq y x ≡ false
differs x y k h n = elim (Bool-cases (bytes_eq y x)) [
  | inl e ↦ cc (h, n, ap (λ t. bytes_lt t k) ((bytes_eq_iff y x).0 e))
  | inr e ↦ e
]

-- A text before the head of a sorted list stands nowhere in it.
occurrences_before :
    (x k : Bytes) (ks : List Bytes)
    → bytes_lt x k ≡ true
    → NoneBefore bytes_lt k ks
    → occurrences x ks ≡ 0
occurrences_before x k [] h n = refl
occurrences_before x k (y ∷ ys) h n =
    rw (differs x y k h n.0) (omega (arith, occurrences_before x k ys h n.1))

absent :
    (x k : Bytes) (ks : List Bytes)
    → bytes_lt x k ≡ true
    → NoneBefore bytes_lt k ks
    → occurrences x (k ∷ ks) ≡ 0
absent x k ks h n = occurrences_before x k (k ∷ ks) h (bytes_lt_irrefl k, n)

NoneBefore-keywords :
    (b : AdBid) (bids : List AdBid)
    → NoneBefore bid_lt b bids
    → NoneBefore bytes_lt b.keyword (keywords_of bids)
NoneBefore-keywords b [] n = tt
NoneBefore-keywords b (c ∷ bids) n = (n.0, NoneBefore-keywords b bids n.1)

-- The three rounds of the merge, on the counts of one text.
module _ (x b k : Bytes) (m n : ℕ) where
  min-left : (bytes_eq b x ≡ true → n ≡ 0) → min m n ≡ min ((if bytes_eq b x then 1 else 0) + m) n
  min-left h = ground (arith, h)

  min-right : (bytes_eq k x ≡ true → m ≡ 0) → min m n ≡ min m ((if bytes_eq k x then 1 else 0) + n)
  min-right h = ground (arith, h)

  min-both :
      b ≡ k
      → (if bytes_eq b x then 1 else 0) + min m n
        ≡ min ((if bytes_eq b x then 1 else 0) + m) ((if bytes_eq k x then 1 else 0) + n)
  min-both e = rw e (ground arith)

-- If the bids and the keywords are sorted, the merge finds a keyword as often as it stands in
-- both: the smaller of the two counts.
pub occurrences-set_intersection :
    (x : Bytes) (bids : List AdBid) (keywords : List Bytes)
    → IsSorted bid_lt bids
    → IsSorted bytes_lt keywords
    → occurrences x (keywords_of (set_intersection bids keywords))
      ≡ min (occurrences x (keywords_of bids)) (occurrences x keywords)
unfolding set_intersection
occurrences-set_intersection x [] keywords sb sk = omega arith
occurrences-set_intersection x (b ∷ bids) [] sb sk = omega arith
occurrences-set_intersection x (b ∷ bids) (k ∷ ks) sb sk =
    let next_bid = occurrences-set_intersection x bids (k ∷ ks) sb.1 sk in
    let next_keyword = occurrences-set_intersection x (b ∷ bids) ks sb sk.1 in
    let next_both = occurrences-set_intersection x bids ks sb.1 sk.1 in
    elim (Bool-cases (bytes_lt b.keyword k)) [
      | inl e ↦ rw e (
          next_bid
          ∙ min-left x b.keyword k _ _ (λ same.
            ap (λ t. occurrences t (k ∷ ks)) (sym ((bytes_eq_iff b.keyword x).0 same))
            ∙ absent b.keyword k ks e sk.0))
      | inr e ↦ elim (Bool-cases (bytes_lt k b.keyword)) [
        | inl f ↦
            rw (e, f)
              (next_keyword
                ∙ min-right x b.keyword k _ _ (λ same.
                  ap (λ t. occurrences t (keywords_of (b ∷ bids))) (sym ((bytes_eq_iff k x).0 same))
                  ∙ absent k b.keyword (keywords_of bids) f (NoneBefore-keywords b bids sb.0)))
        | inr f ↦
            rw (e, f)
              (ap (λ (n : ℕ). (if bytes_eq b.keyword x then 1 else 0) + n) next_both
                ∙ min-both x b.keyword k _ _ (bytes_lt_total b.keyword k e f))
      ]
    ]
