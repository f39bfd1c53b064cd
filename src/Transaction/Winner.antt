-- ===== src/Transaction/Winner.antt =====
-- The bid that `findWinningBid` returns.
use client_server.Base.{
  ℕ, suc, ◌+◌, ◌<◌, true, false, List, [], ◌∷◌, some, ◌≡◌, refl, ap, ◌∙◌, arith, Bool-cases, inl,
  inr, ◌⊎◌, ℤ, pos_part, neg_part, ◌≤ℤ◌, ltb_ℤ, to_int, get_elem?, length, subst,
}
use client_server.Ad.{AdBid}
use client_server.Transaction.Match.{find_max, find_winning_bid}

-- An amount as the loop compares it.
abbrev pub amount : AdBid → ℤ
amount b = to_int b.money

infix 50 ◌<ℤ◌
abbrev pub ◌<ℤ◌ : ℤ → ℤ → Type 0
a <ℤ b = pos_part a + neg_part b < pos_part b + neg_part a

-- Of the first `i` bids the one at `index` has the amount `max`, no other has more, and none
-- before it has as much.
pub record Leads (all : List AdBid) (i index : ℕ) (winner : AdBid) : Type 0 where
  pub stands : get_elem? all index ≡ some winner
  pub beats :
      (j : ℕ) (c : AdBid)
      → j < i
      → get_elem? all j ≡ some c
      → (amount c ≤ℤ amount winner) × (j < index → amount c <ℤ amount winner)

module _ (all : List AdBid) where
  last_or_before : (i j : ℕ) → j < suc i → (j < i) ⊎ (j ≡ i)
  last_or_before i j h = omega arith

  same_entry :
      (i j : ℕ) (b c : AdBid) → j ≡ i → get_elem? all i ≡ some b → get_elem? all j ≡ some c → c ≡ b
  same_entry i j b c e p q = cc

  Leads-new :
      (i index : ℕ) (w c : AdBid)
      → Leads all i index w
      → get_elem? all i ≡ some c
      → ltb_ℤ (amount w) (amount c) ≡ true
      → Leads all (suc i) i c
  Leads-new i index w c l here more = record {
    stands = here;
    beats = λ j d h e. elim (last_or_before i j h) [
      | inl p ↦ (ground (arith, l.beats j d p e), λ _. ground (arith, l.beats j d p e))
      | inr p ↦ (rw (same_entry i j c d p here e) (omega arith), λ q. absurd (omega arith))
    ];
  }

  Leads-old :
      (i index : ℕ) (w c : AdBid)
      → Leads all i index w
      → index < i
      → get_elem? all i ≡ some c
      → ltb_ℤ (amount w) (amount c) ≡ false
      → Leads all (suc i) index w
  Leads-old i index w c l lt here less = record {
    stands = l.stands;
    beats = λ j d h e. elim (last_or_before i j h) [
      | inl p ↦ l.beats j d p e
      | inr p ↦ (rw (same_entry i j c d p here e) (ground arith), λ q. absurd (omega arith))
    ];
  }

  module _ (i : ℕ) (c : AdBid) (rest : List AdBid)
      (tail : (k : ℕ) → get_elem? all (i + k) ≡ get_elem? (c ∷ rest) k) where
    entry_at : get_elem? all i ≡ some c
    entry_at = ap (get_elem? all) {y = i + 0} (omega arith) ∙ tail 0

    entries_after : (k : ℕ) → get_elem? all (i + 1 + k) ≡ get_elem? rest k
    entries_after k = ap (get_elem? all) {y = i + suc k} (omega arith) ∙ tail (suc k)

  one_on : (i : ℕ) {index : ℕ} {w : AdBid} → Leads all (suc i) index w → Leads all (i + 1) index w
  one_on i {index} {w} l = subst (λ (n : ℕ). Leads all n index w) (omega arith) l

  up_to :
      (i n : ℕ) {index : ℕ}
      → ((v : AdBid) × Leads all (i + 1 + n) index v)
      → (v : AdBid) × Leads all (i + suc n) index v
  up_to i n {index} (v, l) = (v, subst (λ (k : ℕ). Leads all k index v) (omega arith) l)

  find_max-Leads :
      (rest : List AdBid) (i index : ℕ) (w : AdBid)
      → ((k : ℕ) → get_elem? all (i + k) ≡ get_elem? rest k)
      → index < i
      → Leads all i index w
      → (v : AdBid) × Leads all (i + length rest) (find_max rest i index (amount w)) v
  unfolding find_max
  find_max-Leads [] i index w tail lt l =
      (w, subst (λ (n : ℕ). Leads all n index w) (omega arith) l)
  find_max-Leads (c ∷ rest) i index w tail lt l =
      let here = entry_at i c rest tail in
      let behind = entries_after i c rest tail in
      elim (Bool-cases (ltb_ℤ (amount w) (amount c))) [
        | inl e ↦ rw e (
            up_to i (length rest) (
              find_max-Leads rest (i + 1) i c behind (omega arith)
                (one_on i (Leads-new i index w c l here e))))
        | inr e ↦ rw e (
            up_to i (length rest) (
              find_max-Leads rest (i + 1) index w behind (omega arith)
                (one_on i (Leads-old i index w c l lt here e))))
      ]

first_Leads : (b : AdBid) (bids : List AdBid) → Leads (b ∷ bids) 1 0 b
first_Leads b bids = record {
  stands = refl;
  beats = λ j c h e. (
    rw (same_entry (b ∷ bids) 0 j b c (omega arith) refl e) (omega arith),
    λ q. absurd (omega arith),
  );
}

-- Of one bid or more the winner is a bid of the list; its amount, as an int, is no smaller than
-- any other, and larger than every amount before it.
pub find_winning_bid-Leads :
    (b : AdBid) (bids : List AdBid)
    → (index : ℕ) × (w : AdBid) × (find_winning_bid (b ∷ bids) ≡ some w)
      × Leads (b ∷ bids) (length (b ∷ bids)) index w
unfolding find_winning_bid
find_winning_bid-Leads b bids =
    let (w, l) =
      find_max-Leads (b ∷ bids) bids 1 0 b
        (λ k. ap (get_elem? (b ∷ bids)) {y = suc k} (omega arith)) (omega arith)
        (first_Leads b bids) in
    (
      find_max bids 1 0 (amount b),
      w,
      l.stands,
      subst (λ (n : ℕ). Leads (b ∷ bids) n (find_max bids 1 0 (amount b)) w) (omega arith) l,
    )
