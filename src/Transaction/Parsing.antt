-- ===== src/Transaction/Parsing.antt =====
-- What `init` takes from a request: the id, the rest, and the keywords in order.
use client_server.Base.{
  ℕ, true, ◌≢◌, ap, Bool-apart, ==_iff, false, [], ◌∷◌, ◌++◌, Option, none, some, ◌≡◌, refl, sym,
  ◌∙◌, if◌then◌else◌, Bytes, IsSorted, bytes_lt, bytes_order, sort-IsSorted, Bool-cases,
  Option-cases, inl, inr, ◌⊎◌, find_text, codes, length, drop,
}
use client_server.Split.{split}
use client_server.Split.Rows.{Found, Without, nowhere, between, find-Found}
use client_server.Request.{SizeTuple, zero_size, size_eq}
use client_server.Transaction.Defs.{
  Transaction, cleared, break_keywords, until, parse_keywords, parse_any_keywords,
  starts_with_bracket, init,
}

-- What the parser of the keywords may do to a transaction.
pub record Parsed (t t' : Transaction) : Type 0 where
  pub same_id : t'.id ≡ t.id
  pub same_request : t'.request ≡ t.request
  pub same_invalid : t'.invalid ≡ t.invalid
  pub same_no_match : t'.no_match ≡ t.no_match
  pub same_size_key : t'.size_key ≡ t.size_key
  pub sorted : IsSorted bytes_lt t.keywords → IsSorted bytes_lt t'.keywords

unchanged : (t : Transaction) → Parsed t t
unchanged t = record {
  same_id = refl;
  same_request = refl;
  same_invalid = refl;
  same_no_match = refl;
  same_size_key = refl;
  sorted = λ s. s;
}

break_keywords-Parsed : (t : Transaction) (text : Bytes) → Parsed t (break_keywords t text)
unfolding break_keywords
break_keywords-Parsed t text = record {
  same_id = refl;
  same_request = refl;
  same_invalid = refl;
  same_no_match = refl;
  same_size_key = refl;
  sorted = λ s. sort-IsSorted bytes_lt bytes_order (split text b'+' 0);
}

or_else : Transaction → Option Transaction → Transaction
or_else t none = t
or_else t (some t') = t'

parse_keywords-Parsed :
    (t d : Transaction) (start : Bytes) → Parsed t d → Parsed t (or_else d (parse_keywords t start))
unfolding parse_keywords or_else
parse_keywords-Parsed t d start p = elim (Option-cases (find_text start t.request)) [
  | inl e ↦ rw (e, parse_keywords) p
  | inr (text, e) ↦
      rw (e, parse_keywords) (break_keywords-Parsed t (drop (length start) (until b'&' text)))
]

two_tries :
    (t : Transaction) (a b : Option Transaction)
    → elim a [ some t' ↦ t' | none ↦ elim b [ some t' ↦ t' | none ↦ t ] ] ≡ or_else (or_else t b) a
unfolding or_else
two_tries t none none = refl
two_tries t none (some x) = refl
two_tries t (some x) b = refl

parse_any_keywords-or_else :
    (t : Transaction)
    → parse_any_keywords t
      ≡ or_else (or_else t (parse_keywords t (codes "keywords="))) (parse_keywords t (codes "kw="))
unfolding parse_any_keywords or_else
parse_any_keywords-or_else t =
    two_tries t (parse_keywords t (codes "kw=")) (parse_keywords t (codes "keywords="))

pub parse_any_keywords-Parsed : (t : Transaction) → Parsed t (parse_any_keywords t)
parse_any_keywords-Parsed t = rw (parse_any_keywords-or_else t) (
    parse_keywords-Parsed t _ (codes "kw=")
      (parse_keywords-Parsed t t (codes "keywords=") (unchanged t)))

-- The cases of `init` for a request with a size.
pub data Initial (key : SizeTuple) (input : Bytes) : Transaction → Type 0 where
  without_id :
      (starts_with_bracket input ≡ false) ⊎ Without b']' input → Initial key input (cleared key)
  with_id :
      (before after : Bytes) (t : Transaction)
      → input ≡ before ++ (b']' ∷ after)
      → starts_with_bracket input ≡ true
      → Without b']' before
      → Parsed (record (cleared key) { id = before ++ b']' ∷ []; request = after }) t
      → Initial key input t

init-Found :
    (key : SizeTuple) (input : Bytes) (o : Option (Bytes × Bytes))
    → Found b']' input o
    → Initial key input (elim o [
      | none ↦ cleared key
      | some (before, after) ↦
          if starts_with_bracket input
          then parse_any_keywords
              (record (cleared key) { id = before ++ b']' ∷ []; request = after })
          else cleared key
    ])
init-Found key input none (nowhere w) = without_id (inr w)
init-Found key input (some (b, a)) (between _ _ e w) =
    elim (Bool-cases (starts_with_bracket input)) [
      | inl h ↦ rw h (with_id b a _ e h w (parse_any_keywords-Parsed _))
      | inr h ↦ rw h (without_id (inl h))
    ]

pub init-Initial :
    (key : SizeTuple) (input : Bytes)
    → size_eq key zero_size ≡ false
    → Initial key input (init key input)
unfolding init
init-Initial key input h = rw h (init-Found key input _ (find-Found b']' input))

-- The id and the rest by an independent description of the input: what stands up to the first
-- closing bracket of an input that starts with an opening one, and what stands behind it.
pub data Parts (key : SizeTuple) (input id request : Bytes) : Type 0 where
  bracketed :
      (name after : Bytes)
      → size_eq key zero_size ≡ false
      → input ≡ b'[' ∷ (name ++ (b']' ∷ after))
      → Without b']' name
      → id ≡ b'[' ∷ (name ++ b']' ∷ [])
      → request ≡ after
      → Parts key input id request
  unopened :
      ((c : ℕ) (s : Bytes) → input ≡ c ∷ s → c ≢ b'[')
      → id ≡ []
      → request ≡ []
      → Parts key input id request
  unclosed : Without b']' input → id ≡ [] → request ≡ [] → Parts key input id request
  sizeless : size_eq key zero_size ≡ true → id ≡ [] → request ≡ [] → Parts key input id request

not_opened :
    (s : Bytes) → starts_with_bracket s ≡ false → (c : ℕ) (r : Bytes) → s ≡ c ∷ r → c ≢ b'['
unfolding starts_with_bracket
not_opened s h c r e =
    λ f. Bool-apart (sym ((==_iff c b'[').1 f) ∙ sym (ap starts_with_bracket e) ∙ h)

opened :
    (key : SizeTuple) (input before after id request : Bytes)
    → size_eq key zero_size ≡ false
    → input ≡ before ++ (b']' ∷ after)
    → starts_with_bracket input ≡ true
    → Without b']' before
    → id ≡ before ++ b']' ∷ []
    → request ≡ after
    → Parts key input id request
unfolding starts_with_bracket
opened key input [] after id request z e h w i r = cc (sym h ∙ ap starts_with_bracket e)
opened key input (c ∷ name) after id request z e h w i r =
    let first : c ≡ b'[' = (==_iff c b'[').0 (sym (ap starts_with_bracket e) ∙ h) in
    bracketed name after z (e ∙ ap (λ x. x ∷ (name ++ (b']' ∷ after))) first) w.1
      (i ∙ ap (λ x. x ∷ (name ++ b']' ∷ [])) first) r

whole :
    (k : SizeTuple) (s : Bytes) (t : Transaction)
    → size_eq k zero_size ≡ false
    → Initial k s t
    → Parts k s t.id t.request
whole k s t z (without_id (inl h)) = unopened (not_opened s h) refl refl
whole k s t z (without_id (inr w)) = unclosed w refl refl
whole k s t z (with_id b a _ e h w p) = opened k s b a _ _ z e h w p.same_id p.same_request

-- For a request whose size is not zero: of an input that starts with an opening bracket, the id
-- is what stands up to the first closing one, with it, and the request is what stands behind it;
-- of an input that does not start so, or has no closing bracket, both are empty, and so they are
-- for a request of size zero.
pub init-Parts :
    (key : SizeTuple) (input : Bytes) → Parts key input (init key input).id (init key input).request
unfolding init
init-Parts key input = elim (Bool-cases (size_eq key zero_size)) [
  | inl z ↦ rw z (sizeless z refl refl)
  | inr z ↦ whole key input _ z (init-Initial key input z)
]

in_order :
    (k : SizeTuple) (s : Bytes) (t : Transaction) → Initial k s t → IsSorted bytes_lt t.keywords
in_order k s t (without_id w) = tt
in_order k s t (with_id b a _ e h w p) = p.sorted tt

-- The keywords are sorted, as the merge needs them.
pub init-IsSorted : (key : SizeTuple) (input : Bytes) → IsSorted bytes_lt (init key input).keywords
unfolding init
init-IsSorted key input = elim (Bool-cases (size_eq key zero_size)) [
  | inl z ↦ rw z tt
  | inr z ↦ in_order key input _ (init-Initial key input z)
]
