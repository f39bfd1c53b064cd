-- ===== src/Tests/Data.antt =====
-- The data of the tests: the standard conversions, amounts without a fraction, and three lines of
-- advertisements.
use client_server.Base.{
  ℕ, ◌*◌, ◌^◌, Option, none, some, [], ◌∷◌, List, Bytes, codes, ℤ, pos, negsuc,
}
use client_server.Charconv.{Charconv}
use client_server.Charconv.Std.{from_chars, to_chars}
use client_server.Charconv.Laws.{std_charconv}
use client_server.Ad.{Money}

instance abbrev pub conv : Charconv
conv = std_charconv

abbrev whole_amount : Option (ℕ × Bytes) → Option ℤ
whole_amount none = none
whole_amount (some (n, rest)) = some (pos (n * 100))

abbrev show_whole : ℤ → Bytes
show_whole (pos n) = to_chars n
show_whole (negsuc n) = b'-' ∷ to_chars n

instance abbrev pub whole_money : Money
whole_money = record {
  cents_of = λ text. whole_amount (from_chars (2 ^ 31) text);
  show_cents = show_whole;
}

abbrev pub ad_lines : List Bytes
ad_lines =
    codes "1, 300, 250, 4[\"car\", 3, \"bus\", 0]"
    ∷ codes "broken"
    ∷ codes "2, 300, 250, 6[\"car\", 9]"
    ∷ codes "3, 120, 60, 1[\"car\", 9]"
    ∷ []

abbrev pub request_text : Bytes
request_text = codes "[7]site=x&size=300x250&kw=toy+car&z=1"
