-- ===== src/Message/Defs.antt =====
-- `processMessage` of common/IOUtility.cpp.
use mathlib.Core.Option
use client_server.Base.{
  ℕ, ◌+◌, List, [], ◌∷◌, Option, none, some, if◌then◌else◌, ltb, ◌==◌, Bytes, length, take, drop,
}
use client_server.Charconv.{Charconv}
use client_server.Header.{Header, header_size, Outcome, accepted, rejected, threw, deserialize}

-- `std::string_view::substr`; `none` where it throws `out_of_range`.
unfoldable pub substr : Bytes → ℕ → ℕ → Option Bytes
substr s pos n = if ltb (length s) pos then none else some (take n (drop pos s))

-- The loop over the caller's strings. A string of announced size 0 is left as it is.
unfoldable pub assign_fields : Bytes → ℕ → List ℕ → List Bytes → Option (List Bytes)
assign_fields payload shift [] array = some array
assign_fields payload shift (n ∷ sizes) [] = some []
assign_fields payload shift (n ∷ sizes) (x ∷ array) =
    let kept = Option.map (◌∷◌ x) (assign_fields payload shift sizes array) in
    let rest = assign_fields payload (shift + n) sizes array in
    if n == 0
    then kept
    else elim (substr payload shift n) [ none ↦ none | some s ↦ Option.map (◌∷◌ s) rest ]

abbrev pub sizes_of : Header → List ℕ
sizes_of h = h.field1_size ∷ h.field2_size ∷ h.field3_size ∷ h.field4_size ∷ []

-- What a call leaves behind: how it ended, the header and the strings. A throw of `substr` needs
-- two strings at least, and then they are locals of the caller, which the throw destroys.
pub record Processed : Type 0 where
  pub outcome : Outcome
  pub header : Header
  pub array : List Bytes

unfoldable pub assign : Bytes → List Bytes → Outcome × Header → Processed
assign payload array (accepted, h) =
    elim (assign_fields (drop header_size payload) 0 (sizes_of h) array) [
      | none ↦ record { outcome = threw; header = h; array = array }
      | some strings ↦ record { outcome = accepted; header = h; array = strings }
    ]
assign payload array (o, h) = record { outcome = o; header = h; array = array }

unfoldable pub process_message : ⦃conv : Charconv⦄ → Bytes → Header → List Bytes → Processed
process_message payload h array =
    if ltb (length payload) header_size
    then record { outcome = rejected; header = h; array = array }
    else assign payload array (deserialize payload h)
