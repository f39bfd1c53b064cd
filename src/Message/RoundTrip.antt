-- ===== src/Message/RoundTrip.antt =====
-- A message gives the strings back that it was put together from.
use mathlib.Core.Option
use client_server.Base.{
  Bool-cases, inl, inr, take_all, ℕ, ◌+◌, List, [], ◌∷◌, ◌++◌, some, if◌then◌else◌, ◌==◌, Bytes,
  length, take, drop, ◌≡◌, refl, ap, ◌∙◌, arith, length-append, drop-append_eq, take_all,
  Bool-cases, inl, inr, le→ltb,
}
use client_server.Charconv.{Charconv}
use client_server.Header.{Header, header_size, accepted, serialize}
use client_server.Header.RoundTrip.{IsSendable, deserialize-serialize, length-serialize}
use client_server.Message.Defs.{substr, assign_fields, assign, sizes_of, process_message}
use client_server.Message.Fields.{
  refill, three_fit, behind_three, assign_fields-three, assign_fields_last, assign_fields_none,
}

assign_accepted :
    (payload : Bytes) (h : Header) (array strings : List Bytes)
    → assign_fields (drop header_size payload) 0 (sizes_of h) array ≡ some strings
    → assign payload array (accepted, h)
      ≡ record { outcome = accepted; header = h; array = strings }
unfolding assign
assign_accepted payload h array strings e = rw (e, assign)

assign_fields_nil :
    (whole : Bytes) (shift : ℕ) (sizes : List ℕ) → assign_fields whole shift sizes [] ≡ some []
unfolding assign_fields
assign_fields_nil whole shift [] = refl
assign_fields_nil whole shift (n ∷ sizes) = refl

assign_fields_first :
    (p x : Bytes) (n : ℕ) (sizes : List ℕ)
    → n ≡ length p
    → assign_fields p 0 (n ∷ sizes) (x ∷ []) ≡ some (refill x p ∷ [])
unfolding assign_fields substr
assign_fields_first p x n sizes e = elim (Bool-cases (length p == 0)) [
  | inl done ↦ rw (e, done, assign_fields_nil p 0 sizes)
  | inr more ↦ rw (
    e,
    more,
    le→ltb (length p) 0 (omega arith),
    take_all (length p) p (omega arith),
    assign_fields_nil p (0 + n) sizes,
  )
]

module _ ⦃conv : Charconv⦄ where
  -- A message is read as far as its header: the rest depends on the sizes alone.
  process_message-serialize :
      (h h' : Header) (array strings : List Bytes) (body : Bytes)
      → IsSendable h
      → assign_fields body 0 (sizes_of (record h { field4_size = h.field3_size })) array
        ≡ some strings
      → process_message (serialize h ++ body) h' array ≡ record {
        outcome = accepted;
        header = record h { field4_size = h.field3_size };
        array = strings;
      }
  unfolding process_message
  process_message-serialize h h' array strings body v assigned =
      rw
        (
          le→ltb (length (serialize h ++ body)) header_size
              (omega (arith, length-append (serialize h) body, length-serialize h)),
          deserialize-serialize h h' body v,
        )
        (assign_accepted _ _ array strings
          (rw (drop-append_eq header_size (serialize h) body (length-serialize h)) assigned))

  abbrev pub carry : Header → Bytes → Bytes → Bytes → Bytes → Header
  carry h p1 p2 p3 p4 = record h {
    field1_size = length p1;
    field2_size = length p2;
    field3_size = length p3;
    field4_size = length p4;
  }

  module _ (h h' : Header) (p1 p2 p3 p4 : Bytes) (v : IsSendable (carry h p1 p2 p3 p4)) where
    -- A message of four strings whose header is sendable is taken apart into its first three
    -- strings, an empty one leaving the old value; the fourth comes back cut to the length of the
    -- third, or not at all where the third is empty.
    pub process_message_four :
        (x1 x2 x3 x4 : Bytes)
        → process_message
            (serialize (carry h p1 p2 p3 p4) ++ (p1 ++ (p2 ++ (p3 ++ p4))))
            h'
            (x1 ∷ x2 ∷ x3 ∷ x4 ∷ [])
          ≡ record {
            outcome = accepted;
            header = carry h p1 p2 p3 p3;
            array =
                refill x1 p1
                ∷ refill x2 p2
                ∷ refill x3 p3
                ∷ (if length p3 == 0 then x4 else take (length p3) p4)
                ∷ [];
          }
    process_message_four x1 x2 x3 x4 = process_message-serialize (carry h p1 p2 p3 p4) h' _ _ _ v (
        assign_fields-three p1 p2 p3 p4 (length p3) x1 x2 x3 (x4 ∷ [])
        ∙ ap (Option.map (◌++◌ (refill x1 p1 ∷ refill x2 p2 ∷ refill x3 p3 ∷ []))) (
            assign_fields_last (p1 ++ (p2 ++ (p3 ++ p4))) _ (length p3) p4 x4
              (three_fit p1 p2 p3 p4) (behind_three p1 p2 p3 p4)))

    -- A message of four strings whose header is sendable, taken apart into three, gives the first
    -- three strings back, an empty one leaving the old value.
    pub process_message_three :
        (x1 x2 x3 : Bytes)
        → process_message
            (serialize (carry h p1 p2 p3 p4) ++ (p1 ++ (p2 ++ (p3 ++ p4))))
            h'
            (x1 ∷ x2 ∷ x3 ∷ [])
          ≡ record {
            outcome = accepted;
            header = carry h p1 p2 p3 p3;
            array = refill x1 p1 ∷ refill x2 p2 ∷ refill x3 p3 ∷ [];
          }
    process_message_three x1 x2 x3 = process_message-serialize (carry h p1 p2 p3 p4) h' _ _ _ v (
        assign_fields-three p1 p2 p3 p4 (length p3) x1 x2 x3 []
        ∙ ap (Option.map (◌++◌ (refill x1 p1 ∷ refill x2 p2 ∷ refill x3 p3 ∷ [])))
            (assign_fields_none (p1 ++ (p2 ++ (p3 ++ p4))) _ (length p3)))

  -- A message of one string, whose header is sendable and announces the string's length first,
  -- gives the header, with the size of the third field in place of the fourth's, and the string
  -- back, an empty one leaving the old value.
  pub process_message_one :
      (h h' : Header) (p x : Bytes)
      → IsSendable h
      → h.field1_size ≡ length p
      → process_message (serialize h ++ p) h' (x ∷ []) ≡ record {
        outcome = accepted;
        header = record h { field4_size = h.field3_size };
        array = refill x p ∷ [];
      }
  process_message_one h h' p x v e =
      process_message-serialize h h' _ _ p v (assign_fields_first p x h.field1_size _ e)
