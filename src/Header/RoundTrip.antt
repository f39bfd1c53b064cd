-- ===== src/Header/RoundTrip.antt =====
-- What `deserialize` makes of the bytes that `serialize` wrote.
use client_server.Base.{
  ℕ, zero, suc, ◌-◌, ◌+◌, ◌^◌, ◌<◌, true, ◌∷◌, ◌++◌, some, ◌≡◌, refl, ap, ◌∙◌, arith, Bytes, length,
  take, replicate, length-append, length-take, length-replicate, take-append, take-append_eq,
  drop-skip, get_or, get_or-skip, append_assoc,
}
use client_server.Charconv.{Charconv, Stops, is_digit}
use client_server.Header.Enums.{
  Enumeration, to_underlying, deserialize_enumeration, IsValid, header_type_enumeration,
  compressors_enumeration, diagnostics_enumeration, status_enumeration, HeaderType-ReadsBack,
  Compressors-ReadsBack, Diagnostics-ReadsBack, Status-ReadsBack,
}
use client_server.Header.Defs.{
  Header, header_size, accepted, Reader, ◌>>◌, to_chars_boost, from_chars_boost, read_enumeration,
  read_size, serialize, deserialize, slice, byte_at,
}

-- A header that the program can put on the wire: proper enumerators, and sizes of ten digits.
pub record IsSendable (h : Header) : Type 0 where
  pub header_type_valid : IsValid h.header_type
  pub compressor_valid : IsValid h.compressor
  pub diagnostics_valid : IsValid h.diagnostics
  pub status_valid : IsValid h.status
  pub field1_fits : h.field1_size < 10 ^ 10
  pub field2_fits : h.field2_size < 10 ^ 10
  pub field3_fits : h.field3_size < 10 ^ 10
  pub field4_fits : h.field4_size < 10 ^ 10

take-replicate-Stops : (k m : ℕ) → Stops (take k (replicate m 0))
unfolding is_digit
take-replicate-Stops zero m = tt
take-replicate-Stops (suc k) zero = tt
take-replicate-Stops (suc k) (suc m) = refl

module _ ⦃conv : Charconv⦄ where
  pub length-to_chars_boost : (v : ℕ) → length (to_chars_boost v true) ≡ 10
  unfolding to_chars_boost
  length-to_chars_boost v =
      let text = conv.to_chars v in
      omega (
        arith,
        length-take 10 (text ++ replicate (32 - length text) 0),
        length-append text (replicate (32 - length text) 0),
        length-replicate {A = ℕ} (32 - length text) 0,
      )

  -- A field of fixed size gives its number back, unless the number has more than ten digits.
  pub from_chars_boost-to_chars_boost :
      (v : ℕ) → v < 10 ^ 10 → from_chars_boost (2 ^ 64) (to_chars_boost v true) ≡ some v
  unfolding to_chars_boost from_chars_boost
  from_chars_boost-to_chars_boost v h =
      let text = conv.to_chars v in
      rw (
        take-append 10 text (replicate (32 - length text) 0)
            (conv.to_chars_size v 10 h (omega arith)),
        conv.from_chars-to_chars (2 ^ 64) v _ (omega arith) (omega arith)
            (take-replicate-Stops (10 - length text) (32 - length text)),
      )

  module _ {A : Type 0} ⦃e : Enumeration A⦄ where
    -- One step of `deserialize` that succeeds.
    read_enumeration_step :
        (put : A → Header → Header) (c : ℕ) (a : A) (k : Reader) (h : Header)
        → deserialize_enumeration c ≡ some a
        → (read_enumeration put c >> k) h ≡ k (put a h)
    unfolding read_enumeration ◌>>◌
    read_enumeration_step put c a k h found = rw (found, read_enumeration, ◌>>◌)

  read_size_step :
      (put : ℕ → Header → Header) (str : Bytes) (n : ℕ) (k : Reader) (h : Header)
      → from_chars_boost (2 ^ 64) str ≡ some n
      → (read_size put str >> k) h ≡ k (put n h)
  unfolding read_size ◌>>◌
  read_size_step put str n k h found = rw (found, read_size, ◌>>◌)

  read_size_last :
      (put : ℕ → Header → Header) (str : Bytes) (n : ℕ) (h : Header)
      → from_chars_boost (2 ^ 64) str ≡ some n
      → read_size put str h ≡ (accepted, put n h)
  unfolding read_size
  read_size_last put str n h found = rw (found, read_size)

  -- Every header takes the same number of bytes.
  pub length-serialize : (h : Header) → length (serialize h) ≡ header_size
  unfolding serialize
  length-serialize h = simp (length-append, length-to_chars_boost)

  -- A buffer in its parts, each field of ten bytes, with `rest` behind the header.
  module _ (t c d s : ℕ) (f1 f2 f3 rest : Bytes) (l1 : length f1 ≡ 10) (l2 : length f2 ≡ 10)
      (l3 : length f3 ≡ 10) where
    tail_part : Bytes
    tail_part = c ∷ d ∷ s ∷ (f3 ++ rest)

    buffer : Bytes
    unfolding tail_part
    buffer = t ∷ (f1 ++ (f2 ++ tail_part))

    slice_field1 : slice buffer 1 10 ≡ f1
    unfolding buffer
    slice_field1 = take-append_eq 10 f1 _ l1

    slice_field2 : slice buffer 11 10 ≡ f2
    unfolding buffer
    slice_field2 =
        ap (take 10) (drop-skip 10 0 f1 (f2 ++ tail_part) l1) ∙ take-append_eq 10 f2 tail_part l2

    slice_field3 : slice buffer 24 10 ≡ f3
    unfolding buffer
    slice_field3 =
        ap (take 10) (drop-skip 10 13 f1 (f2 ++ tail_part) l1 ∙ drop-skip 10 3 f2 tail_part l2)
        ∙ take-append_eq 10 f3 rest l3

    byte_at_type : byte_at buffer 0 ≡ t
    unfolding buffer
    byte_at_type = refl

    -- Seen from the middle of the buffer.
    skip_fields :
        (k : ℕ) → get_or (f1 ++ (f2 ++ tail_part)) (10 + (10 + k)) 0 ≡ get_or tail_part k 0
    skip_fields k =
        get_or-skip 10 (10 + k) f1 (f2 ++ tail_part) 0 l1 ∙ get_or-skip 10 k f2 tail_part 0 l2

    byte_at_compressor : byte_at buffer 21 ≡ c
    unfolding buffer
    byte_at_compressor = skip_fields 0

    byte_at_diagnostics : byte_at buffer 22 ≡ d
    unfolding buffer
    byte_at_diagnostics = skip_fields 1

    byte_at_status : byte_at buffer 23 ≡ s
    unfolding buffer
    byte_at_status = skip_fields 2

    -- `deserialize` step by step, on a buffer whose every part converts.
    deserialize_parts :
        (h h' : Header)
        → deserialize_enumeration t ≡ some h.header_type
        → deserialize_enumeration c ≡ some h.compressor
        → deserialize_enumeration d ≡ some h.diagnostics
        → deserialize_enumeration s ≡ some h.status
        → from_chars_boost (2 ^ 64) f1 ≡ some h.field1_size
        → from_chars_boost (2 ^ 64) f2 ≡ some h.field2_size
        → from_chars_boost (2 ^ 64) f3 ≡ some h.field3_size
        → deserialize buffer h' ≡ (accepted, record h { field4_size = h.field3_size })
    unfolding deserialize
    deserialize_parts h h' et ec ed es e1 e2 e3 =
        read_enumeration_step _ _ h.header_type _ h' (rw byte_at_type et)
        ∙ read_size_step _ _ h.field1_size _ _ (rw slice_field1 e1)
        ∙ read_size_step _ _ h.field2_size _ _ (rw slice_field2 e2)
        ∙ read_enumeration_step _ _ h.compressor _ _ (rw byte_at_compressor ec)
        ∙ read_enumeration_step _ _ h.diagnostics _ _ (rw byte_at_diagnostics ed)
        ∙ read_enumeration_step _ _ h.status _ _ (rw byte_at_status es)
        ∙ read_size_step _ _ h.field3_size _ _ (rw slice_field3 e3)
        ∙ read_size_last _ _ h.field3_size _ (rw slice_field3 e3)

  -- The bytes of a header with `rest` behind them, in their parts.
  serialize_parts :
      (h : Header) (rest : Bytes)
      → serialize h ++ rest
        ≡ buffer
            (to_underlying h.header_type)
            (to_underlying h.compressor)
            (to_underlying h.diagnostics)
            (to_underlying h.status)
            (to_chars_boost h.field1_size true)
            (to_chars_boost h.field2_size true)
            (to_chars_boost h.field3_size true)
            (to_chars_boost h.field4_size true ++ rest)
            (length-to_chars_boost h.field1_size)
            (length-to_chars_boost h.field2_size)
            (length-to_chars_boost h.field3_size)
  unfolding serialize buffer
  serialize_parts h rest = simp append_assoc

  -- A header with valid enumerators and sizes below 10 ^ 10 is read back from its bytes, with
  -- anything behind them, except that the size of the third field comes back in place of the
  -- fourth's.
  pub deserialize-serialize :
      (h h' : Header) (rest : Bytes)
      → IsSendable h
      → deserialize (serialize h ++ rest) h' ≡ (accepted, record h { field4_size = h.field3_size })
  deserialize-serialize h h' rest v = rw (serialize_parts h rest) (
      deserialize_parts _ _ _ _ _ _ _ _ _ _ _ h h'
        (HeaderType-ReadsBack h.header_type v.header_type_valid)
        (Compressors-ReadsBack h.compressor v.compressor_valid)
        (Diagnostics-ReadsBack h.diagnostics v.diagnostics_valid)
        (Status-ReadsBack h.status v.status_valid)
        (from_chars_boost-to_chars_boost h.field1_size v.field1_fits)
        (from_chars_boost-to_chars_boost h.field2_size v.field2_fits)
        (from_chars_boost-to_chars_boost h.field3_size v.field3_fits))
