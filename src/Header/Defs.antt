-- ===== src/Header/Defs.antt =====
-- The message header of common/Header.h and common/Header.cpp, and the number fields of
-- common/IOUtility.h that it is made of.
use mathlib.Core.Option
use client_server.Base.{
  ℕ, ◌-◌, ◌+◌, ◌^◌, Bool, true, false, ◌∷◌, ◌++◌, Option, none, some, if◌then◌else◌, Bytes, length,
  take, drop, get_or, replicate,
}
use client_server.Charconv.{Charconv}
use client_server.Header.Enums.{
  HeaderType, Compressors, Diagnostics, Status, Enumeration, to_underlying, deserialize_enumeration,
  header_type_enumeration, compressors_enumeration, diagnostics_enumeration, status_enumeration,
}

abbrev pub conv_buffer_size : ℕ
conv_buffer_size = 32

abbrev pub default_numstring_size : ℕ
default_numstring_size = 10

abbrev pub header_size : ℕ
header_size = 1 + 10 + 10 + 1 + 1 + 1 + 10 + 10

pub record Header : Type 0 where
  pub header_type : HeaderType
  pub field1_size : ℕ
  pub field2_size : ℕ
  pub compressor : Compressors
  pub diagnostics : Diagnostics
  pub status : Status
  pub field3_size : ℕ
  pub field4_size : ℕ

unfoldable pub is_compressed : Header → Bool
is_compressed h = elim h.compressor [
  | Compressors.lz4 ↦ true
  | Compressors.snappy ↦ true
  | Compressors.zstd ↦ true
  | _ ↦ false
]

unfoldable pub is_diagnostics_enabled : Header → Bool
is_diagnostics_enabled h = elim h.diagnostics [ Diagnostics.enabled ↦ true | _ ↦ false ]

unfoldable pub is_ok : Header → Bool
is_ok h = elim h.status [
  | Status.none ↦ true
  | Status.max_total_objects ↦ true
  | Status.max_objects_of_type ↦ true
  | _ ↦ false
]

-- How a call of `deserialize` ends: it returns true, it returns false, or it throws.
pub data Outcome : Type 0 where
  accepted rejected threw : Outcome

-- What `deserialize` leaves behind: the outcome, and the caller's header.
abbrev pub Reader : Type 0
Reader = Header → Outcome × Header

continue : Reader → Outcome × Header → Outcome × Header
continue k (accepted, h) = k h
continue k (o, h) = (o, h)

infixl 5 ◌>>◌
unfoldable pub ◌>>◌ : Reader → Reader → Reader
unfolding continue
◌>>◌ m k h = continue k (m h)

-- An element that is no enumerator between the bounds ends the call with false.
unfoldable pub read_enumeration :
    {A : Type 0} ⦃e : Enumeration A⦄ → (A → Header → Header) → ℕ → Reader
read_enumeration put c h = elim (deserialize_enumeration c) [
  | none ↦ (rejected, h)
  | some a ↦ (accepted, put a h)
]

-- `std::string_view(buffer + offset, size)`. The theorems speak of buffers that hold a whole
-- header: reading behind the end of a buffer is undefined in the source.
abbrev pub slice : Bytes → ℕ → ℕ → Bytes
slice buffer offset size = take size (drop offset buffer)

abbrev pub byte_at : Bytes → ℕ → ℕ
byte_at buffer offset = get_or buffer offset 0

module _ ⦃conv : Charconv⦄ where
  -- `to_chars` writes into a buffer of zeros, whose first ten bytes make a field of fixed size.
  unfoldable pub to_chars_boost : ℕ → Bool → Bytes
  to_chars_boost value fixed_size =
      let text = conv.to_chars value in
      let buffer = text ++ replicate (conv_buffer_size - length text) 0 in
      if fixed_size then take default_numstring_size buffer else text

  -- Into a type whose values lie below `bound`; `none` where the source throws "conversion failed".
  unfoldable pub from_chars_boost : ℕ → Bytes → Option ℕ
  from_chars_boost bound str = Option.map (λ r. r.0) (conv.from_chars bound str)

  -- The value is set to 0 before the conversion.
  unfoldable pub read_size : (ℕ → Header → Header) → Bytes → Reader
  read_size put str h = elim (from_chars_boost (2 ^ 64) str) [
    | none ↦ (threw, put 0 h)
    | some n ↦ (accepted, put n h)
  ]

  unfoldable pub serialize : Header → Bytes
  serialize h =
      to_underlying h.header_type
      ∷ (to_chars_boost h.field1_size true
          ++ (to_chars_boost h.field2_size true
              ++ (to_underlying h.compressor
                  ∷ to_underlying h.diagnostics
                  ∷ to_underlying h.status
                  ∷ (to_chars_boost h.field3_size true ++ to_chars_boost h.field4_size true))))

  -- The last conversion reads the bytes of field 3 again: `strp`, where `strq` was cut out.
  unfoldable pub deserialize : Bytes → Reader
  deserialize buffer = do
    read_enumeration (λ a h. record h { header_type = a }) (byte_at buffer 0)
    read_size (λ n h. record h { field1_size = n }) (slice buffer 1 10)
    read_size (λ n h. record h { field2_size = n }) (slice buffer 11 10)
    read_enumeration (λ a h. record h { compressor = a }) (byte_at buffer 21)
    read_enumeration (λ a h. record h { diagnostics = a }) (byte_at buffer 22)
    read_enumeration (λ a h. record h { status = a }) (byte_at buffer 23)
    read_size (λ n h. record h { field3_size = n }) (slice buffer 24 10)
    read_size (λ n h. record h { field4_size = n }) (slice buffer 24 10)
