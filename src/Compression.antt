-- ===== src/Compression.antt =====
-- common/CompressionLZ4.cpp. `Lz4` is what it calls in the library, by its documentation:
-- `LZ4_compress_default` makes no bytes where it fails, and `LZ4_decompress_safe` returns `none`
-- for a negative size.
pub mod RoundTrip
use client_server.Base.{
  ℕ, ◌+◌, ◌-◌, ◌^◌, ◌≤◌, ◌<◌, List, [], ◌∷◌, ◌++◌, ◌≡◌, Option, none, some, if◌then◌else◌, ltb,
  Bytes, length, take, drop, replicate,
}
use client_server.Charconv.{Charconv}
use client_server.Header.{conv_buffer_size}
use client_server.Charconv.Std.{from_chars}

pub record Lz4 : Type 0 where
  pub compress_bound : ℕ → ℕ
  pub compress_default : Bytes → ℕ → Bytes
  pub decompress_safe : Bytes → ℕ → Option Bytes

-- `LZ4_MAX_INPUT_SIZE`, 0x7E000000.
abbrev pub max_input_size : ℕ
max_input_size = 2113929216

-- With the capacity promised a text of a size that it accepts is compressed, and with room for the
-- text it comes out again.
pub record IsLz4 (lz4 : Lz4) : Type 0 where
  pub makes_bytes :
      (text : Bytes) (capacity : ℕ)
      → length text ≤ max_input_size
      → lz4.compress_bound (length text) ≤ capacity
      → 0 < length (lz4.compress_default text capacity)
  pub decompress-compress :
      (text : Bytes) (capacity room : ℕ)
      → 0 < length (lz4.compress_default text capacity)
      → length text ≤ room
      → lz4.decompress_safe (lz4.compress_default text capacity) room ≡ some text

module _ ⦃conv : Charconv⦄ where
  -- The size of the text in digits, and zeros up to 32 bytes.
  abbrev pub metadata_of : ℕ → Bytes
  metadata_of size =
      conv.to_chars size ++ replicate (conv_buffer_size - length (conv.to_chars size)) 0

  -- What was compressed with the metadata behind it; `none` where the source throws.
  unfoldable pub with_metadata : Bytes → ℕ → Option Bytes
  with_metadata [] size = none
  with_metadata (c ∷ compressed) size = some ((c ∷ compressed) ++ metadata_of size)

  -- `compress`; the string's capacity is what was required and some `spare` room.
  unfoldable pub compress : Lz4 → ℕ → Bytes → Option Bytes
  unfolding with_metadata
  compress lz4 spare text =
      let required_capacity = lz4.compress_bound (length text) + conv_buffer_size in
      with_metadata (lz4.compress_default text (required_capacity + spare)) (length text)

-- The size is read from the metadata, of which a text behind the digits is not looked at.
unfoldable pub uncompress_sized : Lz4 → Bytes → Option (ℕ × Bytes) → Option Bytes
uncompress_sized lz4 compressed none = none
uncompress_sized lz4 compressed (some (size, rest)) = lz4.decompress_safe compressed size

-- `uncompress`; `none` where it throws, also in `substr` for a text of less than 32 bytes.
unfoldable pub uncompress : Lz4 → Bytes → Option Bytes
unfolding uncompress_sized
uncompress lz4 text =
    let kept = length text - conv_buffer_size in
    if ltb (length text) conv_buffer_size
    then none
    else uncompress_sized lz4 (take kept text) (from_chars (2 ^ 64) (drop kept text))
