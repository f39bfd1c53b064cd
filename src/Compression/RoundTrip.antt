-- ===== src/Compression/RoundTrip.antt =====
-- A text that common/CompressionLZ4.cpp compressed, uncompressed.
use client_server.Base.{
  ℕ, zero, suc, ◌+◌, ◌-◌, ◌^◌, ◌≤◌, ◌<◌, [], ◌∷◌, ◌++◌, ◌≡◌, refl, ◌∙◌, ap, arith, some, ltb,
  le→ltb, false, Bytes, length, replicate, length-append, length-replicate, take-append_eq,
  drop-append_eq,
}
use client_server.Charconv.{Charconv, Stops}
use client_server.Charconv.Std.{from_chars, to_chars}
use client_server.Charconv.Laws.{std_charconv}
use client_server.Compression.{
  Lz4, IsLz4, max_input_size, metadata_of, with_metadata, compress, uncompress, uncompress_sized,
}

replicate-Stops : (n : ℕ) → Stops (replicate n 0)
unfolding client_server.Charconv.is_digit
replicate-Stops zero = tt
replicate-Stops (suc n) = refl

with_metadata-some :
    ⦃conv : Charconv⦄ (compressed : Bytes) (size : ℕ)
    → 0 < length compressed
    → with_metadata compressed size ≡ some (compressed ++ metadata_of size)
unfolding with_metadata
with_metadata-some [] size h = absurd (omega arith)
with_metadata-some (c ∷ compressed) size h = refl

uncompress-append :
    (lz4 : Lz4) (compressed metadata rest : Bytes) (size : ℕ)
    → length metadata ≡ 32
    → from_chars (2 ^ 64) metadata ≡ some (size, rest)
    → uncompress lz4 (compressed ++ metadata) ≡ lz4.decompress_safe compressed size
unfolding uncompress uncompress_sized
uncompress-append lz4 compressed metadata rest size fits read =
    let whole = compressed ++ metadata in
    let kept = length whole - 32 in
    let same : length compressed ≡ kept = omega (arith, fits, length-append compressed metadata) in
    let enough : ltb (length whole) 32 ≡ false =
      le→ltb _ _ (omega (arith, fits, length-append compressed metadata)) in
    rw
      (
        enough,
        take-append_eq kept compressed metadata same,
        drop-append_eq kept compressed metadata same,
        read,
      )
      refl

module _ ⦃conv : Charconv⦄ (same_digits : (v : ℕ) → v < 2 ^ 64 → conv.to_chars v ≡ to_chars v)
    (lz4 : Lz4) (laws : IsLz4 lz4) where
  length-metadata_of : (size : ℕ) → size < 10 ^ 10 → length (metadata_of size) ≡ 32
  length-metadata_of size h =
      let digits = conv.to_chars size in
      omega (
        arith,
        length-append digits (replicate (32 - length digits) 0),
        length-replicate {A = ℕ} (32 - length digits) 0,
        conv.to_chars_size size 10 h (omega arith),
      )

  from_chars-metadata_of :
      (size : ℕ)
      → size < 2 ^ 64
      → from_chars (2 ^ 64) (metadata_of size)
        ≡ some (size, replicate (32 - length (conv.to_chars size)) 0)
  unfolding from_chars std_charconv
  from_chars-metadata_of size h =
      ap (λ (s : Bytes). from_chars (2 ^ 64) (s ++ replicate (32 - length (conv.to_chars size)) 0))
        (same_digits size h)
      ∙ std_charconv.from_chars-to_chars (2 ^ 64) size _ h h (replicate-Stops _)

  -- If Boost writes a number as the standard library does, and the library compresses a text of a
  -- size that it accepts where it has the capacity promised and gives it back where it has room
  -- for it: a text of at most 0x7E000000 bytes is compressed to some bytes, and uncompress gives
  -- the text back from these.
  pub uncompress-compress :
      (spare : ℕ) (text : Bytes)
      → length text ≤ max_input_size
      → (out : Bytes) × (compress lz4 spare text ≡ some out) × (uncompress lz4 out ≡ some text)
  unfolding compress
  uncompress-compress spare text small =
      let capacity = lz4.compress_bound (length text) + 32 + spare in
      let compressed = lz4.compress_default text capacity in
      let made = laws.makes_bytes text capacity small (omega arith) in
      (
        compressed ++ metadata_of (length text),
        with_metadata-some compressed (length text) made,
        uncompress-append lz4 compressed (metadata_of (length text)) _ (length text)
              (length-metadata_of (length text) (omega arith))
              (from_chars-metadata_of (length text) (omega arith))
            ∙ laws.decompress-compress text capacity (length text) made (omega arith),
      )
