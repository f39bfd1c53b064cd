-- ===== src/Tests/Packing.antt =====
-- A text compressed with its size behind it, at concrete inputs.
use client_server.Base.{◌+◌, [], ◌∷◌, ◌≡◌, refl, Option, none, some, Bytes, codes, arith}
use client_server.Compression.{Lz4, IsLz4, compress, uncompress}
use client_server.Compression.RoundTrip.{uncompress-compress}
use client_server.Tests.Data.{conv}

abbrev unpack : Bytes → Option Bytes
unpack [] = none
unpack (c ∷ s) = some s

-- A byte in front stands for the compression.
abbrev one_byte : Lz4
one_byte = record {
  compress_bound = λ size. size + 1;
  compress_default = λ text capacity. 1 ∷ text;
  decompress_safe = λ text room. unpack text;
}

one_byte-IsLz4 : IsLz4 one_byte
one_byte-IsLz4 = record {
  makes_bytes = λ text capacity small enough. omega arith;
  decompress-compress = λ text capacity room some_bytes fits. refl;
}

uncompress-compress_example :
    (out : Bytes) × (compress one_byte 0 (codes "hello") ≡ some out)
    × (uncompress one_byte out ≡ some (codes "hello"))
unfolding client_server.Charconv.Std.to_chars client_server.Charconv.Laws.std_charconv
uncompress-compress_example =
    uncompress-compress (λ v h. refl) one_byte one_byte-IsLz4 0 (codes "hello") (omega arith)

-- Fewer bytes than the size takes: the call throws.
uncompress_short : uncompress one_byte (codes "hello") ≡ none
unfolding uncompress
uncompress_short = refl
