-- ===== src/Crypto/Defs.antt =====
-- Compression and encryption of a message, and back. `none` where the source throws.
use mathlib.Core.Option
use client_server.Base.{
  ℕ, ◌-◌, Bool, true, false, [], ◌∷◌, ◌++◌, Option, none, some, if◌then◌else◌, Bytes, take, drop,
  length,
}
use client_server.Charconv.{Charconv}
use client_server.Header.{
  Header, HeaderType, Compressors, Diagnostics, Status, Outcome, accepted, rejected, threw,
  header_size, is_compressed, serialize, deserialize,
}
use client_server.Crypto.Names.{Crypto}

-- An encryptor after the key exchange. The cipher is a library's: `seal` and `unseal` take the nonce,
-- or initialization vector, of `nonce_size` bytes. `access` is what `checkAccess` returns.
pub record Encryptor : Type 0 where
  pub access : Bool
  pub nonce_size : ℕ
  pub seal : Bytes → Bytes → Bytes
  pub unseal : Bytes → Bytes → Option Bytes

-- The two encryptors, each behind a weak pointer.
pub record CryptoTuple : Type 0 where
  pub sodium : Option Encryptor
  pub plpl : Option Encryptor

-- A compression library.
pub record Codec : Type 0 where
  pub compress : Bytes → Bytes
  pub uncompress : Bytes → Option Bytes

pub record Codecs : Type 0 where
  pub lz4 : Codec
  pub snappy : Codec
  pub zstd : Codec

-- The local variable of `isEncrypted`. How the reader ends does not depend on it.
abbrev pub blank_header : Header
blank_header = record {
  header_type = HeaderType.invalid_low;
  field1_size = 0;
  field2_size = 0;
  compressor = Compressors.invalid_low;
  diagnostics = Diagnostics.invalid_low;
  status = Status.invalid_low;
  field3_size = 0;
  field4_size = 0;
}

abbrev pub not_accepted : Outcome → Bool
not_accepted accepted = false
not_accepted rejected = true
not_accepted threw = true

unfoldable pub codec_named : Codecs → Compressors → Option Codec
codec_named codecs Compressors.lz4 = some codecs.lz4
codec_named codecs Compressors.snappy = some codecs.snappy
codec_named codecs Compressors.zstd = some codecs.zstd
codec_named codecs _ = none

-- The compressor that a header names, if it names one.
unfoldable pub codec_of : Codecs → Header → Option Codec
unfolding codec_named
codec_of codecs header = if is_compressed header then codec_named codecs header.compressor else none

unfoldable pub compress_data : Codecs → Header → Bytes → Bytes
compress_data codecs header text = elim (codec_of codecs header) [
  | none ↦ text
  | some codec ↦ codec.compress text
]

unfoldable pub uncompress_data : Codecs → Header → Bytes → Option Bytes
uncompress_data codecs header text = elim (codec_of codecs header) [
  | none ↦ some text
  | some codec ↦ codec.uncompress text
]

unfoldable pub select : CryptoTuple → Crypto → Option Encryptor
select tuple crypto = elim crypto [
  | Crypto.crypto_sodium ↦ tuple.sodium
  | Crypto.cryptopp ↦ tuple.plpl
  | _ ↦ none
]

module _ ⦃conv : Charconv⦄ where
  unfoldable pub is_encrypted : Bytes → Bool
  is_encrypted [] = false
  is_encrypted (c ∷ s) = not_accepted (deserialize (c ∷ s) blank_header).0

  -- Without a header CryptoSodium appends to the input of its thread's last call, `previous`;
  -- CryptoPlPl starts from nothing.
  unfoldable pub input_of : Bytes → Option Header → Bytes → Bytes
  input_of previous none text = previous ++ text
  input_of previous (some header) text = serialize header ++ text

  unfoldable pub encrypt : Encryptor → Bytes → Bytes → Option Header → Bytes → Option Bytes
  encrypt e previous nonce header text =
      if e.access then some (e.seal nonce (input_of previous header text) ++ nonce) else none

  unfoldable pub decrypt : Encryptor → Bytes → Option Bytes
  decrypt e text =
      let size = length text - e.nonce_size in
      if e.access
      then if is_encrypted text then e.unseal (drop size text) (take size text) else some text
      else none

  unfoldable pub cut_header : Bytes → Outcome × Header → Option (Header × Bytes)
  cut_header text (accepted, h) = some (h, drop header_size text)
  cut_header text (rejected, h) = none
  cut_header text (threw, h) = none

  -- The header is read from the front of the text and cut off.
  unfoldable pub read_header : Header → Bytes → Option (Header × Bytes)
  unfolding cut_header
  read_header h text = cut_header text (deserialize text h)

  unfoldable pub single_encrypt :
      CryptoTuple → Crypto → Bytes → Bytes → Header → Bytes → Option Bytes
  single_encrypt tuple crypto previous nonce header source = elim (select tuple crypto) [
    | none ↦ some []
    | some e ↦ encrypt e previous nonce (some header) source
  ]

  unfoldable pub decrypt_if : Option Encryptor → Bytes → Option Bytes
  decrypt_if none text = some text
  decrypt_if (some e) text = decrypt e text

  unfoldable pub single_decrypt : CryptoTuple → Crypto → Header → Bytes → Option (Header × Bytes)
  unfolding decrypt_if
  single_decrypt tuple crypto h text = elim (decrypt_if (select tuple crypto) text) [
    | none ↦ none
    | some decrypted ↦ read_header h decrypted
  ]

  unfoldable pub encrypt_if :
      Option Encryptor → Bytes → Bytes → Option Header → Bytes → Bytes → Option Bytes
  encrypt_if none previous nonce header source otherwise = some otherwise
  encrypt_if (some e) previous nonce header source otherwise =
      encrypt e previous nonce header source

  -- CryptoSodium with the header, then CryptoPlPl over the result.
  unfoldable pub double_encrypt :
      CryptoTuple → Bytes → Bytes → Bytes → Header → Bytes → Option Bytes
  unfolding encrypt_if
  double_encrypt tuple previous nonce nonce' header source =
      elim (encrypt_if tuple.sodium previous nonce (some header) source []) [
        | none ↦ none
        | some encrypted ↦ encrypt_if tuple.plpl [] nonce' none encrypted encrypted
      ]

  unfoldable pub double_decrypt : CryptoTuple → Header → Bytes → Option (Header × Bytes)
  unfolding decrypt_if
  double_decrypt tuple h text = elim (decrypt_if tuple.plpl text) [
    | none ↦ none
    | some outer ↦ elim (decrypt_if tuple.sodium outer) [
      | none ↦ none
      | some decrypted ↦ read_header h decrypted
    ]
  ]

  unfoldable pub uncompress_read : Codecs → Option (Header × Bytes) → Option (Header × Bytes)
  uncompress_read codecs none = none
  uncompress_read codecs (some (h, text)) =
      Option.map (λ plain. (h, plain)) (uncompress_data codecs h text)

  unfoldable pub compress_single_encrypt :
      Codecs → CryptoTuple → Crypto → Bytes → Bytes → Header → Bytes → Bool → Option Bytes
  compress_single_encrypt codecs tuple crypto previous nonce header text do_encrypt =
      let compressed = compress_data codecs header text in
      if do_encrypt
      then single_encrypt tuple crypto previous nonce header compressed
      else some (serialize header ++ compressed)

  unfoldable pub single_decrypt_decompress :
      Codecs → CryptoTuple → Crypto → Header → Bytes → Option (Header × Bytes)
  unfolding uncompress_read
  single_decrypt_decompress codecs tuple crypto h text =
      uncompress_read codecs (single_decrypt tuple crypto h text)

  unfoldable pub compress_double_encrypt :
      Codecs → CryptoTuple → Bytes → Bytes → Bytes → Header → Bytes → Bool → Option Bytes
  compress_double_encrypt codecs tuple previous nonce nonce' header text do_encrypt =
      let compressed = compress_data codecs header text in
      if do_encrypt
      then double_encrypt tuple previous nonce nonce' header compressed
      else some (serialize header ++ compressed)

  unfoldable pub double_decrypt_decompress :
      Codecs → CryptoTuple → Header → Bytes → Option (Header × Bytes)
  unfolding uncompress_read
  double_decrypt_decompress codecs tuple h text =
      uncompress_read codecs (double_decrypt tuple h text)
