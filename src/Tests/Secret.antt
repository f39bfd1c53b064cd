-- ===== src/Tests/Secret.antt =====
-- Messages compressed and encrypted, with a toy cipher and a toy compressor.
use client_server.Base.{true, false, [], ◌∷◌, ◌++◌, Option, none, some, ◌≡◌, refl, Bytes, codes}
use client_server.Crypto.{
  KeyHandler, hide_key, set_aes_key, Crypto, Encryptor, CryptoTuple, Codec, Codecs,
  compress_single_encrypt, single_decrypt_decompress, compress_double_encrypt,
  double_decrypt_decompress, is_encrypted, select,
}
use client_server.Crypto.RoundTrip.{
  IsCipher, IsCodec, AreCodecs, received, message, both, single_decrypt_decompress-encrypt,
  double_decrypt_decompress-encrypt,
}
use client_server.Crypto.HiddenKey.{Hides, set_aes_key-Hides}
use client_server.Tests.Data.{conv}
use client_server.Tests.Wire.{plain_header, plain_header-IsSendable}

abbrev strip : Bytes → Option Bytes
strip [] = none
strip (c ∷ s) = some s

-- A zero in front stands for the cipher.
abbrev pub toy : Encryptor
toy = record {
  access = true;
  nonce_size = 1;
  seal = λ nonce text. 0 ∷ text;
  unseal = λ nonce text. strip text;
}

abbrev toy_codec : Codec
toy_codec = record { compress = λ text. 1 ∷ text; uncompress = strip }

abbrev pub toy_codecs : Codecs
toy_codecs = record { lz4 = toy_codec; snappy = toy_codec; zstd = toy_codec }

pub toy-IsCipher : IsCipher toy
toy-IsCipher = record { unseal-seal = λ nonce text. refl }

toy_codec-IsCodec : IsCodec toy_codec
toy_codec-IsCodec = record { uncompress-compress = λ text. refl }

pub toy_codecs-AreCodecs : AreCodecs toy_codecs
toy_codecs-AreCodecs = record {
  lz4 = toy_codec-IsCodec;
  snappy = toy_codec-IsCodec;
  zstd = toy_codec-IsCodec;
}

pub toy_hides : (text : Bytes) → is_encrypted (0 ∷ text) ≡ true
unfolding is_encrypted client_server.Header.deserialize client_server.Header.◌>>◌
    client_server.Header.read_enumeration client_server.Header.deserialize_enumeration
    client_server.Header.header_type_code
toy_hides text = refl

abbrev hello : Bytes
hello = codes "hello"

abbrev pub tuple : CryptoTuple
tuple = both toy toy

cryptopp-toy : select tuple Crypto.cryptopp ≡ some toy
unfolding select
cryptopp-toy = refl

single_decrypt_decompress-encrypt_example :
    (out : Bytes) × (compress_single_encrypt toy_codecs tuple Crypto.cryptopp []
        (9 ∷ [])
        plain_header
        hello
        true
      ≡ some out)
    × (single_decrypt_decompress toy_codecs tuple Crypto.cryptopp plain_header out
        ≡ some (received plain_header, hello))
single_decrypt_decompress-encrypt_example =
    single_decrypt_decompress-encrypt toy_codecs tuple plain_header plain_header hello
      plain_header-IsSendable toy_codecs-AreCodecs Crypto.cryptopp toy [] (9 ∷ []) cryptopp-toy
      toy-IsCipher refl refl (toy_hides (message toy_codecs plain_header hello ++ 9 ∷ []))

double_decrypt_decompress-encrypt_example :
    (out : Bytes) × (compress_double_encrypt toy_codecs tuple []
        (9 ∷ [])
        (8 ∷ [])
        plain_header
        hello
        true
      ≡ some out)
    × (double_decrypt_decompress toy_codecs tuple plain_header out
        ≡ some (received plain_header, hello))
double_decrypt_decompress-encrypt_example =
    double_decrypt_decompress-encrypt toy_codecs plain_header plain_header hello
      plain_header-IsSendable toy_codecs-AreCodecs toy toy [] (9 ∷ []) (8 ∷ []) toy-IsCipher
      toy-IsCipher refl refl refl refl (toy_hides (message toy_codecs plain_header hello ++ 9 ∷ []))
      (toy_hides (0 ∷ (message toy_codecs plain_header hello ++ 9 ∷ []) ++ 8 ∷ []))

abbrev fresh_handler : KeyHandler
fresh_handler = record { obfuscator = []; obfuscated = false }

set_aes_key-Hides_example :
    let hidden = hide_key (5 ∷ 6 ∷ []) fresh_handler (1 ∷ 255 ∷ []) in
    let used = set_aes_key (7 ∷ 8 ∷ []) hidden.0 hidden.1 in
    (used.0 ≡ 1 ∷ 255 ∷ []) × Hides used.1 used.2 (1 ∷ 255 ∷ [])
set_aes_key-Hides_example =
    set_aes_key-Hides (5 ∷ 6 ∷ []) (7 ∷ 8 ∷ []) fresh_handler (1 ∷ 255 ∷ []) refl

-- The stored bytes are not the key.
hidden_bytes : (hide_key (5 ∷ 6 ∷ []) fresh_handler (1 ∷ 255 ∷ [])).1 ≡ 4 ∷ 249 ∷ []
unfolding hide_key
hidden_bytes = refl
