-- ===== src/Crypto/RoundTrip.antt =====
-- What is compressed and encrypted comes back.
use mathlib.Core.Option.{some-injective}
use client_server.Base.{
  ◌-◌, true, false, [], ◌∷◌, ◌++◌, some, ◌≡◌, refl, ap, ◌∙◌, arith, subst, Bytes, length,
  Bool-cases, Option-cases, inl, inr, length-append, take-append_eq, drop-append_eq,
}
use client_server.Charconv.{Charconv}
use client_server.Header.{
  Header, header_size, Compressors, is_compressed, accepted, serialize, deserialize,
}
use client_server.Header.RoundTrip.{IsSendable, deserialize-serialize, length-serialize}
use client_server.Crypto.Names.{Crypto}
use client_server.Crypto.Defs.{
  Encryptor, CryptoTuple, Codec, Codecs, codec_of, compress_data, uncompress_data, select,
  is_encrypted, input_of, encrypt, decrypt, codec_named, not_accepted, cut_header, decrypt_if,
  encrypt_if, read_header, single_encrypt, single_decrypt, double_encrypt, double_decrypt,
  uncompress_read, compress_single_encrypt, single_decrypt_decompress, compress_double_encrypt,
  double_decrypt_decompress,
}

-- What the libraries promise.
pub record IsCipher (e : Encryptor) : Type 0 where
  pub unseal-seal : (nonce text : Bytes) → e.unseal nonce (e.seal nonce text) ≡ some text

pub record IsCodec (codec : Codec) : Type 0 where
  pub uncompress-compress : (text : Bytes) → codec.uncompress (codec.compress text) ≡ some text

pub record AreCodecs (codecs : Codecs) : Type 0 where
  pub lz4 : IsCodec codecs.lz4
  pub snappy : IsCodec codecs.snappy
  pub zstd : IsCodec codecs.zstd

-- The header as the reader gives it back.
abbrev pub received : Header → Header
received h = record h { field4_size = h.field3_size }

codec_named-IsCodec :
    (codecs : Codecs) (name : Compressors) (codec : Codec)
    → AreCodecs codecs
    → codec_named codecs name ≡ some codec
    → IsCodec codec
unfolding codec_named
codec_named-IsCodec codecs Compressors.lz4 codec a e = subst IsCodec (some-injective _ _ e) a.lz4
codec_named-IsCodec codecs Compressors.snappy codec a e =
    subst IsCodec (some-injective _ _ e) a.snappy
codec_named-IsCodec codecs Compressors.zstd codec a e = subst IsCodec (some-injective _ _ e) a.zstd
codec_named-IsCodec codecs Compressors.invalid_low codec a e = cc
codec_named-IsCodec codecs Compressors.none codec a e = cc
codec_named-IsCodec codecs Compressors.invalid_high codec a e = cc

codec_of-IsCodec :
    (codecs : Codecs) (h : Header) (codec : Codec)
    → AreCodecs codecs
    → codec_of codecs h ≡ some codec
    → IsCodec codec
unfolding codec_of
codec_of-IsCodec codecs h codec a e = elim (Bool-cases (is_compressed h)) [
  | inl c ↦ codec_named-IsCodec codecs h.compressor codec a (rw (c, codec_of) at e)
  | inr c ↦ cc (rw (c, codec_of) at e)
]

codec_of-received :
    (codecs : Codecs) (h : Header) → codec_of codecs (received h) ≡ codec_of codecs h
unfolding codec_of is_compressed
codec_of-received codecs h = refl

uncompress_data-compress_data :
    (codecs : Codecs) (h : Header) (text : Bytes)
    → AreCodecs codecs
    → uncompress_data codecs (received h) (compress_data codecs h text) ≡ some text
unfolding uncompress_data compress_data codec_of is_compressed
uncompress_data-compress_data codecs h text a = elim (Option-cases (codec_of codecs h)) [
  | inl e ↦ rw (compress_data, e, uncompress_data, codec_of-received codecs h, e) refl
  | inr (codec, e) ↦
      rw (compress_data, e, uncompress_data, codec_of-received codecs h, e)
        ((codec_of-IsCodec codecs h codec a e).uncompress-compress text)
]

module _ ⦃conv : Charconv⦄ where
  -- A message is no ciphertext.
  not_hidden :
      (s : Bytes) (h' : Header)
      → ((h : Header) → deserialize s h ≡ (accepted, h'))
      → is_encrypted s ≡ false
  unfolding is_encrypted
  not_hidden [] h' e = refl
  not_hidden (c ∷ s) h' e = ap (λ r. not_accepted r.0) (e _)

  is_encrypted-serialize :
      (h : Header) (text : Bytes) → IsSendable h → is_encrypted (serialize h ++ text) ≡ false
  is_encrypted-serialize h text v =
      not_hidden (serialize h ++ text) (received h) (λ h'. deserialize-serialize h h' text v)

  -- Of a ciphertext with its nonce.
  decrypt-seal :
      (e : Encryptor) (nonce input : Bytes)
      → IsCipher e
      → e.access ≡ true
      → length nonce ≡ e.nonce_size
      → is_encrypted (e.seal nonce input ++ nonce) ≡ true
      → decrypt e (e.seal nonce input ++ nonce) ≡ some input
  unfolding decrypt
  decrypt-seal e nonce input c a n hidden =
      let sealed = e.seal nonce input in
      let size : length sealed ≡ length (sealed ++ nonce) - e.nonce_size =
        omega (arith, length-append sealed nonce, n) in
      rw
        (decrypt, a, hidden, drop-append_eq _ sealed nonce size, take-append_eq _ sealed nonce size)
        (c.unseal-seal nonce input)

  -- What is not encrypted stays as it is.
  pub decrypt-serialize :
      (e : Encryptor) (h : Header) (text : Bytes)
      → IsSendable h
      → e.access ≡ true
      → decrypt e (serialize h ++ text) ≡ some (serialize h ++ text)
  unfolding decrypt
  decrypt-serialize e h text v a = rw (decrypt, a, is_encrypted-serialize h text v)

  read_header-serialize :
      (h h' : Header) (text : Bytes)
      → IsSendable h
      → read_header h' (serialize h ++ text) ≡ some (received h, text)
  unfolding read_header
  read_header-serialize h h' text v =
      rw (read_header, deserialize-serialize h h' text v, cut_header)
        (ap (λ s. some (received h, s))
          (drop-append_eq header_size (serialize h) text (length-serialize h)))

  -- The text that an encryptor gets from the two functions below.
  abbrev pub message : Codecs → Header → Bytes → Bytes
  message codecs h text = serialize h ++ compress_data codecs h text

  pub uncompress_read-message :
      (codecs : Codecs) (h h' : Header) (text : Bytes)
      → IsSendable h
      → AreCodecs codecs
      → uncompress_read codecs (read_header h' (message codecs h text)) ≡ some (received h, text)
  unfolding uncompress_read
  uncompress_read-message codecs h h' text v a =
      rw
        (
          read_header-serialize h h' (compress_data codecs h text) v,
          uncompress_read,
          uncompress_data-compress_data codecs h text a,
        )
        refl

  module _ (codecs : Codecs) (tuple : CryptoTuple) (h h' : Header) (text : Bytes) (v : IsSendable h)
      (a : AreCodecs codecs) where
    -- If the chosen encryptor is there and gives access, its cipher and the compressors undo what
    -- they do, the nonce has its size, the header is sendable and the ciphertext cannot be taken
    -- for a message: encrypting a text yields bytes, and from these come the header, with the
    -- size of the third field in place of the fourth's, and the text.
    pub single_decrypt_decompress-encrypt :
        (library : Crypto) (e : Encryptor) (previous nonce : Bytes)
        → select tuple library ≡ some e
        → IsCipher e
        → e.access ≡ true
        → length nonce ≡ e.nonce_size
        → is_encrypted (e.seal nonce (message codecs h text) ++ nonce) ≡ true
        → (out : Bytes) × (compress_single_encrypt codecs tuple library previous nonce h text true
            ≡ some out)
          × (single_decrypt_decompress codecs tuple library h' out ≡ some (received h, text))
    unfolding compress_single_encrypt single_encrypt encrypt input_of single_decrypt_decompress
        single_decrypt decrypt_if
    single_decrypt_decompress-encrypt library e previous nonce s c access n hidden = (
      e.seal nonce (message codecs h text) ++ nonce,
      rw (compress_single_encrypt, single_encrypt, s, encrypt, access) refl,
      rw
          (
            single_decrypt_decompress,
            single_decrypt,
            s,
            decrypt_if,
            decrypt-seal e nonce (message codecs h text) c access n hidden,
          )
          (uncompress_read-message codecs h h' text v a),
    )

    -- If the chosen encryptor is there and gives access, the compressors undo what they do and
    -- the header is sendable: a text that is sent without encryption is read back by the function
    -- that decrypts, with the size of the third field in place of the fourth's in the header.
    pub single_decrypt_decompress-plain :
        (library : Crypto) (e : Encryptor) (previous nonce : Bytes)
        → select tuple library ≡ some e
        → e.access ≡ true
        → (out : Bytes) × (compress_single_encrypt codecs tuple library previous nonce h text false
            ≡ some out)
          × (single_decrypt_decompress codecs tuple library h' out ≡ some (received h, text))
    unfolding compress_single_encrypt single_decrypt_decompress single_decrypt decrypt_if
    single_decrypt_decompress-plain library e previous nonce s access = (
      message codecs h text,
      refl,
      rw
          (
            single_decrypt_decompress,
            single_decrypt,
            s,
            decrypt_if,
            decrypt-serialize e h (compress_data codecs h text) v access,
          )
          (uncompress_read-message codecs h h' text v a),
    )

  abbrev pub both : Encryptor → Encryptor → CryptoTuple
  both e f = record { sodium = some e; plpl = some f }

  module _ (codecs : Codecs) (h h' : Header) (text : Bytes) (v : IsSendable h)
      (a : AreCodecs codecs) (e f : Encryptor) where
    encrypted_twice :
        (previous nonce nonce' : Bytes)
        → e.access ≡ true
        → f.access ≡ true
        → double_encrypt (both e f) previous nonce nonce' h (compress_data codecs h text)
          ≡ some (f.seal nonce' (e.seal nonce (message codecs h text) ++ nonce) ++ nonce')
    unfolding double_encrypt encrypt input_of encrypt_if
    encrypted_twice previous nonce nonce' access access' = rw (access, access') refl

    pub decrypted_twice :
        (outer inner text' : Bytes)
        → decrypt f outer ≡ some inner
        → decrypt e inner ≡ some text'
        → double_decrypt (both e f) h' outer ≡ read_header h' text'
    unfolding double_decrypt decrypt_if
    decrypted_twice outer inner text' first second = rw (double_decrypt, first, second) refl

    -- If both encryptors are there and give access, their ciphers and the compressors undo what
    -- they do, the nonces have their sizes, the header is sendable and neither ciphertext can be
    -- taken for a message: doubly encrypting a text yields bytes, and from these come the header,
    -- with the size of the third field in place of the fourth's, and the text.
    pub double_decrypt_decompress-encrypt :
        (previous nonce nonce' : Bytes)
        → IsCipher e
        → IsCipher f
        → e.access ≡ true
        → f.access ≡ true
        → length nonce ≡ e.nonce_size
        → length nonce' ≡ f.nonce_size
        → is_encrypted (e.seal nonce (message codecs h text) ++ nonce) ≡ true
        → is_encrypted (f.seal nonce' (e.seal nonce (message codecs h text) ++ nonce) ++ nonce')
          ≡ true
        → (out : Bytes) × (compress_double_encrypt codecs
              (both e f)
              previous
              nonce
              nonce'
              h
              text
              true
            ≡ some out)
          × (double_decrypt_decompress codecs (both e f) h' out ≡ some (received h, text))
    unfolding compress_double_encrypt double_decrypt_decompress
    double_decrypt_decompress-encrypt previous nonce nonce' c d access access' n n' hidden hidden' =
        let inner = e.seal nonce (message codecs h text) ++ nonce in
        (
          f.seal nonce' inner ++ nonce',
          encrypted_twice previous nonce nonce' access access',
          ap (uncompress_read codecs) (
                decrypted_twice _ inner (message codecs h text)
                  (decrypt-seal f nonce' inner d access' n' hidden')
                  (decrypt-seal e nonce (message codecs h text) c access n hidden))
              ∙ uncompress_read-message codecs h h' text v a,
        )
