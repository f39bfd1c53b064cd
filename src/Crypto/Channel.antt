-- ===== src/Crypto/Channel.antt =====
-- Whatever the options, what one side seals the other side opens.
use mathlib.Core.Option.{some-injective}
use client_server.Base.{
  true, false, ◌++◌, Option, some, Bytes, length, ◌≡◌, refl, sym, ap, ◌∙◌, Bool-cases, inl, inr,
}
use client_server.Charconv.{Charconv}
use client_server.Header.{Header}
use client_server.Header.RoundTrip.{IsSendable}
use client_server.Crypto.Defs.{
  Encryptor, Codecs, select, is_encrypted, compress_data, compress_double_encrypt,
  double_decrypt_decompress, uncompress_read,
}
use client_server.Crypto.Options.{SecureOptions, Draws, seal_text, open_text}
use client_server.Crypto.RoundTrip.{
  IsCipher, AreCodecs, received, message, both, decrypt-serialize, decrypted_twice,
  uncompress_read-message, single_decrypt_decompress-encrypt, single_decrypt_decompress-plain,
  double_decrypt_decompress-encrypt,
}

-- An encryptor that works, with a nonce of its size.
pub record IsWorking (e : Encryptor) (nonce : Bytes) : Type 0 where
  pub cipher : IsCipher e
  pub access : e.access ≡ true
  pub nonce_fits : length nonce ≡ e.nonce_size

module _ ⦃conv : Charconv⦄ where
  -- Opening depends on two of the options.
  pub open_options :
      (o o' : SecureOptions) (codecs : Codecs) (e f : Encryptor) (h : Header) (text : Bytes)
      → o.double_encryption ≡ o'.double_encryption
      → o.single_encryptor ≡ o'.single_encryptor
      → open_text o' codecs (both e f) h text ≡ open_text o codecs (both e f) h text
  unfolding open_text
  open_options o o' codecs e f h text d t = rw (open_text, d, t) refl

  -- Both encryptors and the chosen one work, the compressors undo what they do, the header is
  -- sendable, and no ciphertext can be taken for a message.
  pub record IsSecure (o : SecureOptions) (codecs : Codecs) (e f chosen : Encryptor) (d : Draws)
      (h : Header) (text : Bytes) : Type 0 where
    pub sendable : IsSendable h
    pub codecs_undo : AreCodecs codecs
    pub inner_works : IsWorking e d.nonce
    pub outer_works : IsWorking f d.nonce'
    pub is_chosen : select (both e f) o.single_encryptor ≡ some chosen
    pub chosen_works : IsWorking chosen d.nonce
    pub hidden_single : is_encrypted (chosen.seal d.nonce (message codecs h text) ++ d.nonce) ≡ true
    pub hidden_inner : is_encrypted (e.seal d.nonce (message codecs h text) ++ d.nonce) ≡ true
    pub hidden_outer :
        is_encrypted
          (f.seal d.nonce' (e.seal d.nonce (message codecs h text) ++ d.nonce) ++ d.nonce')
        ≡ true

  module _ (o : SecureOptions) (codecs : Codecs) (e f chosen : Encryptor) (d : Draws)
      (h h' : Header) (text : Bytes) (s : IsSecure o codecs e f chosen d h text) where
    abbrev Opened : Option Bytes → (Bytes → Option (Header × Bytes)) → Type 0
    Opened sealed unseal =
        (out : Bytes) × (sealed ≡ some out) × (unseal out ≡ some (received h, text))

    double_plain :
        Opened
          (compress_double_encrypt codecs (both e f) d.previous d.nonce d.nonce' h text false)
          (double_decrypt_decompress codecs (both e f) h')
    unfolding compress_double_encrypt double_decrypt_decompress
    double_plain = (
      message codecs h text,
      refl,
      ap (uncompress_read codecs) (
            decrypted_twice codecs h h' text s.sendable s.codecs_undo e f (message codecs h text)
              (message codecs h text) (message codecs h text)
              (decrypt-serialize f h (compress_data codecs h text) s.sendable s.outer_works.access)
              (decrypt-serialize e h (compress_data codecs h text) s.sendable s.inner_works.access))
          ∙ uncompress_read-message codecs h h' text s.sendable s.codecs_undo,
    )

    pub open_text-seal_text :
        Opened (seal_text o codecs (both e f) d h text) (open_text o codecs (both e f) h')
    unfolding seal_text open_text
    open_text-seal_text = elim (Bool-cases o.double_encryption) [
      | inl double ↦ elim (Bool-cases o.do_encrypt) [
        | inl encrypted ↦
            rw (seal_text, open_text, double, encrypted)
              (double_decrypt_decompress-encrypt codecs h h' text s.sendable s.codecs_undo e f
                d.previous d.nonce d.nonce' s.inner_works.cipher s.outer_works.cipher
                s.inner_works.access s.outer_works.access s.inner_works.nonce_fits
                s.outer_works.nonce_fits s.hidden_inner s.hidden_outer)
        | inr plain ↦ rw (seal_text, open_text, double, plain) double_plain
      ]
      | inr single ↦ elim (Bool-cases o.do_encrypt) [
        | inl encrypted ↦
            rw (seal_text, open_text, single, encrypted)
              (single_decrypt_decompress-encrypt codecs (both e f) h h' text s.sendable
                s.codecs_undo o.single_encryptor chosen d.previous d.nonce s.is_chosen
                s.chosen_works.cipher s.chosen_works.access s.chosen_works.nonce_fits
                s.hidden_single)
        | inr plain ↦
            rw (seal_text, open_text, single, plain)
              (single_decrypt_decompress-plain codecs (both e f) h h' text s.sendable s.codecs_undo
                o.single_encryptor chosen d.previous d.nonce s.is_chosen s.chosen_works.access)
      ]
    ]

    -- Of the bytes that sealing gave.
    pub open_text_sealed :
        (out : Bytes)
        → seal_text o codecs (both e f) d h text ≡ some out
        → open_text o codecs (both e f) h' out ≡ some (received h, text)
    open_text_sealed out sealed =
        let (again, same, opened) = open_text-seal_text in
        ap (open_text o codecs (both e f) h') (some-injective _ _ (sym sealed ∙ same)) ∙ opened
