-- ===== src/Crypto/Options.antt =====
-- The choice that sessions and clients make between the functions of common/CryptoOperations.cpp.
use client_server.Base.{Bool, if◌then◌else◌, Option, Bytes}
use client_server.Charconv.{Charconv}
use client_server.Header.{Header, Compressors}
use client_server.Crypto.Names.{Crypto}
use client_server.Crypto.Defs.{
  CryptoTuple, Codecs, compress_single_encrypt, single_decrypt_decompress, compress_double_encrypt,
  double_decrypt_decompress,
}

-- `Options::_doubleEncryption`, `Options::_singleEncryptor`, and the compressor and `_doEncrypt` of
-- the server's or the client's options.
pub record SecureOptions : Type 0 where
  pub double_encryption : Bool
  pub single_encryptor : Crypto
  pub compressor : Compressors
  pub do_encrypt : Bool

-- What the encryption of one text draws: what the thread's last call left, and two nonces.
pub record Draws : Type 0 where
  pub previous : Bytes
  pub nonce : Bytes
  pub nonce' : Bytes

module _ ⦃conv : Charconv⦄ where
  unfoldable pub seal_text :
      SecureOptions → Codecs → CryptoTuple → Draws → Header → Bytes → Option Bytes
  seal_text o codecs tuple d h text =
      if o.double_encryption
      then compress_double_encrypt codecs tuple d.previous d.nonce d.nonce' h text o.do_encrypt
      else compress_single_encrypt codecs tuple o.single_encryptor d.previous d.nonce h text
          o.do_encrypt

  unfoldable pub open_text :
      SecureOptions → Codecs → CryptoTuple → Header → Bytes → Option (Header × Bytes)
  open_text o codecs tuple h text =
      if o.double_encryption
      then double_decrypt_decompress codecs tuple h text
      else single_decrypt_decompress codecs tuple o.single_encryptor h text
