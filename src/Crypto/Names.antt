-- ===== src/Crypto/Names.antt =====
-- The encryptors' names of common/Header.h.

pub data Crypto : Type 0 where
  crypto_sodium cryptopp none error : Crypto
