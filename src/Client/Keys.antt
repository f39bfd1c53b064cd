-- ===== src/Client/Keys.antt =====
-- Which keys the two sides of the handshake end with.
use client_server.Base.{true, false, Option, none, some, Bytes, ◌≡◌, ◌≢◌, refl, ap, ◌∙◌}
use client_server.Crypto.{Crypto}
use client_server.Client.Handshake.{
  KeyMaterial, primary_keys, with_sodium, client_keys, Maker, SessionKeys, primary_session_keys,
  with_session_sodium, with_secondary, then_keys, session_keys,
}

-- Whatever the option, the client sends the material of its CryptoSodium.
sent_is_sodium :
    (crypto : Crypto) (sodium plpl secondary : KeyMaterial)
    → ((client_keys crypto sodium plpl secondary).primary ≡ sodium)
      × ((client_keys crypto sodium plpl secondary).secondary ≡ secondary)
unfolding client_keys primary_keys with_sodium
sent_is_sodium Crypto.crypto_sodium sodium plpl secondary = (refl, refl)
sent_is_sodium Crypto.cryptopp sodium plpl secondary = (refl, refl)
sent_is_sodium _ sodium plpl secondary = (refl, refl)

abbrev pub both_keys : Bytes → Bytes → SessionKeys
both_keys k k' = record {
  has_sodium = true;
  has_primary_cryptopp = false;
  primary_key = k;
  secondary_key = k';
}

module _ (sodium plpl secondary : KeyMaterial) (make_sodium make_plpl : Maker) (k k' : Bytes)
    (takes : make_sodium sodium ≡ some k) (takes' : make_plpl secondary ≡ some k') where
  -- What the session makes of what the client sent.
  abbrev pub keys_of_session : Crypto → Option SessionKeys
  keys_of_session crypto =
      let keys = client_keys crypto sodium plpl secondary in
      session_keys crypto make_sodium make_plpl keys.primary keys.secondary

  keys_made :
      (crypto : Crypto) → crypto ≢ Crypto.cryptopp → keys_of_session crypto ≡ some (both_keys k k')
  unfolding session_keys client_keys primary_keys with_sodium primary_session_keys
      with_session_sodium with_secondary then_keys
  keys_made Crypto.crypto_sodium ne =
      rw (primary_session_keys, takes, then_keys, with_session_sodium, with_secondary, takes') refl
  keys_made Crypto.cryptopp ne = absurd (ne refl)
  keys_made Crypto.none ne = rw (then_keys, with_session_sodium, takes, with_secondary, takes') refl
  keys_made Crypto.error ne =
      rw (then_keys, with_session_sodium, takes, with_secondary, takes') refl

  keys_refused : make_plpl sodium ≡ none → keys_of_session Crypto.cryptopp ≡ none
  unfolding session_keys client_keys primary_keys with_sodium primary_session_keys then_keys
  keys_refused refuses = rw (primary_session_keys, refuses, then_keys) refl

  -- If CryptoSodium takes the client's sodium material, CryptoPlPl takes its secondary material
  -- and refuses sodium material: the session has both encryptors' keys unless the primary
  -- encryptor is CryptoPlPl, and with that option its constructor throws.
  pub session_keys-client_keys :
      make_plpl sodium ≡ none
      → (crypto : Crypto)
      → (crypto ≢ Crypto.cryptopp → keys_of_session crypto ≡ some (both_keys k k'))
        × (crypto ≡ Crypto.cryptopp → keys_of_session crypto ≡ none)
  session_keys-client_keys refuses crypto =
      (keys_made crypto, λ e. ap keys_of_session e ∙ keys_refused refuses)
