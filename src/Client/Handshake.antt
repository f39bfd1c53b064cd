-- ===== src/Client/Handshake.antt =====
-- The key exchange of the client, client_src/Client.cpp, and the session's side of it, Session.cpp.
use client_server.Base.{Bool, true, false, Option, none, some, if◌then◌else◌, Bytes, length, []}
use client_server.Header.{Header, HeaderType, Compressors, Diagnostics, Status}
use client_server.Crypto.{Crypto}

-- What an encryptor shows of itself: `_signatureWithPubKeySign` and `_encodedPubKeyAes`.
pub record KeyMaterial : Type 0 where
  pub signature_with_key : Bytes
  pub pub_key_aes : Bytes

-- The members of the client that its constructor sets. An encryptor is there with its material.
pub record ClientKeys : Type 0 where
  pub primary_sodium : Option KeyMaterial
  pub primary_cryptopp : Option KeyMaterial
  pub secondary_cryptopp : Option KeyMaterial
  pub primary : KeyMaterial
  pub secondary : KeyMaterial

abbrev no_material : KeyMaterial
no_material = record { signature_with_key = []; pub_key_aes = [] }

-- The switch of the constructor, of a new CryptoSodium and a new CryptoPlPl.
unfoldable pub primary_keys : Crypto → KeyMaterial → KeyMaterial → KeyMaterial → ClientKeys
primary_keys crypto sodium plpl secondary =
    let keys : ClientKeys = record {
      primary_sodium = none;
      primary_cryptopp = none;
      secondary_cryptopp = some secondary;
      primary = no_material;
      secondary = secondary;
    } in
    elim crypto [
      | Crypto.crypto_sodium ↦ record keys { primary_sodium = some sodium; primary = sodium }
      | Crypto.cryptopp ↦ record keys { primary_cryptopp = some plpl; primary = plpl }
      | _ ↦ keys
    ]

-- Behind the switch: without a CryptoSodium one is made, and its material is sent.
unfoldable pub with_sodium : KeyMaterial → ClientKeys → ClientKeys
with_sodium sodium keys = elim keys.primary_sodium [
  | none ↦ record keys { primary_sodium = some sodium; primary = sodium }
  | some material ↦ keys
]

unfoldable pub client_keys : Crypto → KeyMaterial → KeyMaterial → KeyMaterial → ClientKeys
unfolding primary_keys with_sodium
client_keys crypto sodium plpl secondary =
    with_sodium sodium (primary_keys crypto sodium plpl secondary)

-- `_authenticationHeader`
unfoldable pub authentication_header : ClientKeys → Header
authentication_header keys = record {
  header_type = HeaderType.authenticate;
  field1_size = length keys.primary.signature_with_key;
  field2_size = length keys.primary.pub_key_aes;
  compressor = Compressors.none;
  diagnostics = Diagnostics.none;
  status = Status.none;
  field3_size = length keys.secondary.signature_with_key;
  field4_size = length keys.secondary.pub_key_aes;
}

-- The session's encryptors, which are made from the peer's material; a constructor that throws gives
-- `none`, and otherwise the encryptor's own key.
abbrev pub Maker : Type 0
Maker = KeyMaterial → Option Bytes

pub record SessionKeys : Type 0 where
  pub has_sodium : Bool
  pub has_primary_cryptopp : Bool
  pub primary_key : Bytes
  pub secondary_key : Bytes

-- The switch of `Session::Session`.
unfoldable pub primary_session_keys : Crypto → Maker → Maker → KeyMaterial → Option SessionKeys
primary_session_keys crypto sodium plpl peer = elim crypto [
  | Crypto.crypto_sodium ↦ elim (sodium peer) [
    | none ↦ none
    | some key ↦ some (record {
      has_sodium = true;
      has_primary_cryptopp = false;
      primary_key = key;
      secondary_key = [];
    })
  ]
  | Crypto.cryptopp ↦ elim (plpl peer) [
    | none ↦ none
    | some key ↦ some (record {
      has_sodium = false;
      has_primary_cryptopp = true;
      primary_key = key;
      secondary_key = [];
    })
  ]
  | _ ↦ some (record {
    has_sodium = false;
    has_primary_cryptopp = false;
    primary_key = [];
    secondary_key = [];
  })
]

unfoldable pub with_session_sodium : Maker → KeyMaterial → SessionKeys → Option SessionKeys
with_session_sodium sodium peer keys =
    let made : Option SessionKeys = elim (sodium peer) [
      | none ↦ none
      | some key ↦ some (record keys { has_sodium = true; primary_key = key })
    ] in
    if keys.has_sodium then some keys else made

unfoldable pub with_secondary : Maker → KeyMaterial → SessionKeys → Option SessionKeys
with_secondary plpl peer keys = elim (plpl peer) [
  | none ↦ none
  | some key ↦ some (record keys { secondary_key = key })
]

unfoldable pub then_keys :
    Option SessionKeys → (SessionKeys → Option SessionKeys) → Option SessionKeys
then_keys none next = none
then_keys (some keys) next = next keys

-- The constructor, of the two kinds of encryptor and the material that the message brought.
unfoldable pub session_keys :
    Crypto → Maker → Maker → KeyMaterial → KeyMaterial → Option SessionKeys
unfolding primary_session_keys with_session_sodium with_secondary then_keys
session_keys crypto sodium plpl primary secondary =
    then_keys
      (then_keys (primary_session_keys crypto sodium plpl primary)
        (with_session_sodium sodium primary))
      (with_secondary plpl secondary)

-- What a step of the exchange returns for each encryptor; `none` for one that is not there.
pub record Exchanges : Type 0 where
  pub primary_sodium : Option Bool
  pub primary_cryptopp : Option Bool
  pub secondary_sodium : Option Bool
  pub secondary_cryptopp : Option Bool

unfoldable pub signed_next : Bool → Option Bool → Bool
signed_next false o = false
signed_next true none = true
signed_next true (some result) = result

-- `sendSignatureCommon`: the encryptors in their order, as long as they succeed.
unfoldable pub send_signature_common : Exchanges → Bool
unfolding signed_next
send_signature_common x =
    signed_next
      (signed_next (signed_next (signed_next true x.primary_sodium) x.secondary_sodium)
        x.primary_cryptopp)
      x.secondary_cryptopp

-- The next encryptor of `clientKeyExchange`, of the result so far, `none` behind a throw. An
-- encryptor's own function returns true or throws, here `false`.
unfoldable pub exchanged_next : Option Bool → Option Bool → Option Bool
exchanged_next none o = none
exchanged_next (some result) none = some result
exchanged_next (some result) (some true) = some true
exchanged_next (some result) (some false) = none

-- `clientKeyExchange`; false where it throws.
unfoldable pub client_key_exchange : Exchanges → Bool
unfolding exchanged_next
client_key_exchange x =
    let last : Option Bool =
      exchanged_next
        (exchanged_next
          (exchanged_next (exchanged_next (some false) x.primary_sodium) x.primary_cryptopp)
          x.secondary_sodium)
        x.secondary_cryptopp in
    elim last [ none ↦ false | some result ↦ result ]

-- `processStatus`: the status of the header, the result, and whether the heartbeat is started.
unfoldable pub process_status : Header → Exchanges → Bool → (Status × Bool) × Bool
process_status header x heartbeat_enabled =
    if client_key_exchange x
    then ((header.status, true), heartbeat_enabled)
    else ((header.status, false), false)
