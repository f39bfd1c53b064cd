-- ===== src/Crypto/Hiding.antt =====
-- The hidden session key: HandleKey of common/CryptoSodium.cpp and KeyHandler of
-- common/CryptoPlPl.cpp, which differ in the size of the key alone; and
-- checkAccess of both files.
use Prim.Native.Nat.{bit_xor}
use client_server.Base.{[], ◌∷◌, Bool, true, false, if◌then◌else◌, Bytes, length, replicate}

pub record KeyHandler : Type 0 where
  pub obfuscator : Bytes
  pub obfuscated : Bool

-- `key[i] ^= _obfuscator[i]` over the size of both.
unfoldable pub xor_bytes : Bytes → Bytes → Bytes
xor_bytes [] mask = []
xor_bytes (b ∷ key) [] = b ∷ key
xor_bytes (b ∷ key) (m ∷ mask) = bit_xor b m ∷ xor_bytes key mask

-- `hideKey`, of the bytes that the random generator gives.
unfoldable pub hide_key : Bytes → KeyHandler → Bytes → KeyHandler × Bytes
unfolding xor_bytes
hide_key random h key =
    if h.obfuscated
    then (h, key)
    else (record { obfuscator = random; obfuscated = true }, xor_bytes key random)

unfoldable pub recover_key : KeyHandler → Bytes → KeyHandler × Bytes
unfolding xor_bytes
recover_key h key =
    if h.obfuscated
    then (
      record { obfuscator = replicate (length h.obfuscator) 0; obfuscated = false },
      xor_bytes key h.obfuscator,
    )
    else (h, key)

-- `setAESKey`: the key that is handed out, and the handler and the stored key behind it.
unfoldable pub set_aes_key : Bytes → KeyHandler → Bytes → Bytes × KeyHandler × Bytes
unfolding hide_key recover_key
set_aes_key random h stored =
    let (h', key) = recover_key h stored in
    let (h'', hidden) = hide_key random h' key in (key, h'', hidden)

-- `checkAccess`: whether the program runs in the server's, the client's or the tests' terminal, and
-- the two flags of the encryptor.
unfoldable pub check_access : Bool → Bool → Bool → Bool → Bool → Bool
check_access server client testbin verified_signature signature_sent =
    if server then verified_signature else if client then signature_sent else testbin
