-- ===== src/Crypto.antt =====
-- The `cryptography` package as the SDK uses it: Ed25519 keys, by their 32-byte seeds, and PEM.
use trustplane_auth_sdk_pyth.Base.{◌≡◌, ◌<◌, Bool, true, Text, Bytes, All, length, Result}

-- An `Ed25519PrivateKey`, made of its seed.
pub record PrivateKey : Type 0 where
  pub seed : Bytes

-- What `load_pem_private_key` returns: a key of some type.
pub data PemKey : Type 0 where
  ed25519 : PrivateKey → PemKey
  other_type : PemKey

pub record Crypto : Type 0 where
  -- `key.public_key().public_bytes(Raw, Raw)`
  pub raw_public_key : PrivateKey → Bytes
  -- `key.sign(message)`
  pub sign : PrivateKey → Bytes → Bytes
  -- whether `public_key.verify(signature, message)` returns
  pub verify : Bytes → Bytes → Bytes → Bool
  -- `serialization.load_pem_private_key(data, password=None)`
  pub load_pem : Bytes → Result Text PemKey

-- A public key is 32 bytes, and a signature is verified by the public key of the signer.
pub record CryptoLaws (c : Crypto) : Type 0 where
  pub public_length : (k : PrivateKey) → length (c.raw_public_key k) ≡ 32
  pub public_bytes : (k : PrivateKey) → All (λ b. b < 256) (c.raw_public_key k)
  pub signature_bytes : (k : PrivateKey) (m : Bytes) → All (λ b. b < 256) (c.sign k m)
  pub verify-sign :
      (k : PrivateKey) (m : Bytes) → c.verify (c.raw_public_key k) m (c.sign k m) ≡ true
