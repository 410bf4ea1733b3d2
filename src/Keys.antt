-- ===== src/Keys.antt =====
-- src/trustplane_auth/keys.py: private keys as text, and the export of a local key.
pub mod Laws
use trustplane_auth_sdk_pyth.Base.{
  ℕ, Bool, not, ◌&&◌, ◌||◌, List, [], ◌∷◌, ◌++◌, Text, Bytes, all, length, ◌==◌, if◌then◌else◌,
  Result, ok, err, ◌>>=◌, ◌>>◌, raise_if,
}
use trustplane_auth_sdk_pyth.Text.{codes, text_eq, is_empty, strip, decimal}
use trustplane_auth_sdk_pyth.Platform.{Platform}
use trustplane_auth_sdk_pyth.Base64.{
  is_base64url, b64url, canonical_of, urlsafe_b64decode, replicate, pad,
}
use trustplane_auth_sdk_pyth.Base.{◌-◌, ◌%◌, zero, suc}
use trustplane_auth_sdk_pyth.Crypto.{Crypto, PrivateKey}

pub record LocalEd25519Key : Type 0 where
  pub private_key : PrivateKey
  pub private_key_b64url : Text
  pub public_key_b64url : Text
  pub fingerprint_sha256 : Text
  pub key_binding : Text

-- `bytes[:n]` and `bytes[n:]`.
unfoldable pub take : ℕ → Bytes → Bytes
take zero b = []
take (suc n) [] = []
take (suc n) (x ∷ b) = x ∷ take n b

unfoldable pub drop : ℕ → Bytes → Bytes
drop zero b = b
drop (suc n) [] = []
drop (suc n) (x ∷ b) = drop n b

-- `except ...: raise ValueError("invalid_private_key_base64url")`.
unfoldable pub or_invalid : Result Text Bytes → Result Text Bytes
or_invalid (ok decoded) = ok decoded
or_invalid (err exc) = err (codes "invalid_private_key_base64url")

module _ ⦃c : Crypto⦄ where
  open c use {raw_public_key}

  -- The key that the decoded bytes hold: a seed, or a seed with its public key.
  unfoldable pub key_of_bytes : Bytes → Result Text PrivateKey
  unfolding take drop
  key_of_bytes decoded =
      if length decoded == 32
      then ok (record { seed = decoded })
      else if length decoded == 64
      then if not (text_eq (raw_public_key (record { seed = take 32 decoded })) (drop 32 decoded))
        then err (codes "private_key_public_key_mismatch")
        else ok (record { seed = take 32 decoded })
      else err (codes "invalid_private_key_size: " ++ decimal (length decoded))

  -- `private_key_from_base64url`.
  unfoldable pub private_key_from_base64url : Text → Result Text PrivateKey
  unfolding key_of_bytes or_invalid
  private_key_from_base64url value = do
    let canonical = strip value
    raise_if (is_empty canonical || not (all is_base64url canonical))
        (codes "invalid_private_key_base64url")
    decoded ←
        or_invalid (urlsafe_b64decode (canonical ++ replicate ((4 - length canonical % 4) % 4) pad))
    raise_if (not (text_eq (b64url decoded) canonical))
        (codes "non_canonical_private_key_base64url")
    key_of_bytes decoded

  module _ ⦃p : Platform⦄ where
    open p use {sha256_hex}

    -- `export_local_ed25519_key`.
    unfoldable pub export_local_ed25519_key : PrivateKey → LocalEd25519Key
    export_local_ed25519_key private_key = record {
      private_key = private_key;
      private_key_b64url = b64url (private_key.seed ++ raw_public_key private_key);
      public_key_b64url = b64url (raw_public_key private_key);
      fingerprint_sha256 = codes "sha256:" ++ sha256_hex (raw_public_key private_key);
      key_binding = codes "software";
    }
