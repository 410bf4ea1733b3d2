-- ===== src/Keys/Laws.antt =====
-- An exported key is loaded back.
use trustplane_auth_sdk_pyth.Base.{
  ℕ, zero, suc, ◌≡◌, ◌<◌, refl, ap, false, [], ◌∷◌, ◌++◌, arith, Bytes, All-append, length,
  length-append, ok,
}
use trustplane_auth_sdk_pyth.Text.{text_eq_refl, is_empty}
use trustplane_auth_sdk_pyth.Platform.{Platform}
use trustplane_auth_sdk_pyth.Crypto.{Crypto, CryptoLaws, PrivateKey}
use trustplane_auth_sdk_pyth.Base64.{b64url}
use trustplane_auth_sdk_pyth.Base64.RoundTrip.{
  AreBytes, strip-b64url, all-b64url, decode-padded, b64url-nonempty,
}
use trustplane_auth_sdk_pyth.Keys.{
  take, drop, key_of_bytes, private_key_from_base64url, export_local_ed25519_key,
}

take-append : (a b : Bytes) (n : ℕ) → length a ≡ n → take n (a ++ b) ≡ a
unfolding take
take-append [] b zero e = refl
take-append [] b (suc n) e = absurd (omega arith)
take-append (x ∷ a) b zero e = absurd (omega arith)
take-append (x ∷ a) b (suc n) e = ap (λ t. x ∷ t) (take-append a b n (omega arith))

drop-append : (a b : Bytes) (n : ℕ) → length a ≡ n → drop n (a ++ b) ≡ b
unfolding drop
drop-append [] b zero e = refl
drop-append [] b (suc n) e = absurd (omega arith)
drop-append (x ∷ a) b zero e = absurd (omega arith)
drop-append (x ∷ a) b (suc n) e = drop-append a b n (omega arith)

module _ ⦃c : Crypto⦄ (laws : CryptoLaws c) ⦃p : Platform⦄ where
  key_of_bytes-pair :
      (k : PrivateKey) → length k.seed ≡ 32 → key_of_bytes (k.seed ++ c.raw_public_key k) ≡ ok k
  unfolding key_of_bytes
  key_of_bytes-pair k h =
      let total : length (k.seed ++ c.raw_public_key k) ≡ 64 =
        omega (arith, length-append k.seed (c.raw_public_key k), laws.public_length k) in
      rw (
        total,
        take-append k.seed (c.raw_public_key k) 32 h,
        drop-append k.seed (c.raw_public_key k) 32 h,
        text_eq_refl (c.raw_public_key k),
      )

  nonempty_pair :
      (seed public : Bytes)
      → length seed ≡ 32
      → AreBytes (seed ++ public)
      → is_empty (b64url (seed ++ public)) ≡ false
  nonempty_pair [] public e h = absurd (omega arith)
  nonempty_pair (x ∷ seed) public e h = b64url-nonempty x (seed ++ public) h

  -- The text that an export gives for a private key of 32 bytes is read back as the key, if
  -- public keys are 32 bytes.
  pub private_key_from_base64url-export :
      (k : PrivateKey)
      → length k.seed ≡ 32
      → AreBytes k.seed
      → private_key_from_base64url (export_local_ed25519_key k).private_key_b64url ≡ ok k
  unfolding private_key_from_base64url export_local_ed25519_key
  private_key_from_base64url-export k h b =
      let both = All-append (λ x. x < 256) k.seed (c.raw_public_key k) b (laws.public_bytes k) in
      rw
        (
          strip-b64url _ both,
          nonempty_pair k.seed (c.raw_public_key k) h both,
          all-b64url _ both,
          decode-padded _ both,
          text_eq_refl _,
        )
        (key_of_bytes-pair k h)
