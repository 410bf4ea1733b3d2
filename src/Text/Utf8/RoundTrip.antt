-- ===== src/Text/Utf8/RoundTrip.antt =====
-- Decoding an encoded text gives the text back.
use trustplane_auth_sdk_pyth.Base.{
  ℕ, ◌+◌, ◌/◌, ◌%◌, ◌<◌, ◌≤◌, ◌≡◌, refl, ap, ◌∙◌, inl, inr, [], ◌∷◌, ◌++◌, arith, Text, Bytes, ltb,
  Bool-cases, All, All-append,
}
use trustplane_auth_sdk_pyth.Text.Utf8.{IsScalar, encode_char, encode, idle, decode_from, decode}

module _ (c : ℕ) (rest : Bytes) where
  two :
      0x80 ≤ c
      → c < 0x800
      → decode_from idle ((0xC0 + c / 64) ∷ (0x80 + c % 64) ∷ rest) ≡ c ∷ decode_from idle rest
  unfolding decode_from
  two h k = ground arith

  three :
      0x800 ≤ c
      → c < 0x10000
      → IsScalar c
      → decode_from idle ((0xE0 + c / 4096) ∷ (0x80 + c / 64 % 64) ∷ (0x80 + c % 64) ∷ rest)
        ≡ c ∷ decode_from idle rest
  unfolding decode_from
  three h k s = ground arith

  four :
      0x10000 ≤ c
      → c < 0x110000
      → decode_from idle (
          (0xF0 + c / 262144)
          ∷ (0x80 + c / 4096 % 64)
          ∷ (0x80 + c / 64 % 64)
          ∷ (0x80 + c % 64)
          ∷ rest)
        ≡ c ∷ decode_from idle rest
  unfolding decode_from
  four h k = ground arith

pub decode_from-encode_char :
    (c : ℕ) (rest : Bytes)
    → IsScalar c
    → decode_from idle (encode_char c ++ rest) ≡ c ∷ decode_from idle rest
unfolding encode_char
decode_from-encode_char c rest s = elim (Bool-cases (ltb c 0x80)) [
  | inl one ↦ rw one (unfold decode_from in rw one)
  | inr h ↦ elim (Bool-cases (ltb c 0x800)) [
    | inl k ↦ rw (h, k) (two c rest (ground arith) (ground arith))
    | inr l ↦ elim (Bool-cases (ltb c 0x10000)) [
      | inl k ↦ rw (h, l, k) (three c rest (ground arith) (ground arith) s)
      | inr m ↦ rw (h, l, m) (four c rest (ground arith) (ground arith))
    ]
  ]
]

pub decode_from-encode : (s : Text) → All IsScalar s → decode_from idle (encode s) ≡ s
unfolding encode
decode_from-encode [] h = unfold decode_from in refl
decode_from-encode (c ∷ s) (p, h) =
    decode_from-encode_char c (encode s) p ∙ ap (λ t. c ∷ t) (decode_from-encode s h)

-- Decoding the encoding of a text of scalar values gives the text.
pub decode-encode : (s : Text) → All IsScalar s → decode (encode s) ≡ s
unfolding decode
decode-encode s h = decode_from-encode s h

-- The encoding consists of bytes.
encode_char_lt : (c : ℕ) → IsScalar c → All (λ b. b < 256) (encode_char c)
unfolding encode_char
encode_char_lt c s = ground arith

pub encode_lt : (s : Text) → All IsScalar s → All (λ b. b < 256) (encode s)
unfolding encode
encode_lt [] h = tt
encode_lt (c ∷ s) (p, h) =
    All-append _ (encode_char c) (encode s) (encode_char_lt c p) (encode_lt s h)
