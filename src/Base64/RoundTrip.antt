-- ===== src/Base64/RoundTrip.antt =====
-- Base64url decoding undoes encoding, and the canonical decoder accepts one spelling of each value.
use trustplane_auth_sdk_pyth.Base.{
  ℕ, ◌+◌, ◌-◌, ◌*◌, ◌/◌, ◌%◌, ◌<◌, ◌≡◌, ◌≢◌, ◌↔◌, refl, sym, ap, ◌∙◌, true, false, [], ◌∷◌, ◌++◌,
  arith, Text, Bytes, all, All, All-imp, length, ◌==◌, if◌then◌else◌, Result, ok, err, ◌>>=◌,
  append-nil, append_assoc,
}
use trustplane_auth_sdk_pyth.Text.{
  codes, text_eq_iff, text_eq_refl, rstrip_by, is_empty, is_space, strip, strip_of, Lacks,
}
use trustplane_auth_sdk_pyth.Base64.{
  pad, sextet_char, sextet_value, is_base64url, urlsafe_b64encode, urlsafe_b64decode, is_pad,
  b64url, replicate, decode_base64url, decode_canonical_base64url, canonical_of,
}

sextet_lem :
    (v : ℕ)
    → v < 64
    → (sextet_value (sextet_char v) ≡ v)
      × (is_base64url (sextet_char v) ≡ true)
      × (sextet_char v ≢ pad)
unfolding sextet_char sextet_value is_base64url
sextet_lem v h = ground arith

-- The encoding without its padding, and the padding.
abbrev plain : Bytes → Text
plain [] = []
plain (a ∷ []) = sextet_char (a / 4) ∷ sextet_char (a % 4 * 16) ∷ []
plain (a ∷ b ∷ []) =
    sextet_char (a / 4) ∷ sextet_char (a % 4 * 16 + b / 16) ∷ sextet_char (b % 16 * 4) ∷ []
plain (a ∷ b ∷ c ∷ rest) =
    sextet_char (a / 4)
    ∷ sextet_char (a % 4 * 16 + b / 16)
    ∷ sextet_char (b % 16 * 4 + c / 64)
    ∷ sextet_char (c % 64)
    ∷ plain rest

abbrev padding : Bytes → Text
padding [] = []
padding (a ∷ []) = pad ∷ pad ∷ []
padding (a ∷ b ∷ []) = pad ∷ []
padding (a ∷ b ∷ c ∷ rest) = padding rest

abbrev pub AreBytes : Bytes → Type 0
AreBytes = All (λ b. b < 256)

encode-plain : (bs : Bytes) → urlsafe_b64encode bs ≡ plain bs ++ padding bs
unfolding urlsafe_b64encode
encode-plain [] = refl
encode-plain (a ∷ []) = refl
encode-plain (a ∷ b ∷ []) = refl
encode-plain (a ∷ b ∷ c ∷ rest) = cc (encode-plain rest)

plain-Lacks : (bs : Bytes) → AreBytes bs → Lacks pad (plain bs)
plain-Lacks [] h = tt
plain-Lacks (a ∷ []) (p, h) = ground (arith, sextet_lem (a / 4), sextet_lem (a % 4 * 16))
plain-Lacks (a ∷ b ∷ []) (p, (q, h)) =
    ground (arith, sextet_lem (a / 4), sextet_lem (a % 4 * 16 + b / 16), sextet_lem (b % 16 * 4))
plain-Lacks (a ∷ b ∷ c ∷ rest) (p, (q, (r, h))) = ground (
  arith,
  sextet_lem (a / 4),
  sextet_lem (a % 4 * 16 + b / 16),
  sextet_lem (b % 16 * 4 + c / 64),
  sextet_lem (c % 64),
  plain-Lacks rest h,
)

all-plain : (bs : Bytes) → AreBytes bs → all is_base64url (plain bs) ≡ true
all-plain [] h = refl
all-plain (a ∷ []) (p, h) = ground (arith, sextet_lem (a / 4), sextet_lem (a % 4 * 16))
all-plain (a ∷ b ∷ []) (p, (q, h)) =
    ground (arith, sextet_lem (a / 4), sextet_lem (a % 4 * 16 + b / 16), sextet_lem (b % 16 * 4))
all-plain (a ∷ b ∷ c ∷ rest) (p, (q, (r, h))) = ground (
  arith,
  sextet_lem (a / 4),
  sextet_lem (a % 4 * 16 + b / 16),
  sextet_lem (b % 16 * 4 + c / 64),
  sextet_lem (c % 64),
  all-plain rest h,
)

rstrip-Lacks : (s : Text) → Lacks pad s → rstrip_by is_pad s ≡ s
unfolding rstrip_by is_pad
rstrip-Lacks [] h = refl
rstrip-Lacks (c ∷ s) (p, h) = ground (arith, rstrip-Lacks s h)

rstrip-snoc : (s : Text) → rstrip_by is_pad (s ++ pad ∷ []) ≡ rstrip_by is_pad s
unfolding rstrip_by is_pad
rstrip-snoc [] = refl
rstrip-snoc (c ∷ s) = ground (arith, rstrip-snoc s)

rstrip-padding : (s : Text) (bs : Bytes) → Lacks pad s → rstrip_by is_pad (s ++ padding bs) ≡ s
rstrip-padding s [] h = rw append-nil (rstrip-Lacks s h)
rstrip-padding s (a ∷ []) h =
    ap (rstrip_by is_pad) (sym (append_assoc s (pad ∷ []) (pad ∷ [])))
    ∙ rstrip-snoc (s ++ pad ∷ [])
    ∙ rstrip-snoc s
    ∙ rstrip-Lacks s h
rstrip-padding s (a ∷ b ∷ []) h = rstrip-snoc s ∙ rstrip-Lacks s h
rstrip-padding s (a ∷ b ∷ c ∷ rest) h = rstrip-padding s rest h

pub b64url-plain : (bs : Bytes) → AreBytes bs → b64url bs ≡ plain bs
unfolding b64url
b64url-plain bs h = rw (encode-plain bs) (rstrip-padding (plain bs) bs (plain-Lacks bs h))

-- As many padding characters come back as were dropped.
replicate-padding : (bs : Bytes) → replicate ((4 - length (plain bs) % 4) % 4) pad ≡ padding bs
unfolding replicate
replicate-padding [] = refl
replicate-padding (a ∷ []) = refl
replicate-padding (a ∷ b ∷ []) = refl
replicate-padding (a ∷ b ∷ c ∷ rest) =
    ap (λ k. replicate k pad) (omega arith) ∙ replicate-padding rest

-- One group of the decoder.
decode_group :
    (p q r s : ℕ) (rest : Text)
    → urlsafe_b64decode (p ∷ q ∷ r ∷ s ∷ rest) ≡ (
        if q == pad
        then err (codes "invalid_base64url")
        else if r == pad
        then ok ((sextet_value p * 4 + sextet_value q / 16) ∷ [])
        else if s == pad
        then ok (
            (sextet_value p * 4 + sextet_value q / 16)
            ∷ (sextet_value q % 16 * 16 + sextet_value r / 4)
            ∷ [])
        else urlsafe_b64decode rest >>= λ bytes. ok (
            (sextet_value p * 4 + sextet_value q / 16)
            ∷ (sextet_value q % 16 * 16 + sextet_value r / 4)
            ∷ (sextet_value r % 4 * 64 + sextet_value s)
            ∷ bytes))
unfolding urlsafe_b64decode
decode_group p q r s rest = refl

decode-plain : (bs : Bytes) → AreBytes bs → urlsafe_b64decode (plain bs ++ padding bs) ≡ ok bs
decode-plain [] h = unfold urlsafe_b64decode in refl
decode-plain (a ∷ []) (p, h) =
    rw (decode_group (sextet_char (a / 4)) (sextet_char (a % 4 * 16)) pad pad [])
      (ground (arith, sextet_lem (a / 4), sextet_lem (a % 4 * 16)))
decode-plain (a ∷ b ∷ []) (p, (q, h)) =
    rw
      (decode_group (sextet_char (a / 4)) (sextet_char (a % 4 * 16 + b / 16))
        (sextet_char (b % 16 * 4)) pad [])
      (ground
        (arith, sextet_lem (a / 4), sextet_lem (a % 4 * 16 + b / 16), sextet_lem (b % 16 * 4)))
decode-plain (a ∷ b ∷ c ∷ rest) (p, (q, (r, h))) =
    rw
      (
        decode_group (sextet_char (a / 4)) (sextet_char (a % 4 * 16 + b / 16))
            (sextet_char (b % 16 * 4 + c / 64)) (sextet_char (c % 64)) (plain rest ++ padding rest),
        decode-plain rest h,
      )
      (ground (
        arith,
        sextet_lem (a / 4),
        sextet_lem (a % 4 * 16 + b / 16),
        sextet_lem (b % 16 * 4 + c / 64),
        sextet_lem (c % 64),
      ))

-- What `b64url` writes for bytes, each below 256, `decode_base64url` reads back.
pub decode_base64url-b64url : (bs : Bytes) → AreBytes bs → decode_base64url (b64url bs) ≡ ok bs
unfolding decode_base64url
decode_base64url-b64url bs h =
    rw (b64url-plain bs h, all-plain bs h, replicate-padding bs) (decode-plain bs h)

-- The canonical decoder reads back what the encoder writes.
pub decode_canonical-b64url :
    (bs : Bytes) (name : Text) → AreBytes bs → decode_canonical_base64url (b64url bs) name ≡ ok bs
unfolding decode_canonical_base64url
decode_canonical-b64url bs name h =
    rw (decode_base64url-b64url bs h) (ground (arith, text_eq_refl (b64url bs)))

-- A text that the canonical decoder accepts is the text that the encoder writes for the bytes it
-- returns.
pub decode_canonical_sound :
    (value name : Text) (bs : Bytes)
    → decode_canonical_base64url value name ≡ ok bs
    → value ≡ b64url bs
unfolding decode_canonical_base64url
decode_canonical_sound value name bs h = sound (decode_base64url value) h
  where
    sound : (r : Result Text Bytes) → canonical_of value name r ≡ ok bs → value ≡ b64url bs
    sound (err e) h = cc
    sound (ok d) h = ground (arith, text_eq_iff (b64url d) value)

-- The canonical decoder returns given bytes, each below 256, for exactly one text, which is the
-- one that `b64url` writes for them.
pub decode_canonical_iff :
    (value name : Text) (bs : Bytes)
    → AreBytes bs
    → (decode_canonical_base64url value name ≡ ok bs) ↔ (value ≡ b64url bs)
decode_canonical_iff value name bs h = (
  decode_canonical_sound value name bs,
  λ e. ap (λ v. decode_canonical_base64url v name) e ∙ decode_canonical-b64url bs name h,
)

pub all-b64url : (bs : Bytes) → AreBytes bs → all is_base64url (b64url bs) ≡ true
all-b64url bs h = rw (b64url-plain bs h) (all-plain bs h)

pub decode-padded :
    (bs : Bytes)
    → AreBytes bs
    → urlsafe_b64decode (b64url bs ++ replicate ((4 - length (b64url bs) % 4) % 4) pad) ≡ ok bs
decode-padded bs h = rw (b64url-plain bs h, replicate-padding bs) (decode-plain bs h)

All-of_all : (s : Text) → all is_base64url s ≡ true → All (λ c. is_base64url c ≡ true) s
All-of_all [] h = tt
All-of_all (c ∷ s) h = (ground arith, All-of_all s (ground arith))

pub b64url-All : (bs : Bytes) → AreBytes bs → All (λ c. is_base64url c ≡ true) (b64url bs)
b64url-All bs h = All-of_all (b64url bs) (all-b64url bs h)

pub not_blank : (c : ℕ) → is_base64url c ≡ true → is_space c ≡ false
unfolding is_base64url is_space
not_blank c h = ground arith

pub strip-b64url : (bs : Bytes) → AreBytes bs → strip (b64url bs) ≡ b64url bs
strip-b64url bs h = strip_of (b64url bs) (All-imp not_blank (b64url bs) (b64url-All bs h))

pub b64url-nonempty : (b : ℕ) (bs : Bytes) → AreBytes (b ∷ bs) → is_empty (b64url (b ∷ bs)) ≡ false
b64url-nonempty a bs h = rw (b64url-plain (a ∷ bs) h) (nonempty a bs)
  where
    nonempty : (a : ℕ) (bs : Bytes) → is_empty (plain (a ∷ bs)) ≡ false
    nonempty a [] = refl
    nonempty a (b ∷ []) = refl
    nonempty a (b ∷ c ∷ rest) = refl
