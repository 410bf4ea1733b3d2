-- ===== src/Query/RoundTrip.antt =====
-- `unquote` undoes the loop of `_encode_rfc3986`, and what that writes is plain.
use trustplane_auth_sdk_pyth.Base.{
  ℕ, ◌+◌, ◌*◌, ◌/◌, ◌%◌, ◌<◌, ◌≡◌, ◌≢◌, ◌⊎◌, refl, ◌∙◌, ap, Bool, true, false, ◌&&◌, List, [], ◌∷◌,
  ◌++◌, arith, Text, Bytes, All, All-append, All-imp, Bool-cases, inl, inr, ◌==◌, ltb,
  if◌then◌else◌, ok, ◌>>=◌,
}
use trustplane_auth_sdk_pyth.Text.{Lacks}
use trustplane_auth_sdk_pyth.Text.Utf8.{IsScalar, encode, Pending, idle, feed, flush, decode_from}
use trustplane_auth_sdk_pyth.Text.Utf8.RoundTrip.{decode_from-encode, encode_lt}
use trustplane_auth_sdk_pyth.Text.Utf8.Scalars.{IsSound, feed-IsSound, flush-IsScalar}
use trustplane_auth_sdk_pyth.Query.Percent.{
  percent, is_unreserved, hex_upper, encode_byte, encode_bytes, percent_encoded, is_hex, hex_value,
  well_escaped, Piece, byte, char, pieces, decode_pieces, unquote, encode_rfc3986, strict_unquote,
}
use trustplane_auth_sdk_pyth.Query.Escapes.{well_escaped-cons}
use trustplane_auth_sdk_pyth.Query.Encodable.{encode_rfc3986-scalars}

-- The alphabet of an encoded text: unreserved characters, and escapes in upper case.
abbrev pub IsPlain : ℕ → Type 0
IsPlain c = (is_unreserved c ≡ true) ⊎ (c ≡ percent)

encode_byte-IsPlain : (b : ℕ) → b < 256 → All IsPlain (encode_byte b)
unfolding encode_byte hex_upper is_unreserved
encode_byte-IsPlain b h = ground arith

encode_bytes-IsPlain : (bs : Bytes) → All (λ b. b < 256) bs → All IsPlain (encode_bytes bs)
unfolding encode_bytes
encode_bytes-IsPlain [] h = tt
encode_bytes-IsPlain (b ∷ bs) (p, h) =
    All-append IsPlain (encode_byte b) (encode_bytes bs) (encode_byte-IsPlain b p)
      (encode_bytes-IsPlain bs h)

pub percent_encoded-IsPlain : (s : Text) → All IsScalar s → All IsPlain (percent_encoded s)
unfolding percent_encoded
percent_encoded-IsPlain s h = encode_bytes-IsPlain (encode s) (encode_lt s h)

-- An encoded text holds no separator of the query.
pub percent_encoded-Lacks :
    (sep : ℕ)
    → is_unreserved sep ≡ false
    → sep ≢ percent
    → (s : Text) → All IsScalar s
    → Lacks sep (percent_encoded s)
percent_encoded-Lacks sep u p s h =
    All-imp (λ c k. other c k) (percent_encoded s) (percent_encoded-IsPlain s h)
  where
    other : (c : ℕ) → IsPlain c → c ≢ sep
    other c k = ground arith

-- The digits of an escape are read back.
hex_upper_lem : (n : ℕ) → n < 16 → (is_hex (hex_upper n) ≡ true) × (hex_value (hex_upper n) ≡ n)
unfolding hex_upper is_hex hex_value
hex_upper_lem n h = ground arith

unreserved-ne-percent : (c : ℕ) → is_unreserved c ≡ true → (c ≢ percent) × (c < 0x80)
unfolding is_unreserved
unreserved-ne-percent c h = ground arith

pieces-char : (c : ℕ) (s : Text) → c ≢ percent → pieces (c ∷ s) ≡ char c ∷ pieces s
unfolding pieces
pieces-char c [] p = refl
pieces-char c (h ∷ []) p = refl
pieces-char c (h ∷ l ∷ rest) p = ground arith

module _ (b : ℕ) (small : b < 256) (rest : Text) where
  well_escaped-encode_byte : well_escaped (encode_byte b ++ rest) ≡ well_escaped rest
  unfolding encode_byte
  well_escaped-encode_byte = elim (Bool-cases (is_unreserved b)) [
    | inl u ↦ rw u (well_escaped-cons b rest (unreserved-ne-percent b u).0)
    | inr e ↦
        rw e (unfold well_escaped in ground (arith, hex_upper_lem (b / 16), hex_upper_lem (b % 16)))
  ]

  decode_pieces-encode_byte :
      (p : Pending)
      → decode_pieces p (pieces (encode_byte b ++ rest))
        ≡ (feed p b).0 ++ decode_pieces (feed p b).1 (pieces rest)
  unfolding encode_byte
  decode_pieces-encode_byte p = elim (Bool-cases (is_unreserved b)) [
    | inl u ↦
        rw (u, pieces-char b rest (unreserved-ne-percent b u).0)
          (unfold decode_pieces in ground (arith, unreserved-ne-percent b))
    | inr e ↦ rw (e, escaped) (unfold decode_pieces in refl)
  ]
    where
      escaped :
          pieces (percent ∷ hex_upper (b / 16) ∷ hex_upper (b % 16) ∷ rest) ≡ byte b ∷ pieces rest
      escaped = unfold pieces in ground (arith, hex_upper_lem (b / 16), hex_upper_lem (b % 16))

pub well_escaped-encode_bytes :
    (bs : Bytes) → All (λ b. b < 256) bs → well_escaped (encode_bytes bs) ≡ true
unfolding encode_bytes
well_escaped-encode_bytes [] h = unfold well_escaped in refl
well_escaped-encode_bytes (b ∷ bs) (p, h) =
    well_escaped-encode_byte b p (encode_bytes bs) ∙ well_escaped-encode_bytes bs h

decode_pieces-encode_bytes :
    (p : Pending) (bs : Bytes)
    → All (λ b. b < 256) bs
    → decode_pieces p (pieces (encode_bytes bs)) ≡ decode_from p bs
unfolding encode_bytes decode_from
decode_pieces-encode_bytes p [] h = unfold pieces decode_pieces in refl
decode_pieces-encode_bytes p (b ∷ bs) (q, h) =
    decode_pieces-encode_byte b q (encode_bytes bs) p
    ∙ ap (λ (s : Text). (feed p b).0 ++ s) (decode_pieces-encode_bytes (feed p b).1 bs h)

pub well_escaped-percent_encoded :
    (s : Text) → All IsScalar s → well_escaped (percent_encoded s) ≡ true
unfolding percent_encoded
well_escaped-percent_encoded s h = well_escaped-encode_bytes (encode s) (encode_lt s h)

pub unquote-percent_encoded : (s : Text) → All IsScalar s → unquote (percent_encoded s) ≡ s
unfolding unquote percent_encoded
unquote-percent_encoded s h =
    decode_pieces-encode_bytes idle (encode s) (encode_lt s h) ∙ decode_from-encode s h

-- A text of scalar values is encoded, and its RFC 3986 form is accepted and read as the text.
pub strict_unquote-encode_rfc3986 :
    (s : Text) → All IsScalar s → (encode_rfc3986 s >>= λ encoded. strict_unquote encoded) ≡ ok s
unfolding strict_unquote
strict_unquote-encode_rfc3986 s h =
    rw (encode_rfc3986-scalars s h, well_escaped-percent_encoded s h)
      (ap ok (unquote-percent_encoded s h))

-- What `unquote` returns is text: scalar values, whatever the escaped bytes.
CharIsScalar : Piece → Type 0
CharIsScalar (byte b) = Unit
CharIsScalar (char c) = IsScalar c

All-if :
    (b : Bool) (xs ys : List Piece)
    → All CharIsScalar xs
    → All CharIsScalar ys
    → All CharIsScalar (if b then xs else ys)
All-if true xs ys hx hy = hx
All-if false xs ys hx hy = hy

pieces-IsScalar : (s : Text) → All IsScalar s → All CharIsScalar (pieces s)
unfolding pieces CharIsScalar
pieces-IsScalar [] h = tt
pieces-IsScalar (c ∷ []) h = h
pieces-IsScalar (c ∷ d ∷ []) (p, h) = (p, pieces-IsScalar (d ∷ []) h)
pieces-IsScalar (c ∷ d ∷ e ∷ s) (p, (q, (r, h))) =
    All-if (c == percent && is_hex d && is_hex e) (byte (hex_value d * 16 + hex_value e) ∷ pieces s)
      (char c ∷ pieces (d ∷ e ∷ s)) (tt, pieces-IsScalar s h)
      (p, pieces-IsScalar (d ∷ e ∷ s) (q, (r, h)))

decode_pieces-IsScalar :
    (p : Pending) (ps : List Piece)
    → IsSound p
    → All CharIsScalar ps
    → All IsScalar (decode_pieces p ps)
unfolding decode_pieces CharIsScalar
decode_pieces-IsScalar p [] s h = flush-IsScalar p
decode_pieces-IsScalar p (byte b ∷ ps) s (q, h) =
    let (out, sound) = feed-IsSound p b s in
    All-append IsScalar (feed p b).0 _ out (decode_pieces-IsScalar (feed p b).1 ps sound h)
decode_pieces-IsScalar p (char c ∷ ps) s (q, h) = elim (Bool-cases (ltb c 0x80)) [
  | inl ascii ↦
      let (out, sound) = feed-IsSound p c s in
      rw ascii
        (All-append IsScalar (feed p c).0 _ out (decode_pieces-IsScalar (feed p c).1 ps sound h))
  | inr other ↦
      rw other (
        All-append IsScalar (flush p) _ (flush-IsScalar p) (q, decode_pieces-IsScalar idle ps tt h))
]

pub unquote-IsScalar : (s : Text) → All IsScalar s → All IsScalar (unquote s)
unfolding unquote
unquote-IsScalar s h = decode_pieces-IsScalar idle (pieces s) tt (pieces-IsScalar s h)
