-- ===== src/Query/Encodable.antt =====
-- Which texts `_encode_rfc3986` takes: those without a surrogate, before and after `unquote`.
use trustplane_auth_sdk_pyth.Base.{
  ℕ, ◌≡◌, ◌≢◌, refl, sym, ◌∙◌, ap, Bool, true, ◌&&◌, List, [], ◌∷◌, ◌++◌, append-nil, arith, Text,
  All, all, Bool-cases, inl, inr, ltb, ok,
}
use trustplane_auth_sdk_pyth.Text.{
  split, partition, join, join_rest, join-split, split-ne-nil, partition-cases,
}
use trustplane_auth_sdk_pyth.Text.Utf8.{IsScalar, Pending, idle, feed, flush}
use trustplane_auth_sdk_pyth.Text.Utf8.Scalars.{IsSound, feed-IsSound, flush-IsScalar}
use trustplane_auth_sdk_pyth.Query.Percent.{
  percent, is_encodable, percent_encoded, encode_rfc3986, is_hex, Piece, byte, char, pieces,
  decode_pieces, unquote,
}

pub all-append :
    {A : Type 0} (test : A → Bool) (xs ys : List A)
    → all test (xs ++ ys) ≡ (all test xs && all test ys)
all-append test [] ys = refl
all-append test (x ∷ xs) ys = rw (all-append test xs ys) (ground arith)

scalar-encodable : (c : ℕ) → IsScalar c → is_encodable c ≡ true
unfolding is_encodable
scalar-encodable c h = ground arith

ascii-encodable : (c : ℕ) → ltb c 0x80 ≡ true → is_encodable c ≡ true
unfolding is_encodable
ascii-encodable c h = ground arith

hex-encodable : (c : ℕ) → is_hex c ≡ true → is_encodable c ≡ true
unfolding is_hex is_encodable
hex-encodable c h = ground arith

percent-encodable : is_encodable percent ≡ true
unfolding is_encodable
percent-encodable = refl

pub scalars-encodable : (s : Text) → All IsScalar s → all is_encodable s ≡ true
scalars-encodable [] h = refl
scalars-encodable (c ∷ s) (p, h) = rw (scalar-encodable c p) (scalars-encodable s h)

pub encode_rfc3986-scalars : (s : Text) → All IsScalar s → encode_rfc3986 s ≡ ok (percent_encoded s)
unfolding encode_rfc3986
encode_rfc3986-scalars s h = rw (scalars-encodable s h) refl

-- `unquote` neither makes nor drops a surrogate.
unfoldable char_encodable : Piece → Bool
char_encodable (byte b) = true
char_encodable (char c) = is_encodable c

pieces-encodable : (s : Text) → all char_encodable (pieces s) ≡ all is_encodable s
unfolding pieces char_encodable
pieces-encodable [] = refl
pieces-encodable (c ∷ []) = refl
pieces-encodable (c ∷ h ∷ []) = ap (λ b. is_encodable c && b) (pieces-encodable (h ∷ []))
pieces-encodable (c ∷ h ∷ l ∷ rest) = ground (
  arith,
  pieces-encodable rest,
  pieces-encodable (h ∷ l ∷ rest),
  percent-encodable,
  hex-encodable h,
  hex-encodable l,
)

decode_pieces-encodable :
    (p : Pending) (ps : List Piece)
    → IsSound p
    → all is_encodable (decode_pieces p ps) ≡ all char_encodable ps
unfolding decode_pieces char_encodable
decode_pieces-encodable p [] s = scalars-encodable (flush p) (flush-IsScalar p)
decode_pieces-encodable p (byte b ∷ ps) s =
    let (out, sound) = feed-IsSound p b s in
    rw
      (
        all-append is_encodable (feed p b).0 (decode_pieces (feed p b).1 ps),
        scalars-encodable (feed p b).0 out,
      )
      (decode_pieces-encodable (feed p b).1 ps sound)
decode_pieces-encodable p (char c ∷ ps) s = elim (Bool-cases (ltb c 0x80)) [
  | inl ascii ↦
      let (out, sound) = feed-IsSound p c s in
      rw
        (
          ascii,
          all-append is_encodable (feed p c).0 (decode_pieces (feed p c).1 ps),
          scalars-encodable (feed p c).0 out,
          ascii-encodable c ascii,
        )
        (decode_pieces-encodable (feed p c).1 ps sound)
  | inr other ↦
      rw
        (
          other,
          all-append is_encodable (flush p) (c ∷ decode_pieces idle ps),
          scalars-encodable _ (flush-IsScalar p),
        )
        (ap (λ b. is_encodable c && b) (decode_pieces-encodable idle ps tt))
]

pub unquote-encodable : (s : Text) → all is_encodable (unquote s) ≡ all is_encodable s
unfolding unquote
unquote-encodable s = decode_pieces-encodable idle (pieces s) tt ∙ pieces-encodable s

-- A separator that is no surrogate cuts a text into parts that are tested alone.
module _ (sep : ℕ) (plain : is_encodable sep ≡ true) where
  pub encodable-append :
      (s t : Text) → all is_encodable (s ++ sep ∷ t) ≡ (all is_encodable s && all is_encodable t)
  encodable-append s t = all-append is_encodable s (sep ∷ t) ∙ rw plain refl

  encodable-join :
      (p : Text) (ps : List Text)
      → all is_encodable (join (sep ∷ []) (p ∷ ps)) ≡ all (all is_encodable) (p ∷ ps)
  unfolding join
  encodable-join p [] = rw append-nil (ground arith)
  encodable-join p (q ∷ qs) =
      encodable-append p (q ++ join_rest (sep ∷ []) qs)
      ∙ ap (λ b. all is_encodable p && b) (encodable-join q qs)

  pub encodable-split : (s : Text) → all is_encodable s ≡ all (all is_encodable) (split sep s)
  encodable-split s = go (split sep s) (split-ne-nil sep s) (join-split sep s)
    where
      go :
          (ps : List Text)
          → ps ≢ []
          → join (sep ∷ []) ps ≡ s
          → all is_encodable s ≡ all (all is_encodable) ps
      go [] h e = absurd (h refl)
      go (p ∷ ps) h e = ap (all is_encodable) (sym e) ∙ encodable-join p ps

  pub encodable-partition :
      (s : Text)
      → all is_encodable s
        ≡ (all is_encodable (partition sep s).0 && all is_encodable (partition sep s).1)
  encodable-partition s = elim (partition-cases sep s) [
    | inl whole ↦ rw whole (ground arith)
    | inr cut ↦ ap (all is_encodable) cut ∙ encodable-append (partition sep s).0 (partition sep s).1
  ]
