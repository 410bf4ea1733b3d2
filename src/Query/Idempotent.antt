-- ===== src/Query/Idempotent.antt =====
-- The normalised query is its own normal form, in a fixed alphabet.
use trustplane_auth_sdk_pyth.Base.{
  ◌≡◌, ◌≢◌, refl, ◌∙◌, ap, ap₂, true, false, List, [], ◌∷◌, map, arith, Text, All, All-append,
  All-imp, all, ℕ, if◌then◌else◌, ok, err,
}
use trustplane_auth_sdk_pyth.Base.Order.{
  insert, IsSorted, sort, All-sort, sort-IsSorted, sort_of_IsSorted,
}
use trustplane_auth_sdk_pyth.Text.{
  split, partition, partition-append, All-partition, All-split, join, split-join, split-ne-nil,
  Lacks,
}
use trustplane_auth_sdk_pyth.Text.Compare.{pair_le, pair_order}
use trustplane_auth_sdk_pyth.Text.Utf8.{IsScalar}
use trustplane_auth_sdk_pyth.Query.Percent.{is_unreserved, percent_encoded, well_escaped, unquote}
use trustplane_auth_sdk_pyth.Query.Escapes.{well_escaped-append}
use trustplane_auth_sdk_pyth.Query.Encodable.{scalars-encodable}
use trustplane_auth_sdk_pyth.Query.RoundTrip.{
  IsPlain, percent_encoded-IsPlain, percent_encoded-Lacks, well_escaped-percent_encoded,
  unquote-percent_encoded, unquote-IsScalar,
}
use trustplane_auth_sdk_pyth.Query.Normal.{
  normal_form, pair_of, equals_plain, accepted, first_refusal, normalize_by_parts,
}
use trustplane_auth_sdk_pyth.Query.{pair_line, normalize_query_rfc3986}

-- The RFC 3986 form of some text.
abbrev IsEncoded : Text → Type 0
IsEncoded k = (a : Text) × (All IsScalar a × (k ≡ percent_encoded a))

abbrev IsEncodedPair : Text × Text → Type 0
IsEncodedPair p = IsEncoded p.0 × IsEncoded p.1

equals_reserved : (is_unreserved b'=' ≡ false) × (is_unreserved b'&' ≡ false)
unfolding is_unreserved
equals_reserved = (refl, refl)

IsEncoded-Lacks : (k : Text) → IsEncoded k → Lacks b'=' k × Lacks b'&' k
IsEncoded-Lacks k (a, (h, e)) = rw e (
  percent_encoded-Lacks b'=' equals_reserved.0 (omega arith) a h,
  percent_encoded-Lacks b'&' equals_reserved.1 (omega arith) a h,
)

IsEncoded-well_escaped : (k : Text) → IsEncoded k → well_escaped k ≡ true
IsEncoded-well_escaped k (a, (h, e)) = rw e (well_escaped-percent_encoded a h)

plain-IsScalar : (c : ℕ) → IsPlain c → IsScalar c
unfolding is_unreserved
plain-IsScalar c h = ground arith

IsEncoded-scalars : (k : Text) → IsEncoded k → All IsScalar k
IsEncoded-scalars k (a, (h, e)) =
    rw e (All-imp plain-IsScalar (percent_encoded a) (percent_encoded-IsPlain a h))

IsEncoded-unquote : (k : Text) → IsEncoded k → percent_encoded (unquote k) ≡ k
IsEncoded-unquote k (a, (h, e)) = rw e (ap percent_encoded (unquote-percent_encoded a h))

-- A line of the normal form is read back as its pair, whole and with no part refused.
module _ (p : Text × Text) (h : IsEncodedPair p) where
  pair_line-Lacks : Lacks b'&' (pair_line p)
  pair_line-Lacks =
      All-append _ p.0 _ (IsEncoded-Lacks p.0 h.0).1 (omega arith, (IsEncoded-Lacks p.1 h.1).1)

  pair_line-well_escaped : well_escaped (pair_line p) ≡ true
  pair_line-well_escaped =
      rw
        (
          well_escaped-append b'=' equals_plain (omega arith) p.0 p.1,
          IsEncoded-well_escaped p.0 h.0,
        )
        (IsEncoded-well_escaped p.1 h.1)

  pair_line-scalars : All IsScalar (pair_line p)
  pair_line-scalars =
      All-append IsScalar p.0 _ (IsEncoded-scalars p.0 h.0) (omega arith, IsEncoded-scalars p.1 h.1)

  pair_line-accepted : accepted (pair_line p) ≡ true
  unfolding accepted
  pair_line-accepted = rw pair_line-well_escaped (scalars-encodable (pair_line p) pair_line-scalars)

  pair_of-pair_line : pair_of (pair_line p) ≡ p
  pair_of-pair_line = rw (
    partition-append b'=' p.0 p.1 (IsEncoded-Lacks p.0 h.0).0,
    IsEncoded-unquote p.0 h.0,
    IsEncoded-unquote p.1 h.1,
  )

lines-Lacks : (ps : List (Text × Text)) → All IsEncodedPair ps → All (Lacks b'&') (map pair_line ps)
lines-Lacks [] h = tt
lines-Lacks (p ∷ ps) (q, h) = (pair_line-Lacks p q, lines-Lacks ps h)

lines-accepted :
    (ps : List (Text × Text)) → All IsEncodedPair ps → all accepted (map pair_line ps) ≡ true
lines-accepted [] h = refl
lines-accepted (p ∷ ps) (q, h) = rw (pair_line-accepted p q) (lines-accepted ps h)

map-pair_of-pair_line :
    (ps : List (Text × Text)) → All IsEncodedPair ps → map pair_of (map pair_line ps) ≡ ps
map-pair_of-pair_line [] h = refl
map-pair_of-pair_line (p ∷ ps) (q, h) =
    ap₂ (λ x (r : List (Text × Text)). x ∷ r) (pair_of-pair_line p q) (map-pair_of-pair_line ps h)

normal_form-lines :
    (ps : List (Text × Text))
    → All IsEncodedPair ps
    → IsSorted pair_le ps
    → normal_form (map pair_line ps) ≡ join (b'&' ∷ []) (map pair_line ps)
unfolding normal_form
normal_form-lines ps h sorted =
    ap (λ qs. join (b'&' ∷ []) (map pair_line qs))
      (ap (sort pair_le) (map-pair_of-pair_line ps h)
        ∙ sort_of_IsSorted pair_le pair_order ps sorted)

join-ne-nil : (p : Text × Text) (ls : List Text) → join (b'&' ∷ []) (pair_line p ∷ ls) ≢ []
unfolding join
join-ne-nil ([], v) [] e = cc
join-ne-nil (c ∷ k, v) [] e = cc
join-ne-nil ([], v) (l ∷ ls) e = cc
join-ne-nil (c ∷ k, v) (l ∷ ls) e = cc

-- A list of encoded pairs in order, written as a query, is its own normal form.
normalize_sorted :
    (p : Text × Text) (ps : List (Text × Text))
    → All IsEncodedPair (p ∷ ps)
    → IsSorted pair_le (p ∷ ps)
    → normalize_query_rfc3986 (join (b'&' ∷ []) (map pair_line (p ∷ ps)))
      ≡ ok (join (b'&' ∷ []) (map pair_line (p ∷ ps)))
normalize_sorted p ps h sorted =
    let parts = split-join b'&' (pair_line p) (map pair_line ps) (lines-Lacks (p ∷ ps) h) in
    normalize_by_parts _ (join-ne-nil p (map pair_line ps))
    ∙ rw (parts, lines-accepted (p ∷ ps) h) (ap ok (normal_form-lines (p ∷ ps) h sorted))

pairs-IsEncoded :
    (parts : List Text) → All (All IsScalar) parts → All IsEncodedPair (map pair_of parts)
pairs-IsEncoded [] h = tt
pairs-IsEncoded (part ∷ parts) (p, h) =
    let (key, value) = All-partition IsScalar b'=' part p in
    (
      (
        (unquote (partition b'=' part).0, (unquote-IsScalar _ key, refl)),
        (unquote (partition b'=' part).1, (unquote-IsScalar _ value, refl)),
      ),
      pairs-IsEncoded parts h,
    )

-- The sorted pairs of a query: at least one, encoded, and in order.
normalize_pairs :
    (ps : List (Text × Text))
    → ps ≢ []
    → All IsEncodedPair ps
    → IsSorted pair_le ps
    → normalize_query_rfc3986 (join (b'&' ∷ []) (map pair_line ps))
      ≡ ok (join (b'&' ∷ []) (map pair_line ps))
normalize_pairs [] h e s = absurd (h refl)
normalize_pairs (p ∷ ps) h e s = normalize_sorted p ps e s

sort-ne-nil : (ps : List (Text × Text)) → ps ≢ [] → sort pair_le ps ≢ []
unfolding sort
sort-ne-nil [] h e = h refl
sort-ne-nil (p ∷ ps) h e = insert-ne-nil p (sort pair_le ps) e
  where
    insert-ne-nil : (p : Text × Text) (ps : List (Text × Text)) → insert pair_le p ps ≢ []
    insert-ne-nil p [] e = cc
    insert-ne-nil p (q ∷ qs) e = ground arith

map-ne-nil : (parts : List Text) → parts ≢ [] → map pair_of parts ≢ []
map-ne-nil [] h e = h refl
map-ne-nil (p ∷ ps) h e = cc

normal_form_fixed :
    (parts : List Text)
    → parts ≢ []
    → All (All IsScalar) parts
    → normalize_query_rfc3986 (normal_form parts) ≡ ok (normal_form parts)
unfolding normal_form
normal_form_fixed parts some_part h =
    normalize_pairs (sort pair_le (map pair_of parts)) (sort-ne-nil _ (map-ne-nil parts some_part))
      (All-sort pair_le IsEncodedPair _ (pairs-IsEncoded parts h))
      (sort-IsSorted pair_le pair_order (map pair_of parts))

-- What normalisation returns of a text of Unicode scalar values is left as it is by a second
-- normalisation.
pub normalize_idempotent :
    (raw n : Text)
    → All IsScalar raw
    → normalize_query_rfc3986 raw ≡ ok n
    → normalize_query_rfc3986 n ≡ ok n
normalize_idempotent [] n h e =
    let e' : n ≡ [] = unfold normalize_query_rfc3986 in cc in
    rw e' (unfold normalize_query_rfc3986 in refl)
normalize_idempotent (c ∷ s) n h e = go (rw (normalize_by_parts (c ∷ s) (cc)) at e)
  where
    go :
        (if all accepted (split b'&' (c ∷ s))
            then ok (normal_form (split b'&' (c ∷ s)))
            else err (first_refusal (split b'&' (c ∷ s))))
          ≡ ok n
        → normalize_query_rfc3986 n ≡ ok n
    go e =
        let e' : normal_form (split b'&' (c ∷ s)) ≡ n = ground arith in
        rw (← e')
          (normal_form_fixed _ (split-ne-nil b'&' (c ∷ s)) (All-split IsScalar b'&' (c ∷ s) h))
