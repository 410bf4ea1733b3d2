-- ===== src/Tests/Query.antt =====
-- The theorems on queries at concrete queries.
use trustplane_auth_sdk_pyth.Base.{
  ◌≡◌, ◌↔◌, refl, true, [], ◌∷◌, ◌++◌, ◌&&◌, all, ◌>>=◌, returned, arith, Text, All, if◌then◌else◌,
  ok, err,
}
use mathlib.Core.List.{Permᴰ, Perm}
use trustplane_auth_sdk_pyth.Text.{codes, split, partition}
use trustplane_auth_sdk_pyth.Base.Order.{sort}
use trustplane_auth_sdk_pyth.Text.Utf8.{IsScalar, encode, encode_char}
use trustplane_auth_sdk_pyth.Query.{normalize_query_rfc3986}
use trustplane_auth_sdk_pyth.Query.Percent.{
  is_encodable, surrogates, well_escaped, encode_rfc3986, strict_unquote,
}
use trustplane_auth_sdk_pyth.Query.Escapes.{WellEscaped, well_escaped_iff}
use trustplane_auth_sdk_pyth.Query.RoundTrip.{strict_unquote-encode_rfc3986}
use trustplane_auth_sdk_pyth.Query.Normal.{normal_form, first_refusal, normalize_query_rfc3986_lem}
use trustplane_auth_sdk_pyth.Query.Order.{normalize_perm}
use trustplane_auth_sdk_pyth.Query.Idempotent.{normalize_idempotent}

abbrev two_pairs : Text
two_pairs = codes "b=2&a=%41"

two_pairs-IsScalar : All IsScalar two_pairs
unfolding codes
two_pairs-IsScalar = ground arith

two_pairs-normal : normalize_query_rfc3986 two_pairs ≡ ok (codes "a=A&b=2")
unfolding normalize_query_rfc3986 codes strict_unquote partition sort encode_rfc3986 encode
    encode_char
two_pairs-normal = refl

normalize_idempotent_example : normalize_query_rfc3986 (codes "a=A&b=2") ≡ ok (codes "a=A&b=2")
normalize_idempotent_example =
    normalize_idempotent two_pairs (codes "a=A&b=2") two_pairs-IsScalar two_pairs-normal

swapped : Perm (split b'&' (codes "b=2&a=%41")) (split b'&' (codes "a=%41&b=2"))
unfolding split codes
swapped = ∣ Permᴰ.swap refl refl ∣₁

normalize_perm_example :
    returned (normalize_query_rfc3986 (codes "b=2&a=%41"))
    ≡ returned (normalize_query_rfc3986 (codes "a=%41&b=2"))
normalize_perm_example = normalize_perm (codes "b=2&a=%41") (codes "a=%41&b=2") swapped

two_pairs-nonempty : two_pairs ≡ [] → ⊥
unfolding codes
two_pairs-nonempty h = cc

normalize_query_rfc3986_lem_example : normalize_query_rfc3986 two_pairs ≡ (
    if well_escaped two_pairs && all is_encodable two_pairs
    then ok (normal_form (split b'&' two_pairs))
    else err (first_refusal (split b'&' two_pairs)))
normalize_query_rfc3986_lem_example = normalize_query_rfc3986_lem two_pairs two_pairs-nonempty

well_escaped_iff_example : (well_escaped two_pairs ≡ true) ↔ WellEscaped two_pairs
well_escaped_iff_example = well_escaped_iff two_pairs

-- A lone surrogate is refused.
lone_surrogate : normalize_query_rfc3986 (codes "a=" ++ 0xD800 ∷ []) ≡ err surrogates
unfolding normalize_query_rfc3986 codes strict_unquote partition encode_rfc3986
lone_surrogate = refl

strict_unquote-encode_rfc3986_example :
    (encode_rfc3986 two_pairs >>= λ encoded. strict_unquote encoded) ≡ ok two_pairs
strict_unquote-encode_rfc3986_example = strict_unquote-encode_rfc3986 two_pairs two_pairs-IsScalar
