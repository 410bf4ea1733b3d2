-- ===== src/Tests/Transcript.antt =====
-- The theorems on transcripts at a concrete request.
use mathlib.Core.List.{Permᴰ, Perm}
use trustplane_auth_sdk_pyth.Transcript.Invariance.{build_request_perm, build_request_allow_list}
use trustplane_auth_sdk_pyth.Base.{
  ◌≡◌, ◌≢◌, ◌&&◌, not, map, all, length, refl, true, List, [], ◌∷◌, ◌++◌, arith, Text, All, ok, err,
  returned,
}
use trustplane_auth_sdk_pyth.Base.Int.{pos}
use trustplane_auth_sdk_pyth.Base.Order.{IsSorted, sort}
use trustplane_auth_sdk_pyth.Base64.{replicate}
use trustplane_auth_sdk_pyth.Text.Utf8.{encode, encode_char}
use trustplane_auth_sdk_pyth.Query.{normalize_query_rfc3986}
use trustplane_auth_sdk_pyth.Query.Percent.{strict_unquote, encode_rfc3986}
use trustplane_auth_sdk_pyth.Text.{
  codes, strip, split, partition, Lacks, has_char, has_char-eq-false, is_empty, mem_text, text_eq,
}
use trustplane_auth_sdk_pyth.Text.Compare.{text_le}
use trustplane_auth_sdk_pyth.Transcript.Data.{
  pair, RequestInput, TranscriptV1, default_request, bytes,
}
use trustplane_auth_sdk_pyth.Transcript.Headers.{
  canonical_name, canonical_allow_list, select_headers, sha256_text, body_sha256,
}
use trustplane_auth_sdk_pyth.Transcript.Build.{
  required, check_required, underscored, assemble, build_request, query_of, build_transcript,
  canonical_text, canonical_lines, validate_transcript,
}
use trustplane_auth_sdk_pyth.Transcript.Lines.{
  IsClean, canonical_text-injective, canonical_text-collision,
}
use trustplane_auth_sdk_pyth.Transcript.Allow.{
  distinct, mem_text-canonical_allow_list, canonical_allow_list-IsSorted,
  canonical_allow_list-canonical,
}
use trustplane_auth_sdk_pyth.Transcript.Select.{Covers, select_headers-Covers}
use trustplane_auth_sdk_pyth.Transcript.Complete.{
  Filled, check_required_first, build_transcript_complete,
}
use trustplane_auth_sdk_pyth.Tests.{toy_platform, toy_crypto}

abbrev order_request : RequestInput
order_request = record default_request {
  method = codes "post";
  scheme = codes "https";
  authority = codes "api.example";
  path = codes "/v1/orders";
  raw_query = codes "b=2&a=1";
  audience = codes "api";
  route_id = codes "r1";
  body = bytes (1 ∷ 2 ∷ []);
  headers = pair (codes "Accept") (codes " json ") ∷ [];
  header_allow_list = codes " accept" ∷ codes "ACCEPT" ∷ [];
  nonce = codes "n1";
  issued_at_unix = pos 40;
  passport_jti = codes "j1";
  key_binding = codes "software";
}

abbrev order_transcript : TranscriptV1
order_transcript = assemble order_request (pos 2) (codes "a=1&b=2")

order-built : build_transcript order_request ≡ ok order_transcript
unfolding build_transcript codes normalize_query_rfc3986 strip strict_unquote partition
    validate_transcript sha256_text replicate body_sha256 canonical_allow_list sort mem_text
    select_headers encode_rfc3986 encode encode_char
order-built = refl

build_transcript_complete_example :
    Filled (required order_transcript)
    × (order_transcript.issued_at ≢ pos 0)
    × (order_transcript.headers.allow_list ≡ canonical_allow_list order_request.header_allow_list)
    × Covers order_request.headers order_transcript.headers.allow_list
        order_transcript.headers.selected
build_transcript_complete_example =
    build_transcript_complete order_request order_transcript order-built

unbroken : (ls : List Text) → all (λ l. not (has_char b'\n' l)) ls ≡ true → All (Lacks b'\n') ls
unbroken [] h = tt
unbroken (l ∷ ls) h = ((has_char-eq-false b'\n' l).0 (ground arith), unbroken ls (ground arith))

order-IsClean : IsClean order_transcript
unfolding assemble canonical_lines has_char codes normalize_query_rfc3986 strip strict_unquote
    partition validate_transcript sha256_text replicate body_sha256 canonical_allow_list sort
    mem_text select_headers encode_rfc3986 encode encode_char
order-IsClean = record {
  lines = unbroken (canonical_lines order_transcript) refl;
  names = ground arith;
  selected = ground arith;
  covered = refl;
}

canonical_text-injective_example : order_transcript ≡ order_transcript
canonical_text-injective_example =
    canonical_text-injective order_transcript order_transcript order-IsClean order-IsClean refl

mem_text-canonical_allow_list_example :
    mem_text (codes "accept") (canonical_allow_list order_request.header_allow_list) ≡ (
      not (is_empty (codes "accept"))
      && mem_text (codes "accept") (map canonical_name order_request.header_allow_list))
mem_text-canonical_allow_list_example =
    mem_text-canonical_allow_list (codes "accept") order_request.header_allow_list

canonical_allow_list-IsSorted_example :
    IsSorted text_le (canonical_allow_list order_request.header_allow_list)
    × (distinct (canonical_allow_list order_request.header_allow_list) ≡ true)
canonical_allow_list-IsSorted_example =
    canonical_allow_list-IsSorted order_request.header_allow_list

respelled :
    (n : Text)
    → mem_text n (map canonical_name (codes " accept" ∷ codes "ACCEPT" ∷ []))
      ≡ mem_text n (map canonical_name (codes "Accept" ∷ []))
unfolding mem_text codes canonical_name strip
respelled n = ground arith

canonical_allow_list-canonical_example :
    canonical_allow_list (codes " accept" ∷ codes "ACCEPT" ∷ [])
    ≡ canonical_allow_list (codes "Accept" ∷ [])
canonical_allow_list-canonical_example =
    canonical_allow_list-canonical (codes " accept" ∷ codes "ACCEPT" ∷ []) (codes "Accept" ∷ [])
      respelled

accept-nonempty : All (λ n. n ≢ []) (codes "accept" ∷ [])
unfolding codes
accept-nonempty = ground arith

accept-counted :
    length (codes "accept" ∷ [])
    ≡ length (select_headers order_request.headers (codes "accept" ∷ []))
unfolding codes select_headers strip text_eq
accept-counted = refl

select_headers-Covers_example :
    Covers order_request.headers
      (codes "accept" ∷ [])
      (select_headers order_request.headers (codes "accept" ∷ []))
select_headers-Covers_example =
    select_headers-Covers order_request.headers (codes "accept" ∷ []) accept-nonempty accept-counted

get-Filled : Filled ((codes "method", codes "GET") ∷ [])
unfolding codes
get-Filled = ground arith

check_required_first_example :
    check_required
      ((codes "method", codes "GET") ∷ (codes "route.id", []) ∷ (codes "nonce", []) ∷ [])
    ≡ err (codes "missing_" ++ underscored (codes "route.id"))
check_required_first_example =
    check_required_first ((codes "method", codes "GET") ∷ []) (codes "route.id")
      ((codes "nonce", []) ∷ []) get-Filled

canonical_text-collision_example :
    canonical_text (record order_transcript {
      path = codes "/a" ++ codes "\naudience=" ++ codes "b";
      audience = codes "c";
    })
    ≡ canonical_text (record order_transcript {
      path = codes "/a";
      audience = codes "b" ++ codes "\naudience=" ++ codes "c";
    })
canonical_text-collision_example =
    canonical_text-collision order_transcript (codes "/a") (codes "b") (codes "c")

swapped :
    Perm
      (split b'&' (query_of (strip (codes "?b=2&a=1"))))
      (split b'&' (query_of (strip (codes " a=1&b=2"))))
unfolding split codes query_of strip
swapped = ∣ Permᴰ.swap refl refl ∣₁

build_request_perm_example :
    returned (build_request (record order_request { raw_query = codes "?b=2&a=1" }))
    ≡ returned (build_request (record order_request { raw_query = codes " a=1&b=2" }))
build_request_perm_example =
    build_request_perm order_request (codes "?b=2&a=1") (codes " a=1&b=2") swapped

build_request_allow_list_example :
    build_request
      (record order_request { header_allow_list = codes " accept" ∷ codes "ACCEPT" ∷ [] })
    ≡ build_request (record order_request { header_allow_list = codes "Accept" ∷ [] })
build_request_allow_list_example =
    build_request_allow_list order_request (codes " accept" ∷ codes "ACCEPT" ∷ [])
      (codes "Accept" ∷ []) respelled
