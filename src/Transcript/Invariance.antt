-- ===== src/Transcript/Invariance.antt =====
-- Spellings of a request that make no difference to what is signed.
use mathlib.Core.List.{Perm}
use trustplane_auth_sdk_pyth.Base.{
  ◌≡◌, refl, sym, ap, ◌∙◌, List, map, Text, Result, ok, ◌>>=◌, ◌>>◌, returned, returned->>=,
  returned-under,
}
use trustplane_auth_sdk_pyth.Text.{strip, split, mem_text}
use trustplane_auth_sdk_pyth.Platform.{Platform}
use trustplane_auth_sdk_pyth.Query.{normalize_query_rfc3986}
use trustplane_auth_sdk_pyth.Query.Order.{normalize_perm}
use trustplane_auth_sdk_pyth.Transcript.Data.{RequestInput, RequestMaterial, TranscriptV1}
use trustplane_auth_sdk_pyth.Transcript.Headers.{sha256_text, canonical_name}
use trustplane_auth_sdk_pyth.Transcript.Build.{
  canonical_text, canonical_lines, query_of, time_bucket, issue_time, validate_transcript, assemble,
  build_transcript, build_request,
}
use trustplane_auth_sdk_pyth.Transcript.Allow.{canonical_allow_list-canonical}

module _ ⦃p : Platform⦄ where
  -- The transcript of a request, by its normalised query and its canonical allow list.
  transcript_of : RequestInput → Result Text Text → (Result Text TranscriptV1)
  transcript_of input query = time_bucket input.time_bucket_seconds (issue_time input) >>= λ bucket.
      query >>= λ normalized.
      validate_transcript (assemble input bucket normalized)
      >> ok (assemble input bucket normalized)

  build_transcript-transcript_of :
      (input : RequestInput)
      → build_transcript input
        ≡ transcript_of input (normalize_query_rfc3986 (query_of (strip input.raw_query)))
  unfolding build_transcript transcript_of
  build_transcript-transcript_of input = refl

  same_transcript :
      (input : RequestInput) (raw raw' : Text) (query : Result Text Text)
      → transcript_of (record input { raw_query = raw }) query
        ≡ transcript_of (record input { raw_query = raw' }) query
  unfolding transcript_of assemble issue_time
  same_transcript input raw raw' query = refl

  returned-transcript_of :
      (input : RequestInput) (query query' : Result Text Text)
      → returned query ≡ returned query'
      → returned (transcript_of input query) ≡ returned (transcript_of input query')
  unfolding transcript_of
  returned-transcript_of input query query' h =
      returned-under (time_bucket input.time_bucket_seconds (issue_time input)) _ _
        (λ bucket. returned->>= query query' _ h)

  -- The order of the parameters in the raw query of a request makes no difference to its
  -- canonical lines and its digests, nor to whether it is refused.
  pub build_request_perm :
      (input : RequestInput) (raw raw' : Text)
      → Perm (split b'&' (query_of (strip raw))) (split b'&' (query_of (strip raw')))
      → returned (build_request (record input { raw_query = raw }))
        ≡ returned (build_request (record input { raw_query = raw' }))
  unfolding build_request
  build_request_perm input raw raw' h =
      returned->>= _ _ (λ transcript. ok (material transcript))
        (ap returned (build_transcript-transcript_of (record input { raw_query = raw }))
          ∙ returned-transcript_of (record input { raw_query = raw }) _ _
              (normalize_perm (query_of (strip raw)) (query_of (strip raw')) h)
          ∙ ap returned
              (same_transcript input raw raw' (normalize_query_rfc3986 (query_of (strip raw'))))
          ∙ ap returned (sym (build_transcript-transcript_of (record input { raw_query = raw' }))))
    where
      material : TranscriptV1 → RequestMaterial
      material t = record {
        transcript_sha256 = sha256_text (canonical_text t);
        body_sha256 = t.body_sha256;
        canonical_lines = canonical_lines t;
      }

  -- Two lists of allowed headers with the same canonical names, whatever their order, case,
  -- blanks and repetitions, make no difference to the canonical lines and the digests of a
  -- request, nor to whether it is refused.
  pub build_request_allow_list :
      (input : RequestInput) (raws raws' : List Text)
      → ((n : Text) → mem_text n (map canonical_name raws) ≡ mem_text n (map canonical_name raws'))
      → build_request (record input { header_allow_list = raws })
        ≡ build_request (record input { header_allow_list = raws' })
  unfolding build_request build_transcript assemble issue_time
  build_request_allow_list input raws raws' h = rw (canonical_allow_list-canonical raws raws' h)
