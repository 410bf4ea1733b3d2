-- ===== src/Transcript/Complete.antt =====
-- What `build_transcript` guarantees of the transcript that it returns, and how it refuses.
use mathlib.Core.Path.{subst}
use trustplane_auth_sdk_pyth.Base.{
  ◌≡◌, ◌≢◌, refl, sym, ◌∙◌, true, not, ◌&&◌, List, [], ◌∷◌, ◌++◌, map, arith, Text, All, length, ok,
  err, >>=-eq-ok, raise_if, raise_if-eq-ok,
}
use trustplane_auth_sdk_pyth.Base.Int.{ℤ, pos, int_eq, int_eq_iff}
use trustplane_auth_sdk_pyth.Text.{codes, is_empty, mem_text, text_eq_refl, strip}
use trustplane_auth_sdk_pyth.Platform.{Platform}
use trustplane_auth_sdk_pyth.Query.{normalize_query_rfc3986}
use trustplane_auth_sdk_pyth.Transcript.Data.{RequestInput, TranscriptV1}
use trustplane_auth_sdk_pyth.Transcript.Headers.{canonical_name, canonical_allow_list}
use trustplane_auth_sdk_pyth.Transcript.Allow.{mem_text-canonical_allow_list}
use trustplane_auth_sdk_pyth.Transcript.Select.{Covers, select_headers-Covers}
use trustplane_auth_sdk_pyth.Transcript.Build.{
  required, check_required, underscored, validate_transcript, assemble, build_transcript,
  issue_time, time_bucket, query_of,
}

-- Every entry has a value.
abbrev pub Filled : List (Text × Text) → Type 0
Filled = All (λ e. e.1 ≢ [])

check_required-Filled : (es : List (Text × Text)) → check_required es ≡ ok tt → Filled es
unfolding check_required
check_required-Filled [] h = tt
check_required-Filled ((name, []) ∷ es) h = cc
check_required-Filled ((name, c ∷ value) ∷ es) h = (cc, check_required-Filled es h)

-- The first entry without a value is the one that the error names.
pub check_required_first :
    (before : List (Text × Text)) (name : Text) (after : List (Text × Text))
    → Filled before
    → check_required (before ++ (name, []) ∷ after) ≡ err (codes "missing_" ++ underscored name)
unfolding check_required
check_required_first [] name after h = refl
check_required_first ((n, []) ∷ before) name after (p, h) = absurd (p refl)
check_required_first ((n, c ∷ v) ∷ before) name after (p, h) =
    check_required_first before name after h

-- A transcript that passes has every required field, an issue time, and as many selected headers as allowed names.
validate_transcript-ok :
    (t : TranscriptV1)
    → validate_transcript t ≡ ok tt
    → Filled (required t)
      × (t.issued_at ≢ pos 0)
      × (length t.headers.allow_list ≡ length t.headers.selected)
unfolding validate_transcript
validate_transcript-ok t h =
    let (u, filled, h1) = >>=-eq-ok (check_required (required t)) _ h in
    let (u', timed, h2) = >>=-eq-ok (raise_if (int_eq t.issued_at (pos 0)) _) _ h1 in
    (
      check_required-Filled (required t) filled,
      ground (arith, raise_if-eq-ok _ _ timed, int_eq_iff t.issued_at (pos 0)),
      ground (arith, raise_if-eq-ok _ _ h2),
    )

module _ ⦃p : Platform⦄ where
  -- How a transcript that was returned came about.
  pub record Built (input : RequestInput) (t : TranscriptV1) : Type 0 where
    pub bucket : ℤ
    pub normalized : Text
    pub bucketed : time_bucket input.time_bucket_seconds (issue_time input) ≡ ok bucket
    pub query : normalize_query_rfc3986 (query_of (strip input.raw_query)) ≡ ok normalized
    pub valid : validate_transcript (assemble input bucket normalized) ≡ ok tt
    pub same : assemble input bucket normalized ≡ t

  pub build_transcript-Built :
      (input : RequestInput) (t : TranscriptV1) → build_transcript input ≡ ok t → Built input t
  unfolding build_transcript
  build_transcript-Built input t h =
      let (bucket, hb, h1) =
        >>=-eq-ok (time_bucket input.time_bucket_seconds (issue_time input)) _ h in
      let (normalized, hn, h2) =
        >>=-eq-ok (normalize_query_rfc3986 (query_of (strip input.raw_query))) _ h1 in
      let (u, hv, h3) = >>=-eq-ok (validate_transcript (assemble input bucket normalized)) _ h2 in
      record {
        bucket = bucket;
        normalized = normalized;
        bucketed = hb;
        query = hn;
        valid = hv;
        same = cc;
      }

  allowed-nonempty : (raws : List Text) → All (λ n. n ≢ []) (canonical_allow_list raws)
  allowed-nonempty raws =
      members (canonical_allow_list raws)
        (λ n m. nonempty n (sym (mem_text-canonical_allow_list n raws) ∙ m))
    where
      nonempty :
          (n : Text) → (not (is_empty n) && mem_text n (map canonical_name raws)) ≡ true → n ≢ []
      nonempty [] m e = cc
      nonempty (c ∷ n) m e = cc

      members :
          (ns : List Text) → ((n : Text) → mem_text n ns ≡ true → n ≢ []) → All (λ n. n ≢ []) ns
      members [] h = tt
      members (n ∷ ns) h = (
        h n (unfold mem_text in ground (arith, text_eq_refl n)),
        members ns (λ m k. h m (unfold mem_text in ground (arith, k))),
      )

  -- A transcript that is returned has every required field and an issue time, and covers each
  -- name of the canonical allow list by the digest of the first header of that name.
  pub build_transcript_complete :
      (input : RequestInput) (t : TranscriptV1)
      → build_transcript input ≡ ok t
      → Filled (required t)
        × (t.issued_at ≢ pos 0)
        × (t.headers.allow_list ≡ canonical_allow_list input.header_allow_list)
        × Covers input.headers t.headers.allow_list t.headers.selected
  build_transcript_complete input t h =
      let b = build_transcript-Built input t h in
      subst
        (λ t.
          Filled (required t)
          × (t.issued_at ≢ pos 0)
          × (t.headers.allow_list ≡ canonical_allow_list input.header_allow_list)
          × Covers input.headers t.headers.allow_list t.headers.selected)
        b.same (assembled b)
    where
      assembled :
          (b : Built input t)
          → Filled (required (assemble input b.bucket b.normalized))
            × ((assemble input b.bucket b.normalized).issued_at ≢ pos 0)
            × ((assemble input b.bucket b.normalized).headers.allow_list
                ≡ canonical_allow_list input.header_allow_list)
            × Covers input.headers
                (assemble input b.bucket b.normalized).headers.allow_list
                (assemble input b.bucket b.normalized).headers.selected
      assembled b =
          let (filled, timed, counted) = validate_transcript-ok _ b.valid in
          (
            filled,
            timed,
            unfold assemble in refl,
            unfold assemble in
                select_headers-Covers input.headers _ (allowed-nonempty input.header_allow_list)
                  counted,
          )
