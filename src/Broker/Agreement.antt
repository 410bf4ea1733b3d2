-- ===== src/Broker/Agreement.antt =====
-- The description that a broker is sent, and the transcript of a client that signs by itself.
use mathlib.Core.Path.{subst}
use trustplane_auth_sdk_pyth.Base.{
  ℕ, ◌≡◌, ◌≢◌, refl, sym, ap, ◌∙◌, Bool-cases, inl, inr, [], ◌∷◌, Text, Result, ok,
}
use trustplane_auth_sdk_pyth.Text.{codes, text_eq, strip, lstrip_by}
use trustplane_auth_sdk_pyth.Json.{dict, get}
use trustplane_auth_sdk_pyth.Platform.{Platform}
use trustplane_auth_sdk_pyth.Query.{
  normalize_query_rfc3986, normalize_query_rfc3986_sort_keys_values,
}
use trustplane_auth_sdk_pyth.Transcript.Data.{TranscriptV1}
use trustplane_auth_sdk_pyth.Transcript.Headers.{sha256_text}
use trustplane_auth_sdk_pyth.Transcript.Build.{
  or_else, required, assemble, query_of, build_transcript,
}
use trustplane_auth_sdk_pyth.Transcript.Complete.{
  Filled, build_transcript-Built, build_transcript_complete,
}
use trustplane_auth_sdk_pyth.Broker.Request.{
  BrokerRequestInput, PreparedBrokerRequest, BrokerHttp, is_question, http_fields, request_fields,
  http_of_input, build_broker_request,
}
use trustplane_auth_sdk_pyth.Broker.Covered.{build_broker_request-Requested}

has_nonce : (t : TranscriptV1) → Filled (required t) → t.nonce ≢ []
has_nonce t filled = filled.1.1.1.1.1.1.1.1.1.1.1.1.0

module _ ⦃p : Platform⦄ where
  -- The fields of the description that a transcript has too.
  pub record Agrees (prepared : PreparedBrokerRequest) (t : TranscriptV1) : Type 0 where
    pub http : BrokerHttp
    pub described : get (codes "http") prepared.request ≡ dict (http_fields http)
    pub method : http.method ≡ t.method
    pub scheme : http.scheme ≡ t.scheme
    pub authority : http.authority ≡ t.authority
    pub path : http.path ≡ t.path
    pub content_encoding : http.content_encoding ≡ t.content_encoding
    pub audience : http.audience ≡ t.audience
    pub route_id : http.route_id ≡ t.route_id
    pub body_sha256 : http.body_sha256 ≡ t.body_sha256
    pub nonce : http.nonce ≡ t.nonce
    pub normalized : http.normalized ≡ t.query_normalization.normalized
    pub query_sha256 : http.query_sha256 ≡ t.query_sha256

  lstrip_by-lstrip_by :
      (s : Text) → lstrip_by is_question (lstrip_by is_question s) ≡ lstrip_by is_question s
  unfolding lstrip_by
  lstrip_by-lstrip_by [] = refl
  lstrip_by-lstrip_by (c ∷ s) = elim (Bool-cases (is_question c)) [
    | inl t ↦ rw t (lstrip_by-lstrip_by s)
    | inr t ↦ rw t (rw t refl)
  ]

  one_query :
      (s n m : Text)
      → lstrip_by is_question s ≡ query_of s
      → normalize_query_rfc3986_sort_keys_values (lstrip_by is_question s) ≡ ok n
      → normalize_query_rfc3986 (query_of s) ≡ ok m
      → n ≡ m
  unfolding normalize_query_rfc3986_sort_keys_values
  one_query s n m q h k =
      let e : ◌≡◌ {A = Result Text Text} (ok n) (ok m) =
        sym h ∙ ap normalize_query_rfc3986 (lstrip_by-lstrip_by s ∙ q) ∙ k in
      cc

  or_else_nonempty : (a b : Text) → a ≢ [] → or_else a b ≡ a
  or_else_nonempty [] b h = absurd (h refl)
  or_else_nonempty (c ∷ a) b h = refl

  -- If a request has at most one leading `?` in its query, and both a broker request and a
  -- transcript are built of it, then the description that the broker is sent agrees with the
  -- transcript in the method, the address, the query, the digest of the body, the nonce, the
  -- audience and the route.
  pub build_broker_request-Agrees :
      (token_hex : ℕ → Text) (input : BrokerRequestInput) (prepared : PreparedBrokerRequest)
      (t : TranscriptV1)
      → build_broker_request token_hex input ≡ ok prepared
      → build_transcript input.request ≡ ok t
      → lstrip_by is_question (strip input.request.raw_query)
        ≡ query_of (strip input.request.raw_query)
      → Agrees prepared t
  build_broker_request-Agrees token_hex input prepared t h k q =
      let r = build_broker_request-Requested token_hex input prepared h in
      let b = build_transcript-Built input.request t k in
      let (filled, timed, named, selected) = build_transcript_complete input.request t k in
      let same : r.normalized ≡ b.normalized =
        one_query (strip input.request.raw_query) _ _ q r.query b.query in
      let nonce_of : t.nonce ≡ strip input.request.nonce =
        subst (λ (x : TranscriptV1). x.nonce ≡ strip input.request.nonce) b.same
          (unfold assemble in refl) in
      let kept : r.nonce ≡ strip input.request.nonce =
        r.is_nonce ∙ or_else_nonempty _ _ (λ e. has_nonce t filled (nonce_of ∙ e)) in
      subst (λ x. Agrees x t) (sym r.is_prepared)
        (subst (Agrees _) b.same (
          unfold http_of_input request_fields get text_eq codes assemble in
          record {
            http =
                http_of_input input.request r.nonce
                  (lstrip_by is_question (strip input.request.raw_query)) r.normalized r.allow_list
                  r.selected;
            described = refl;
            method = refl;
            scheme = refl;
            authority = refl;
            path = refl;
            content_encoding = refl;
            audience = refl;
            route_id = refl;
            body_sha256 = refl;
            nonce = kept;
            normalized = same;
            query_sha256 = ap sha256_text same;
          }))
