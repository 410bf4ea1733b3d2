-- ===== src/Broker/Covered.antt =====
-- The request that a broker is sent: its path, its covered headers and its nonce.
use mathlib.Core.Path.{subst}
use trustplane_auth_sdk_pyth.Base.{
  ℕ, ◌≡◌, refl, sym, ap, Option, none, some, List, [], ◌∷◌, ◌++◌, map, Text, All, Result, ok, err,
  ◌>>=◌, >>=-eq-ok,
}
use trustplane_auth_sdk_pyth.Text.{codes, text_eq, strip, lstrip_by}
use trustplane_auth_sdk_pyth.Json.{dict, get}
use trustplane_auth_sdk_pyth.Platform.{Platform}
use trustplane_auth_sdk_pyth.Profile.{validate_concrete_request_path}
use trustplane_auth_sdk_pyth.Profile.Concrete.{IsConcrete}
use trustplane_auth_sdk_pyth.Query.{normalize_query_rfc3986_sort_keys_values}
use trustplane_auth_sdk_pyth.Transcript.Data.{HeaderItem, SelectedHeader, header_nonce}
use trustplane_auth_sdk_pyth.Transcript.Headers.{lookup, sha256_text}
use trustplane_auth_sdk_pyth.Transcript.Build.{or_else}
use trustplane_auth_sdk_pyth.Profile.Paths.{validate-IsConcrete}
use trustplane_auth_sdk_pyth.Broker.Request.{
  BrokerRequestInput, PreparedBrokerRequest, BrokerHttp, list_or, names_of, is_question,
  http_fields, http_required, check_http, request_fields, canonical_names, select_covered,
  http_of_input, headers_with_nonce, build_broker_request,
}
use trustplane_auth_sdk_pyth.Broker.Entries.{lookup-set_entry}

module _ ⦃p : Platform⦄ where
  -- The digest of a selected header is that of the value that is sent under its name.
  abbrev pub IsDigestOf : List (Text × Text) → SelectedHeader → Type 0
  IsDigestOf raw_headers item =
      (value : Text) × (lookup item.name raw_headers ≡ some value)
      × (item.value_sha256 ≡ sha256_text value)

  select_covered-eq-ok :
      (raw_headers : List (Text × Text)) (allow_list : List Text) (selected : List SelectedHeader)
      → select_covered raw_headers allow_list ≡ ok selected
      → (map (λ item. item.name) selected ≡ allow_list) × All (IsDigestOf raw_headers) selected
  unfolding select_covered
  select_covered-eq-ok raw_headers [] selected h =
      subst
        (λ (x : List SelectedHeader).
          (map (λ item. item.name) x ≡ []) × All (IsDigestOf raw_headers) x)
        {x = []} (cc) (refl, tt)
  select_covered-eq-ok raw_headers (name ∷ allow_list) selected h =
      at (select_covered-eq-ok raw_headers allow_list) (lookup name raw_headers) refl h
    where
      at :
          ((rest : List SelectedHeader)
            → select_covered raw_headers allow_list ≡ ok rest
            → (map (λ item. item.name) rest ≡ allow_list) × All (IsDigestOf raw_headers) rest)
          → (found : Option Text) → lookup name raw_headers ≡ found
          → elim found as (λ x. Result Text (List SelectedHeader)) [
            | none ↦ err (codes "covered_header_missing: " ++ name)
            | some value ↦ select_covered raw_headers allow_list >>= λ rest.
                ok (record { name = name; value_sha256 = sha256_text value } ∷ rest)
          ]
            ≡ ok selected
          → (map (λ item. item.name) selected ≡ name ∷ allow_list)
            × All (IsDigestOf raw_headers) selected
      at again none t h = cc
      at again (some value) t h =
          let (rest, hr, h') = >>=-eq-ok (select_covered raw_headers allow_list) _ h in
          let made : record { name = name; value_sha256 = sha256_text value } ∷ rest ≡ selected =
            cc in
          let (names, digests) = again rest hr in
          subst
            (λ (x : List SelectedHeader).
              (map (λ item. item.name) x ≡ name ∷ allow_list) × All (IsDigestOf raw_headers) x)
            made (ap (λ ns. name ∷ ns) names, ((value, t, refl), digests))

  -- What is asked of a broker.
  pub record IsRequest (input : BrokerRequestInput) (prepared : PreparedBrokerRequest)
      : Type 0 where
    pub http : BrokerHttp
    pub described : get (codes "http") prepared.request ≡ dict (http_fields http)
    pub concrete : IsConcrete http.path
    pub same_path : http.path ≡ strip input.request.path
    pub covered : map (λ item. item.name) http.selected ≡ http.allow_list
    pub digests : All (IsDigestOf prepared.raw_headers) http.selected
    pub nonce_sent : lookup (p.lower header_nonce) prepared.raw_headers ≡ some http.nonce
    pub complete : check_http (http_required http) ≡ ok tt

  -- How a request came about.
  pub record Requested (token_hex : ℕ → Text) (input : BrokerRequestInput)
      (prepared : PreparedBrokerRequest) : Type 0 where
    pub nonce : Text
    pub request_id : Text
    pub normalized : Text
    pub selected : List SelectedHeader
    pub allow_list : List Text
    pub is_nonce : nonce ≡ or_else (strip input.request.nonce) (token_hex 16)
    pub path_valid :
        validate_concrete_request_path (strip input.request.path) (strip input.request.path) ≡ ok tt
    pub query :
        normalize_query_rfc3986_sort_keys_values
          (lstrip_by is_question (strip input.request.raw_query))
        ≡ ok normalized
    pub is_covered :
        select_covered (headers_with_nonce input.request.headers nonce) allow_list ≡ ok selected
    pub is_complete :
        check_http (
          http_required (
            http_of_input input.request nonce
              (lstrip_by is_question (strip input.request.raw_query))
              normalized
              allow_list
              selected))
        ≡ ok tt
    pub is_prepared : prepared ≡ record {
      request = request_fields input request_id (
          http_of_input input.request nonce
            (lstrip_by is_question (strip input.request.raw_query))
            normalized
            allow_list
            selected);
      raw_headers = headers_with_nonce input.request.headers nonce;
    }

  pub build_broker_request-Requested :
      (token_hex : ℕ → Text) (input : BrokerRequestInput) (prepared : PreparedBrokerRequest)
      → build_broker_request token_hex input ≡ ok prepared
      → Requested token_hex input prepared
  unfolding build_broker_request
  build_broker_request-Requested token_hex input prepared h =
      let source = input.request in
      let nonce = or_else (strip source.nonce) (token_hex 16) in
      let raw_headers = headers_with_nonce source.headers nonce in
      let allow_list = canonical_names (list_or source.header_allow_list (names_of raw_headers)) in
      let (u, hv, h1) =
        >>=-eq-ok (validate_concrete_request_path (strip source.path) (strip source.path)) _ h in
      let (normalized, hq, h2) =
        >>=-eq-ok
          (normalize_query_rfc3986_sort_keys_values
            (lstrip_by is_question (strip source.raw_query)))
          _ h1 in
      let (selected, hs, h3) = >>=-eq-ok (select_covered raw_headers allow_list) _ h2 in
      let (v, hc, h4) =
        >>=-eq-ok
          (check_http (
            http_required (
              http_of_input source nonce (lstrip_by is_question (strip source.raw_query)) normalized
                allow_list selected)))
          _ h3 in
      record {
        nonce = nonce;
        request_id = or_else (strip input.request_id) (codes "broker-client-" ++ token_hex 8);
        normalized = normalized;
        selected = selected;
        allow_list = allow_list;
        is_nonce = refl;
        path_valid = hv;
        query = hq;
        is_covered = hs;
        is_complete = hc;
        is_prepared = cc;
      }

  lookup-headers_with_nonce :
      (headers : List HeaderItem) (nonce : Text)
      → lookup (p.lower header_nonce) (headers_with_nonce headers nonce) ≡ some nonce
  unfolding headers_with_nonce
  lookup-headers_with_nonce headers nonce = lookup-set_entry (p.lower header_nonce) nonce _

  -- A request that is prepared for a broker has a concrete path, covers each name of its allow
  -- list by the digest of the header of that name, carries its nonce as a header, and leaves no
  -- required value empty.
  pub build_broker_request-IsRequest :
      (token_hex : ℕ → Text) (input : BrokerRequestInput) (prepared : PreparedBrokerRequest)
      → build_broker_request token_hex input ≡ ok prepared
      → IsRequest input prepared
  build_broker_request-IsRequest token_hex input prepared h =
      let r = build_broker_request-Requested token_hex input prepared h in
      let (names, digests) = select_covered-eq-ok _ _ _ r.is_covered in
      subst (IsRequest input) (sym r.is_prepared) (
        unfold http_of_input request_fields get text_eq codes in
        record {
          http =
              http_of_input input.request r.nonce
                (lstrip_by is_question (strip input.request.raw_query)) r.normalized r.allow_list
                r.selected;
          described = refl;
          concrete = validate-IsConcrete _ _ r.path_valid;
          same_path = refl;
          covered = names;
          digests = digests;
          nonce_sent = lookup-headers_with_nonce input.request.headers r.nonce;
          complete = r.is_complete;
        })
