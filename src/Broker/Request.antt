-- ===== src/Broker/Request.antt =====
-- `build_broker_request`: what a broker is asked to sign.
mod Data
unfoldable pub use Data.*
use trustplane_auth_sdk_pyth.Base.{
  ℕ, Bool, none, some, List, [], ◌∷◌, ◌++◌, map, Text, ◌==◌, if◌then◌else◌, Result, ok, err, ◌>>=◌,
  ◌>>◌, raise_if,
}
use trustplane_auth_sdk_pyth.Base.Order.{sort}
use trustplane_auth_sdk_pyth.Text.{codes, text_eq, is_empty, mem_text, strip, lstrip_by}
use trustplane_auth_sdk_pyth.Text.Compare.{text_le}
use trustplane_auth_sdk_pyth.Json.{bool, str, list, dict, Items, nil, cons, Fields, end, field}
use trustplane_auth_sdk_pyth.Platform.{Platform}
use trustplane_auth_sdk_pyth.Profile.{validate_concrete_request_path}
use trustplane_auth_sdk_pyth.Query.{normalize_query_rfc3986_sort_keys_values}
use trustplane_auth_sdk_pyth.Transcript.Data.{
  HeaderItem, header, mapping, pair, RequestInput, SelectedHeader, software_key_binding,
  query_normalization_rfc3986, header_nonce,
}
use trustplane_auth_sdk_pyth.Transcript.Headers.{lookup, get_or, sha256_text, body_sha256}
use trustplane_auth_sdk_pyth.Transcript.Build.{or_else}

module _ ⦃p : Platform⦄ where
  open p use {lower, upper}

  -- The names of `_canonical_names`, in their order and as often as they occur.
  unfoldable pub named : List Text → List Text
  named [] = []
  named (value ∷ values) =
      let rest = named values in if is_empty (strip value) then rest else lower (strip value) ∷ rest

  -- `_canonical_names`.
  unfoldable pub canonical_names : List Text → List Text
  unfolding named each_once
  canonical_names values = sort text_le (each_once (named values))

  -- The loop that fills `raw_headers`: the last value of a name stays.
  unfoldable pub raw_headers_from : List (Text × Text) → List HeaderItem → List (Text × Text)
  unfolding set_entry broker_header
  raw_headers_from raw_headers [] = raw_headers
  raw_headers_from raw_headers (item ∷ items) =
      raw_headers_from
        (set_entry (lower (strip (broker_header item).0)) (strip (broker_header item).1)
          raw_headers)
        items

  -- The loop that fills `selected`.
  unfoldable pub select_covered : List (Text × Text) → List Text → Result Text (List SelectedHeader)
  unfolding lookup sha256_text
  select_covered raw_headers [] = ok []
  select_covered raw_headers (name ∷ allow_list) = elim (lookup name raw_headers) [
    | none ↦ err (codes "covered_header_missing: " ++ name)
    | some value ↦ select_covered raw_headers allow_list >>= λ rest.
        ok (record { name = name; value_sha256 = sha256_text value } ∷ rest)
  ]

  unfoldable pub http_of_input :
      RequestInput → Text → Text → Text → List Text → List SelectedHeader → BrokerHttp
  http_of_input source nonce raw_query normalized allow_list selected = record {
    method = upper (strip source.method);
    scheme = lower (strip source.scheme);
    authority = lower (strip source.authority);
    path = strip source.path;
    content_encoding = or_else (lower (strip source.content_encoding)) (codes "identity");
    raw = raw_query;
    normalized = normalized;
    query_sha256 = sha256_text normalized;
    allow_list = allow_list;
    selected = selected;
    audience = strip source.audience;
    route_id = strip source.route_id;
    body_sha256 = or_else (strip source.body_sha256) (body_sha256 source.body);
    nonce = nonce;
  }

  -- The headers that are sent beside the request, and the names that are covered.
  unfoldable pub headers_with_nonce : List HeaderItem → Text → List (Text × Text)
  unfolding raw_headers_from
  headers_with_nonce headers nonce =
      set_entry (lower header_nonce) nonce (raw_headers_from [] headers)

  -- `build_broker_request`, with `secrets.token_hex`.
  unfoldable pub build_broker_request :
      (ℕ → Text) → BrokerRequestInput → Result Text PreparedBrokerRequest
  unfolding headers_with_nonce canonical_names select_covered http_of_input check_http
      request_fields
  build_broker_request token_hex input = do
    let source = input.request
    validate_concrete_request_path (strip source.path) (strip source.path)
    let nonce = or_else (strip source.nonce) (token_hex 16)
    let request_id = or_else (strip input.request_id) (codes "broker-client-" ++ token_hex 8)
    let raw_query = lstrip_by is_question (strip source.raw_query)
    normalized ← normalize_query_rfc3986_sort_keys_values raw_query
    let raw_headers = headers_with_nonce source.headers nonce
    let allow_list = canonical_names (list_or source.header_allow_list (names_of raw_headers))
    selected ← select_covered raw_headers allow_list
    let http = http_of_input source nonce raw_query normalized allow_list selected
    check_http (http_required http)
    ok (record { request = request_fields input request_id http; raw_headers = raw_headers })
