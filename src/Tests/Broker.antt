-- ===== src/Tests/Broker.antt =====
-- The theorems on brokers at a concrete request and a concrete answer.
use trustplane_auth_sdk_pyth.Base.{
  ℕ, ◌≤◌, ◌≡◌, ◌≢◌, refl, List, [], ◌∷◌, ◌++◌, map, arith, Text, Bytes, All, none, some, ok, err,
  true, false, length,
}
use trustplane_auth_sdk_pyth.Base.Int.{pos}
use trustplane_auth_sdk_pyth.Base.Order.{sort}
use trustplane_auth_sdk_pyth.Text.{
  codes, text_eq, strip, mem_text, lstrip_by, split, join, has_char, Lacks, starts_with_char,
  ends_with_char, partition,
}
use trustplane_auth_sdk_pyth.Text.Utf8.{encode, encode_char}
use trustplane_auth_sdk_pyth.Query.Percent.{strict_unquote, encode_rfc3986}
use trustplane_auth_sdk_pyth.Text.Compare.{text_le}
use trustplane_auth_sdk_pyth.Json.{bool, str, dict, Fields, end, field, get}
use trustplane_auth_sdk_pyth.Platform.{Platform, ascii_lower, ascii_upper}
use trustplane_auth_sdk_pyth.Base64.{replicate}
use trustplane_auth_sdk_pyth.Profile.{validate_concrete_request_path}
use trustplane_auth_sdk_pyth.Query.{
  normalize_query_rfc3986, normalize_query_rfc3986_sort_keys_values,
}
use trustplane_auth_sdk_pyth.Transcript.Data.{TranscriptV1, header, default_request}
use trustplane_auth_sdk_pyth.Transcript.Headers.{
  sha256_text, body_sha256, canonical_allow_list, select_headers,
}
use trustplane_auth_sdk_pyth.Transcript.Build.{
  build_transcript, validate_transcript, query_of, time_bucket, assemble,
}
use trustplane_auth_sdk_pyth.Broker.Request.{
  BrokerRequestInput, PreparedBrokerRequest, BrokerHttp, is_question, build_broker_request,
  request_fields, headers_with_nonce, http_of_input,
}
use trustplane_auth_sdk_pyth.Broker.Answer.{BrokerResponse, response_from_dict, broker_headers}
use trustplane_auth_sdk_pyth.Broker.Client.{
  BrokerClient, Socket, max_broker_response, receive, answered, issue,
}
use trustplane_auth_sdk_pyth.Broker.Stream.{joined, receive-joined, IsExchange, issue-eq-ok}
use trustplane_auth_sdk_pyth.Broker.Headers.{IsProof, broker_headers-IsProof}
use trustplane_auth_sdk_pyth.Broker.Covered.{IsRequest, build_broker_request-IsRequest}
use trustplane_auth_sdk_pyth.Broker.Agreement.{Agrees, build_broker_request-Agrees}

abbrev broker_answer : Fields
broker_answer = field (codes "request_id") (str (codes "r1")) (
    field (codes "accepted") (bool true) (
      field (codes "artifacts")
        (dict (
          field (codes "passport")
            (dict (
              field (codes "format") (str (codes "compact-jws")) (
                field (codes "value") (str (codes "a.b.c"))
                  (field (codes "jti") (str (codes "j1")) end))))
            (field (codes "stamp")
              (dict (
                field (codes "format") (str (codes "ed25519-transcript-v1")) (
                  field (codes "value") (str (codes "sig"))
                    (field (codes "transcript_sha256") (str (replicate 64 b'0')) end))))
              end)))
        end))

instance abbrev broker_platform : Platform
broker_platform = record {
  sha256_hex = λ b. replicate 64 b'0';
  lower = map ascii_lower;
  upper = map ascii_upper;
  urlparse = λ url. err [];
  urlunparse = λ scheme netloc path params query fragment. [];
  json_loads = λ b. err [];
  json_dumps = λ v. codes "{}";
  json_loads_bytes = λ b. some (dict broker_answer);
  json_dumps_ascii = λ v. codes "{}";
  parse_int = λ s. none;
  parse_http_date = λ s. none;
}

abbrev asked : BrokerRequestInput
asked = record {
  request = record default_request {
    method = codes "post";
    scheme = codes "HTTPS";
    authority = codes "API";
    path = codes "/v1";
    raw_query = codes "?a=1";
    audience = codes "api";
    route_id = codes "r";
    headers = header (codes "Accept") (codes " x ") ∷ [];
    nonce = codes "n1";
    issued_at_unix = pos 40;
    passport_jti = codes "j1";
    key_binding = codes "software";
  };
  request_id = codes "r1";
  context = [];
  selected_context_fields = [];
  requested_key_binding = [];
  acceptable_key_bindings = [];
  allow_software_fallback = false;
}

abbrev no_token : ℕ → Text
no_token n = []

abbrev asked_http : BrokerHttp
asked_http = record {
  method = codes "POST";
  scheme = codes "https";
  authority = codes "api";
  path = codes "/v1";
  content_encoding = codes "identity";
  raw = codes "a=1";
  normalized = codes "a=1";
  query_sha256 = replicate 64 b'0';
  allow_list = codes "accept" ∷ codes "x-trustplane-nonce" ∷ [];
  selected =
      record { name = codes "accept"; value_sha256 = replicate 64 b'0' }
      ∷ record { name = codes "x-trustplane-nonce"; value_sha256 = replicate 64 b'0' }
      ∷ [];
  audience = codes "api";
  route_id = codes "r";
  body_sha256 = replicate 64 b'0';
  nonce = codes "n1";
}

abbrev asked_request : PreparedBrokerRequest
asked_request = record {
  request = request_fields asked (codes "r1") asked_http;
  raw_headers = (codes "accept", codes "x") ∷ (codes "x-trustplane-nonce", codes "n1") ∷ [];
}

builds : build_broker_request no_token asked ≡ ok asked_request
unfolding build_broker_request codes text_eq strip mem_text lstrip_by split join sort text_le
    validate_concrete_request_path normalize_query_rfc3986 normalize_query_rfc3986_sort_keys_values
    sha256_text body_sha256 replicate request_fields headers_with_nonce http_of_input
    starts_with_char ends_with_char strict_unquote partition encode_rfc3986 encode encode_char
builds = refl

build_broker_request-IsRequest_example : IsRequest asked asked_request
build_broker_request-IsRequest_example =
    build_broker_request-IsRequest no_token asked asked_request builds

abbrev asked_transcript : TranscriptV1
asked_transcript = assemble asked.request (pos 2) (codes "a=1")

transcribes : build_transcript asked.request ≡ ok asked_transcript
unfolding build_transcript codes text_eq strip mem_text lstrip_by split join sort text_le
    normalize_query_rfc3986 sha256_text body_sha256 replicate canonical_allow_list select_headers
    validate_transcript query_of time_bucket assemble strict_unquote partition encode_rfc3986 encode
    encode_char
transcribes = refl

one_question :
    lstrip_by is_question (strip asked.request.raw_query) ≡ query_of (strip asked.request.raw_query)
unfolding lstrip_by strip query_of codes
one_question = refl

build_broker_request-Agrees_example : Agrees asked_request asked_transcript
build_broker_request-Agrees_example =
    build_broker_request-Agrees no_token asked asked_request asked_transcript builds transcribes
      one_question

abbrev line_socket : Socket
line_socket = λ path timeout message. ok (ok (codes "{") ∷ ok (codes "}\n") ∷ [])

abbrev broker : BrokerClient
broker = record { socket_path = codes "/run/b"; timeout = pos 30_000_000 }

abbrev answer : BrokerResponse
answer = response_from_dict broker_answer

answers_it : issue line_socket broker asked_request ≡ ok answer
unfolding issue codes text_eq strip has_char receive answered get response_from_dict request_fields
answers_it = refl

issue-eq-ok_example : IsExchange line_socket broker asked_request answer
issue-eq-ok_example = issue-eq-ok line_socket broker asked_request answer answers_it

abbrev brace_chunks : List Bytes
brace_chunks = codes "{" ∷ codes "}\n" ∷ []

chunks_nonempty : All (λ chunk. chunk ≢ []) brace_chunks
unfolding codes
chunks_nonempty = ((λ e. cc), ((λ e. cc), tt))

cut_braces : joined brace_chunks ≡ codes "{}" ++ b'\n' ∷ []
unfolding joined codes
cut_braces = refl

no_end : Lacks b'\n' (codes "{}")
unfolding codes
no_end = ground arith

braces_fit : length ([] ++ joined brace_chunks) ≤ max_broker_response
unfolding joined codes
braces_fit = omega arith

receive-joined_example : receive [] (map ok brace_chunks ++ []) ≡ ok (joined brace_chunks)
receive-joined_example =
    receive-joined [] (codes "{}") brace_chunks [] chunks_nonempty cut_braces no_end braces_fit

abbrev proof_headers : List (Text × Text)
proof_headers =
    (codes "accept", codes "x")
    ∷ (codes "Authorization", codes "Bearer a.b.c")
    ∷ (codes "X-TrustPlane-Proof", codes "sig")
    ∷ (codes "X-TrustPlane-Transcript-SHA256", replicate 64 b'0')
    ∷ (codes "X-TrustPlane-Nonce", codes "n1")
    ∷ (codes "X-TrustPlane-Body-SHA256", replicate 64 b'0')
    ∷ []

proves : broker_headers asked_request answer ≡ ok proof_headers
unfolding broker_headers codes text_eq strip get response_from_dict request_fields replicate
proves = refl

broker_headers-IsProof_example : IsProof asked_request answer proof_headers
broker_headers-IsProof_example = broker_headers-IsProof asked_request answer proof_headers proves
