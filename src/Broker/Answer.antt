-- ===== src/Broker/Answer.antt =====
-- `BrokerResponse` and `broker_headers`: the headers that a broker's answer makes.
use trustplane_auth_sdk_pyth.Base.{
  ℕ, Bool, false, not, ◌&&◌, ◌||◌, Option, none, some, List, [], ◌∷◌, ◌++◌, Text, all, length,
  between, ◌==◌, if◌then◌else◌, Result, ok, err, ◌>>=◌, ◌>>◌, raise_if,
}
use trustplane_auth_sdk_pyth.Base.Int.{ℤ, pos}
use trustplane_auth_sdk_pyth.Text.{codes, text_eq, is_empty, strip}
use trustplane_auth_sdk_pyth.Json.{Json, bool, int, dict, Fields, get, text_of}
use trustplane_auth_sdk_pyth.Platform.{Platform}
use trustplane_auth_sdk_pyth.Transcript.Data.{
  header_authorization, header_proof, header_transcript_sha256, header_nonce, header_body_sha256,
}
use trustplane_auth_sdk_pyth.Broker.Request.{PreparedBrokerRequest, set_entry}

pub record BrokerResponse : Type 0 where
  pub request_id : Text
  pub accepted : Bool
  pub status : Text
  pub reason_code : Text
  pub issued_at : ℤ
  pub expires_at : ℤ
  pub artifacts : Option Fields
  pub error : Option Fields

-- `_integer`: no Boolean.
abbrev pub integer_of : Json → ℤ
integer_of (int z) = z
integer_of _ = pos 0

abbrev pub is_true : Json → Bool
is_true (bool b) = b
is_true _ = false

-- A value that is a mapping.
abbrev pub mapping_of : Json → Option Fields
mapping_of (dict fields) = some fields
mapping_of _ = none

-- `BrokerResponse.from_dict`.
unfoldable pub response_from_dict : Fields → BrokerResponse
unfolding get text_of
response_from_dict raw = record {
  request_id = text_of (get (codes "request_id") raw);
  accepted = is_true (get (codes "accepted") raw);
  status = text_of (get (codes "status") raw);
  reason_code = text_of (get (codes "reason_code") raw);
  issued_at = integer_of (get (codes "issued_at") raw);
  expires_at = integer_of (get (codes "expires_at") raw);
  artifacts = mapping_of (get (codes "artifacts") raw);
  error = mapping_of (get (codes "error") raw);
}

abbrev pub is_lower_hex : ℕ → Bool
is_lower_hex c = between b'0' b'9' c || between b'a' b'f' c

-- `re.fullmatch(r"[0-9a-f]{64}", s)`
abbrev pub is_digest : Text → Bool
is_digest s = length s == 64 && all is_lower_hex s

abbrev pub invalid {ℓ} : {A : Type ℓ} → Result Text A
invalid = err (codes "broker_response_invalid")

-- The value of a key that must be a mapping.
unfoldable pub mapping_at : Text → Fields → Result Text Fields
unfolding get
mapping_at key fields = elim (mapping_of (get key fields)) [
  | none ↦ invalid
  | some inner ↦ ok inner
]

abbrev pub text_at : Text → Fields → Text
text_at key fields = text_of (get key fields)

-- The checks of the artifacts.
unfoldable pub check_artifacts : Fields → Fields → Result Text (Unit {0})
check_artifacts passport stamp =
    raise_if
      (not (text_eq (text_at (codes "format") passport) (codes "compact-jws"))
        || is_empty (text_at (codes "value") passport)
        || is_empty (text_at (codes "jti") passport)
        || not (text_eq (text_at (codes "format") stamp) (codes "ed25519-transcript-v1"))
        || is_empty (text_at (codes "value") stamp)
        || not (is_digest (text_at (codes "transcript_sha256") stamp)))
      (codes "broker_response_invalid")

-- `prepared.request["http"]`, which is a dictionary of a request that was built.
unfoldable pub http_of : Fields → Result Text Fields
unfolding get
http_of request = elim (mapping_of (get (codes "http") request)) [
  | none ↦ err (codes "http")
  | some http ↦ ok http
]

-- The five headers, set in their order.
abbrev pub set_proof : List (Text × Text) → Fields → Fields → Fields → List (Text × Text)
set_proof headers passport stamp http =
    set_entry header_body_sha256 (text_at (codes "body_sha256") http) (
      set_entry header_nonce (text_at (codes "nonce") http) (
        set_entry header_transcript_sha256 (text_at (codes "transcript_sha256") stamp) (
          set_entry header_proof (text_at (codes "value") stamp) (
            set_entry header_authorization (codes "Bearer " ++ text_at (codes "value") passport)
              headers))))

module _ ⦃p : Platform⦄ where
  open p use {lower}

  -- The raw headers that are kept: all but the nonce, and those with nothing in them.
  unfoldable pub kept_headers : List (Text × Text) → List (Text × Text)
  kept_headers [] = []
  kept_headers ((name, value) ∷ headers) =
      let rest = kept_headers headers in
      if not (text_eq (lower name) (lower header_nonce)) && not (is_empty (strip value))
      then (name, value) ∷ rest
      else rest

  -- `broker_headers` of artifacts.
  unfoldable pub headers_of_artifacts :
      PreparedBrokerRequest → Fields → Result Text (List (Text × Text))
  unfolding mapping_at check_artifacts http_of kept_headers set_entry
  headers_of_artifacts prepared artifacts = do
    passport ← mapping_at (codes "passport") artifacts
    stamp ← mapping_at (codes "stamp") artifacts
    check_artifacts passport stamp
    http ← http_of prepared.request
    ok (set_proof (kept_headers prepared.raw_headers) passport stamp http)

  -- `broker_headers`.
  unfoldable pub broker_headers :
      PreparedBrokerRequest → BrokerResponse → Result Text (List (Text × Text))
  unfolding headers_of_artifacts
  broker_headers prepared response = elim response.artifacts [
    | none ↦ err (codes "broker_response_not_accepted")
    | some artifacts ↦
        if response.accepted
        then headers_of_artifacts prepared artifacts
        else err (codes "broker_response_not_accepted")
  ]
