-- ===== src/Protected/Client.antt =====
-- `ProtectedClient`: its construction, and `prepare`.
use trustplane_auth_sdk_pyth.Base.{
  ℕ, Option, none, some, List, [], ◌∷◌, map, Text, Bytes, if◌then◌else◌, Result, ok, ◌>>=◌, ◌>>◌,
  raise_if,
}
use trustplane_auth_sdk_pyth.Base.Int.{ℤ}
use trustplane_auth_sdk_pyth.Base.Order.{sort}
use trustplane_auth_sdk_pyth.Text.{codes, text_eq, strip}
use trustplane_auth_sdk_pyth.Text.Compare.{text_le}
use trustplane_auth_sdk_pyth.Platform.{Platform, ParsedUrl}
use trustplane_auth_sdk_pyth.Crypto.{Crypto, PrivateKey}
use trustplane_auth_sdk_pyth.Profile.{SigningProfile, validate_active}
use trustplane_auth_sdk_pyth.Passport.{PassportOptions, IssuedPassport, issue_passport}
use trustplane_auth_sdk_pyth.Transcript.Data.{
  HeaderItem, header, Body, bytes, Datetime, RequestInput, default_request, header_nonce,
}
use trustplane_auth_sdk_pyth.Transcript.Build.{or_else}
use trustplane_auth_sdk_pyth.Signing.{SignArguments, SignedRequest, key_object, sign_request}
use trustplane_auth_sdk_pyth.Broker.Request.{set_entry}
use trustplane_auth_sdk_pyth.Protected.Target.{Target, hex_text, has_reserved, resolve}

-- The time to live is in microseconds.
pub record ProtectedClient : Type 0 where
  pub profile : SigningProfile
  pub private_key : PrivateKey
  pub passport_ttl : ℤ

-- The arguments that `urllib.request.Request` is given.
pub record WireRequest : Type 0 where
  pub url : Text
  pub body : Option Bytes
  pub headers : List (Text × Text)
  pub method : Text

pub record PreparedRequest : Type 0 where
  pub request : WireRequest
  pub passport : IssuedPassport
  pub transcript_sha256 : Text
  pub body_sha256 : Text
  pub canonical_lines : List Text

-- `d.update(entries)`
unfoldable pub update : List (Text × Text) → List (Text × Text) → List (Text × Text)
unfolding set_entry
update entries [] = entries
update entries ((key, value) ∷ rest) = update (set_entry key value entries) rest

-- `body_bytes or None`
abbrev pub data_of : Bytes → Option Bytes
data_of [] = none
data_of (byte ∷ rest) = some (byte ∷ rest)

abbrev pub entries_of : Option (List (Text × Text)) → List (Text × Text)
entries_of none = []
entries_of (some entries) = entries

module _ ⦃p : Platform⦄ where
  open p use {lower, upper, urlunparse}

  -- `ProtectedClient.__init__`.
  unfoldable pub protected_client : SigningProfile → PrivateKey → ℤ → Result Text ProtectedClient
  unfolding validate_active
  protected_client profile private_key passport_ttl = do
    validate_active profile
    ok (record { profile = profile; private_key = private_key; passport_ttl = passport_ttl })

  -- `_header` of protected_client.py.
  unfoldable pub header_value : List (Text × Text) → Text → Text
  header_value [] wanted = []
  header_value ((name, value) ∷ headers) wanted =
      if text_eq (lower name) wanted then strip value else header_value headers wanted

  -- The headers that the proof covers, and their names.
  abbrev pub proof_headers : List (Text × Text) → List HeaderItem
  proof_headers output_headers = map (λ entry. header (lower entry.0) entry.1) output_headers

  abbrev pub covered_names : List (Text × Text) → List Text
  covered_names output_headers = sort text_le (map (λ entry. lower entry.0) output_headers)

  -- The request that is signed.
  abbrev pub protected_request :
      SigningProfile → Text → Target → List (Text × Text) → Text → RequestInput
  protected_request profile method target output_headers nonce = record default_request {
    method = method;
    scheme = target.url.scheme;
    authority = target.url.netloc;
    path = target.wire_path;
    raw_query = target.url.query;
    audience = profile.audience;
    route_id = profile.route_id;
    content_encoding =
        or_else (header_value output_headers (codes "content-encoding")) (codes "identity");
    body = bytes target.body;
    headers = proof_headers output_headers;
    header_allow_list = covered_names output_headers;
    nonce = nonce;
  }

  -- `target.geturl()`
  abbrev pub geturl : ParsedUrl → Text
  geturl u = urlunparse u.scheme u.netloc u.path u.params u.query u.fragment

  abbrev pub passport_options : ProtectedClient → Datetime → (ℕ → Bytes) → PassportOptions
  passport_options client now random_bytes = record {
    issuer = client.profile.issuer;
    subject = client.profile.subject;
    audience = client.profile.audience;
    trust_domain = client.profile.trust_domain;
    key_id = client.profile.key_id;
    private_key = client.private_key;
    ttl = client.passport_ttl;
    now = some now;
    jti = [];
    random_bytes = random_bytes;
  }

  abbrev pub prepared_request :
      Text → Target → List (Text × Text) → IssuedPassport → SignedRequest → PreparedRequest
  prepared_request method target output_headers passport signed = record {
    request = record {
      url = geturl target.url;
      body = data_of target.body;
      headers = update output_headers signed.headers;
      method = method;
    };
    passport = passport;
    transcript_sha256 = signed.transcript_sha256;
    body_sha256 = signed.body_sha256;
    canonical_lines = signed.canonical_lines;
  }

  module _ ⦃c : Crypto⦄ where
    -- The arguments of `sign_request`.
    abbrev pub sign_arguments : ProtectedClient → RequestInput → Text → SignArguments
    sign_arguments client request token = record {
      request = some request;
      passport_token = token;
      private_key = some (key_object client.private_key);
      key_id = [];
      signer_class = [];
    }

    -- `prepare`, from the headers with their nonce on.
    unfoldable pub prepare_signed :
        ProtectedClient
        → Datetime
        → (ℕ → Bytes)
        → Text
        → Target
        → List (Text × Text)
        → Text
        → Result Text PreparedRequest
    unfolding issue_passport sign_request update
    prepare_signed client now random_bytes method target output_headers nonce = do
      passport ← issue_passport now (passport_options client now random_bytes)
      let request = protected_request client.profile method target output_headers nonce
      signed ← sign_request none (sign_arguments client request passport.token)
      ok (prepared_request method target output_headers passport signed)

    -- `ProtectedClient.prepare`. The random bytes are given once for the nonce, then for the passport.
    unfoldable pub prepare :
        ProtectedClient
        → Datetime
        → (ℕ → Bytes)
        → (ℕ → Bytes)
        → Text
        → Text
        → Body
        → Option (List (Text × Text))
        → Result Text PreparedRequest
    unfolding resolve has_reserved hex_text set_entry prepare_signed
    prepare client now nonce_bytes random_bytes raw_method path_and_query body headers = do
      let method = upper (strip raw_method)
      target ← resolve client.profile method path_and_query body
      raise_if (has_reserved (entries_of headers)) (codes "reserved_trustplane_header")
      let nonce = hex_text (nonce_bytes 16)
      let output_headers = set_entry header_nonce nonce (entries_of headers)
      prepare_signed client now random_bytes method target output_headers nonce
