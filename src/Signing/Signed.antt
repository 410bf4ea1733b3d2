-- ===== src/Signing/Signed.antt =====
-- What a signed request carries, and who can verify it.
use mathlib.Core.Path.{subst}
use trustplane_auth_sdk_pyth.Base.{
  ◌≡◌, refl, sym, ap, ◌∙◌, true, Option, none, some, Text, Bytes, Result, ok, err, >>=-eq-ok,
  raise_if,
}
use trustplane_auth_sdk_pyth.Text.{codes, is_empty, strip}
use trustplane_auth_sdk_pyth.Platform.{Platform}
use trustplane_auth_sdk_pyth.Crypto.{Crypto, CryptoLaws, PrivateKey}
use trustplane_auth_sdk_pyth.Base64.{b64url, decode_base64url}
use trustplane_auth_sdk_pyth.Base64.RoundTrip.{decode_base64url-b64url}
use trustplane_auth_sdk_pyth.Transcript.Data.{
  RequestInput, RequestMaterial, TranscriptV1, software_key_binding,
}
use trustplane_auth_sdk_pyth.Transcript.Headers.{sha256_text}
use trustplane_auth_sdk_pyth.Transcript.Build.{
  build_request, build_transcript, canonical_lines, canonical_text, assemble, issue_time,
}
use trustplane_auth_sdk_pyth.Transcript.Complete.{Built, build_transcript-Built}
use trustplane_auth_sdk_pyth.Signing.{
  ProofInput, SignArguments, SignedRequest, PassportBinding, KeyInput, validate_passport_binding,
  validate_signing_consistency, coerce_signing_request, bind_request, from_hex, load_private_key,
  parse_passport_binding, signed_headers, sign_bound, sign_with, sign_checked, effective,
  sign_request,
}
use trustplane_auth_sdk_pyth.Signing.Binding.{validate_passport_binding_sound}

module _ ⦃p : Platform⦄ ⦃c : Crypto⦄ where
  -- How a signed request came about.
  pub record Signed (token : Text) (a : SignArguments) (r : SignedRequest) : Type 0 where
    pub private_key : PrivateKey
    pub claims : PassportBinding
    pub parsed : parse_passport_binding token ≡ ok claims
    pub bound : validate_passport_binding claims private_key ≡ ok tt
    pub consistent :
        validate_signing_consistency
          (coerce_signing_request a.request)
          a.key_id
          a.signer_class
          claims
        ≡ ok tt
    pub signed :
        sign_bound token private_key claims (bind_request (coerce_signing_request a.request) claims)
        ≡ ok r

  sign_with-Signed :
      (token : Text) (raw_key : KeyInput) (a : SignArguments) (r : SignedRequest)
      → sign_with token raw_key a ≡ ok r
      → Signed token a r
  unfolding sign_with
  sign_with-Signed token raw_key a r h =
      let (k, _, h1) = >>=-eq-ok (load_private_key raw_key) _ h in
      let (claims, parsed, h2) = >>=-eq-ok (parse_passport_binding token) _ h1 in
      let (_, bound, h3) = >>=-eq-ok (validate_passport_binding claims k) _ h2 in
      let (_, consistent, h4) =
        >>=-eq-ok
          (validate_signing_consistency (coerce_signing_request a.request) a.key_id a.signer_class
            claims)
          _ h3 in
      record {
        private_key = k;
        claims = claims;
        parsed = parsed;
        bound = bound;
        consistent = consistent;
        signed = h4;
      }

  pub sign_request-Signed :
      (proof : Option ProofInput) (a : SignArguments) (r : SignedRequest)
      → sign_request proof a ≡ ok r
      → Signed (strip (effective proof a).passport_token) (effective proof a) r
  unfolding sign_request
  sign_request-Signed proof a r h = checked (effective proof a) h
    where
      keyed :
          (a : SignArguments) (o : Option KeyInput)
          → (elim o as (λ x. Result Text SignedRequest) [
            | none ↦ err (codes "missing_private_key")
            | some raw_key ↦ sign_with (strip a.passport_token) raw_key a
          ])
            ≡ ok r
          → Signed (strip a.passport_token) a r
      keyed a none h = cc
      keyed a (some raw_key) h = sign_with-Signed (strip a.passport_token) raw_key a r h

      checked : (a : SignArguments) → sign_checked a ≡ ok r → Signed (strip a.passport_token) a r
      checked a h =
          let (_, _, h1) = >>=-eq-ok (raise_if (is_empty (strip a.passport_token)) _) _ h in
          keyed a a.private_key h1

  strip-software : strip software_key_binding ≡ software_key_binding
  unfolding strip codes
  strip-software = refl

  -- How the end of `sign_request` came about.
  record Finished (token : Text) (k : PrivateKey) (claims : PassportBinding) (input : RequestInput)
      (r : SignedRequest) : Type 0 where
    material : RequestMaterial
    digest : Bytes
    made : build_request input ≡ ok material
    hex : from_hex material.transcript_sha256 ≡ ok digest
    result : r ≡ record {
      transcript_sha256 = material.transcript_sha256;
      body_sha256 = material.body_sha256;
      headers = signed_headers token input.nonce material (b64url (c.sign k digest));
      canonical_lines = material.canonical_lines;
      key_id = claims.key_id;
      signer_class = software_key_binding;
    }

  sign_bound-Finished :
      (token : Text) (k : PrivateKey) (claims : PassportBinding) (input : RequestInput)
      (r : SignedRequest)
      → sign_bound token k claims input ≡ ok r
      → Finished token k claims input r
  unfolding sign_bound
  sign_bound-Finished token k claims input r h =
      let (material, hm, h1) = >>=-eq-ok (build_request input) _ h in
      let (digest, hd, h2) = >>=-eq-ok (from_hex material.transcript_sha256) _ h1 in
      record { material = material; digest = digest; made = hm; hex = hd; result = cc }

  -- A signed request whose transcript states the claims of the passport.
  pub record Binds (token : Text) (request : RequestInput) (r : SignedRequest) : Type 0 where
    pub claims : PassportBinding
    pub transcript : TranscriptV1
    pub parsed : parse_passport_binding token ≡ ok claims
    pub lines : r.canonical_lines ≡ canonical_lines transcript
    pub digest_text : r.transcript_sha256 ≡ sha256_text (canonical_text transcript)
    pub audience : transcript.audience ≡ claims.audience
    pub jti : transcript.passport_jti ≡ claims.jti
    pub time : transcript.issued_at ≡ claims.issued_at
    pub key_binding : transcript.key_binding ≡ software_key_binding
    pub path : transcript.path ≡ strip request.path
    pub nonce : transcript.nonce ≡ strip request.nonce
    pub key_id : r.key_id ≡ claims.key_id

  Built-of :
      (input : RequestInput) (m : RequestMaterial)
      → build_request input ≡ ok m
      → (t : TranscriptV1) × (Built input t)
        × (m.canonical_lines ≡ canonical_lines t)
        × (m.transcript_sha256 ≡ sha256_text (canonical_text t))
  unfolding build_request
  Built-of input m h =
      let (t, ht, h1) = >>=-eq-ok (build_transcript input) _ h in
      let e : m ≡ record {
        transcript_sha256 = sha256_text (canonical_text t);
        body_sha256 = t.body_sha256;
        canonical_lines = canonical_lines t;
      } =
        cc in
      (
        t,
        build_transcript-Built input t ht,
        ap (λ m. m.canonical_lines) e,
        ap (λ m. m.transcript_sha256) e,
      )

  abbrev Assembled : RequestInput → TranscriptV1 → Type 0
  Assembled input t =
      (t.audience ≡ strip input.audience)
      × (t.passport_jti ≡ strip input.passport_jti)
      × (t.issued_at ≡ issue_time input)
      × (t.key_binding ≡ strip input.key_binding)
      × (t.path ≡ strip input.path)
      × (t.nonce ≡ strip input.nonce)

  assembled : (input : RequestInput) (t : TranscriptV1) → Built input t → Assembled input t
  assembled input t b =
      subst (λ t. Assembled input t) b.same
        (unfold assemble in (refl, refl, refl, refl, refl, refl))

  -- A request that is signed has a transcript of which it carries the lines and the digest, and
  -- which states the audience, the identifier and the issue time of the passport's claims,
  -- whatever the request says of them, the software key binding, and the path and the nonce of
  -- the request.
  pub sign_request-Binds :
      (proof : Option ProofInput) (a : SignArguments) (r : SignedRequest)
      → sign_request proof a ≡ ok r
      → Binds
          (strip (effective proof a).passport_token)
          (coerce_signing_request (effective proof a).request)
          r
  sign_request-Binds proof a r h = binds (effective proof a) (sign_request-Signed proof a r h)
    where
      binds :
          (a : SignArguments)
          → Signed (strip a.passport_token) a r
          → Binds (strip a.passport_token) (coerce_signing_request a.request) r
      binds a s =
          let request = coerce_signing_request a.request in
          let input = bind_request request s.claims in
          let f = sign_bound-Finished _ s.private_key s.claims input r s.signed in
          let (t, b, hl, hd) = Built-of input f.material f.made in
          let (ha, hj, hi, hk, hp, hn) = assembled input t b in
          let (canonical, software, same) =
            validate_passport_binding_sound s.claims s.private_key s.bound in
          record {
            claims = s.claims;
            transcript = t;
            parsed = s.parsed;
            lines = ap (λ r. r.canonical_lines) f.result ∙ hl;
            digest_text = ap (λ r. r.transcript_sha256) f.result ∙ hd;
            audience = ha ∙ unfold bind_request in sym canonical.0.1;
            jti = hj ∙ unfold bind_request in sym canonical.1.0.1;
            time = hi ∙ unfold bind_request issue_time in refl;
            key_binding = hk ∙ unfold bind_request in strip-software;
            path = hp ∙ unfold bind_request in refl;
            nonce = hn ∙ unfold bind_request in refl;
            key_id = ap (λ r. r.key_id) f.result;
          }

  -- A proof that a server can check with nothing but the passport's public key.
  pub record Verifiable (token : Text) (nonce : Text) (r : SignedRequest) : Type 0 where
    pub claims : PassportBinding
    pub public_key : Bytes
    pub digest : Bytes
    pub proof : Text
    pub signature : Bytes
    pub parsed : parse_passport_binding token ≡ ok claims
    pub key_decoded : decode_base64url claims.public_key_b64url ≡ ok public_key
    pub digest_decoded : from_hex r.transcript_sha256 ≡ ok digest
    pub carried :
        r.headers
        ≡ signed_headers token nonce
            (record {
              transcript_sha256 = r.transcript_sha256;
              body_sha256 = r.body_sha256;
              canonical_lines = r.canonical_lines;
            })
            proof
    pub proof_decoded : decode_base64url proof ≡ ok signature
    pub verified : c.verify public_key digest signature ≡ true

  module _ (laws : CryptoLaws c) where
    -- A request that is signed carries the token, the nonce, the two digests and a proof in its
    -- headers, and the proof decodes to a signature of the transcript's digest that verifies
    -- under the public key of the passport, if the package verifies the signatures that it
    -- makes.
    pub sign_request-Verifiable :
        (proof : Option ProofInput) (a : SignArguments) (r : SignedRequest)
        → sign_request proof a ≡ ok r
        → Verifiable
            (strip (effective proof a).passport_token)
            (coerce_signing_request (effective proof a).request).nonce
            r
    sign_request-Verifiable proof a r h =
        verifiable (effective proof a) (sign_request-Signed proof a r h)
      where
        verifiable :
            (a : SignArguments)
            → Signed (strip a.passport_token) a r
            → Verifiable (strip a.passport_token) (coerce_signing_request a.request).nonce r
        verifiable a s =
            let k = s.private_key in
            let input = bind_request (coerce_signing_request a.request) s.claims in
            let f = sign_bound-Finished _ k s.claims input r s.signed in
            let (canonical, software, same) = validate_passport_binding_sound s.claims k s.bound in
            record {
              claims = s.claims;
              public_key = c.raw_public_key k;
              digest = f.digest;
              proof = b64url (c.sign k f.digest);
              signature = c.sign k f.digest;
              parsed = s.parsed;
              key_decoded =
                  ap decode_base64url same
                  ∙ decode_base64url-b64url (c.raw_public_key k) (laws.public_bytes k);
              digest_decoded = ap (λ r. from_hex r.transcript_sha256) f.result ∙ f.hex;
              carried =
                  unfold bind_request in
                  (ap (λ r. r.headers) f.result
                    ∙ sym (
                        ap
                          (λ r.
                            signed_headers (strip a.passport_token)
                              (coerce_signing_request a.request).nonce
                              (record {
                                transcript_sha256 = r.transcript_sha256;
                                body_sha256 = r.body_sha256;
                                canonical_lines = r.canonical_lines;
                              })
                              (b64url (c.sign k f.digest)))
                          f.result));
              proof_decoded =
                  decode_base64url-b64url (c.sign k f.digest) (laws.signature_bytes k f.digest);
              verified = laws.verify-sign k f.digest;
            }
