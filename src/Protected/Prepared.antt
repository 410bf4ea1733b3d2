-- ===== src/Protected/Prepared.antt =====
-- What a prepared request carries.
use mathlib.Core.Path.{subst}
use trustplane_auth_sdk_pyth.Base.{
  ℕ, ◌≡◌, refl, false, Option, none, List, Text, Bytes, ok, raise_if, raise_if-eq-ok, >>=-eq-ok,
}
use trustplane_auth_sdk_pyth.Text.{codes, strip}
use trustplane_auth_sdk_pyth.Platform.{Platform}
use trustplane_auth_sdk_pyth.Crypto.{Crypto, CryptoLaws}
use trustplane_auth_sdk_pyth.Passport.{issue_passport}
use trustplane_auth_sdk_pyth.Transcript.Data.{
  body_bytes, Body, Datetime, RequestInput, header_nonce,
}
use trustplane_auth_sdk_pyth.Signing.{
  SignedRequest, sign_request, effective, coerce_signing_request,
}
use trustplane_auth_sdk_pyth.Signing.Signed.{Verifiable, sign_request-Verifiable}
use trustplane_auth_sdk_pyth.Broker.Request.{set_entry}
use trustplane_auth_sdk_pyth.Protected.Target.{Target, hex_text, has_reserved, resolve}
use trustplane_auth_sdk_pyth.Protected.Client.{
  ProtectedClient, PreparedRequest, entries_of, passport_options, protected_request, sign_arguments,
  prepared_request, prepare_signed, prepare,
}
use trustplane_auth_sdk_pyth.Protected.Kept.{IsTarget, resolve-eq-ok}
use trustplane_auth_sdk_pyth.Protected.Sent.{IsPrepared, sent_lem, carried-All, kept-All}

module _ ⦃p : Platform⦄ where
  module _ ⦃c : Crypto⦄ where
    module _ (laws : CryptoLaws c) where
      arguments-Verifiable :
          (client : ProtectedClient) (request : RequestInput) (token : Text)
          (signed : SignedRequest)
          → sign_request none (sign_arguments client request token) ≡ ok signed
          → Verifiable (strip token) request.nonce signed
      unfolding effective coerce_signing_request
      arguments-Verifiable client request token signed h =
          sign_request-Verifiable laws none (sign_arguments client request token) signed h

      prepare_signed-eq-ok :
          (client : ProtectedClient) (now : Datetime) (nonce_bytes random_bytes : ℕ → Bytes)
          (raw_method path_and_query : Text) (body : Body) (headers : Option (List (Text × Text)))
          (target : Target) (r : PreparedRequest)
          → IsTarget client.profile (p.upper (strip raw_method)) path_and_query body target
          → has_reserved (entries_of headers) ≡ false
          → prepare_signed client now random_bytes
              (p.upper (strip raw_method))
              target
              (set_entry header_nonce (hex_text (nonce_bytes 16)) (entries_of headers))
              (hex_text (nonce_bytes 16))
            ≡ ok r
          → IsPrepared client now nonce_bytes random_bytes raw_method path_and_query body headers r
      unfolding prepare_signed
      prepare_signed-eq-ok client now nonce_bytes random_bytes raw_method path_and_query body
            headers target r resolved unreserved h =
          let nonce = hex_text (nonce_bytes 16) in
          let output_headers = set_entry header_nonce nonce (entries_of headers) in
          let request =
            protected_request client.profile (p.upper (strip raw_method)) target output_headers
              nonce in
          let (passport, hp, h1) =
            >>=-eq-ok (issue_passport now (passport_options client now random_bytes)) _ h in
          let (signed, hs, h2) =
            >>=-eq-ok (sign_request none (sign_arguments client request passport.token)) _ h1 in
          let made : prepared_request (p.upper (strip raw_method)) target output_headers passport
                signed
              ≡ r =
            cc in
          let verifiable : Verifiable (strip passport.token) nonce signed =
            arguments-Verifiable client request passport.token signed hs in
          subst
            (IsPrepared client now nonce_bytes random_bytes raw_method path_and_query body headers)
            made
            (record {
              target = target;
              signed = signed;
              output_headers = output_headers;
              resolved = resolved;
              unreserved = unreserved;
              with_nonce = refl;
              issued = hp;
              is_signed = hs;
              transcript_digest = refl;
              body_digest = refl;
              lines = refl;
              verifiable = verifiable;
              url = refl;
              method = refl;
              sent = sent_lem target.body (body_bytes body) resolved.body_sent;
              carried = carried-All (strip passport.token) nonce signed output_headers verifiable;
              kept =
                  kept-All (strip passport.token) nonce signed (entries_of headers) verifiable
                    unreserved;
            })

      -- A request that is prepared has the method that was asked for, the body that was given
      -- and the address of the path and the query that were asked for on the profile's site, a
      -- concrete path which the profile covers, and the passport that is issued by the values of
      -- the profile; method, address, path, query, body and headers are what is signed under
      -- that passport, the proof verifies, and the digests and the lines are those that were
      -- signed; the request carries the five headers of the proof, and the headers of the
      -- caller, none of which is reserved, as they were given, if the package verifies the
      -- signatures that it makes.
      pub prepare-IsPrepared :
          (client : ProtectedClient) (now : Datetime) (nonce_bytes random_bytes : ℕ → Bytes)
          (raw_method path_and_query : Text) (body : Body) (headers : Option (List (Text × Text)))
          (r : PreparedRequest)
          → prepare client now nonce_bytes random_bytes raw_method path_and_query body headers
            ≡ ok r
          → IsPrepared client now nonce_bytes random_bytes raw_method path_and_query body headers r
      unfolding prepare
      prepare-IsPrepared client now nonce_bytes random_bytes raw_method path_and_query body headers
            r h =
          let method = p.upper (strip raw_method) in
          let (target, ht, h1) =
            >>=-eq-ok (resolve client.profile method path_and_query body) _ h in
          let (u, hu, h2) =
            >>=-eq-ok
              (raise_if (has_reserved (entries_of headers)) (codes "reserved_trustplane_header")) _
              h1 in
          prepare_signed-eq-ok client now nonce_bytes random_bytes raw_method path_and_query body
            headers target r (resolve-eq-ok client.profile method path_and_query body target ht)
            (raise_if-eq-ok _ _ hu) h2
