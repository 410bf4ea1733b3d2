-- ===== src/Protected/Sent.antt =====
-- What a prepared request is made of, and what it sends.
use mathlib.Core.Path.{subst}
use trustplane_auth_sdk_pyth.Base.{
  ℕ, ◌≡◌, refl, sym, false, Option, none, some, List, Text, Bytes, All, ok, [], ◌∷◌, map,
  if◌then◌else◌, ap, ◌∙◌,
}
use trustplane_auth_sdk_pyth.Base.Order.{sort}
use trustplane_auth_sdk_pyth.Text.{codes, strip, is_empty}
use trustplane_auth_sdk_pyth.Text.Compare.{text_le}
use trustplane_auth_sdk_pyth.Platform.{Platform}
use trustplane_auth_sdk_pyth.Crypto.{Crypto}
use trustplane_auth_sdk_pyth.Passport.{issue_passport}
use trustplane_auth_sdk_pyth.Transcript.Data.{
  header, bytes, body_bytes, default_request, Body, Datetime, header_nonce,
}
use trustplane_auth_sdk_pyth.Transcript.Build.{or_else}
use trustplane_auth_sdk_pyth.Transcript.Headers.{lookup}
use trustplane_auth_sdk_pyth.Signing.{key_object, SignedRequest, sign_request}
use trustplane_auth_sdk_pyth.Signing.Signed.{Verifiable}
use trustplane_auth_sdk_pyth.Broker.Request.{set_entry}
use trustplane_auth_sdk_pyth.Broker.Entries.{lookup_signed}
use trustplane_auth_sdk_pyth.Protected.Target.{Target, hex_text, has_reserved}
use trustplane_auth_sdk_pyth.Protected.Client.{
  ProtectedClient, PreparedRequest, entries_of, data_of, header_value, update,
}
use trustplane_auth_sdk_pyth.Protected.Kept.{IsTarget, kept_entries}

module _ ⦃p : Platform⦄ where
  module _ ⦃c : Crypto⦄ where
    -- A request that was prepared: what is signed, under which passport, and what is sent.
    pub record IsPrepared (client : ProtectedClient) (now : Datetime)
        (nonce_bytes random_bytes : ℕ → Bytes) (raw_method path_and_query : Text) (body : Body)
        (headers : Option (List (Text × Text))) (r : PreparedRequest) : Type 0 where
      pub target : Target
      pub signed : SignedRequest
      pub output_headers : List (Text × Text)
      pub resolved : IsTarget client.profile (p.upper (strip raw_method)) path_and_query body target
      pub unreserved : has_reserved (entries_of headers) ≡ false
      pub with_nonce :
          output_headers ≡ set_entry header_nonce (hex_text (nonce_bytes 16)) (entries_of headers)
      pub issued :
          issue_passport now (record {
            issuer = client.profile.issuer;
            subject = client.profile.subject;
            audience = client.profile.audience;
            trust_domain = client.profile.trust_domain;
            key_id = client.profile.key_id;
            private_key = client.private_key;
            ttl = client.passport_ttl;
            now = some now;
            jti = [];
            random_bytes = random_bytes;
          })
          ≡ ok r.passport
      pub is_signed :
          sign_request none (record {
            request = some (record default_request {
              method = p.upper (strip raw_method);
              scheme = target.url.scheme;
              authority = target.url.netloc;
              path = target.wire_path;
              raw_query = target.url.query;
              audience = client.profile.audience;
              route_id = client.profile.route_id;
              content_encoding =
                  or_else
                    (header_value output_headers (codes "content-encoding"))
                    (codes "identity");
              body = bytes target.body;
              headers = map (λ entry. header (p.lower entry.0) entry.1) output_headers;
              header_allow_list = sort text_le (map (λ entry. p.lower entry.0) output_headers);
              nonce = hex_text (nonce_bytes 16);
            });
            passport_token = r.passport.token;
            private_key = some (key_object client.private_key);
            key_id = [];
            signer_class = [];
          })
          ≡ ok signed
      pub transcript_digest : r.transcript_sha256 ≡ signed.transcript_sha256
      pub body_digest : r.body_sha256 ≡ signed.body_sha256
      pub lines : r.canonical_lines ≡ signed.canonical_lines
      pub verifiable : Verifiable (strip r.passport.token) (hex_text (nonce_bytes 16)) signed
      -- the target, the method and the body that were asked for are sent
      pub url :
          r.request.url
          ≡ p.urlunparse target.url.scheme target.url.netloc target.url.path target.url.params
              target.url.query target.url.fragment
      pub method : r.request.method ≡ p.upper (strip raw_method)
      pub sent :
          r.request.body ≡ (if is_empty (body_bytes body) then none else some (body_bytes body))
      -- each header of the proof is sent
      pub carried : All (λ entry. lookup entry.0 r.request.headers ≡ some entry.1) signed.headers
      -- the caller's headers are sent as they are
      pub kept :
          All
            (λ entry. lookup entry.0 r.request.headers ≡ lookup entry.0 (entries_of headers))
            (entries_of headers)

    -- `body_bytes or None`
    pub sent_lem :
        (sent given : Bytes)
        → sent ≡ given
        → data_of sent ≡ (if is_empty given then none else some given)
    sent_lem sent given h = ap data_of h ∙ data_of_lem given
      where
        data_of_lem : (b : Bytes) → data_of b ≡ (if is_empty b then none else some b)
        data_of_lem [] = refl
        data_of_lem (x ∷ b) = refl

    -- The headers of a signed request, among those that are sent.
    pub carried-All :
        (token nonce : Text) (signed : SignedRequest) (entries : List (Text × Text))
        → Verifiable token nonce signed
        → All
            (λ entry. lookup entry.0 (update entries signed.headers) ≡ some entry.1)
            signed.headers
    unfolding update
    carried-All token nonce signed entries v =
        let (a, t, q, n, b) = lookup_signed entries _ _ _ _ _ in
        subst
          (λ (hs : List (Text × Text)).
            All (λ entry. lookup entry.0 (update entries hs) ≡ some entry.1) hs)
          (sym v.carried) (a, (t, (q, (n, (b, tt)))))

    pub kept-All :
        (token nonce : Text) (signed : SignedRequest) (headers : List (Text × Text))
        → Verifiable token nonce signed
        → has_reserved headers ≡ false
        → All
            (λ entry.
              lookup entry.0 (update (set_entry header_nonce nonce headers) signed.headers)
              ≡ lookup entry.0 headers)
            headers
    unfolding update
    kept-All token nonce signed headers v h =
        subst
          (λ (hs : List (Text × Text)).
            All
              (λ entry.
                lookup entry.0 (update (set_entry header_nonce nonce headers) hs)
                ≡ lookup entry.0 headers)
              headers)
          (sym v.carried) (kept_entries headers headers nonce _ _ _ _ _ h)
