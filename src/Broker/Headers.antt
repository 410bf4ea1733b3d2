-- ===== src/Broker/Headers.antt =====
-- The headers that a broker's answer makes.
use mathlib.Core.Path.{subst}
use trustplane_auth_sdk_pyth.Base.{
  ◌≡◌, refl, Bool, true, false, not, ◌||◌, Option, none, some, List, ◌++◌, Text, if◌then◌else◌,
  Result, ok, err, raise_if-eq-ok, >>=-eq-ok, arith,
}
use trustplane_auth_sdk_pyth.Text.{codes, text_eq_iff, is_empty}
use trustplane_auth_sdk_pyth.Json.{Json, dict, Fields, get}
use trustplane_auth_sdk_pyth.Platform.{Platform}
use trustplane_auth_sdk_pyth.Transcript.Data.{
  header_authorization, header_proof, header_transcript_sha256, header_nonce, header_body_sha256,
}
use trustplane_auth_sdk_pyth.Transcript.Headers.{lookup}
use trustplane_auth_sdk_pyth.Broker.Request.{PreparedBrokerRequest}
use trustplane_auth_sdk_pyth.Broker.Entries.{lookup_parts}
use trustplane_auth_sdk_pyth.Broker.Answer.{
  BrokerResponse, mapping_of, mapping_at, text_at, is_digest, check_artifacts, http_of,
  kept_headers, set_proof, headers_of_artifacts, broker_headers,
}

mapping_at-eq-ok :
    (key : Text) (fields inner : Fields)
    → mapping_at key fields ≡ ok inner
    → get key fields ≡ dict inner
unfolding mapping_at
mapping_at-eq-ok key fields inner h = at (get key fields) h
  where
    at :
        (v : Json)
        → elim (mapping_of v) as (λ x. Result Text Fields) [
          | none ↦ err (codes "broker_response_invalid")
          | some m ↦ ok m
        ]
          ≡ ok inner
        → v ≡ dict inner
    at (dict m) h = cc
    at _ h = cc

http_of-eq-ok :
    (request http : Fields) → http_of request ≡ ok http → get (codes "http") request ≡ dict http
unfolding http_of
http_of-eq-ok request http h = at (get (codes "http") request) h
  where
    at :
        (v : Json)
        → elim (mapping_of v) as (λ x. Result Text Fields) [
          | none ↦ err (codes "http")
          | some m ↦ ok m
        ]
          ≡ ok http
        → v ≡ dict http
    at (dict m) h = cc
    at _ h = cc

record AreChecked (a b c d e f : Bool) : Type 0 where
  first : a ≡ true
  second : b ≡ false
  third : c ≡ false
  fourth : d ≡ true
  fifth : e ≡ false
  sixth : f ≡ true

checked_parts :
    (a b c d e f : Bool) → not a || b || c || not d || e || not f ≡ false → AreChecked a b c d e f
checked_parts a b c d e f h = record {
  first = ground arith;
  second = ground arith;
  third = ground arith;
  fourth = ground arith;
  fifth = ground arith;
  sixth = ground arith;
}

module _ ⦃p : Platform⦄ where
  -- What the headers carry, and what they were made of.
  pub record IsProof (prepared : PreparedBrokerRequest) (response : BrokerResponse)
      (headers : List (Text × Text)) : Type 0 where
    pub artifacts : Fields
    pub passport : Fields
    pub stamp : Fields
    pub http : Fields
    pub is_accepted : response.accepted ≡ true
    pub has_artifacts : response.artifacts ≡ some artifacts
    pub has_passport : get (codes "passport") artifacts ≡ dict passport
    pub has_stamp : get (codes "stamp") artifacts ≡ dict stamp
    pub has_http : get (codes "http") prepared.request ≡ dict http
    pub passport_format : text_at (codes "format") passport ≡ codes "compact-jws"
    pub stamp_format : text_at (codes "format") stamp ≡ codes "ed25519-transcript-v1"
    pub passport_value : is_empty (text_at (codes "value") passport) ≡ false
    pub passport_jti : is_empty (text_at (codes "jti") passport) ≡ false
    pub stamp_value : is_empty (text_at (codes "value") stamp) ≡ false
    pub digest : is_digest (text_at (codes "transcript_sha256") stamp) ≡ true
    pub authorization :
        lookup header_authorization headers
        ≡ some (codes "Bearer " ++ text_at (codes "value") passport)
    pub proof : lookup header_proof headers ≡ some (text_at (codes "value") stamp)
    pub transcript_sha256 :
        lookup header_transcript_sha256 headers ≡ some (text_at (codes "transcript_sha256") stamp)
    pub nonce : lookup header_nonce headers ≡ some (text_at (codes "nonce") http)
    pub body_sha256 : lookup header_body_sha256 headers ≡ some (text_at (codes "body_sha256") http)

  set_proof-IsProof :
      (prepared : PreparedBrokerRequest) (response : BrokerResponse)
      (artifacts passport stamp http : Fields) (headers : List (Text × Text))
      → response.accepted ≡ true
      → response.artifacts ≡ some artifacts
      → mapping_at (codes "passport") artifacts ≡ ok passport
      → mapping_at (codes "stamp") artifacts ≡ ok stamp
      → check_artifacts passport stamp ≡ ok tt
      → http_of prepared.request ≡ ok http
      → IsProof prepared response (set_proof headers passport stamp http)
  unfolding check_artifacts
  set_proof-IsProof prepared response artifacts passport stamp http headers ha hb hp hs hc hh =
      let checked = checked_parts _ _ _ _ _ _ (raise_if-eq-ok _ _ hc) in
      let set =
        lookup_parts headers (codes "Bearer " ++ text_at (codes "value") passport)
          (text_at (codes "value") stamp) (text_at (codes "transcript_sha256") stamp)
          (text_at (codes "nonce") http) (text_at (codes "body_sha256") http) in
      record {
        artifacts = artifacts;
        passport = passport;
        stamp = stamp;
        http = http;
        is_accepted = ha;
        has_artifacts = hb;
        has_passport = mapping_at-eq-ok _ _ _ hp;
        has_stamp = mapping_at-eq-ok _ _ _ hs;
        has_http = http_of-eq-ok _ _ hh;
        passport_format = (text_eq_iff _ _).0 checked.first;
        stamp_format = (text_eq_iff _ _).0 checked.fourth;
        passport_value = checked.second;
        passport_jti = checked.third;
        stamp_value = checked.fifth;
        digest = checked.sixth;
        authorization = set.0;
        proof = set.1;
        transcript_sha256 = set.2;
        nonce = set.3;
        body_sha256 = set.4;
      }

  -- Headers that are made of an answer carry the passport and the stamp of an answer that was
  -- accepted and is well formed, the identifier of the passport included, and the nonce and the
  -- digest of the body of the request that was prepared.
  pub broker_headers-IsProof :
      (prepared : PreparedBrokerRequest) (response : BrokerResponse) (headers : List (Text × Text))
      → broker_headers prepared response ≡ ok headers
      → IsProof prepared response headers
  unfolding broker_headers headers_of_artifacts
  broker_headers-IsProof prepared response headers h =
      of_answer response.artifacts response.accepted refl refl h
    where
      of_answer :
          (o : Option Fields) (accepted : Bool)
          → response.artifacts ≡ o
          → response.accepted ≡ accepted
          → elim o as (λ x. Result Text (List (Text × Text))) [
            | none ↦ err (codes "broker_response_not_accepted")
            | some artifacts ↦
                if accepted
                then headers_of_artifacts prepared artifacts
                else err (codes "broker_response_not_accepted")
          ]
            ≡ ok headers
          → IsProof prepared response headers
      of_answer none accepted ho ha h = cc
      of_answer (some artifacts) false ho ha h = cc
      of_answer (some artifacts) true ho ha h =
          let (passport, hp, h1) = >>=-eq-ok (mapping_at (codes "passport") artifacts) _ h in
          let (stamp, hs, h2) = >>=-eq-ok (mapping_at (codes "stamp") artifacts) _ h1 in
          let (done, hc, h3) = >>=-eq-ok (check_artifacts passport stamp) _ h2 in
          let (http, hh, h4) = >>=-eq-ok (http_of prepared.request) _ h3 in
          let made : set_proof (kept_headers prepared.raw_headers) passport stamp http ≡ headers =
            cc in
          subst (IsProof prepared response) made (
            set_proof-IsProof prepared response artifacts passport stamp http
              (kept_headers prepared.raw_headers) ha ho hp hs hc hh)
