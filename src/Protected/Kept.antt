-- ===== src/Protected/Kept.antt =====
-- A target that is resolved, and the headers of the caller beside those that are reserved.
use mathlib.Core.Path.{subst}
use trustplane_auth_sdk_pyth.Base.{
  ◌≡◌, ◌≢◌, refl, sym, ap, ◌∙◌, Bool, true, false, not, ◌&&◌, ◌||◌, Bool-cases, inl, inr, List, [],
  ◌∷◌, Text, All, ok, raise_if, raise_if-eq-ok, >>=-eq-ok, arith,
}
use trustplane_auth_sdk_pyth.Text.{codes, text_eq, text_eq_iff, text_eq_refl, is_empty, mem_text}
use trustplane_auth_sdk_pyth.Platform.{Platform, ParsedUrl}
use trustplane_auth_sdk_pyth.Profile.{SigningProfile, validate_concrete_request_path, matches}
use trustplane_auth_sdk_pyth.Profile.Concrete.{IsConcrete}
use trustplane_auth_sdk_pyth.Profile.Paths.{validate-IsConcrete}
use trustplane_auth_sdk_pyth.Transcript.Data.{
  Body, body_bytes, header_authorization, header_proof, header_transcript_sha256, header_nonce,
  header_body_sha256,
}
use trustplane_auth_sdk_pyth.Transcript.Headers.{lookup}
use trustplane_auth_sdk_pyth.Broker.Request.{set_entry}
use trustplane_auth_sdk_pyth.Broker.Stream.{not-false}
use trustplane_auth_sdk_pyth.Broker.Entries.{lookup-set_entry_other, lookup_rest, five_set}
use trustplane_auth_sdk_pyth.Protected.Target.{
  Target, raw_target_of, raw_path_of, wire_path_of, target_url, reserved_headers, has_reserved,
  resolve,
}

or_false_left : (a b : Bool) → (a || b) ≡ false → a ≡ false
or_false_left false b h = refl
or_false_left true b h = cc

or_false_right : (a b : Bool) → (a || b) ≡ false → b ≡ false
or_false_right false b h = h
or_false_right true b h = cc

mem_here : (s : Text) (ss : List Text) → mem_text s (s ∷ ss) ≡ true
unfolding mem_text
mem_here s ss = rw (text_eq_refl s) refl

mem_later : (t s : Text) (ss : List Text) → mem_text s ss ≡ true → mem_text s (t ∷ ss) ≡ true
unfolding mem_text
mem_later t s ss h = ground (arith, h)

true_ne_false : true ≢ false
true_ne_false h = cc

module _ ⦃p : Platform⦄ where
  -- Where a request goes and what it sends: the path and the query that were asked for, on the
  -- profile's site.
  pub record IsTarget (profile : SigningProfile) (method path_and_query : Text) (body : Body)
      (target : Target) : Type 0 where
    pub base : ParsedUrl
    pub reference : ParsedUrl
    pub parsed_base : p.urlparse profile.request_base_url ≡ ok base
    pub parsed_reference : p.urlparse (raw_target_of profile path_and_query) ≡ ok reference
    pub path : target.wire_path ≡ wire_path_of reference
    pub on_site :
        p.urlparse (p.urlunparse base.scheme base.netloc target.wire_path [] reference.query [])
        ≡ ok target.url
    pub body_sent : target.body ≡ body_bytes body
    pub concrete : IsConcrete target.wire_path
    pub matched : matches profile method target.wire_path ≡ true

  pub resolve-eq-ok :
      (profile : SigningProfile) (method path_and_query : Text) (body : Body) (target : Target)
      → resolve profile method path_and_query body ≡ ok target
      → IsTarget profile method path_and_query body target
  unfolding resolve target_url
  resolve-eq-ok profile method path_and_query body target h =
      let raw_target = raw_target_of profile path_and_query in
      let (base, hb, h1) = >>=-eq-ok (p.urlparse profile.request_base_url) _ h in
      let (reference, hr, h2) = >>=-eq-ok (p.urlparse raw_target) _ h1 in
      let (u, hu, h3) =
        >>=-eq-ok
          (raise_if
            (not (is_empty reference.scheme)
              || not (is_empty reference.netloc)
              || not (is_empty reference.fragment))
            (codes "invalid_request_path"))
          _ h2 in
      let wire_path = wire_path_of reference in
      let (v, hv, h4) =
        >>=-eq-ok (validate_concrete_request_path wire_path (raw_path_of raw_target)) _ h3 in
      let (url, ht, h5) = >>=-eq-ok (target_url base wire_path reference.query) _ h4 in
      let (w, hw, h6) =
        >>=-eq-ok
          (raise_if (not (matches profile method wire_path))
            (codes "request_outside_signing_profile"))
          _ h5 in
      let (x, hx, h7) =
        >>=-eq-ok
          (raise_if
            (mem_text method (codes "GET" ∷ codes "HEAD" ∷ []) && not (is_empty (body_bytes body)))
            (codes "request_body_not_allowed_for_method"))
          _ h6 in
      let made : record { wire_path = wire_path; url = url; body = body_bytes body } ≡ target =
        cc in
      subst (IsTarget profile method path_and_query body) made (record {
        base = base;
        reference = reference;
        parsed_base = hb;
        parsed_reference = hr;
        path = refl;
        on_site = ht;
        body_sent = refl;
        concrete = validate-IsConcrete wire_path (raw_path_of raw_target) hv;
        matched = not-false _ (raise_if-eq-ok _ _ hw);
      })

  -- A name that is not reserved is not that of a header of the proof.
  unreserved_apart :
      (reserved name : Text)
      → mem_text (p.lower name) (reserved_headers) ≡ false
      → mem_text (p.lower reserved) reserved_headers ≡ true
      → text_eq reserved name ≡ false
  unreserved_apart reserved name h k = elim (Bool-cases (text_eq reserved name)) [
    | inl t ↦ absurd (
        true_ne_false (
          sym k
          ∙ ap (λ n. mem_text (p.lower n) reserved_headers) ((text_eq_iff reserved name).0 t)
          ∙ h))
    | inr t ↦ t
  ]

  -- Five headers whose names are reserved leave the others as they are.
  record IsReserved (name : Text) : Type 0 where
    authorization : text_eq header_authorization name ≡ false
    transcript_sha256 : text_eq header_transcript_sha256 name ≡ false
    proof : text_eq header_proof name ≡ false
    nonce : text_eq header_nonce name ≡ false
    body_sha256 : text_eq header_body_sha256 name ≡ false

  apart_of : (name : Text) → mem_text (p.lower name) reserved_headers ≡ false → IsReserved name
  apart_of name h = record {
    authorization = unreserved_apart header_authorization name h (mem_here _ _);
    transcript_sha256 =
        unreserved_apart header_transcript_sha256 name h
          (mem_later _ _ _ (mem_later _ _ _ (mem_later _ _ _ (mem_later _ _ _ (mem_here _ _)))));
    proof =
        unreserved_apart header_proof name h
          (mem_later _ _ _ (mem_later _ _ _ (mem_later _ _ _ (mem_here _ _))));
    nonce = unreserved_apart header_nonce name h (mem_later _ _ _ (mem_later _ _ _ (mem_here _ _)));
    body_sha256 = unreserved_apart header_body_sha256 name h (mem_later _ _ _ (mem_here _ _));
  }

  -- Headers that were set leave those of the caller as they were.
  pub kept_entries :
      (entries headers : List (Text × Text)) (nonce v1 v2 v3 v4 v5 : Text)
      → has_reserved headers ≡ false
      → All
          (λ entry.
            lookup entry.0 (
              five_set header_authorization header_transcript_sha256 header_proof header_nonce
                header_body_sha256 v1 v2 v3 v4 v5
                (set_entry header_nonce nonce entries))
            ≡ lookup entry.0 entries)
          headers
  unfolding has_reserved
  kept_entries entries [] nonce v1 v2 v3 v4 v5 h = tt
  kept_entries entries ((name, value) ∷ headers) nonce v1 v2 v3 v4 v5 h =
      let apart =
        apart_of name
          (or_false_left (mem_text (p.lower name) reserved_headers) (has_reserved headers) h) in
      (
        lookup_rest _ _ _ _ _ v1 v2 v3 v4 v5 _ name apart.authorization apart.transcript_sha256
              apart.proof apart.nonce apart.body_sha256
            ∙ lookup-set_entry_other header_nonce name nonce entries apart.nonce,
        kept_entries entries headers nonce v1 v2 v3 v4 v5
            (or_false_right (mem_text (p.lower name) reserved_headers) (has_reserved headers) h),
      )
