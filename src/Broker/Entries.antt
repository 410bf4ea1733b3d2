-- ===== src/Broker/Entries.antt =====
-- Dictionaries of headers: what is found of the entries that are set.
use trustplane_auth_sdk_pyth.Base.{
  ◌≡◌, refl, ap, ◌∙◌, false, Bool-cases, inl, inr, some, List, [], ◌∷◌, Text, if◌then◌else◌,
}
use trustplane_auth_sdk_pyth.Text.{codes, text_eq, text_eq_iff, text_eq_refl}
use trustplane_auth_sdk_pyth.Transcript.Data.{
  header_authorization, header_proof, header_transcript_sha256, header_nonce, header_body_sha256,
}
use trustplane_auth_sdk_pyth.Transcript.Headers.{lookup}
use trustplane_auth_sdk_pyth.Broker.Request.{set_entry}

-- What was set under a key is found there, and under no other key anything is changed.
pub lookup-set_entry :
    (key value : Text) (entries : List (Text × Text))
    → lookup key (set_entry key value entries) ≡ some value
unfolding lookup set_entry
lookup-set_entry key value [] = rw (text_eq_refl key) refl
lookup-set_entry key value ((k, v) ∷ entries) = elim (Bool-cases (text_eq k key)) [
  | inl t ↦ rw t (rw t refl)
  | inr t ↦ rw t (rw t (lookup-set_entry key value entries))
]

pub lookup-set_entry_other :
    (key other value : Text) (entries : List (Text × Text))
    → text_eq key other ≡ false
    → lookup other (set_entry key value entries) ≡ lookup other entries
unfolding lookup set_entry
lookup-set_entry_other key other value [] h = rw h refl
lookup-set_entry_other key other value ((k, v) ∷ entries) h = elim (Bool-cases (text_eq k key)) [
  | inl t ↦
      let skipped : text_eq k other ≡ false =
        ap (λ x. text_eq x other) ((text_eq_iff k key).0 t) ∙ h in
      rw t (rw skipped refl)
  | inr t ↦ rw t (
      ap (λ x. if text_eq k other then some v else x)
        (lookup-set_entry_other key other value entries h))
]

-- Five keys that are set one after the other.
module _ (k1 k2 k3 k4 k5 v1 v2 v3 v4 v5 : Text) (entries : List (Text × Text)) where
  abbrev pub five_set : List (Text × Text)
  five_set =
      set_entry k5 v5
        (set_entry k4 v4 (set_entry k3 v3 (set_entry k2 v2 (set_entry k1 v1 entries))))

  lookup_second : text_eq k5 k4 ≡ false → lookup k4 five_set ≡ some v4
  lookup_second h5 = lookup-set_entry_other k5 k4 v5 _ h5 ∙ lookup-set_entry k4 v4 _

  lookup_third : text_eq k5 k3 ≡ false → text_eq k4 k3 ≡ false → lookup k3 five_set ≡ some v3
  lookup_third h5 h4 =
      lookup-set_entry_other k5 k3 v5 _ h5
      ∙ lookup-set_entry_other k4 k3 v4 _ h4
      ∙ lookup-set_entry k3 v3 _

  lookup_fourth :
      text_eq k5 k2 ≡ false
      → text_eq k4 k2 ≡ false
      → text_eq k3 k2 ≡ false
      → lookup k2 five_set ≡ some v2
  lookup_fourth h5 h4 h3 =
      lookup-set_entry_other k5 k2 v5 _ h5
      ∙ lookup-set_entry_other k4 k2 v4 _ h4
      ∙ lookup-set_entry_other k3 k2 v3 _ h3
      ∙ lookup-set_entry k2 v2 _

  lookup_fifth :
      text_eq k5 k1 ≡ false
      → text_eq k4 k1 ≡ false
      → text_eq k3 k1 ≡ false
      → text_eq k2 k1 ≡ false
      → lookup k1 five_set ≡ some v1
  lookup_fifth h5 h4 h3 h2 =
      lookup-set_entry_other k5 k1 v5 _ h5
      ∙ lookup-set_entry_other k4 k1 v4 _ h4
      ∙ lookup-set_entry_other k3 k1 v3 _ h3
      ∙ lookup-set_entry_other k2 k1 v2 _ h2
      ∙ lookup-set_entry k1 v1 _

  pub lookup_rest :
      (other : Text)
      → text_eq k1 other ≡ false
      → text_eq k2 other ≡ false
      → text_eq k3 other ≡ false
      → text_eq k4 other ≡ false
      → text_eq k5 other ≡ false
      → lookup other five_set ≡ lookup other entries
  lookup_rest other h1 h2 h3 h4 h5 =
      lookup-set_entry_other k5 other v5 _ h5
      ∙ lookup-set_entry_other k4 other v4 _ h4
      ∙ lookup-set_entry_other k3 other v3 _ h3
      ∙ lookup-set_entry_other k2 other v2 _ h2
      ∙ lookup-set_entry_other k1 other v1 _ h1

-- The names of the five headers differ.
record AreApart : Type 0 where
  body_sha256-nonce : text_eq header_body_sha256 header_nonce ≡ false
  body_sha256-transcript_sha256 : text_eq header_body_sha256 header_transcript_sha256 ≡ false
  nonce-transcript_sha256 : text_eq header_nonce header_transcript_sha256 ≡ false
  body_sha256-proof : text_eq header_body_sha256 header_proof ≡ false
  nonce-proof : text_eq header_nonce header_proof ≡ false
  transcript_sha256-proof : text_eq header_transcript_sha256 header_proof ≡ false
  body_sha256-authorization : text_eq header_body_sha256 header_authorization ≡ false
  nonce-authorization : text_eq header_nonce header_authorization ≡ false
  transcript_sha256-authorization : text_eq header_transcript_sha256 header_authorization ≡ false
  proof-transcript_sha256 : text_eq header_proof header_transcript_sha256 ≡ false
  proof-authorization : text_eq header_proof header_authorization ≡ false

apart : AreApart
unfolding text_eq codes
apart = record {
  proof-transcript_sha256 = refl;
  body_sha256-nonce = refl;
  body_sha256-transcript_sha256 = refl;
  nonce-transcript_sha256 = refl;
  body_sha256-proof = refl;
  nonce-proof = refl;
  transcript_sha256-proof = refl;
  body_sha256-authorization = refl;
  nonce-authorization = refl;
  transcript_sha256-authorization = refl;
  proof-authorization = refl;
}

-- The headers in the order in which `broker_headers` sets them.
pub lookup_parts :
    (entries : List (Text × Text)) (v1 v2 v3 v4 v5 : Text)
    → let headers =
        five_set header_authorization header_proof header_transcript_sha256 header_nonce
          header_body_sha256 v1 v2 v3 v4 v5 entries in
      (lookup header_authorization headers ≡ some v1)
      × (lookup header_proof headers ≡ some v2)
      × (lookup header_transcript_sha256 headers ≡ some v3)
      × (lookup header_nonce headers ≡ some v4)
      × (lookup header_body_sha256 headers ≡ some v5)
lookup_parts entries v1 v2 v3 v4 v5 = (
  lookup_fifth _ _ _ _ _ v1 v2 v3 v4 v5 entries apart.body_sha256-authorization
      apart.nonce-authorization apart.transcript_sha256-authorization apart.proof-authorization,
  lookup_fourth _ _ _ _ _ v1 v2 v3 v4 v5 entries apart.body_sha256-proof apart.nonce-proof
      apart.transcript_sha256-proof,
  lookup_third _ _ _ _ _ v1 v2 v3 v4 v5 entries apart.body_sha256-transcript_sha256
      apart.nonce-transcript_sha256,
  lookup_second _ _ _ _ _ v1 v2 v3 v4 v5 entries apart.body_sha256-nonce,
  lookup-set_entry header_body_sha256 v5 _,
)

-- The headers in the order in which `sign_request` lists them.
pub lookup_signed :
    (entries : List (Text × Text)) (v1 v2 v3 v4 v5 : Text)
    → let headers =
        five_set header_authorization header_transcript_sha256 header_proof header_nonce
          header_body_sha256 v1 v2 v3 v4 v5 entries in
      (lookup header_authorization headers ≡ some v1)
      × (lookup header_transcript_sha256 headers ≡ some v2)
      × (lookup header_proof headers ≡ some v3)
      × (lookup header_nonce headers ≡ some v4)
      × (lookup header_body_sha256 headers ≡ some v5)
lookup_signed entries v1 v2 v3 v4 v5 = (
  lookup_fifth _ _ _ _ _ v1 v2 v3 v4 v5 entries apart.body_sha256-authorization
      apart.nonce-authorization apart.proof-authorization apart.transcript_sha256-authorization,
  lookup_fourth _ _ _ _ _ v1 v2 v3 v4 v5 entries apart.body_sha256-transcript_sha256
      apart.nonce-transcript_sha256 apart.proof-transcript_sha256,
  lookup_third _ _ _ _ _ v1 v2 v3 v4 v5 entries apart.body_sha256-proof apart.nonce-proof,
  lookup_second _ _ _ _ _ v1 v2 v3 v4 v5 entries apart.body_sha256-nonce,
  lookup-set_entry header_body_sha256 v5 _,
)
