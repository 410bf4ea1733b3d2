-- ===== src/Tests/Profile.antt =====
-- The theorems on profiles at concrete paths.
use trustplane_auth_sdk_pyth.Base.{◌≡◌, ◌≢◌, ◌↔◌, ◌⊎◌, refl, true, ◌∷◌, arith, Text, ok}
use trustplane_auth_sdk_pyth.Text.{codes, starts_with_char, ends_with_char, split, Lacks, has_char}
use trustplane_auth_sdk_pyth.Profile.{
  validate_concrete_request_path, path_matches, rstrip_slashes, strip_slashes, slash,
}
use trustplane_auth_sdk_pyth.Profile.Concrete.{IsConcrete}
use trustplane_auth_sdk_pyth.Profile.Paths.{validate-IsConcrete, validate_of_IsConcrete}
use trustplane_auth_sdk_pyth.Profile.Matching.{
  Under, Fits, path_matches-prefix, path_matches-template,
}

abbrev orders : Text
orders = codes "/v1/orders"

orders-accepted : validate_concrete_request_path orders orders ≡ ok tt
unfolding validate_concrete_request_path codes starts_with_char ends_with_char split
orders-accepted = refl

validate-IsConcrete_example : IsConcrete orders
validate-IsConcrete_example = validate-IsConcrete orders orders orders-accepted

orders-Lacks : Lacks b'%' orders
unfolding codes
orders-Lacks = ground arith

orders-IsConcrete : IsConcrete orders
orders-IsConcrete = validate-IsConcrete orders orders orders-accepted

validate_of_IsConcrete_example : validate_concrete_request_path orders orders ≡ ok tt
validate_of_IsConcrete_example = validate_of_IsConcrete orders orders-IsConcrete orders-Lacks

path_matches-prefix_example : (path_matches (codes "PathPrefix") (codes "/v1/") orders ≡ true) ↔ (
    ((codes "/v1/" ≡ codes "/") × ((rest : Text) × (orders ≡ slash ∷ rest)))
    ⊎ ((codes "/v1/" ≢ codes "/") × Under (rstrip_slashes (codes "/v1/")) orders))
path_matches-prefix_example = path_matches-prefix (codes "/v1/") orders

templated : has_char b'{' (codes "/v1/{id}") ≡ true
unfolding has_char codes
templated = refl

path_matches-template_example :
    (path_matches (codes "Exact") (codes "/v1/{id}") orders ≡ true)
    ↔ Fits (split slash (strip_slashes (codes "/v1/{id}"))) (split slash (strip_slashes orders))
path_matches-template_example = path_matches-template (codes "/v1/{id}") orders templated
