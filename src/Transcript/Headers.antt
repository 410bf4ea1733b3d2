-- ===== src/Transcript/Headers.antt =====
-- src/trustplane_auth/transcript.py: the canonical allow list, and the headers that it selects.
use trustplane_auth_sdk_pyth.Base.{
  Bool, false, ◌||◌, Option, none, some, List, [], ◌∷◌, ◌++◌, Text, if◌then◌else◌,
}
use trustplane_auth_sdk_pyth.Base.Order.{sort}
use trustplane_auth_sdk_pyth.Text.{codes, text_eq, is_empty, mem_text, strip}
use trustplane_auth_sdk_pyth.Text.Compare.{text_le}
use trustplane_auth_sdk_pyth.Text.Utf8.{encode}
use trustplane_auth_sdk_pyth.Platform.{Platform}
use trustplane_auth_sdk_pyth.Transcript.Data.{
  HeaderItem, header, mapping, pair, SelectedHeader, Body, body_bytes,
}

-- `d.get(key)` of a dictionary, kept as its entries from the first to the last.
unfoldable pub lookup {ℓ} : {V : Type ℓ} → Text → List (Text × V) → Option V
lookup key [] = none
lookup key ((k, v) ∷ entries) = if text_eq k key then some v else lookup key entries

-- `key in d`.
unfoldable pub has_key {ℓ} : {V : Type ℓ} → Text → List (Text × V) → Bool
has_key key [] = false
has_key key ((k, v) ∷ entries) = text_eq k key || has_key key entries

-- `d.get(key, default)`.
unfoldable pub get_or : Text → Text → List (Text × Text) → Text
unfolding lookup
get_or key default entries = elim (lookup key entries) [ none ↦ default | some v ↦ v ]

-- `_coerce_header`.
unfoldable pub coerce_header : HeaderItem → Text × Text
unfolding get_or codes
coerce_header (header name value) = (name, value)
coerce_header (mapping entries) = (
  get_or (codes "name") (get_or (codes "Name") [] entries) entries,
  get_or (codes "value") (get_or (codes "Value") [] entries) entries,
)
coerce_header (pair name value) = (name, value)

module _ ⦃p : Platform⦄ where
  open p use {sha256_hex, lower, upper}

  -- `_sha256_hex`.
  unfoldable pub sha256_text : Text → Text
  sha256_text value = sha256_hex (encode value)

  -- `body_sha256`.
  unfoldable pub body_sha256 : Body → Text
  unfolding body_bytes
  body_sha256 body = sha256_hex (body_bytes body)

  unfoldable pub canonical_name : Text → Text
  canonical_name raw_name = lower (strip raw_name)

  -- The loop of `_canonical_allow_list`: the names that are new, in order.
  unfoldable pub new_names : List Text → List Text → List Text
  unfolding canonical_name
  new_names seen [] = []
  new_names seen (raw_name ∷ allow_list) =
      let name = canonical_name raw_name in
      let rest = new_names (name ∷ seen) allow_list in
      let skipped = new_names seen allow_list in
      if is_empty name || mem_text name seen then skipped else name ∷ rest

  -- `_canonical_allow_list`.
  unfoldable pub canonical_allow_list : List Text → List Text
  unfolding new_names
  canonical_allow_list allow_list = sort text_le (new_names [] allow_list)

  -- One round of the first loop of `_select_headers`: the first value of a name stays.
  unfoldable pub add_header : List (Text × Text) → Text × Text → List (Text × Text)
  unfolding canonical_name has_key
  add_header raw_by_name (raw_name, value) =
      let name = canonical_name raw_name in
      if is_empty name || has_key name raw_by_name
      then raw_by_name
      else raw_by_name ++ (name, strip value) ∷ []

  unfoldable pub collect_headers : List (Text × Text) → List HeaderItem → List (Text × Text)
  unfolding add_header coerce_header
  collect_headers raw_by_name [] = raw_by_name
  collect_headers raw_by_name (item ∷ items) =
      collect_headers (add_header raw_by_name (coerce_header item)) items

  -- The second loop: a name of the allow list that no header has is passed over.
  unfoldable pub select_from : List (Text × Text) → List Text → List SelectedHeader
  unfolding lookup sha256_text
  select_from raw_by_name [] = []
  select_from raw_by_name (allowed ∷ allow_list) =
      let rest = select_from raw_by_name allow_list in
      elim (lookup allowed raw_by_name) [
        | none ↦ rest
        | some value ↦ record { name = allowed; value_sha256 = sha256_text value } ∷ rest
      ]

  -- `_select_headers`.
  unfoldable pub select_headers : List HeaderItem → List Text → List SelectedHeader
  unfolding collect_headers select_from
  select_headers headers allow_list = select_from (collect_headers [] headers) allow_list
