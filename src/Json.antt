-- ===== src/Json.antt =====
-- JSON values, as `json.loads` returns them and `json.dumps` takes them. A dictionary is its entries
-- in order. A float stays a literal: the SDK computes with none.
use trustplane_auth_sdk_pyth.Base.{◌<◌, ◌^◌, ◌≡◌, All, Bool, true, false, [], Text, if◌then◌else◌}
use trustplane_auth_sdk_pyth.Base.Int.{ℤ, pos, negsuc}
use trustplane_auth_sdk_pyth.Text.{text_eq, strip}
use trustplane_auth_sdk_pyth.Text.Utf8.{IsScalar}

mutual
  pub data Json : Type 0 where
    null : Json
    bool : Bool → Json
    int : ℤ → Json
    float : Text → Json
    str : Text → Json
    list : Items → Json
    dict : Fields → Json

  pub data Items : Type 0 where
    nil : Items
    cons : Json → Items → Items

  pub data Fields : Type 0 where
    end : Fields
    field : Text → Json → Fields → Fields

-- `d.get(key)`: a missing key is `None`.
unfoldable pub get : Text → Fields → Json
unfolding text_eq
get key end = null
get key (field k v rest) = let later = get key rest in if text_eq k key then v else later

-- `d[key] = value`: a key that is there keeps its place.
unfoldable pub put : Text → Json → Fields → Fields
unfolding text_eq
put key value end = field key value end
put key value (field k v rest) =
    let later = put key value rest in if text_eq k key then field k value rest else field k v later

-- `value.strip() if isinstance(value, str) else ""`, the `_text` of profile.py and broker.py.
unfoldable pub text_of : Json → Text
text_of (str s) = strip s
text_of _ = []

-- Whether a dictionary has an entry for the key.
abbrev pub has_field : Text → Fields → Bool
has_field key end = false
has_field key (field k v rest) = if text_eq k key then true else has_field key rest

-- A value that the codec carries exactly: texts of Unicode scalar values, integers of 64 bits, keys
-- that occur once, and no floats.
unfoldable mutual
  pub IsExact : Json → Type 0
  IsExact null = Unit
  IsExact (bool b) = Unit
  IsExact (int (pos n)) = n < 2 ^ 63
  IsExact (int (negsuc n)) = n < 2 ^ 63
  IsExact (float literal) = ⊥
  IsExact (str s) = All IsScalar s
  IsExact (list items) = AreExact items
  IsExact (dict fields) = HoldsExact fields

  pub AreExact : Items → Type 0
  AreExact nil = Unit
  AreExact (cons v rest) = IsExact v × AreExact rest

  pub HoldsExact : Fields → Type 0
  HoldsExact end = Unit
  HoldsExact (field k v rest) =
      All IsScalar k × IsExact v × (has_field k rest ≡ false) × HoldsExact rest
