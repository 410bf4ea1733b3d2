-- ===== src/Query.antt =====
-- src/trustplane_auth/transcript.py: the query string of a transcript, percent-decoded, encoded
-- again by RFC 3986, and sorted by key, value and position.
pub mod Percent
pub mod Escapes
pub mod RoundTrip
pub mod Encodable
pub mod Normal
pub mod Order
pub mod Idempotent
use trustplane_auth_sdk_pyth.Base.{
  ℕ, suc, ◌+◌, Bool, true, List, [], ◌∷◌, ◌++◌, map, Text, Result, ok, err, ◌>>=◌, leb, ◌==◌,
  if◌then◌else◌,
}
use trustplane_auth_sdk_pyth.Base.Order.{sort}
use trustplane_auth_sdk_pyth.Text.{codes, text_eq, is_empty, lstrip_by, split, partition, join}
use trustplane_auth_sdk_pyth.Text.Compare.{text_le}
use trustplane_auth_sdk_pyth.Query.Percent.{encode_rfc3986, strict_unquote}

-- `(key, value, index)`.
abbrev pub Pair : Type 0
Pair = Text × Text × ℕ

-- One round of the loop: the key and the value of a part, encoded again.
unfoldable pub normal_pair : Text → Result Text (Text × Text)
normal_pair part = do
  key ← strict_unquote (partition b'=' part).0
  key ← encode_rfc3986 key
  value ← strict_unquote (partition b'=' part).1
  value ← encode_rfc3986 value
  ok (key, value)

-- The loop over the parts, from the position of the first.
unfoldable pub normal_pairs_from : ℕ → List Text → Result Text (List Pair)
unfolding normal_pair
normal_pairs_from index [] = ok []
normal_pairs_from index (part ∷ parts) = do
  (key, value) ← normal_pair part
  pairs ← normal_pairs_from (index + 1) parts
  ok ((key, value, index) ∷ pairs)

-- `pair <= other` by the sort's key, which is the whole triple.
unfoldable pub triple_le : Pair → Pair → Bool
unfolding text_eq text_le
triple_le (k, v, i) (l, w, j) =
    if text_eq k l then if text_eq v w then leb i j else text_le v w else text_le k l

-- `f"{key}={value}"`.
abbrev pub pair_line : Text × Text → Text
pair_line (key, value) = key ++ b'=' ∷ value

abbrev pub triple_line : Pair → Text
triple_line (key, value, index) = key ++ b'=' ∷ value

-- `_normalize_query_rfc3986_sort_keys_values`.
unfoldable pub normalize_query_rfc3986 : Text → Result Text Text
unfolding normal_pairs_from triple_le split join
normalize_query_rfc3986 raw = if is_empty raw then ok [] else do
  pairs ← normal_pairs_from 0 (split b'&' raw)
  ok (join (b'&' ∷ []) (map triple_line (sort triple_le pairs)))

-- The public function, which drops every leading `?` first.
unfoldable pub normalize_query_rfc3986_sort_keys_values : Text → Result Text Text
unfolding normalize_query_rfc3986 lstrip_by
normalize_query_rfc3986_sort_keys_values raw =
    normalize_query_rfc3986 (lstrip_by (λ c. c == b'?') raw)
