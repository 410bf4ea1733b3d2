-- ===== src/Query/Normal.antt =====
-- What the normalised query is: the parts' pairs in order, and when it is refused.
use trustplane_auth_sdk_pyth.Base.{
  ℕ, ◌+◌, ◌<◌, ◌≡◌, ◌≢◌, refl, sym, ◌∙◌, ap, ap₂, Bool, true, false, not, ◌&&◌, List, [], ◌∷◌, ◌++◌,
  map, arith, Text, All, all, Bool-cases, inl, inr, if◌then◌else◌, ok, err, ◌>>=◌,
}
use trustplane_auth_sdk_pyth.Base.Order.{insert, sort, All-sort}
use trustplane_auth_sdk_pyth.Text.{codes, text_eq_iff, split, partition, join}
use trustplane_auth_sdk_pyth.Text.Compare.{text_le_refl, pair_le}
use trustplane_auth_sdk_pyth.Query.Percent.{
  is_encodable, surrogates, percent_encoded, encode_rfc3986, is_hex, well_escaped, unquote,
  strict_unquote,
}
use trustplane_auth_sdk_pyth.Query.Escapes.{well_escaped-split, well_escaped-partition}
use trustplane_auth_sdk_pyth.Query.Encodable.{
  unquote-encodable, encodable-split, encodable-partition,
}
use trustplane_auth_sdk_pyth.Query.{
  Pair, normal_pair, normal_pairs_from, triple_le, pair_line, triple_line, normalize_query_rfc3986,
}

abbrev pub refusal : Text
refusal = codes "invalid_query_percent_encoding"

-- A part that is well escaped and holds no surrogate.
unfoldable pub accepted : Text → Bool
accepted part = well_escaped part && all is_encodable part

-- Why a part is refused: the key is decoded and encoded before the value is looked at.
unfoldable pub part_refusal : Text → Text
part_refusal part =
    let (key, value) = partition b'=' part in
    if well_escaped key && not (all is_encodable key && not (well_escaped value))
    then surrogates
    else refusal

-- The error of the first part that is not accepted.
unfoldable pub first_refusal : List Text → Text
unfolding accepted part_refusal
first_refusal [] = []
first_refusal (part ∷ parts) =
    let rest = first_refusal parts in if accepted part then rest else part_refusal part

-- The pair that an accepted part stands for.
abbrev pub pair_of : Text → Text × Text
pair_of part = (
  percent_encoded (unquote (partition b'=' part).0),
  percent_encoded (unquote (partition b'=' part).1),
)

-- The specification: no positions, no loop.
unfoldable pub normal_form : List Text → Text
normal_form parts = join (b'&' ∷ []) (map pair_line (sort pair_le (map pair_of parts)))

pub equals_plain : is_hex b'=' ≡ false
unfolding is_hex
equals_plain = refl

pub ampersand_plain : is_hex b'&' ≡ false
unfolding is_hex
ampersand_plain = refl

equals_encodable : is_encodable b'=' ≡ true
unfolding is_encodable
equals_encodable = refl

ampersand_encodable : is_encodable b'&' ≡ true
unfolding is_encodable
ampersand_encodable = refl

accepted-partition :
    (part : Text)
    → accepted part ≡ (
        well_escaped (partition b'=' part).0
        && well_escaped (partition b'=' part).1
        && (all is_encodable (partition b'=' part).0 && all is_encodable (partition b'=' part).1))
unfolding accepted
accepted-partition part =
    ap₂ (λ a b. a && b) (well_escaped-partition b'=' equals_plain (omega arith) part)
      (encodable-partition b'=' equals_encodable part)

encode-unquote :
    (s : Text)
    → encode_rfc3986 (unquote s)
      ≡ (if all is_encodable s then ok (percent_encoded (unquote s)) else err surrogates)
unfolding encode_rfc3986
encode-unquote s = rw (unquote-encodable s) refl

normal_pair_lem :
    (part : Text)
    → normal_pair part ≡ (if accepted part then ok (pair_of part) else err (part_refusal part))
unfolding normal_pair strict_unquote part_refusal
normal_pair_lem part =
    let key = (partition b'=' part).0 in
    let value = (partition b'=' part).1 in
    rw (accepted-partition part) (elim (Bool-cases (well_escaped key)) [
      | inr e ↦ rw e refl
      | inl u ↦ elim (Bool-cases (all is_encodable key)) [
        | inr e ↦
            rw (u, encode-unquote key, e)
              (elim (Bool-cases (well_escaped value)) [ inl v ↦ rw v refl | inr f ↦ rw f refl ])
        | inl k ↦
            rw (u, encode-unquote key, k)
              (elim (Bool-cases (well_escaped value)) [
                | inr f ↦ rw f refl
                | inl v ↦
                    rw (v, encode-unquote value)
                      (elim (Bool-cases (all is_encodable value)) [
                        | inl w ↦ rw w refl
                        | inr g ↦ rw g refl
                      ])
              ])
      ]
    ])

all_accepted-and :
    (parts : List Text)
    → all accepted parts ≡ (all well_escaped parts && all (all is_encodable) parts)
unfolding accepted
all_accepted-and [] = refl
all_accepted-and (part ∷ parts) = rw (all_accepted-and parts) (ground arith)

pub all_accepted-split :
    (s : Text) → all accepted (split b'&' s) ≡ (well_escaped s && all is_encodable s)
all_accepted-split s =
    all_accepted-and (split b'&' s)
    ∙ ap₂ (λ a b. a && b) (sym (well_escaped-split b'&' ampersand_plain (omega arith) s))
        (sym (encodable-split b'&' ampersand_encodable s))

-- Pairs with the positions from `i` on.
abbrev numbered : ℕ → List (Text × Text) → List Pair
numbered i [] = []
numbered i ((k, v) ∷ ps) = (k, v, i) ∷ numbered (i + 1) ps

normal_pairs_from_lem :
    (i : ℕ) (parts : List Text)
    → normal_pairs_from i parts ≡ (
        if all accepted parts
        then ok (numbered i (map pair_of parts))
        else err (first_refusal parts))
unfolding normal_pairs_from first_refusal
normal_pairs_from_lem i [] = refl
normal_pairs_from_lem i (part ∷ parts) =
    rw (normal_pair_lem part, normal_pairs_from_lem (i + 1) parts) (ground arith)

abbrev forget : Pair → Text × Text
forget (k, v, i) = (k, v)

triple_le-pair_le :
    (k v l w : Text) (i j : ℕ) → i < j → triple_le (k, v, i) (l, w, j) ≡ pair_le (k, v) (l, w)
unfolding triple_le pair_le
triple_le-pair_le k v l w i j h = ground (arith, text_eq_iff v w, text_le_refl v)

-- An entry that comes before the others in the query goes before its equals.
forget-insert :
    (k v : Text) (i : ℕ) (ts : List Pair)
    → All (λ t. i < t.2) ts
    → map forget (insert triple_le (k, v, i) ts) ≡ insert pair_le (k, v) (map forget ts)
unfolding insert
forget-insert k v i [] h = refl
forget-insert k v i ((l, w, j) ∷ ts) (p, h) =
    rw (triple_le-pair_le k v l w i j p) (ground (arith, forget-insert k v i ts h))

numbered-lt : (i j : ℕ) (ps : List (Text × Text)) → i < j → All (λ t. i < t.2) (numbered j ps)
numbered-lt i j [] h = tt
numbered-lt i j ((k, v) ∷ ps) h = (h, numbered-lt i (j + 1) ps (omega arith))

forget-sort :
    (i : ℕ) (ps : List (Text × Text))
    → map forget (sort triple_le (numbered i ps)) ≡ sort pair_le ps
unfolding sort
forget-sort i [] = refl
forget-sort i ((k, v) ∷ ps) =
    forget-insert k v i _ (All-sort triple_le _ _ (numbered-lt i (i + 1) ps (omega arith)))
    ∙ ap (insert pair_le (k, v)) (forget-sort (i + 1) ps)

map-triple_line : (ts : List Pair) → map triple_line ts ≡ map pair_line (map forget ts)
map-triple_line [] = refl
map-triple_line ((k, v, i) ∷ ts) = ap (λ (r : List Text). (k ++ b'=' ∷ v) ∷ r) (map-triple_line ts)

pub joined_lem :
    (parts : List Text)
    → (normal_pairs_from 0 parts >>= λ pairs.
        ok (join (b'&' ∷ []) (map triple_line (sort triple_le pairs))))
      ≡ (if all accepted parts then ok (normal_form parts) else err (first_refusal parts))
unfolding normal_form
joined_lem parts = elim (Bool-cases (all accepted parts)) [
  | inl e ↦
      rw (normal_pairs_from_lem 0 parts, e)
        (ap (λ t. ok (join (b'&' ∷ []) t))
          (map-triple_line _ ∙ ap (map pair_line) (forget-sort 0 (map pair_of parts))))
  | inr e ↦ rw (normal_pairs_from_lem 0 parts, e)
]

-- The result by the parts, accepted or not.
pub normalize_by_parts :
    (raw : Text)
    → raw ≢ []
    → normalize_query_rfc3986 raw ≡ (
        if all accepted (split b'&' raw)
        then ok (normal_form (split b'&' raw))
        else err (first_refusal (split b'&' raw)))
unfolding normalize_query_rfc3986
normalize_by_parts [] h = absurd (h refl)
normalize_by_parts (c ∷ s) h = joined_lem (split b'&' (c ∷ s))

-- A query that is not empty is refused exactly if some `%` is not followed by two hex digits or
-- it holds a surrogate, with the error of the first part that is refused, and else its pairs
-- stand in order, whatever positions they had.
pub normalize_query_rfc3986_lem :
    (raw : Text)
    → raw ≢ []
    → normalize_query_rfc3986 raw ≡ (
        if well_escaped raw && all is_encodable raw
        then ok (normal_form (split b'&' raw))
        else err (first_refusal (split b'&' raw)))
normalize_query_rfc3986_lem raw h = rw (← all_accepted-split raw) (normalize_by_parts raw h)
