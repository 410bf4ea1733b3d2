-- ===== src/Transcript/Select.antt =====
-- The headers that a transcript covers: for each name of the allow list the first header of that
-- name, by the digest of its value.
use mathlib.Core.Path.{subst}
use trustplane_auth_sdk_pyth.Base.{
  ◌≤◌, ◌≡◌, ◌≢◌, refl, sym, ap, ◌∙◌, Bool, true, false, ◌||◌, Option, none, some, List, [], ◌∷◌,
  ◌++◌, arith, Text, All, All-imp, length, Bool-cases, Option-cases, inl, inr, if◌then◌else◌,
}
use trustplane_auth_sdk_pyth.Text.{text_eq, text_eq_iff, is_empty, strip}
use trustplane_auth_sdk_pyth.Platform.{Platform}
use trustplane_auth_sdk_pyth.Transcript.Data.{HeaderItem, SelectedHeader}
use trustplane_auth_sdk_pyth.Transcript.Headers.{
  lookup, has_key, coerce_header, sha256_text, canonical_name, add_header, collect_headers,
  select_from, select_headers,
}

module _ ⦃p : Platform⦄ where
  -- The value of the first header of a name, as the specification reads it.
  unfoldable pub first_value : Text → List HeaderItem → Option Text
  first_value name [] = none
  first_value name (item ∷ items) =
      let (raw_name, value) = coerce_header item in
      if text_eq (canonical_name raw_name) name then some (strip value) else first_value name items

  -- Each allowed name with the digest of its first header, and nothing else.
  abbrev pub Covers : List HeaderItem → List Text → List SelectedHeader → Type 0
  Covers items [] [] = Unit
  Covers items [] (h ∷ hs) = ⊥
  Covers items (n ∷ ns) [] = ⊥
  Covers items (n ∷ ns) (h ∷ hs) =
      ((v : Text) × (first_value n items ≡ some v)
        × (h ≡ record { name = n; value_sha256 = sha256_text v }))
      × Covers items ns hs

abbrev first_of_two : Option Text → Option Text → Option Text
first_of_two none b = b
first_of_two (some v) b = some v

lookup-snoc :
    (n k v : Text) (entries : List (Text × Text))
    → lookup n (entries ++ (k, v) ∷ [])
      ≡ first_of_two (lookup n entries) (if text_eq k n then some v else none)
unfolding lookup
lookup-snoc n k v [] = ground arith
lookup-snoc n k v ((j, w) ∷ entries) = ground (arith, lookup-snoc n k v entries)

has_key-eq-false :
    (n : Text) (entries : List (Text × Text)) → has_key n entries ≡ false → lookup n entries ≡ none
unfolding has_key lookup
has_key-eq-false n [] h = refl
has_key-eq-false n ((k, v) ∷ entries) h = ground (arith, has_key-eq-false n entries)

has_key-eq-true :
    (n : Text) (entries : List (Text × Text))
    → has_key n entries ≡ true
    → (v : Text) × (lookup n entries ≡ some v)
unfolding has_key lookup
has_key-eq-true n [] h = cc
has_key-eq-true n ((k, v) ∷ entries) h = elim (Bool-cases (text_eq k n)) [
  | inl same ↦ (v, rw same)
  | inr other ↦ let (w, found) = has_key-eq-true n entries (rw other at h) in (w, rw other found)
]

is_empty-eq-true : (s : Text) → is_empty s ≡ true → s ≡ []
is_empty-eq-true [] h = refl
is_empty-eq-true (c ∷ s) h = cc

-- What an insertion that keeps the first value does to a lookup.
lookup-keep_first :
    (n m w : Text) (entries : List (Text × Text))
    → n ≢ []
    → lookup n (if is_empty m || has_key m entries then entries else entries ++ (m, w) ∷ [])
      ≡ first_of_two (lookup n entries) (if text_eq m n then some w else none)
lookup-keep_first n m w entries h = elim (Bool-cases (is_empty m)) [
  | inl blank ↦ ground (arith, is_empty-eq-true m blank, text_eq_iff m n)
  | inr named ↦ elim (Bool-cases (has_key m entries)) [
    | inl old ↦
        let (v, found) = has_key-eq-true m entries old in ground (arith, found, text_eq_iff m n)
    | inr new ↦ rw (named, new) (lookup-snoc n m w entries)
  ]
]

first_of_two_assoc :
    (a : Option Text) (b : Bool) (v : Text) (c : Option Text)
    → first_of_two (first_of_two a (if b then some v else none)) c
      ≡ first_of_two a (if b then some v else c)
first_of_two_assoc a b v c = ground arith

module _ ⦃p : Platform⦄ where
  lookup-add_header :
      (n raw_name value : Text) (entries : List (Text × Text))
      → n ≢ []
      → lookup n (add_header entries (raw_name, value))
        ≡ first_of_two
            (lookup n entries)
            (if text_eq (canonical_name raw_name) n then some (strip value) else none)
  unfolding add_header
  lookup-add_header n raw_name value entries h =
      lookup-keep_first n (canonical_name raw_name) (strip value) entries h

  lookup-collect_headers :
      (n : Text) (entries : List (Text × Text)) (items : List HeaderItem)
      → n ≢ []
      → lookup n (collect_headers entries items)
        ≡ first_of_two (lookup n entries) (first_value n items)
  unfolding collect_headers first_value
  lookup-collect_headers n entries [] h = ground arith
  lookup-collect_headers n entries (item ∷ items) h =
      let (raw_name, value) = coerce_header item in
      lookup-collect_headers n (add_header entries (coerce_header item)) items h
      ∙ ap (λ a. first_of_two a (first_value n items))
          (lookup-add_header n raw_name value entries h)
      ∙ first_of_two_assoc (lookup n entries) (text_eq (canonical_name raw_name) n) (strip value)
          (first_value n items)

  length-select_from :
      (entries : List (Text × Text)) (ns : List Text) → length (select_from entries ns) ≤ length ns
  unfolding select_from
  length-select_from entries [] = omega arith
  length-select_from entries (n ∷ ns) = ground (arith, length-select_from entries ns)

  Covers-select_from :
      (entries : List (Text × Text)) (items : List HeaderItem) (ns : List Text)
      → All (λ n. lookup n entries ≡ first_value n items) ns
      → length ns ≡ length (select_from entries ns)
      → Covers items ns (select_from entries ns)
  unfolding select_from
  Covers-select_from entries items [] h e = tt
  Covers-select_from entries items (n ∷ ns) (q, h) e = elim (Option-cases (lookup n entries)) [
    | inl missing ↦ absurd (ground (arith, length-select_from entries ns))
    | inr (v, found) ↦
        let stepped : select_from entries (n ∷ ns)
            ≡ record { name = n; value_sha256 = sha256_text v } ∷ select_from entries ns =
          ground arith in
        subst (Covers items (n ∷ ns)) (sym stepped)
          ((v, sym q ∙ found, refl), Covers-select_from entries items ns h (ground arith))
  ]

  -- If as many headers are selected as names are allowed, and no allowed name is empty, each
  -- allowed name is covered by the digest of its first header.
  pub select_headers-Covers :
      (items : List HeaderItem) (ns : List Text)
      → All (λ n. n ≢ []) ns
      → length ns ≡ length (select_headers items ns)
      → Covers items ns (select_headers items ns)
  unfolding select_headers
  select_headers-Covers items ns h e =
      Covers-select_from (collect_headers [] items) items ns
        (All-imp (λ n k. lookup-collect_headers n [] items k) ns h) e
