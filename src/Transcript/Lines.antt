-- ===== src/Transcript/Lines.antt =====
-- The canonical text of a transcript determines the transcript, as long as no field holds a line
-- break; and the texts that collide where one does.
use mathlib.Core.List.{tail}
use trustplane_auth_sdk_pyth.Base.{
  ℕ, zero, suc, ◌≡◌, ◌≢◌, ◌<◌, refl, sym, ap, ◌∙◌, List, [], ◌∷◌, ◌++◌, map, arith, Text, All,
  All-append, All-imp, append_assoc,
}
use trustplane_auth_sdk_pyth.Base.Int.{ℤ, pos, negsuc}
use trustplane_auth_sdk_pyth.Text.{
  codes, join, split, split-join, partition, partition-append, append-cancel_left, Lacks, decimal,
  decimal-injective, All-decimal,
}
use trustplane_auth_sdk_pyth.Transcript.Data.{
  TranscriptV1, SelectedHeader, transcript_v1_covered_fields,
}
use trustplane_auth_sdk_pyth.Transcript.Build.{
  canonical_lines, canonical_text, selected_header_line, selected_entry, int_text,
}

-- A header name that the two comma lists keep apart.
abbrev pub IsHeaderName : Text → Type 0
IsHeaderName name = (name ≢ []) × Lacks b',' name × Lacks b':' name

abbrev pub IsCleanHeader : SelectedHeader → Type 0
IsCleanHeader h = IsHeaderName h.name × Lacks b',' h.value_sha256

pub record IsClean (t : TranscriptV1) : Type 0 where
  pub lines : All (Lacks b'\n') (canonical_lines t)
  pub names : All IsHeaderName t.headers.allow_list
  pub selected : All IsCleanHeader t.headers.selected
  pub covered : t.covered_fields ≡ transcript_v1_covered_fields

decimal-first : (n : ℕ) (s : Text) → decimal n ≢ b'-' ∷ s
decimal-first n s e = absurd (omega (arith, (subst_All e (All-decimal n)).0))
  where
    subst_All :
        decimal n ≡ b'-' ∷ s
        → All (λ d. (47 < d) × (d < 58)) (decimal n)
        → All (λ d. (47 < d) × (d < 58)) (b'-' ∷ s)
    subst_All e h = rw e at h

pub int_text-injective : (a b : ℤ) → int_text a ≡ int_text b → a ≡ b
unfolding int_text
int_text-injective (pos m) (pos n) e = ap pos (decimal-injective m n e)
int_text-injective (pos m) (negsuc n) e = absurd (decimal-first m _ e)
int_text-injective (negsuc m) (pos n) e = absurd (decimal-first n _ (sym e))
int_text-injective (negsuc m) (negsuc n) e =
    let e' : suc m ≡ suc n =
      decimal-injective (suc m) (suc n) (append-cancel_left (b'-' ∷ []) _ _ e) in
    ap negsuc (omega arith)

join-nonempty :
    (sep : ℕ) (y : Text) (ys : List Text) → y ≢ [] → join (sep ∷ []) (y ∷ ys) ≢ join (sep ∷ []) []
unfolding join
join-nonempty sep [] ys p e = absurd (p refl)
join-nonempty sep (c ∷ y) ys p e = cc

-- A join of parts that are not empty and hold no separator determines the parts.
pub join-injective :
    (sep : ℕ) (xs ys : List Text)
    → All (λ x. (x ≢ []) × Lacks sep x) xs
    → All (λ x. (x ≢ []) × Lacks sep x) ys
    → join (sep ∷ []) xs ≡ join (sep ∷ []) ys
    → xs ≡ ys
join-injective sep [] [] h k e = refl
join-injective sep [] (y ∷ ys) h k e = absurd (join-nonempty sep y ys k.0.0 (sym e))
join-injective sep (x ∷ xs) [] h k e = absurd (join-nonempty sep x xs h.0.0 e)
join-injective sep (x ∷ xs) (y ∷ ys) h k e =
    sym (split-join sep x xs (Lacks_of (x ∷ xs) h))
    ∙ ap (split sep) e
    ∙ split-join sep y ys (Lacks_of (y ∷ ys) k)
  where
    Lacks_of : (zs : List Text) → All (λ x. (x ≢ []) × Lacks sep x) zs → All (Lacks sep) zs
    Lacks_of [] h = tt
    Lacks_of (z ∷ zs) ((p, q), h) = (q, Lacks_of zs h)

abbrev line_at : ℕ → List Text → Text
line_at n [] = []
line_at zero (l ∷ ls) = l
line_at (suc n) (l ∷ ls) = line_at n ls

-- The entry of a selected header is read back.
selected_entry-injective :
    (h k : SelectedHeader)
    → IsCleanHeader h
    → IsCleanHeader k
    → selected_entry h ≡ selected_entry k
    → h ≡ k
selected_entry-injective h k (a, _) (b, _) e =
    let parts =
      sym (partition-append b':' h.name h.value_sha256 a.2)
      ∙ ap (partition b':') e
      ∙ partition-append b':' k.name k.value_sha256 b.2 in
    λ i. record { name = (parts i).0; value_sha256 = (parts i).1 }

map-selected_entry-injective :
    (hs ks : List SelectedHeader)
    → All IsCleanHeader hs
    → All IsCleanHeader ks
    → map selected_entry hs ≡ map selected_entry ks
    → hs ≡ ks
map-selected_entry-injective [] [] p q e = refl
map-selected_entry-injective [] (k ∷ ks) p q e = cc
map-selected_entry-injective (h ∷ hs) [] p q e = cc
map-selected_entry-injective (h ∷ hs) (k ∷ ks) (p, ps) (q, qs) e = cc (
  selected_entry-injective h k p q (ap (line_at 0) e),
  map-selected_entry-injective hs ks ps qs (ap tail e),
)

entries-IsClean :
    (hs : List SelectedHeader)
    → All IsCleanHeader hs
    → All (λ x. (x ≢ []) × Lacks b',' x) (map selected_entry hs)
entries-IsClean [] p = tt
entries-IsClean (h ∷ hs) ((n, d), p) = (
  (entry-ne-nil h.name h.value_sha256, All-append _ h.name _ n.1 (omega arith, d)),
  entries-IsClean hs p,
)
  where
    entry-ne-nil : (n d : Text) → n ++ b':' ∷ d ≢ []
    entry-ne-nil [] d e = cc
    entry-ne-nil (c ∷ n) d e = cc

selected_header_line-injective :
    (hs ks : List SelectedHeader)
    → All IsCleanHeader hs
    → All IsCleanHeader ks
    → selected_header_line hs ≡ selected_header_line ks
    → hs ≡ ks
unfolding selected_header_line
selected_header_line-injective hs ks p q e =
    map-selected_entry-injective hs ks p q
      (join-injective b',' _ _ (entries-IsClean hs p) (entries-IsClean ks q) e)

allow_list-injective :
    (xs ys : List Text)
    → All IsHeaderName xs
    → All IsHeaderName ys
    → join (b',' ∷ []) xs ≡ join (b',' ∷ []) ys
    → xs ≡ ys
allow_list-injective xs ys p q =
    join-injective b',' xs ys (All-imp (λ x n. (n.0, n.1)) xs p) (All-imp (λ x n. (n.0, n.1)) ys q)

-- Transcripts with the same lines are the same.
canonical_lines-injective :
    (t u : TranscriptV1) → IsClean t → IsClean u → canonical_lines t ≡ canonical_lines u → t ≡ u
unfolding canonical_lines
canonical_lines-injective t u c d e = λ i. record {
  method = field (codes "method=") 1 refl refl i;
  scheme = field (codes "scheme=") 2 refl refl i;
  authority = field (codes "authority=") 3 refl refl i;
  path = field (codes "path=") 4 refl refl i;
  audience = field (codes "audience=") 5 refl refl i;
  route_id = field (codes "route_id=") 6 refl refl i;
  content_encoding = field (codes "content_encoding=") 7 refl refl i;
  query_normalization = record {
    algorithm = field (codes "query_normalization.algorithm=") 8 refl refl i;
    normalized = field (codes "query_normalization.normalized=") 9 refl refl i;
    sha256 = field (codes "query_normalization.sha256=") 10 refl refl i;
  };
  query_sha256 = field (codes "query_sha256=") 11 refl refl i;
  headers = record {
    allow_list =
        allow_list-injective _ _ c.names d.names (field (codes "headers.allow_list=") 12 refl refl)
          i;
    selected =
        selected_header_line-injective _ _ c.selected d.selected
          (field (codes "headers.selected=") 13 refl refl) i;
  };
  body_sha256 = field (codes "body_sha256=") 14 refl refl i;
  passport_jti = field (codes "passport_jti=") 15 refl refl i;
  nonce = field (codes "nonce=") 16 refl refl i;
  issued_at =
      int_text-injective t.issued_at u.issued_at (field (codes "issued_at=") 17 refl refl) i;
  time_bucket =
      int_text-injective t.time_bucket u.time_bucket (field (codes "time_bucket=") 18 refl refl) i;
  key_binding = field (codes "key_binding=") 19 refl refl i;
  covered_fields = (c.covered ∙ sym d.covered) i;
}
  where
    field :
        (label : Text) (n : ℕ) {a b : Text}
        → line_at n (canonical_lines t) ≡ label ++ a
        → line_at n (canonical_lines u) ≡ label ++ b
        → a ≡ b
    field label n {a} {b} p q = append-cancel_left label a b (sym p ∙ ap (line_at n) e ∙ q)

lines_back : (t : TranscriptV1) → IsClean t → split b'\n' (canonical_text t) ≡ canonical_lines t
unfolding canonical_lines
lines_back t c = split-join b'\n' _ _ c.lines

-- Transcripts whose fields hold no line break, and whose header names hold no comma or colon,
-- have the same canonical text only if they are the same.
pub canonical_text-injective :
    (t u : TranscriptV1) → IsClean t → IsClean u → canonical_text t ≡ canonical_text u → t ≡ u
canonical_text-injective t u c d e =
    canonical_lines-injective t u c d (sym (lines_back t c) ∙ ap (split b'\n') e ∙ lines_back u d)

-- A line break inside a field moves the border between two fields: two transcripts that differ
-- in their path and their audience have one canonical text.
pub canonical_text-collision :
    (t : TranscriptV1) (p a b : Text)
    → canonical_text (record t { path = p ++ codes "\naudience=" ++ a; audience = b })
      ≡ canonical_text (record t { path = p; audience = a ++ codes "\naudience=" ++ b })
unfolding canonical_lines join codes
canonical_text-collision t p a b = simp append_assoc
