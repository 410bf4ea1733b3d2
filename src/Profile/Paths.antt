-- ===== src/Profile/Paths.antt =====
-- `validate_concrete_request_path` accepts exactly the concrete paths.
use mathlib.Core.Path.{subst}
use trustplane_auth_sdk_pyth.Base.{
  ℕ, ◌≡◌, ◌≢◌, ◌↔◌, ◌⊎◌, refl, Bool, false, not, ◌&&◌, ◌||◌, List, [], ◌∷◌, arith, Text, All,
  All-imp, any, inl, inr, ok, raise_if, raise_if-eq-ok, >>=-eq-ok,
}
use trustplane_auth_sdk_pyth.Text.{
  codes, text_eq, text_eq_iff, split, split-Lacks, has_char, has_char-eq-false, Lacks, All-split,
  All-join, join, join-split, starts_with_char, ends_with_char,
}
use trustplane_auth_sdk_pyth.Profile.Concrete.{
  backslash, IsSafeSegment, IsConcrete, Nonempty, IsSpaced, tail_split_iff, tail_split-slash,
}
use trustplane_auth_sdk_pyth.Profile.{
  slash, has_double_slash, without_slash, is_unsafe_segment, validate_concrete_request_path,
}

abbrev refused : Text
refused = codes "unsafe_request_path"

-- The five tests of the validation, all passed.
pub record Passed (path raw : Text) : Type 0 where
  pub rooted : (not (starts_with_char slash path) || not (starts_with_char slash raw)) ≡ false
  pub closed :
      (not (text_eq path (codes "/")) && (ends_with_char slash path || ends_with_char slash raw))
      ≡ false
  pub plain :
      (has_double_slash path
        || has_double_slash raw
        || has_char backslash path
        || has_char backslash raw
        || has_char b'%' raw)
      ≡ false
  pub segments : any is_unsafe_segment (split slash (without_slash path)) ≡ false
  pub raw_segments : any is_unsafe_segment (split slash (without_slash raw)) ≡ false

pub Passed-of :
    (path raw : Text) → validate_concrete_request_path path raw ≡ ok tt → Passed path raw
unfolding validate_concrete_request_path
Passed-of path raw h =
    let (_, a, h1) = >>=-eq-ok (raise_if _ _) _ h in
    let (_, b, h2) = >>=-eq-ok (raise_if _ _) _ h1 in
    let (_, c, h3) = >>=-eq-ok (raise_if _ _) _ h2 in
    let (_, d, h4) = >>=-eq-ok (raise_if _ _) _ h3 in
    record {
      rooted = raise_if-eq-ok _ _ a;
      closed = raise_if-eq-ok _ _ b;
      plain = raise_if-eq-ok _ _ c;
      segments = raise_if-eq-ok _ _ d;
      raw_segments = raise_if-eq-ok _ _ h4;
    }

ok_of_Passed : (path raw : Text) → Passed path raw → validate_concrete_request_path path raw ≡ ok tt
unfolding validate_concrete_request_path
ok_of_Passed path raw p = rw (p.rooted, p.closed, p.plain, p.segments, p.raw_segments)

any-eq-false : (p : Text → Bool) (xs : List Text) → (any p xs ≡ false) ↔ All (λ x. p x ≡ false) xs
any-eq-false p [] = ground arith
any-eq-false p (x ∷ xs) = ground (arith, any-eq-false p xs)

safe_iff :
    (s : Text)
    → (is_unsafe_segment s ≡ false)
      ↔ ((s ≢ codes ".") × (s ≢ codes "..") × Lacks b'{' s × Lacks b'}' s)
unfolding is_unsafe_segment
safe_iff s = ground (
  arith,
  text_eq_iff s (codes "."),
  text_eq_iff s (codes ".."),
  has_char-eq-false b'{' s,
  has_char-eq-false b'}' s,
)

safe_segments :
    (ps : List Text)
    → Nonempty ps
    → All (λ x. is_unsafe_segment x ≡ false) ps
    → All (Lacks slash) ps
    → All (Lacks backslash) ps
    → All IsSafeSegment ps
unfolding Nonempty
safe_segments [] n u l b = tt
safe_segments (p ∷ ps) (n, ns) (u, us) (l, ls) (b, bs) =
    let (dot, dots, brace, close) = (safe_iff p).0 u in
    ((n, dot, dots, brace, close, l, b), safe_segments ps ns us ls bs)

unsafe_segments : (ps : List Text) → All IsSafeSegment ps → any is_unsafe_segment ps ≡ false
unsafe_segments [] h = refl
unsafe_segments (p ∷ ps) (s, h) = rw ((safe_iff p).1 (s.1, s.2, s.3, s.4)) (unsafe_segments ps h)

Nonempty-of : (ps : List Text) → All IsSafeSegment ps → Nonempty ps
unfolding Nonempty
Nonempty-of ps h = All-imp (λ p s. s.0) ps h

-- The root, or a path of spaced safe segments.
IsSpaced-segments : (s : Text) → IsSpaced (slash ∷ s) ↔ Nonempty (split slash s)
IsSpaced-segments s =
    subst (λ ps. IsSpaced (slash ∷ s) ↔ Nonempty ps) (tail_split-slash slash s refl)
      (tail_split_iff (slash ∷ s) (cc))

rooted-cons : (path raw : Text) → Passed path raw → (s : Text) × (path ≡ slash ∷ s)
unfolding starts_with_char
rooted-cons [] raw p = cc (p.rooted)
rooted-cons (c ∷ s) raw p = (s, ground (arith, p.rooted))

text_eq-root : (c : ℕ) (s : Text) → text_eq (slash ∷ c ∷ s) (codes "/") ≡ false
unfolding text_eq codes
text_eq-root c s = ground arith

IsSpaced-of : (s raw : Text) → s ≢ [] → Passed (slash ∷ s) raw → IsSpaced (slash ∷ s)
IsSpaced-of [] raw h p = absurd (h refl)
IsSpaced-of (c ∷ s) raw h p = (ground (arith, p.plain), ground (arith, p.closed, text_eq-root c s))

-- A path that is accepted, whatever the raw path beside it, starts at the root, and none of its
-- segments is empty, `.`, `..`, a template or holds a backslash.
pub validate-IsConcrete :
    (path raw : Text) → validate_concrete_request_path path raw ≡ ok tt → IsConcrete path
validate-IsConcrete path raw h =
    let p = Passed-of path raw h in
    let (s, e) = rooted-cons path raw p in (s, (e, segments_of s (subst (λ t. Passed t raw) e p)))
  where
    segments_of : (s : Text) → Passed (slash ∷ s) raw → (s ≡ []) ⊎ All IsSafeSegment (split slash s)
    segments_of [] p = inl refl
    segments_of (c ∷ s) p = inr (
        safe_segments _ ((IsSpaced-segments (c ∷ s)).0 (IsSpaced-of (c ∷ s) raw (cc) p))
          ((any-eq-false _ _).0 (without p.segments)) (split-Lacks slash (c ∷ s))
          (All-split _ slash (c ∷ s) (lacks p)))
      where
        without :
            any is_unsafe_segment (split slash (without_slash (slash ∷ c ∷ s))) ≡ false
            → any is_unsafe_segment (split slash (c ∷ s)) ≡ false
        without e = unfold without_slash in e

        lacks : Passed (slash ∷ c ∷ s) raw → Lacks backslash (c ∷ s)
        lacks p = ((has_char-eq-false backslash (slash ∷ c ∷ s)).0 (ground (arith, p.plain))).1

Lacks-join_segments :
    (ps : List Text) → All IsSafeSegment ps → Lacks backslash (join (slash ∷ []) ps)
Lacks-join_segments [] h = unfold join in tt
Lacks-join_segments (p ∷ ps) h =
    All-join _ slash p ps (omega arith) (All-imp (λ q s. s.6) (p ∷ ps) h)

Lacks-backslash :
    (s : Text) → All IsSafeSegment (split slash s) → has_char backslash (slash ∷ s) ≡ false
Lacks-backslash s h =
    (has_char-eq-false backslash (slash ∷ s)).1
      (omega arith, subst (Lacks backslash) (join-split slash s) (Lacks-join_segments _ h))

Passed-root : Passed (slash ∷ []) (slash ∷ [])
unfolding validate_concrete_request_path starts_with_char ends_with_char split
Passed-root = record {
  rooted = refl;
  closed = refl;
  plain = refl;
  segments = refl;
  raw_segments = refl;
}

module _ (s : Text) (safe : All IsSafeSegment (split slash s)) (h : Lacks b'%' (slash ∷ s)) where
  Passed-segments : Passed (slash ∷ s) (slash ∷ s)
  Passed-segments =
      let (double, ends) = (IsSpaced-segments s).1 (Nonempty-of _ safe) in
      let parts : any is_unsafe_segment (split slash (without_slash (slash ∷ s))) ≡ false =
        unfold without_slash in unsafe_segments (split slash s) safe in
      record {
        rooted = unfold starts_with_char in refl;
        closed = ground (arith, ends);
        plain =
            ground
              (arith, double, Lacks-backslash s safe, (has_char-eq-false b'%' (slash ∷ s)).1 h);
        segments = parts;
        raw_segments = parts;
      }

-- A concrete path with no percent sign is accepted as its own raw path.
pub validate_of_IsConcrete :
    (path : Text)
    → IsConcrete path
    → Lacks b'%' path
    → validate_concrete_request_path path path ≡ ok tt
validate_of_IsConcrete path (s, (e, inl root)) h =
    rw (e, root) (ok_of_Passed (slash ∷ []) (slash ∷ []) Passed-root)
validate_of_IsConcrete path (s, (e, inr safe)) h =
    rw e (ok_of_Passed (slash ∷ s) (slash ∷ s) (Passed-segments s safe (subst (Lacks b'%') e h)))
