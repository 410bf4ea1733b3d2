-- ===== src/Profile/Concrete.antt =====
-- The request paths that `validate_concrete_request_path` lets through.
use mathlib.Core.List.{tail}
use trustplane_auth_sdk_pyth.Base.{
  ℕ, ◌≡◌, ◌≢◌, ◌↔◌, ◌⊎◌, refl, Bool, true, false, ◌||◌, List, [], ◌∷◌, arith, Text, All, ◌==◌,
  Bool-cases, inl, inr,
}
use trustplane_auth_sdk_pyth.Text.{
  codes, split, push_head, Lacks, split-ne-nil, starts_with_char, ends_with_char,
}
use trustplane_auth_sdk_pyth.Profile.{slash, has_double_slash}

abbrev pub backslash : ℕ
backslash = b'\\'

-- A segment that names an entry of its directory, and is no template.
abbrev pub IsSafeSegment : Text → Type 0
IsSafeSegment segment =
    (segment ≢ [])
    × (segment ≢ codes ".")
    × (segment ≢ codes "..")
    × Lacks b'{' segment
    × Lacks b'}' segment
    × Lacks slash segment
    × Lacks backslash segment

-- A path from the root, with no empty segment.
abbrev pub IsConcrete : Text → Type 0
IsConcrete path = (s : Text) × ((path ≡ slash ∷ s) × ((s ≡ []) ⊎ All IsSafeSegment (split slash s)))

unfoldable pub Nonempty : List Text → Type 0
Nonempty = All (λ segment. segment ≢ [])

-- Whether the segments behind the first are not empty.
abbrev pub tail_split : Text → List Text
tail_split s = tail (split slash s)

split-slash : (s : Text) → split slash (slash ∷ s) ≡ [] ∷ split slash s
unfolding split
split-slash s = ground arith

tail-push_head : (c : ℕ) (ps : List Text) → ps ≢ [] → tail (push_head c ps) ≡ tail ps
unfolding push_head
tail-push_head c [] h = absurd (h refl)
tail-push_head c (p ∷ ps) h = refl

tail_split-cons : (c : ℕ) (s : Text) → (c == slash) ≡ false → tail_split (c ∷ s) ≡ tail_split s
unfolding split
tail_split-cons c s h = rw h (tail-push_head c (split slash s) (split-ne-nil slash s))

pub tail_split-slash : (c : ℕ) (s : Text) → (c == slash) ≡ true → tail_split (c ∷ s) ≡ split slash s
unfolding split
tail_split-slash c s h = rw h

-- All segments are nonempty exactly if the later ones are, and the text begins with none.
Nonempty-split :
    (s : Text)
    → Nonempty (split slash s)
      ↔ ((s ≢ []) × (starts_with_char slash s ≡ false) × Nonempty (tail_split s))
unfolding split starts_with_char Nonempty
Nonempty-split [] = (λ h. absurd (h.0 refl), λ h. absurd (h.0 refl))
Nonempty-split (c ∷ s) = elim (Bool-cases (c == slash)) [
  | inl same ↦ rw same (λ h. absurd (h.0 refl), λ h. cc (h.1))
  | inr other ↦ rw other (to (split slash s), from (split slash s))
]
  where
    to :
        (ps : List Text)
        → All (λ x. x ≢ []) (push_head c ps)
        → ((c ∷ s) ≢ []) × (false ≡ false) × All (λ x. x ≢ []) (tail (push_head c ps))
    to [] h = (cc, refl, tt)
    to (p ∷ ps) h = (cc, refl, h.1)

    from :
        (ps : List Text)
        → ((c ∷ s) ≢ []) × (false ≡ false) × All (λ x. x ≢ []) (tail (push_head c ps))
        → All (λ x. x ≢ []) (push_head c ps)
    from [] h = (cc, tt)
    from (p ∷ ps) h = (cc, h.2)

double-cons :
    (c : ℕ) (s : Text) → (c == slash) ≡ false → has_double_slash (c ∷ s) ≡ has_double_slash s
unfolding has_double_slash
double-cons c s h = rw h

double-slash :
    (c : ℕ) (s : Text)
    → (c == slash) ≡ true
    → has_double_slash (c ∷ s) ≡ (starts_with_char slash s || has_double_slash s)
unfolding has_double_slash
double-slash c s h = rw h

ends-cons : (c d : ℕ) (s : Text) → ends_with_char slash (c ∷ d ∷ s) ≡ ends_with_char slash (d ∷ s)
unfolding ends_with_char
ends-cons c d s = refl

abbrev pub IsSpaced : Text → Type 0
IsSpaced s = (has_double_slash s ≡ false) × (ends_with_char slash s ≡ false)

one_iff : (c : ℕ) → IsSpaced (c ∷ []) ↔ Nonempty (tail_split (c ∷ []))
unfolding has_double_slash ends_with_char split Nonempty
one_iff c = elim (Bool-cases (c == slash)) [
  | inl same ↦ rw same (λ h. cc (h.1), λ h. absurd (h.0 refl))
  | inr other ↦ rw other (λ h. tt, λ h. (refl, refl))
]

slash_iff :
    (c : ℕ) (s : Text)
    → (c == slash) ≡ true
    → s ≢ []
    → (IsSpaced s ↔ Nonempty (tail_split s))
    → ((starts_with_char slash s || has_double_slash s) ≡ false) × (ends_with_char slash s ≡ false)
      ↔ Nonempty (split slash s)
slash_iff c s same some_char ih = (
  λ h. (Nonempty-split s).1 (some_char, (or_false _ _ h.0).0, ih.0 ((or_false _ _ h.0).1, h.1)),
  λ n.
      let (_, first, later) = (Nonempty-split s).0 n in
      let (double, ends) = ih.1 later in (rw (first, double), ends),
)
  where
    or_false : (a b : Bool) → (a || b) ≡ false → (a ≡ false) × (b ≡ false)
    or_false a b e = ground arith

-- No slash follows another and none stands at the end exactly if no segment behind the first is
-- empty.
pub tail_split_iff : (s : Text) → s ≢ [] → IsSpaced s ↔ Nonempty (tail_split s)
tail_split_iff [] h = absurd (h refl)
tail_split_iff (c ∷ []) h = one_iff c
tail_split_iff (c ∷ d ∷ s) h = elim (Bool-cases (c == slash)) [
  | inl same ↦
      rw (double-slash c (d ∷ s) same, ends-cons c d s, tail_split-slash c (d ∷ s) same)
        (slash_iff c (d ∷ s) same (cc) (tail_split_iff (d ∷ s) (cc)))
  | inr other ↦
      rw (double-cons c (d ∷ s) other, ends-cons c d s, tail_split-cons c (d ∷ s) other)
        (tail_split_iff (d ∷ s) (cc))
]
