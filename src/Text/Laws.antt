-- ===== src/Text/Laws.antt =====
-- Laws of the text operations.
use trustplane_auth_sdk_pyth.Base.{
  ℕ, zero, suc, ◌+◌, ◌-◌, ◌*◌, ◌/◌, ◌%◌, ◌<◌, ◌≡◌, ◌≢◌, ◌↔◌, refl, sym, ap, ◌∙◌, Bool, true, false,
  List, [], ◌∷◌, ◌++◌, arith, Text, All, All-append, Bool-cases, ◌==◌, ltb, append-nil, inl, inr,
  ◌⊎◌, length, ◌≤◌,
}
use trustplane_auth_sdk_pyth.Text.Defs.{
  text_eq, is_space, lstrip_by, rstrip_by, strip, split, push_head, partition, join, digits,
  decimal, has_char,
}

-- `c not in s`.
abbrev pub Lacks : ℕ → Text → Type 0
Lacks c = All (λ d. d ≢ c)

pub text_eq_iff : (s t : Text) → (text_eq s t ≡ true) ↔ (s ≡ t)
unfolding text_eq
text_eq_iff [] [] = ground arith
text_eq_iff [] (d ∷ t) = ground arith
text_eq_iff (c ∷ s) [] = ground arith
text_eq_iff (c ∷ s) (d ∷ t) = ground (arith, text_eq_iff s t)

pub text_eq_refl : (s : Text) → text_eq s s ≡ true
text_eq_refl s = (text_eq_iff s s).1 refl

pub append-cancel_left : (p s t : Text) → p ++ s ≡ p ++ t → s ≡ t
append-cancel_left [] s t e = e
append-cancel_left (c ∷ p) s t e = append-cancel_left p s t (cc)

pub has_char-eq-false : (c : ℕ) (s : Text) → (has_char c s ≡ false) ↔ Lacks c s
unfolding has_char
has_char-eq-false c [] = ground arith
has_char-eq-false c (d ∷ s) = ground (arith, has_char-eq-false c s)

module _ (p : ℕ → Bool) where
  lstrip_by-lstrip_by : (s : Text) → lstrip_by p (lstrip_by p s) ≡ lstrip_by p s
  unfolding lstrip_by
  lstrip_by-lstrip_by [] = refl
  lstrip_by-lstrip_by (c ∷ s) = ground (arith, lstrip_by-lstrip_by s)

  rstrip_by-rstrip_by : (s : Text) → rstrip_by p (rstrip_by p s) ≡ rstrip_by p s
  unfolding rstrip_by
  rstrip_by-rstrip_by [] = refl
  rstrip_by-rstrip_by (c ∷ s) = ground (arith, rstrip_by-rstrip_by s)

  length-lstrip_by : (s : Text) → length (lstrip_by p s) ≤ length s
  unfolding lstrip_by
  length-lstrip_by [] = omega arith
  length-lstrip_by (c ∷ s) = ground (arith, length-lstrip_by s)

  -- What begins with a kept character, or is empty, is left as it is, and so is its right strip.
  lstrip_by-rstrip_by : (s : Text) → lstrip_by p s ≡ s → lstrip_by p (rstrip_by p s) ≡ rstrip_by p s
  unfolding lstrip_by rstrip_by
  lstrip_by-rstrip_by [] h = refl
  lstrip_by-rstrip_by (c ∷ s) h = elim (Bool-cases (p c)) [
    | inl gone ↦ absurd (omega (arith, length-lstrip_by s, ap length (rw gone at h)))
    | inr kept ↦ ground arith
  ]

  pub All-lstrip_by : (P : ℕ → Type 0) (s : Text) → All P s → All P (lstrip_by p s)
  unfolding lstrip_by
  All-lstrip_by P [] h = tt
  All-lstrip_by P (c ∷ s) (q, h) = ground (arith, All-lstrip_by P s h)

  pub All-rstrip_by : (P : ℕ → Type 0) (s : Text) → All P s → All P (rstrip_by p s)
  unfolding rstrip_by
  All-rstrip_by P [] h = tt
  All-rstrip_by P (c ∷ s) (q, h) = ground (arith, All-rstrip_by P s h)

-- Stripping twice is stripping once.
pub strip-strip : (s : Text) → strip (strip s) ≡ strip s
unfolding strip
strip-strip s =
    ap (rstrip_by is_space) (lstrip_by-rstrip_by is_space _ (lstrip_by-lstrip_by is_space s))
    ∙ rstrip_by-rstrip_by is_space (lstrip_by is_space s)

pub All-strip : (P : ℕ → Type 0) (s : Text) → All P s → All P (strip s)
unfolding strip
All-strip P s h = All-rstrip_by is_space P _ (All-lstrip_by is_space P s h)

pub split-Lacks : (sep : ℕ) (s : Text) → All (Lacks sep) (split sep s)
unfolding split
split-Lacks sep [] = (tt, tt)
split-Lacks sep (c ∷ s) = elim (Bool-cases (c == sep)) [
  | inl same ↦ rw same (tt, split-Lacks sep s)
  | inr other ↦ rw other (push_head-Lacks (ground arith) (split sep s) (split-Lacks sep s))
]
  where
    push_head-Lacks :
        c ≢ sep → (ps : List Text) → All (Lacks sep) ps → All (Lacks sep) (push_head c ps)
    push_head-Lacks h [] k = ((h, tt), tt)
    push_head-Lacks h (p ∷ ps) (q, k) = ((h, q), k)

split_of_Lacks : (sep : ℕ) (s : Text) → Lacks sep s → split sep s ≡ s ∷ []
unfolding split
split_of_Lacks sep [] h = refl
split_of_Lacks sep (c ∷ s) (p, h) = rw (split_of_Lacks sep s h) (ground arith)

split-append : (sep : ℕ) (s t : Text) → Lacks sep s → split sep (s ++ sep ∷ t) ≡ s ∷ split sep t
unfolding split
split-append sep [] t h = ground arith
split-append sep (c ∷ s) t (p, h) = rw (split-append sep s t h) (ground arith)

-- Splitting a join gives the parts back, if there is one and none holds the separator.
pub split-join :
    (sep : ℕ) (p : Text) (ps : List Text)
    → All (Lacks sep) (p ∷ ps)
    → split sep (join (sep ∷ []) (p ∷ ps)) ≡ p ∷ ps
unfolding join
split-join sep p [] (h, _) = rw append-nil (split_of_Lacks sep p h)
split-join sep p (q ∷ qs) (h, k) =
    split-append sep p _ h ∙ ap (λ (r : List Text). p ∷ r) (split-join sep q qs k)

pub partition-append : (sep : ℕ) (k v : Text) → Lacks sep k → partition sep (k ++ sep ∷ v) ≡ (k, v)
unfolding partition
partition-append sep [] v h = ground arith
partition-append sep (c ∷ k) v (p, h) = ground (arith, partition-append sep k v h)

pub split-ne-nil : (sep : ℕ) (s : Text) → split sep s ≢ []
unfolding split
split-ne-nil sep [] e = cc
split-ne-nil sep (c ∷ s) e = elim (Bool-cases (c == sep)) [
  | inl same ↦ cc (rw same at e)
  | inr other ↦ push_head-ne-nil (split sep s) (rw other at e)
]
  where
    push_head-ne-nil : (ps : List Text) → push_head c ps ≢ []
    push_head-ne-nil [] e = cc
    push_head-ne-nil (p ∷ ps) e = cc

join-push_head :
    (sep : Text) (c : ℕ) (ps : List Text) → ps ≢ [] → join sep (push_head c ps) ≡ c ∷ join sep ps
unfolding join push_head
join-push_head sep c [] h = absurd (h refl)
join-push_head sep c (p ∷ ps) h = refl

join-cons_nil :
    (sep : ℕ) (ps : List Text) → ps ≢ [] → join (sep ∷ []) ([] ∷ ps) ≡ sep ∷ join (sep ∷ []) ps
unfolding join
join-cons_nil sep [] h = absurd (h refl)
join-cons_nil sep (p ∷ ps) h = refl

-- Joining the parts of a split gives the text back.
pub join-split : (sep : ℕ) (s : Text) → join (sep ∷ []) (split sep s) ≡ s
unfolding split
join-split sep [] = unfold join in refl
join-split sep (c ∷ s) = elim (Bool-cases (c == sep)) [
  | inl same ↦
      rw (same, join-cons_nil sep (split sep s) (split-ne-nil sep s), join-split sep s)
        (ground arith)
  | inr other ↦
      rw (other, join-push_head (sep ∷ []) c (split sep s) (split-ne-nil sep s), join-split sep s)
]

module _ (P : ℕ → Type 0) (sep : ℕ) where
  pub All-split : (s : Text) → All P s → All (All P) (split sep s)
  unfolding split
  All-split [] h = (tt, tt)
  All-split (c ∷ s) (p, h) = elim (Bool-cases (c == sep)) [
    | inl same ↦ rw same (tt, All-split s h)
    | inr other ↦ rw other (All-push_head (split sep s) (All-split s h))
  ]
    where
      All-push_head : (ps : List Text) → All (All P) ps → All (All P) (push_head c ps)
      All-push_head [] k = ((p, tt), tt)
      All-push_head (q ∷ ps) (k, ks) = ((p, k), ks)

  pub All-partition : (s : Text) → All P s → All P (partition sep s).0 × All P (partition sep s).1
  unfolding partition
  All-partition [] h = (tt, tt)
  All-partition (c ∷ s) (p, h) = ground (arith, All-partition s h)

  pub All-join :
      (p : Text) (ps : List Text) → P sep → All (All P) (p ∷ ps) → All P (join (sep ∷ []) (p ∷ ps))
  unfolding join
  All-join p [] here (h, k) = rw append-nil h
  All-join p (q ∷ qs) here (h, k) = All-append P p _ h (here, All-join q qs here k)

-- Without the separator the whole text comes before it.
pub partition-cases :
    (sep : ℕ) (s : Text)
    → (partition sep s ≡ (s, [])) ⊎ (s ≡ (partition sep s).0 ++ sep ∷ (partition sep s).1)
unfolding partition
partition-cases sep [] = inl refl
partition-cases sep (c ∷ s) = ground (arith, partition-cases sep s)

-- The number that decimal digits stand for, read from the left.
abbrev value_of : ℕ → Text → ℕ
value_of acc [] = acc
value_of acc (d ∷ ds) = value_of (acc * 10 + (d - b'0')) ds

value_of-snoc :
    (acc : ℕ) (ds : Text) (d : ℕ) → value_of acc (ds ++ d ∷ []) ≡ value_of acc ds * 10 + (d - b'0')
value_of-snoc acc [] d = refl
value_of-snoc acc (e ∷ ds) d = value_of-snoc (acc * 10 + (e - b'0')) ds d

value_of-digits : (f n : ℕ) → n < f → value_of 0 (digits f n) ≡ n
unfolding digits
value_of-digits zero n h = absurd (omega arith)
value_of-digits (suc f) n h = elim (Bool-cases (ltb n 10)) [
  | inl small ↦ rw small (omega arith)
  | inr large ↦
      rw (large, value_of-snoc 0 (digits f (n / 10)) (b'0' + n % 10))
        (ground (arith, value_of-digits f (n / 10)))
]

-- Numbers that print alike are equal.
pub decimal-injective : (m n : ℕ) → decimal m ≡ decimal n → m ≡ n
unfolding decimal
decimal-injective m n e =
    sym (value_of-digits (suc m) m (omega arith))
    ∙ ap (value_of 0) e
    ∙ value_of-digits (suc n) n (omega arith)

All-digits : (f n : ℕ) → All (λ d. (47 < d) × (d < 58)) (digits f n)
unfolding digits
All-digits zero n = tt
All-digits (suc f) n = elim (Bool-cases (ltb n 10)) [
  | inl small ↦ rw small (ground arith)
  | inr large ↦ rw large (All-append _ (digits f (n / 10)) _ (All-digits f (n / 10)) (omega arith))
]

-- A printed number has digits alone.
pub All-decimal : (n : ℕ) → All (λ d. (47 < d) × (d < 58)) (decimal n)
unfolding decimal
All-decimal n = All-digits (suc n) n

-- A text with no blank is left as it is by `strip`.
pub strip_of : (s : Text) → All (λ c. is_space c ≡ false) s → strip s ≡ s
unfolding strip
strip_of s h = ap (rstrip_by is_space) (left s h) ∙ right s h
  where
    left : (s : Text) → All (λ c. is_space c ≡ false) s → lstrip_by is_space s ≡ s
    left [] h = refl
    left (c ∷ s) (p, h) = rw p

    right : (s : Text) → All (λ c. is_space c ≡ false) s → rstrip_by is_space s ≡ s
    right [] h = refl
    right (c ∷ s) (p, h) = rw (p, right s h)
