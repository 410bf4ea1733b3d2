-- ===== src/Query/Escapes.antt =====
-- When a text is well escaped, and how that is decided part by part.
use trustplane_auth_sdk_pyth.Base.{
  ℕ, ◌≡◌, ◌≢◌, ◌↔◌, refl, sym, ◌∙◌, ap, true, false, ◌&&◌, List, [], ◌∷◌, ◌++◌, arith, Text,
  append-nil, all, inl, inr,
}
use mathlib.Core.Path.{subst}
use native.Mathlib.Decide.{ℕ_discrete}
use mathlib.Core.Bool.{and-eq-true_iff}
use trustplane_auth_sdk_pyth.Text.{
  split, partition, join, join_rest, join-split, split-ne-nil, partition-cases,
}
use trustplane_auth_sdk_pyth.Query.Percent.{percent, is_hex, well_escaped}

-- A text that begins with two hex digits.
abbrev pub StartsHex : Text → Type 0
StartsHex [] = ⊥
StartsHex (h ∷ []) = ⊥
StartsHex (h ∷ l ∷ rest) = (is_hex h ≡ true) × (is_hex l ≡ true)

-- Every `%`, wherever it stands, has two hex digits behind it.
abbrev pub WellEscaped : Text → Type 0
WellEscaped [] = Unit
WellEscaped (c ∷ s) = (c ≡ percent → StartsHex s) × WellEscaped s

hex-ne-percent : (c : ℕ) → is_hex c ≡ true → c ≢ percent
unfolding is_hex
hex-ne-percent c h = ground arith

-- A character other than `%` is passed over.
pub well_escaped-cons : (c : ℕ) (s : Text) → c ≢ percent → well_escaped (c ∷ s) ≡ well_escaped s
unfolding well_escaped
well_escaped-cons c [] p = ground arith
well_escaped-cons c (h ∷ []) p = ground arith
well_escaped-cons c (h ∷ l ∷ rest) p = ground arith

-- An escape is two hex digits, and is skipped.
well_escaped-escape :
    (h l : ℕ) (rest : Text)
    → well_escaped (percent ∷ h ∷ l ∷ rest) ≡ (is_hex h && is_hex l && well_escaped rest)
unfolding well_escaped
well_escaped-escape h l rest = refl

escape_iff :
    (h l : ℕ) (rest : Text)
    → ((well_escaped rest ≡ true) ↔ WellEscaped rest)
    → ((is_hex h && is_hex l && well_escaped rest) ≡ true) ↔ WellEscaped (percent ∷ h ∷ l ∷ rest)
escape_iff h l rest ih = (to, λ w. rw ((w.0 refl).0, (w.0 refl).1) (ih.1 w.1.1.1))
  where
    to : (is_hex h && is_hex l && well_escaped rest) ≡ true → WellEscaped (percent ∷ h ∷ l ∷ rest)
    to e =
        let (both, wr) = (and-eq-true_iff _ _).0 e in
        let (hh, hl) = (and-eq-true_iff _ _).0 both in
        (
          λ _. (hh, hl),
          (λ p. absurd (hex-ne-percent h hh p), (λ p. absurd (hex-ne-percent l hl p), ih.0 wr)),
        )

two_iff :
    (c h : ℕ)
    → ((well_escaped (h ∷ []) ≡ true) ↔ WellEscaped (h ∷ []))
    → (well_escaped (c ∷ h ∷ []) ≡ true) ↔ WellEscaped (c ∷ h ∷ [])
unfolding well_escaped
two_iff c h ih = ground (arith, ih)

other_iff :
    (c : ℕ) (s : Text)
    → c ≢ percent
    → ((well_escaped s ≡ true) ↔ WellEscaped s)
    → (well_escaped (c ∷ s) ≡ true) ↔ WellEscaped (c ∷ s)
other_iff c s p ih = rw (well_escaped-cons c s p) (λ e. (λ q. absurd (p q), ih.0 e), λ w. ih.1 w.1)

-- The scan, which skips the digits of an escape, accepts exactly the well escaped texts.
pub well_escaped_iff : (s : Text) → (well_escaped s ≡ true) ↔ WellEscaped s
well_escaped_iff [] = unfold well_escaped in ground arith
well_escaped_iff (c ∷ []) = unfold well_escaped in ground arith
well_escaped_iff (c ∷ h ∷ []) = two_iff c h (well_escaped_iff (h ∷ []))
well_escaped_iff (c ∷ h ∷ l ∷ rest) = elim (ℕ_discrete c percent) [
  | yes p ↦
      subst (λ c. (well_escaped (c ∷ h ∷ l ∷ rest) ≡ true) ↔ WellEscaped (c ∷ h ∷ l ∷ rest)) (sym p)
        (rw (well_escaped-escape h l rest) (escape_iff h l rest (well_escaped_iff rest)))
  | no p ↦ other_iff c (h ∷ l ∷ rest) p (well_escaped_iff (h ∷ l ∷ rest))
]

-- A separator that is no hex digit and no `%` cuts a text into parts that are scanned alone.
module _ (sep : ℕ) (plain : is_hex sep ≡ false) (other : sep ≢ percent) where
  pub well_escaped-append :
      (s t : Text) → well_escaped (s ++ sep ∷ t) ≡ (well_escaped s && well_escaped t)
  unfolding well_escaped
  well_escaped-append [] t = well_escaped-cons sep t other
  well_escaped-append (c ∷ []) [] = ground (arith, well_escaped-cons sep [] other)
  well_escaped-append (c ∷ []) (d ∷ t) = ground (arith, well_escaped-cons sep (d ∷ t) other)
  well_escaped-append (c ∷ h ∷ []) t =
      ground (arith, well_escaped-append (h ∷ []) t, well_escaped-cons c (h ∷ sep ∷ t))
  well_escaped-append (c ∷ h ∷ l ∷ rest) t =
      ground (arith, well_escaped-append rest t, well_escaped-append (h ∷ l ∷ rest) t)

  pub well_escaped-join :
      (p : Text) (ps : List Text)
      → well_escaped (join (sep ∷ []) (p ∷ ps)) ≡ all well_escaped (p ∷ ps)
  unfolding join
  well_escaped-join p [] = rw append-nil (ground arith)
  well_escaped-join p (q ∷ qs) =
      well_escaped-append p (q ++ join_rest (sep ∷ []) qs)
      ∙ ap (λ b. well_escaped p && b) (well_escaped-join q qs)

  pub well_escaped-split : (s : Text) → well_escaped s ≡ all well_escaped (split sep s)
  well_escaped-split s = go (split sep s) (split-ne-nil sep s) (join-split sep s)
    where
      go :
          (ps : List Text) → ps ≢ [] → join (sep ∷ []) ps ≡ s → well_escaped s ≡ all well_escaped ps
      go [] h e = absurd (h refl)
      go (p ∷ ps) h e = ap well_escaped (sym e) ∙ well_escaped-join p ps

  pub well_escaped-partition :
      (s : Text)
      → well_escaped s ≡ (well_escaped (partition sep s).0 && well_escaped (partition sep s).1)
  well_escaped-partition s = elim (partition-cases sep s) [
    | inl whole ↦ rw whole (unfold well_escaped in ground arith)
    | inr cut ↦ ap well_escaped cut ∙ well_escaped-append (partition sep s).0 (partition sep s).1
  ]
