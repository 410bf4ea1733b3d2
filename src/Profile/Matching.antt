-- ===== src/Profile/Matching.antt =====
-- When a path is inside the signing profile.
use trustplane_auth_sdk_pyth.Base.{
  ℕ, ◌≡◌, ◌≢◌, ◌↔◌, ◌⊎◌, refl, ◌∙◌, true, false, not, ◌&&◌, ◌||◌, List, [], ◌∷◌, ◌++◌, arith, Text,
  Bool-cases, inl, inr, append_assoc, if◌then◌else◌,
}
use trustplane_auth_sdk_pyth.Text.{
  codes, text_eq, text_eq_iff, text_eq_refl, split, has_char, starts_with, starts_with_char,
  ends_with_char,
}
use trustplane_auth_sdk_pyth.Profile.{
  slash, rstrip_slashes, strip_slashes, segments_match, path_matches,
}

-- A path that is the prefix, or lies under it: `/api` covers `/api/x`, and not `/apix`.
abbrev pub Under : Text → Text → Type 0
Under prefix path = (path ≡ prefix) ⊎ ((rest : Text) × (path ≡ prefix ++ slash ∷ rest))

-- A path's segments against a template's: a parameter in braces stands for one nonempty segment.
pub data Fits : List Text → List Text → Type 0 where
  done : Fits [] []
  literal :
      {e a : Text} {es parts : List Text}
      → (starts_with_char b'{' e && ends_with_char b'}' e) ≡ false
      → e ≡ a
      → Fits es parts
      → Fits (e ∷ es) (a ∷ parts)
  parameter :
      {e a : Text} {es parts : List Text}
      → (starts_with_char b'{' e && ends_with_char b'}' e) ≡ true
      → a ≢ []
      → Fits es parts
      → Fits (e ∷ es) (a ∷ parts)

starts_with_sound : (p s : Text) → starts_with p s ≡ true → (rest : Text) × (s ≡ p ++ rest)
unfolding starts_with
starts_with_sound [] s h = (s, refl)
starts_with_sound (c ∷ p) [] h = cc
starts_with_sound (c ∷ p) (d ∷ s) h =
    let (rest, e) = starts_with_sound p s (ground arith) in (rest, ground arith)

starts_with_complete : (p rest : Text) → starts_with p (p ++ rest) ≡ true
unfolding starts_with
starts_with_complete [] rest = refl
starts_with_complete (c ∷ p) rest = ground (arith, starts_with_complete p rest)

starts_with_char_sound :
    (c : ℕ) (s : Text) → starts_with_char c s ≡ true → (rest : Text) × (s ≡ c ∷ rest)
unfolding starts_with_char
starts_with_char_sound c [] h = cc
starts_with_char_sound c (d ∷ s) h = (s, ground arith)

Under-sound :
    (prefix path : Text)
    → (text_eq path prefix || starts_with (prefix ++ slash ∷ []) path) ≡ true
    → Under prefix path
Under-sound prefix path h = elim (Bool-cases (text_eq path prefix)) [
  | inl same ↦ inl ((text_eq_iff path prefix).0 same)
  | inr other ↦
      let (rest, e) = starts_with_sound (prefix ++ slash ∷ []) path (ground arith) in
      inr (rest, e ∙ append_assoc prefix (slash ∷ []) rest)
]

Under-complete :
    (prefix path : Text)
    → Under prefix path
    → (text_eq path prefix || starts_with (prefix ++ slash ∷ []) path) ≡ true
Under-complete prefix path (inl e) = rw ((text_eq_iff path prefix).1 e)
Under-complete prefix path (inr (rest, e)) =
    ground (
      arith,
      starts_with_complete (prefix ++ slash ∷ []) rest,
      append_assoc prefix (slash ∷ []) rest,
    )

prefix_text : text_eq (codes "PathPrefix") (codes "PathPrefix") ≡ true
prefix_text = text_eq_refl (codes "PathPrefix")

exact_text : text_eq (codes "Exact") (codes "PathPrefix") ≡ false
unfolding text_eq codes
exact_text = refl

path_matches_step :
    (template path : Text)
    → path_matches (codes "PathPrefix") template path ≡ (
        if text_eq template (codes "/")
        then starts_with_char slash path
        else text_eq path (rstrip_slashes template)
          || starts_with (rstrip_slashes template ++ slash ∷ []) path)
unfolding path_matches
path_matches_step template path = rw prefix_text

starts_with_char_complete : (c : ℕ) (rest : Text) → starts_with_char c (c ∷ rest) ≡ true
unfolding starts_with_char
starts_with_char_complete c rest = ground arith

-- A `PathPrefix` profile covers exactly its prefix and what lies under it, and the route `/`
-- covers every path from the root.
pub path_matches-prefix :
    (template path : Text)
    → (path_matches (codes "PathPrefix") template path ≡ true) ↔ (
        ((template ≡ codes "/") × ((rest : Text) × (path ≡ slash ∷ rest)))
        ⊎ ((template ≢ codes "/") × Under (rstrip_slashes template) path))
path_matches-prefix template path = elim (Bool-cases (text_eq template (codes "/"))) [
  | inl root ↦
      let e = (text_eq_iff template (codes "/")).0 root in
      rw (path_matches_step template path, root)
        (
          λ h. inl (e, starts_with_char_sound slash path h),
          elim [
            | inl (_, (rest, p)) ↦ rw p (starts_with_char_complete slash rest)
            | inr (other, _) ↦ absurd (other e)
          ],
        )
  | inr other ↦
      let e : template ≢ codes "/" = ground (arith, text_eq_iff template (codes "/")) in
      rw (path_matches_step template path, other)
        (
          λ h. inr (e, Under-sound (rstrip_slashes template) path h),
          elim [
            | inl (root, _) ↦ absurd (e root)
            | inr (_, u) ↦ Under-complete (rstrip_slashes template) path u
          ],
        )
]

segments_match_sound : (es ps : List Text) → segments_match es ps ≡ true → Fits es ps
unfolding segments_match
segments_match_sound [] [] h = done
segments_match_sound [] (p ∷ ps) h = cc
segments_match_sound (e ∷ es) [] h = cc
segments_match_sound (e ∷ es) (p ∷ ps) h =
    elim (Bool-cases (starts_with_char b'{' e && ends_with_char b'}' e)) [
      | inl braced ↦ parameter braced (ground arith) (segments_match_sound es ps (ground arith))
      | inr plain ↦
          literal plain (ground (arith, text_eq_iff e p))
            (segments_match_sound es ps (ground arith))
    ]

segments_match_complete : {es ps : List Text} → Fits es ps → segments_match es ps ≡ true
unfolding segments_match
segments_match_complete done = refl
segments_match_complete (literal {e} {a} plain same f) =
    ground (arith, text_eq_iff e a, segments_match_complete f)
segments_match_complete (parameter braced some_char f) = ground (arith, segments_match_complete f)

path_matches_exact :
    (template path : Text)
    → path_matches (codes "Exact") template path ≡ (
        if not (has_char b'{' template)
        then text_eq path template
        else segments_match
            (split slash (strip_slashes template))
            (split slash (strip_slashes path)))
unfolding path_matches
path_matches_exact template path = rw exact_text

-- An exact profile with a parameter covers exactly the paths whose segments fit the template's.
pub path_matches-template :
    (template path : Text)
    → has_char b'{' template ≡ true
    → (path_matches (codes "Exact") template path ≡ true)
      ↔ Fits (split slash (strip_slashes template)) (split slash (strip_slashes path))
path_matches-template template path h =
    rw (path_matches_exact template path, h) (segments_match_sound _ _, segments_match_complete)
