-- ===== src/Transcript/Allow.antt =====
-- The canonical allow list: the distinct canonical names, in order.
use trustplane_auth_sdk_pyth.Base.{
  ◌≡◌, refl, sym, ap, ap₂, ◌∙◌, Bool, true, false, not, ◌&&◌, ◌||◌, List, [], ◌∷◌, map, arith, Text,
  All,
}
use trustplane_auth_sdk_pyth.Base.Order.{insert, sort, IsSorted, sort-IsSorted}
use trustplane_auth_sdk_pyth.Text.{text_eq, text_eq_iff, text_eq_refl, is_empty, mem_text}
use trustplane_auth_sdk_pyth.Text.Compare.{text_le, text_order}
use trustplane_auth_sdk_pyth.Platform.{Platform}
use trustplane_auth_sdk_pyth.Transcript.Headers.{canonical_name, new_names, canonical_allow_list}

-- No name stands twice.
abbrev pub distinct : List Text → Bool
distinct [] = true
distinct (x ∷ xs) = not (mem_text x xs) && distinct xs

mem_text-insert :
    (n x : Text) (xs : List Text)
    → mem_text n (insert text_le x xs) ≡ (text_eq n x || mem_text n xs)
unfolding mem_text insert
mem_text-insert n x [] = refl
mem_text-insert n x (y ∷ ys) = ground (arith, mem_text-insert n x ys)

pub mem_text-sort : (n : Text) (xs : List Text) → mem_text n (sort text_le xs) ≡ mem_text n xs
unfolding mem_text sort
mem_text-sort n [] = refl
mem_text-sort n (x ∷ xs) =
    mem_text-insert n x (sort text_le xs) ∙ ap (λ b. text_eq n x || b) (mem_text-sort n xs)

distinct-insert :
    (x : Text) (xs : List Text)
    → mem_text x xs ≡ false
    → distinct xs ≡ true
    → distinct (insert text_le x xs) ≡ true
unfolding insert mem_text
distinct-insert x [] p h = refl
distinct-insert x (y ∷ ys) p h =
    ground (arith, mem_text-insert y x ys, distinct-insert x ys, text_eq_iff x y, text_eq_iff y x)

distinct-sort : (xs : List Text) → distinct xs ≡ true → distinct (sort text_le xs) ≡ true
unfolding sort
distinct-sort [] h = refl
distinct-sort (x ∷ xs) h =
    distinct-insert x (sort text_le xs) (mem_text-sort x xs ∙ ground arith)
      (distinct-sort xs (ground arith))

-- Sorted lists of distinct names with the same members are the same.
below :
    (x y : Text) (ys : List Text)
    → All (λ z. text_le y z ≡ true) ys
    → mem_text x ys ≡ true
    → text_le y x ≡ true
unfolding mem_text
below x y [] h m = cc
below x y (z ∷ zs) (p, h) m = ground (arith, text_eq_iff x z, below x y zs h)

same_head :
    (x y : Text) (xs ys : List Text)
    → IsSorted text_le (x ∷ xs)
    → IsSorted text_le (y ∷ ys)
    → mem_text x (y ∷ ys) ≡ true
    → mem_text y (x ∷ xs) ≡ true
    → x ≡ y
unfolding mem_text
same_head x y xs ys (p, _) (q, _) m k = ground (
  arith,
  text_eq_iff x y,
  text_eq_iff y x,
  below x y ys q,
  below y x xs p,
  text_order.antisym x y,
)

pub sorted_unique :
    (xs ys : List Text)
    → IsSorted text_le xs
    → distinct xs ≡ true
    → IsSorted text_le ys
    → distinct ys ≡ true
    → ((n : Text) → mem_text n xs ≡ mem_text n ys)
    → xs ≡ ys
unfolding mem_text
sorted_unique [] [] s d s' d' h = refl
sorted_unique [] (y ∷ ys) s d s' d' h = ground (arith, h y, text_eq_refl y)
sorted_unique (x ∷ xs) [] s d s' d' h = ground (arith, h x, text_eq_refl x)
sorted_unique (x ∷ xs) (y ∷ ys) s d s' d' h =
    let e =
      same_head x y xs ys s s' (sym (h x) ∙ ground (arith, text_eq_refl x))
        (h y ∙ ground (arith, text_eq_refl y)) in
    ap₂ (λ z (zs : List Text). z ∷ zs) e
      (sorted_unique xs ys s.1 (ground arith) s'.1 (ground arith)
        (λ n. ground (arith, e, h n, text_eq_iff n x, text_eq_iff n y)))

module _ ⦃p : Platform⦄ where
  mem_text-new_names :
      (n : Text) (seen raws : List Text)
      → mem_text n (new_names seen raws)
        ≡ (not (is_empty n) && not (mem_text n seen) && mem_text n (map canonical_name raws))
  unfolding new_names mem_text
  mem_text-new_names n seen [] = ground arith
  mem_text-new_names n seen (raw ∷ raws) = ground (
    arith,
    text_eq_iff n (canonical_name raw),
    mem_text-new_names n seen raws,
    mem_text-new_names n (canonical_name raw ∷ seen) raws,
  )

  distinct-new_names : (seen raws : List Text) → distinct (new_names seen raws) ≡ true
  unfolding new_names mem_text
  distinct-new_names seen [] = refl
  distinct-new_names seen (raw ∷ raws) = ground (
    arith,
    text_eq_refl (canonical_name raw),
    distinct-new_names seen raws,
    distinct-new_names (canonical_name raw ∷ seen) raws,
    mem_text-new_names (canonical_name raw) (canonical_name raw ∷ seen) raws,
  )

  -- The allow list holds a name exactly if the name is not empty and is the canonical form of a
  -- name of the request's list.
  pub mem_text-canonical_allow_list :
      (n : Text) (raws : List Text)
      → mem_text n (canonical_allow_list raws)
        ≡ (not (is_empty n) && mem_text n (map canonical_name raws))
  unfolding canonical_allow_list
  mem_text-canonical_allow_list n raws =
      mem_text-sort n (new_names [] raws)
      ∙ mem_text-new_names n [] raws
      ∙ (unfold mem_text in ground arith)

  -- The allow list is sorted, and holds no name twice.
  pub canonical_allow_list-IsSorted :
      (raws : List Text)
      → IsSorted text_le (canonical_allow_list raws) × (distinct (canonical_allow_list raws) ≡ true)
  unfolding canonical_allow_list
  canonical_allow_list-IsSorted raws = (
    sort-IsSorted text_le text_order (new_names [] raws),
    distinct-sort (new_names [] raws) (distinct-new_names [] raws),
  )

  -- Lists with the same canonical names, whatever their order, case, blanks and repetitions,
  -- have one canonical allow list.
  pub canonical_allow_list-canonical :
      (raws raws' : List Text)
      → ((n : Text) → mem_text n (map canonical_name raws) ≡ mem_text n (map canonical_name raws'))
      → canonical_allow_list raws ≡ canonical_allow_list raws'
  canonical_allow_list-canonical raws raws' h =
      let (sorted, once) = canonical_allow_list-IsSorted raws in
      let (sorted', once') = canonical_allow_list-IsSorted raws' in
      sorted_unique _ _ sorted once sorted' once' λ n.
        mem_text-canonical_allow_list n raws
        ∙ ap (λ b. not (is_empty n) && b) (h n)
        ∙ sym (mem_text-canonical_allow_list n raws')
