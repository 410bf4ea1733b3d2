-- ===== src/Query/Order.antt =====
-- The normalised query does not depend on the order of the parameters.
use mathlib.Core.List.{Permᴰ, Perm}
use mathlib.Core.List.Permᴰ
use mathlib.Core.Logic.{∥∥₁_elim}
use mathlib.Core.List.{tail}
use native.Mathlib.Decide.{ℕ_discrete}
use trustplane_auth_sdk_pyth.Base.{
  ◌≡◌, refl, sym, ◌∙◌, ap, ap₂, Bool, ◌&&◌, List, [], ◌∷◌, map, arith, Text, all, Option, some,
  none, ok, err, returned, true, false, if◌then◌else◌, ◌≢◌,
}
use trustplane_auth_sdk_pyth.Base.Order.{sort_permᴰ}
use trustplane_auth_sdk_pyth.Text.{split, join, join-split}
use trustplane_auth_sdk_pyth.Text.Compare.{pair_le, pair_order}
use trustplane_auth_sdk_pyth.Query.Normal.{normal_form, pair_of, accepted, normalize_by_parts}
use trustplane_auth_sdk_pyth.Query.{pair_line, normalize_query_rfc3986}

Option-set : IsSet (Option Text)
Option-set = hlevel ℕ_discrete

returned-if :
    (b : Bool) (n message : Text)
    → returned (if b then ok n else err message) ≡ (if b then some n else none)
returned-if true n message = refl
returned-if false n message = refl

-- What is returned, by the parts.
returned_by_parts :
    (raw : Text)
    → raw ≢ []
    → returned (normalize_query_rfc3986 raw)
      ≡ (if all accepted (split b'&' raw) then some (normal_form (split b'&' raw)) else none)
returned_by_parts raw h = ap returned (normalize_by_parts raw h) ∙ returned-if _ _ _

all_permᴰ : (p : Text → Bool) {xs ys : List Text} → Permᴰ xs ys → all p xs ≡ all p ys
all_permᴰ p Permᴰ.nil = refl
all_permᴰ p (Permᴰ.cons e h) = ap₂ (λ x b. p x && b) e (all_permᴰ p h)
all_permᴰ p (Permᴰ.swap {a} {b} {l} e f) = rw (← e, ← f) (ground arith)
all_permᴰ p (Permᴰ.trans h k) = all_permᴰ p h ∙ all_permᴰ p k

normal_form_permᴰ : {xs ys : List Text} → Permᴰ xs ys → normal_form xs ≡ normal_form ys
unfolding normal_form
normal_form_permᴰ h =
    ap (λ ps. join (b'&' ∷ []) (map pair_line ps))
      (sort_permᴰ pair_le pair_order (Permᴰ.map pair_of h))

nilᴰ : {xs ys : List Text} → Permᴰ xs ys → xs ≡ [] → ys ≡ []
nilᴰ Permᴰ.nil e = e
nilᴰ (Permᴰ.cons p h) e = cc
nilᴰ (Permᴰ.swap p q) e = cc
nilᴰ (Permᴰ.trans h k) e = nilᴰ k (nilᴰ h e)

singletonᴰ : {xs ys : List Text} (a : Text) → Permᴰ xs ys → xs ≡ a ∷ [] → ys ≡ a ∷ []
singletonᴰ a Permᴰ.nil e = e
singletonᴰ a (Permᴰ.cons p h) e = cc (p, nilᴰ h (ap tail e))
singletonᴰ a (Permᴰ.swap p q) e = cc
singletonᴰ a (Permᴰ.trans h k) e = singletonᴰ a k (singletonᴰ a h e)

split-nil : (s : Text) → split b'&' s ≡ [] ∷ [] → s ≡ []
split-nil s e = sym (join-split b'&' s) ∙ ap (join (b'&' ∷ [])) e ∙ unfold join in refl

normalize_permᴰ :
    (raw raw' : Text)
    → Permᴰ (split b'&' raw) (split b'&' raw')
    → returned (normalize_query_rfc3986 raw) ≡ returned (normalize_query_rfc3986 raw')
normalize_permᴰ [] raw' h =
    ap (λ s. returned (normalize_query_rfc3986 s))
      (sym (split-nil raw' (singletonᴰ [] h (unfold split in refl))))
normalize_permᴰ (c ∷ s) [] h =
    ap (λ t. returned (normalize_query_rfc3986 t))
      (split-nil (c ∷ s) (singletonᴰ [] (Permᴰ.symm h) (unfold split in refl)))
normalize_permᴰ (c ∷ s) (d ∷ t) h = rw (
  returned_by_parts (c ∷ s) (cc),
  returned_by_parts (d ∷ t) (cc),
  all_permᴰ accepted h,
  normal_form_permᴰ h,
)

-- Two queries with the same parameters, in any order and as often, have one normal form, or are
-- both refused.
pub normalize_perm :
    (raw raw' : Text)
    → Perm (split b'&' raw) (split b'&' raw')
    → returned (normalize_query_rfc3986 raw) ≡ returned (normalize_query_rfc3986 raw')
normalize_perm raw raw' h = ∥∥₁_elim h (Option-set _ _) (normalize_permᴰ raw raw')
