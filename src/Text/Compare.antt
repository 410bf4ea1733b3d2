-- ===== src/Text/Compare.antt =====
-- The order of `str` by code points, and of tuples of them.
use trustplane_auth_sdk_pyth.Base.{
  ◌≡◌, refl, Bool, true, false, [], ◌∷◌, arith, Text, ltb, if◌then◌else◌,
}
use trustplane_auth_sdk_pyth.Base.Order.{TotalOrder}
use trustplane_auth_sdk_pyth.Text.Defs.{text_eq}
use trustplane_auth_sdk_pyth.Text.Laws.{text_eq_iff}

-- `s <= t`.
unfoldable pub text_le : Text → Text → Bool
text_le [] t = true
text_le (c ∷ s) [] = false
text_le (c ∷ s) (d ∷ t) =
    let rest = text_le s t in if ltb c d then true else if ltb d c then false else rest

pub text_le_refl : (s : Text) → text_le s s ≡ true
unfolding text_le
text_le_refl [] = refl
text_le_refl (c ∷ s) = ground (arith, text_le_refl s)

text_le_total : (s t : Text) → text_le s t ≡ false → text_le t s ≡ true
unfolding text_le
text_le_total [] t h = cc
text_le_total (c ∷ s) [] h = refl
text_le_total (c ∷ s) (d ∷ t) h = ground (arith, text_le_total s t)

text_le_trans : (s t u : Text) → text_le s t ≡ true → text_le t u ≡ true → text_le s u ≡ true
unfolding text_le
text_le_trans [] t u h k = refl
text_le_trans (c ∷ s) [] u h k = cc
text_le_trans (c ∷ s) (d ∷ t) [] h k = cc
text_le_trans (c ∷ s) (d ∷ t) (e ∷ u) h k = ground (arith, text_le_trans s t u)

text_le_antisym : (s t : Text) → text_le s t ≡ true → text_le t s ≡ true → s ≡ t
unfolding text_le
text_le_antisym [] [] h k = refl
text_le_antisym [] (d ∷ t) h k = cc
text_le_antisym (c ∷ s) [] h k = cc
text_le_antisym (c ∷ s) (d ∷ t) h k = ground (arith, text_le_antisym s t)

pub text_order : TotalOrder text_le
text_order = record { total = text_le_total; trans = text_le_trans; antisym = text_le_antisym }

-- `(k, v) <= (l, w)`: by the first components that differ.
unfoldable pub pair_le : Text × Text → Text × Text → Bool
unfolding text_eq
pair_le (k, v) (l, w) = if text_eq k l then text_le v w else text_le k l

pair_le_total : (x y : Text × Text) → pair_le x y ≡ false → pair_le y x ≡ true
unfolding pair_le
pair_le_total (k, v) (l, w) h =
    ground (arith, text_eq_iff k l, text_eq_iff l k, text_le_total v w, text_le_total k l)

pair_le_trans : (x y z : Text × Text) → pair_le x y ≡ true → pair_le y z ≡ true → pair_le x z ≡ true
unfolding pair_le
pair_le_trans (k, v) (l, w) (m, u) g h = ground (
  arith,
  text_eq_iff k l,
  text_eq_iff l m,
  text_eq_iff k m,
  text_le_trans v w u,
  text_le_trans k l m,
  text_le_antisym k l,
)

pair_le_antisym : (x y : Text × Text) → pair_le x y ≡ true → pair_le y x ≡ true → x ≡ y
unfolding pair_le
pair_le_antisym (k, v) (l, w) g h =
    ground (arith, text_eq_iff k l, text_eq_iff l k, text_le_antisym k l, text_le_antisym v w)

pub pair_order : TotalOrder pair_le
pair_order = record { total = pair_le_total; trans = pair_le_trans; antisym = pair_le_antisym }
