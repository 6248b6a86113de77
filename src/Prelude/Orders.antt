-- ===== src/Prelude/Orders.antt =====
-- The order of texts, which is that of their bytes, and of pairs of texts.
use mathlib.Core.Path.{◌≡◌, refl}
use mathlib.Core.Bool.{Bool, true, false, ◌&&◌}
use mathlib.Core.List.{[], ◌∷◌}
use native.Mathlib.Omega.{arith}
use swaw_kit.Prelude.Tests.{if◌then◌else◌, ltb, ◌==◌}
use swaw_kit.Prelude.Texts.{Text, text_eq, text_eq_iff}
use swaw_kit.Prelude.Sorting.{IsOrder}

-- `left <= right` of `str::cmp`.
unfoldable pub text_le : Text → Text → Bool
text_le [] t = true
text_le (a ∷ s) [] = false
text_le (a ∷ s) (b ∷ t) = let rest = text_le s t in if ltb a b then true else (a == b) && rest

text_le_total : (s t : Text) → text_le s t ≡ false → text_le t s ≡ true
unfolding text_le
text_le_total [] t h = ground arith
text_le_total (a ∷ s) [] h = refl
text_le_total (a ∷ s) (b ∷ t) h = ground (arith, text_le_total s t)

text_le_trans : (s t u : Text) → text_le s t ≡ true → text_le t u ≡ true → text_le s u ≡ true
unfolding text_le
text_le_trans [] t u h k = refl
text_le_trans (a ∷ s) [] u h k = ground arith
text_le_trans (a ∷ s) (b ∷ t) [] h k = ground arith
text_le_trans (a ∷ s) (b ∷ t) (c ∷ u) h k = ground (arith, text_le_trans s t u)

pub text_le-IsOrder : IsOrder text_le
text_le-IsOrder = record { total = text_le_total; trans = text_le_trans }

pub text_le_refl : (s : Text) → text_le s s ≡ true
unfolding text_le
text_le_refl [] = refl
text_le_refl (a ∷ s) = ground (arith, text_le_refl s)

pub text_le_antisymm : (s t : Text) → text_le s t ≡ true → text_le t s ≡ true → s ≡ t
unfolding text_le
text_le_antisymm [] [] h k = refl
text_le_antisymm [] (b ∷ t) h k = ground arith
text_le_antisymm (a ∷ s) [] h k = ground arith
text_le_antisymm (a ∷ s) (b ∷ t) h k = ground (arith, text_le_antisymm s t)

-- An order by a key.
pub by_key-IsOrder {ℓ} :
    {A : Type ℓ} (key : A → Text) → IsOrder (λ (x y : A). text_le (key x) (key y))
by_key-IsOrder key = record {
  total = λ x y. text_le_total (key x) (key y);
  trans = λ x y z. text_le_trans (key x) (key y) (key z);
}

-- The order of a tuple of two keys.
abbrev pub pair_le : Text × Text → Text × Text → Bool
pair_le (a, b) (c, d) = if text_eq a c then text_le b d else text_le a c

pair_le_total : (x y : Text × Text) → pair_le x y ≡ false → pair_le y x ≡ true
pair_le_total (a, b) (c, d) h =
    ground (arith, text_eq_iff a c, text_eq_iff c a, text_le_total a c, text_le_total b d)

pair_le_trans : (x y z : Text × Text) → pair_le x y ≡ true → pair_le y z ≡ true → pair_le x z ≡ true
pair_le_trans (a, b) (c, d) (e, f) h k = ground (
  arith,
  text_eq_iff a c,
  text_eq_iff c e,
  text_eq_iff a e,
  text_le_trans a c e,
  text_le_trans b d f,
  text_le_antisymm a c,
)

pub pair_key-IsOrder {ℓ} :
    {A : Type ℓ} (key : A → Text × Text) → IsOrder (λ (x y : A). pair_le (key x) (key y))
pair_key-IsOrder key = record {
  total = λ x y. pair_le_total (key x) (key y);
  trans = λ x y z. pair_le_trans (key x) (key y) (key z);
}
