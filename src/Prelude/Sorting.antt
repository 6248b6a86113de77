-- ===== src/Prelude/Sorting.antt =====
-- `sort_by` under a total order that a Boolean test decides, and lists that differ in their order.
use mathlib.Core.Path.{◌≡◌, refl, ap, ◌∙◌}
use mathlib.Core.Logic.{inl, inr}
use mathlib.Core.Bool.{Bool, true, false, ◌&&◌, ◌||◌}
use mathlib.Core.List.{List, [], ◌∷◌, map}
use native.Mathlib.Omega.{arith}
use swaw_kit.Prelude.Tests.{if◌then◌else◌, Bool-cases}
use swaw_kit.Prelude.Lists.{All}

-- The laws of the order.
pub record IsOrder {ℓ} {A : Type ℓ} (le : A → A → Bool) : Type ℓ where
  pub total : (a b : A) → le a b ≡ false → le b a ≡ true
  pub trans : (a b c : A) → le a b ≡ true → le b c ≡ true → le a c ≡ true

-- One list is a rearrangement of the other.
pub data Shuffle {ℓ} {A : Type ℓ} : List A → List A → Type ℓ where
  same : {xs : List A} → Shuffle xs xs
  keep_head : (x : A) {xs ys : List A} → Shuffle xs ys → Shuffle (x ∷ xs) (x ∷ ys)
  swap_heads : (x y : A) (xs : List A) → Shuffle (x ∷ y ∷ xs) (y ∷ x ∷ xs)
  twice : {xs ys zs : List A} → Shuffle xs ys → Shuffle ys zs → Shuffle xs zs

pub Shuffle-sym {ℓ} : {A : Type ℓ} {xs ys : List A} → Shuffle xs ys → Shuffle ys xs
Shuffle-sym same = same
Shuffle-sym (keep_head x s) = keep_head x (Shuffle-sym s)
Shuffle-sym (swap_heads x y xs) = swap_heads y x xs
Shuffle-sym (twice s t) = twice (Shuffle-sym t) (Shuffle-sym s)

pub Shuffle-map {ℓ κ} :
    {A : Type ℓ} {B : Type κ} (f : A → B) {xs ys : List A}
    → Shuffle xs ys
    → Shuffle (map f xs) (map f ys)
Shuffle-map f same = same
Shuffle-map f (keep_head x s) = keep_head (f x) (Shuffle-map f s)
Shuffle-map f (swap_heads x y xs) = swap_heads (f x) (f y) (map f xs)
Shuffle-map f (twice s t) = twice (Shuffle-map f s) (Shuffle-map f t)

module _ {ℓ} {A : Type ℓ} (le : A → A → Bool) where
  -- The stable sort: an item goes before those that are equal to it.
  abbrev pub insert : A → List A → List A
  insert x [] = x ∷ []
  insert x (y ∷ ys) = let rest = insert x ys in if le x y then x ∷ y ∷ ys else y ∷ rest

  unfoldable pub sort : List A → List A
  sort [] = []
  sort (x ∷ xs) = insert x (sort xs)

  -- `windows(2).any(|pair| pair[0] >= pair[1])`.
  abbrev pub has_descent_from : A → List A → Bool
  has_descent_from x [] = false
  has_descent_from x (y ∷ ys) = le y x || has_descent_from y ys

  unfoldable pub has_descent : List A → Bool
  has_descent [] = false
  has_descent (x ∷ xs) = has_descent_from x xs

  -- Neither item is at most the other, or only one is: they are not equal in the order.
  abbrev pub Apart : A → A → Type 0
  Apart x y = (le x y && le y x) ≡ false

  -- No two items are equal in the order.
  abbrev pub Distinct : List A → Type ℓ
  Distinct [] = Unit
  Distinct (x ∷ xs) = All (λ (y : A). Apart x y) xs × Distinct xs

  -- The items ascend strictly.
  abbrev pub Ascends : A → List A → Type 0
  Ascends x [] = Unit
  Ascends x (y ∷ ys) = (le y x ≡ false) × Ascends y ys

  module _ (o : IsOrder le) where
    insert-insert :
        (x y : A) (xs : List A) → Apart x y → insert x (insert y xs) ≡ insert y (insert x xs)
    insert-insert x y [] h = ground (arith, o.total x y, o.total y x)
    insert-insert x y (z ∷ xs) h =
        ground
          (arith, insert-insert x y xs h, o.total x y, o.total y x, o.trans x y z, o.trans y x z)

    Apart-sym : (x y : A) → Apart x y → Apart y x
    Apart-sym x y h = ground arith

    Apart-Shuffle :
        (a : A) {xs ys : List A}
        → Shuffle xs ys
        → All (λ (y : A). Apart a y) xs
        → All (λ (y : A). Apart a y) ys
    Apart-Shuffle a same h = h
    Apart-Shuffle a (keep_head x s) (p, h) = (p, Apart-Shuffle a s h)
    Apart-Shuffle a (swap_heads x y xs) (p, (q, h)) = (q, (p, h))
    Apart-Shuffle a (twice s t) h = Apart-Shuffle a t (Apart-Shuffle a s h)

    pub Distinct-Shuffle : {xs ys : List A} → Shuffle xs ys → Distinct xs → Distinct ys
    Distinct-Shuffle same d = d
    Distinct-Shuffle (keep_head x s) (h, d) = (Apart-Shuffle x s h, Distinct-Shuffle s d)
    Distinct-Shuffle (swap_heads x y xs) ((p, h), (k, d)) = ((Apart-sym x y p, k), (h, d))
    Distinct-Shuffle (twice s t) d = Distinct-Shuffle t (Distinct-Shuffle s d)

    -- Items that are pairwise different have one sorted order, whatever order they come in.
    pub sort-Shuffle : {xs ys : List A} → Shuffle xs ys → Distinct xs → sort xs ≡ sort ys
    unfolding sort
    sort-Shuffle same d = refl
    sort-Shuffle (keep_head x s) (h, d) = ap (insert x) (sort-Shuffle s d)
    sort-Shuffle (swap_heads x y xs) ((p, _), _) = insert-insert x y (sort xs) p
    sort-Shuffle (twice s t) d = sort-Shuffle s d ∙ sort-Shuffle t (Distinct-Shuffle s d)

    Ascends-of_test : (x : A) (xs : List A) → has_descent_from x xs ≡ false → Ascends x xs
    Ascends-of_test x [] h = tt
    Ascends-of_test x (y ∷ ys) h = (ground arith, Ascends-of_test y ys (ground arith))

    below : (x y : A) (ys : List A) → le y x ≡ false → Ascends y ys → All (λ (z : A). Apart x z) ys
    below x y [] h k = tt
    below x y (z ∷ ys) h (p, k) =
        let far : le z x ≡ false = ground (arith, o.total z y, o.trans y z x, o.total y x) in
        (ground (arith, far), below x z ys far k)

    Distinct-of_Ascends : (x : A) (xs : List A) → Ascends x xs → Distinct (x ∷ xs)
    Distinct-of_Ascends x [] k = (tt, tt)
    Distinct-of_Ascends x (y ∷ ys) (p, k) =
        ((ground arith, below x y ys p k), Distinct-of_Ascends y ys k)

    pub Distinct-of_no_descent : (xs : List A) → has_descent xs ≡ false → Distinct xs
    unfolding has_descent
    Distinct-of_no_descent [] h = tt
    Distinct-of_no_descent (x ∷ xs) h = Distinct-of_Ascends x xs (Ascends-of_test x xs h)

  insert-Shuffle : (x : A) (xs : List A) → Shuffle (insert x xs) (x ∷ xs)
  insert-Shuffle x [] = same
  insert-Shuffle x (y ∷ ys) = elim (Bool-cases (le x y)) [
    | inl before ↦ rw before same
    | inr behind ↦ rw behind (twice (keep_head y (insert-Shuffle x ys)) (swap_heads y x ys))
  ]

  pub sort-Shuffles : (xs : List A) → Shuffle (sort xs) xs
  unfolding sort
  sort-Shuffles [] = same
  sort-Shuffles (x ∷ xs) = twice (insert-Shuffle x (sort xs)) (keep_head x (sort-Shuffles xs))

pub All-Shuffle {ℓ κ} :
    {A : Type ℓ} (P : A → Type κ) {xs ys : List A} → Shuffle xs ys → All P xs → All P ys
All-Shuffle P same h = h
All-Shuffle P (keep_head x s) (p, h) = (p, All-Shuffle P s h)
All-Shuffle P (swap_heads x y xs) (p, (q, h)) = (q, (p, h))
All-Shuffle P (twice s t) h = All-Shuffle P t (All-Shuffle P s h)
