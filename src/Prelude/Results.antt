-- ===== src/Prelude/Results.antt =====
-- Rust's `Result`, its `?` as `do`, and inversion of a successful chain.
use mathlib.Core.Path.{◌≡◌, refl}
use mathlib.Core.Logic.{◌⊎◌, inl, inr}
use mathlib.Core.Bool.{Bool, true, false}
use mathlib.Core.Option.{Option, none, some}

pub data Result {ℓ κ} (E : Type ℓ) (A : Type κ) : Type (ℓ ⊔ κ) where
  ok : A → Result E A
  err : E → Result E A

infixl 5 ◌>>=◌ ◌>>◌
abbrev pub ◌>>=◌ {ℓ κ μ} :
    {E : Type ℓ} {A : Type κ} {B : Type μ} → Result E A → (A → Result E B) → Result E B
◌>>=◌ (err fault) next = err fault
◌>>=◌ (ok value) next = next value

abbrev pub ◌>>◌ {ℓ κ} : {E : Type ℓ} {B : Type κ} → Result E (Unit {0}) → Result E B → Result E B
◌>>◌ (err fault) next = err fault
◌>>◌ (ok _) next = next

-- `if bad { return Err(e) }`.
abbrev pub reject_if {ℓ} : {E : Type ℓ} → Bool → E → Result E (Unit {0})
reject_if true e = err e
reject_if false e = ok tt

abbrev pub require {ℓ} : {E : Type ℓ} → Bool → E → Result E (Unit {0})
require true e = ok tt
require false e = err e

-- `map_err` with a constant.
abbrev pub or_err {ℓ κ μ} : {E : Type ℓ} {F : Type κ} {A : Type μ} → Result E A → F → Result F A
or_err (ok a) e = ok a
or_err (err _) e = err e

abbrev pub is_ok {ℓ κ} : {E : Type ℓ} {A : Type κ} → Result E A → Bool
is_ok (ok _) = true
is_ok (err _) = false

-- `ok_or`.
abbrev pub ok_or {ℓ κ} : {E : Type ℓ} {A : Type κ} → Option A → E → Result E A
ok_or none e = err e
ok_or (some a) e = ok a

-- A chain succeeds only through its first step.
pub >>=-eq-ok {ℓ κ μ} :
    {E : Type ℓ} {A : Type κ} {B : Type μ} {out : B}
    → (first : Result E A) (next : A → Result E B) → (first >>= next) ≡ ok out
    → (value : A) × (first ≡ ok value) × (next value ≡ ok out)
>>=-eq-ok (err fault) next done = cc
>>=-eq-ok (ok value) next done = (value, refl, done)

-- To split on a result and keep the equation.
pub Result-cases {ℓ κ} :
    {E : Type ℓ} {A : Type κ} (m : Result E A) → ((a : A) × (m ≡ ok a)) ⊎ ((e : E) × (m ≡ err e))
Result-cases (ok a) = inl (a, refl)
Result-cases (err e) = inr (e, refl)

pub ok-ne-err {ℓ κ} : {E : Type ℓ} {A : Type κ} {a : A} {e : E} → ok a ≡ err e → ⊥
ok-ne-err h = cc

pub >>-eq-ok {ℓ κ} :
    {E : Type ℓ} {B : Type κ} {out : B} (first : Result E (Unit {0})) (next : Result E B)
    → (first >> next) ≡ ok out
    → (first ≡ ok tt) × (next ≡ ok out)
>>-eq-ok (err fault) next done = cc
>>-eq-ok (ok _) next done = (refl, done)

pub reject_if-eq-ok {ℓ} : {E : Type ℓ} (bad : Bool) (e : E) → reject_if bad e ≡ ok tt → bad ≡ false
reject_if-eq-ok true e h = cc
reject_if-eq-ok false e h = refl
