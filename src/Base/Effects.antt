-- ===== src/Base/Effects.antt =====
-- What a run of a C++ function comes to: a value, a call of `abort()`, an access out of bounds
-- (undefined behaviour), or a loop that no thread but its own could ever end.
use mathlib.Core.Path.{◌≡◌, ap, refl, subst}
use mathlib.Core.Bool.{Bool, true, false}
use yamemcached.Base.Tests.{if◌then◌else◌}

pub data Outcome {ℓ} (A : Type ℓ) : Type ℓ where
  ok : A → Outcome A
  abort : Outcome A
  fault : Outcome A
  spin : Outcome A

infixl 5 ◌>>=◌
abbrev pub ◌>>=◌ {ℓ κ} : {A : Type ℓ} {B : Type κ} → Outcome A → (A → Outcome B) → Outcome B
ok a >>= f = f a
abort >>= f = abort
fault >>= f = fault
spin >>= f = spin

abbrev value_or {ℓ} : {A : Type ℓ} → A → Outcome A → A
value_or d (ok a) = a
value_or d abort = d
value_or d fault = d
value_or d spin = d

pub ok-injective {ℓ} : {A : Type ℓ} {a b : A} → ok a ≡ ok b → a ≡ b
ok-injective {a = a} e = ap (value_or a) e

-- What holds of the value where there is one.
pub data Each {A : Type 0} (P : A → Type 0) : Outcome A → Type 0 where
  each_ok : (a : A) → P a → Each P (ok a)
  each_abort : Each P abort
  each_fault : Each P fault
  each_spin : Each P spin

module _ {A : Type 0} {P : A → Type 0} where
  pub Each-bind :
      {B : Type 0} {Q : B → Type 0} {m : Outcome A}
      → Each P m
      → (f : A → Outcome B) → ((a : A) → P a → Each Q (f a))
      → Each Q (m >>= f)
  Each-bind (each_ok a p) f on = on a p
  Each-bind each_abort f on = each_abort
  Each-bind each_fault f on = each_fault
  Each-bind each_spin f on = each_spin

  pub Each-if :
      (b : Bool) {m n : Outcome A}
      → (b ≡ true → Each P m)
      → (b ≡ false → Each P n)
      → Each P (if b then m else n)
  Each-if true l r = l refl
  Each-if false l r = r refl

  pub Each-result : {m : Outcome A} (a : A) → Each P m → m ≡ ok a → P a
  Each-result a (each_ok b p) e = subst P (ok-injective e) p
  Each-result a each_abort e = cc
  Each-result a each_fault e = cc
  Each-result a each_spin e = cc

-- Inversion of a bind that gave a value.
pub >>=-eq-ok {ℓ κ} :
    {A : Type ℓ} {B : Type κ} (m : Outcome A) (f : A → Outcome B) {b : B}
    → (m >>= f) ≡ ok b
    → (a : A) × (m ≡ ok a) × (f a ≡ ok b)
>>=-eq-ok (ok a) f e = (a, refl, e)
>>=-eq-ok abort f e = cc
>>=-eq-ok fault f e = cc
>>=-eq-ok spin f e = cc
