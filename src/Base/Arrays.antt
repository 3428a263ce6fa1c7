-- ===== src/Base/Arrays.antt =====
-- C arrays as functions from the index, with the code's bound kept beside them: a read or a write
-- past the bound is a fault of the operation, not of the array.
use Prim.Native.Nat.{ℕ}
use mathlib.Core.Path.{◌≡◌}
use mathlib.Core.Logic.{◌≢◌}
use native.Mathlib.Omega.{arith}
use yamemcached.Base.Tests.{◌==◌, if◌then◌else◌}

abbrev pub update {ℓ} : {A : Type ℓ} → (ℕ → A) → ℕ → A → ℕ → A
update f i a j = if i == j then a else f j

module _ {ℓ} {A : Type ℓ} (f : ℕ → A) where
  pub update_self : (i : ℕ) (a : A) → update f i a i ≡ a
  update_self i a = ground arith

  pub update-ne : (i j : ℕ) (a : A) → i ≢ j → update f i a j ≡ f j
  update-ne i j a h = ground arith
