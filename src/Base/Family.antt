-- ===== src/Base/Family.antt =====
-- Families indexed by thread, with one member changed.
use Prim.Native.Nat.{ℕ}
use mathlib.Core.Path.{◌≡◌}
use mathlib.Core.Logic.{◌≢◌}
use native.Mathlib.Omega.{arith}
use python2c.Base.Tests.{◌==◌, ==_iff, if◌then◌else◌}

module _ {ℓ} {A : Type ℓ} where
  abbrev pub update : (ℕ → A) → ℕ → A → ℕ → A
  update f i a k = if k == i then a else f k

  pub update-same : (f : ℕ → A) (i : ℕ) (a : A) → update f i a i ≡ a
  update-same f i a = ground (arith, ==_iff i i)

  pub update-other : (f : ℕ → A) (i k : ℕ) (a : A) → k ≢ i → update f i a k ≡ f k
  update-other f i k a h = ground (arith, ==_iff k i)
