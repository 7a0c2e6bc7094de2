-- ===== src/Base/Bits.antt =====
-- Facts about the native bit operations at variables: tables over a byte, and the digit laws.
use Prim.Native.Nat.{bit_and, bit_or}
use Prim.Native.Nat.{ℕ, zero, suc, ◌<◌, ◌+◌, ◌%◌}
use mathlib.Core.Path.{◌≡◌, refl}
use mathlib.Core.Bool.{Bool, true, ◌&&◌}
use native.Mathlib.Omega.{arith}
use python2c.Base.Tests.{ltb, ◌==◌, ==_iff}

-- Every value below a bound passes a test, checked by evaluation.
unfoldable pub all_below : ℕ → (ℕ → Bool) → Bool
all_below zero p = true
all_below (suc n) p = p n && all_below n p

pub all_below→pass : (n : ℕ) (p : ℕ → Bool) (x : ℕ) → all_below n p ≡ true → x < n → p x ≡ true
unfolding all_below
all_below→pass zero p x h lt = absurd (omega arith)
all_below→pass (suc n) p x h lt = ground (arith, all_below→pass n p x)

ddram_table : all_below 256 (λ x. ltb (bit_or 0x80 (bit_and x 0x7F)) 256) ≡ true
unfolding all_below
ddram_table = refl

pub ddram_byte : (x : ℕ) → x < 256 → bit_or 0x80 (bit_and x 0x7F) < 256
ddram_byte x h = ground (arith, all_below→pass 256 _ x ddram_table h)

ddram_high_table : all_below 256 (λ x. ltb 127 (bit_or 0x80 (bit_and x 0x7F))) ≡ true
unfolding all_below
ddram_high_table = refl

-- The command bit is set.
pub ddram_high : (x : ℕ) → x < 256 → 127 < bit_or 0x80 (bit_and x 0x7F)
ddram_high x h = ground (arith, all_below→pass 256 _ x ddram_high_table h)

ddram_value_table : all_below 256 (λ x. bit_or 0x80 (bit_and x 0x7F) == 128 + x % 128) ≡ true
unfolding all_below
ddram_value_table = refl

-- The address in the low seven bits.
pub ddram_value : (x : ℕ) → x < 256 → bit_or 0x80 (bit_and x 0x7F) ≡ 128 + x % 128
ddram_value x h = (==_iff _ _).0 (all_below→pass 256 _ x ddram_value_table h)
