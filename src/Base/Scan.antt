-- ===== src/Base/Scan.antt =====
-- What the sources use of the C library's `sscanf`, `atoi` and `snprintf` on numbers, on a machine
-- whose `int` and `long` have 32 bits: values out of range are cut at the end of the range, and a
-- "0x" with no digit behind it is no number.
use Prim.Native.Nat.{ℕ, zero, suc, ◌+◌, ◌-◌, ◌*◌, ◌/◌, ◌%◌, ◌^◌, min}
use mathlib.Core.Bool.{Bool, true, false, ◌&&◌, ◌||◌}
use mathlib.Core.List.{[], ◌∷◌}
use mathlib.Core.Option.{Option, none, some}
use python2c.Base.Tests.{ltb, leb, ◌==◌, if◌then◌else◌}
use python2c.Base.Text.{Bytes}
use python2c.Base.Int.{ℤ, pos, negsuc}

abbrev pub is_space : ℕ → Bool
is_space c = c == 32 || leb 9 c && leb c 13

abbrev pub dec_val : ℕ → Option ℕ
dec_val c = if leb b'0' c && leb c b'9' then some (c - b'0') else none

abbrev pub hex_val : ℕ → Option ℕ
hex_val c =
    if leb b'0' c && leb c b'9'
    then some (c - b'0')
    else if leb b'A' c && leb c b'F'
    then some (c - b'A' + 10)
    else if leb b'a' c && leb c b'f'
    then some (c - b'a' + 10)
    else none

unfoldable pub skip_space : Bytes → Bytes
skip_space [] = []
skip_space (c ∷ cs) = let rest = skip_space cs in if is_space c then rest else c ∷ cs

-- The number that the digits at the front stand for, after `acc`.
unfoldable pub digit_run : (ℕ → Option ℕ) → ℕ → ℕ → Bytes → ℕ
digit_run val base acc [] = acc
digit_run val base acc (c ∷ cs) = elim (val c) [
  | none ↦ acc
  | some d ↦ digit_run val base (acc * base + d) cs
]

unfoldable pub starts_digit : (ℕ → Option ℕ) → Bytes → Bool
starts_digit val [] = false
starts_digit val (c ∷ cs) = elim (val c) [ none ↦ false | some d ↦ true ]

unfoldable pub read_digits : (ℕ → Option ℕ) → ℕ → Bytes → Option ℕ
unfolding digit_run starts_digit
read_digits val base s = if starts_digit val s then some (digit_run val base 0 s) else none

-- Drops an optional "0x".
unfoldable pub drop_0x : Bytes → Bytes
drop_0x (z ∷ x ∷ cs) = if z == b'0' && (x == b'x' || x == b'X') then cs else z ∷ x ∷ cs
drop_0x s = s

abbrev pub unsigned_max : ℕ
unsigned_max = 2 ^ 32 - 1

unfoldable pub signed_read : (Bytes → Option ℕ) → Bytes → Option (Bool × ℕ)
signed_read read [] = none
signed_read read (c ∷ cs) =
    if c == b'-'
    then elim (read cs) [ none ↦ none | some n ↦ some (true, n) ]
    else if c == b'+'
    then elim (read cs) [ none ↦ none | some n ↦ some (false, n) ]
    else elim (read (c ∷ cs)) [ none ↦ none | some n ↦ some (false, n) ]

-- `sscanf(s, "%x", &v)` for an `unsigned v`: a minus sign negates modulo 2 ^ 32.
unfoldable pub scan_hex : Bytes → Option ℕ
unfolding signed_read read_digits drop_0x skip_space
scan_hex s = elim (signed_read (λ t. read_digits hex_val 16 (drop_0x t)) (skip_space s)) [
  | none ↦ none
  | some (neg, n) ↦
      some (if neg then (2 ^ 32 - min n unsigned_max) % 2 ^ 32 else min n unsigned_max)
]

-- `sscanf(s, "%d", &v)` and, with 0 for `none`, `atoi(s)`.
unfoldable pub scan_dec : Bytes → Option ℤ
unfolding signed_read read_digits skip_space
scan_dec s = elim (signed_read (read_digits dec_val 10) (skip_space s)) [
  | none ↦ none
  | some (neg, zero) ↦ some (pos 0)
  | some (neg, suc n) ↦
      some (if neg then negsuc (min n (2 ^ 31 - 1)) else pos (min (suc n) (2 ^ 31 - 1)))
]

unfoldable pub atoi : Bytes → ℤ
unfolding scan_dec
atoi s = elim (scan_dec s) [ none ↦ pos 0 | some v ↦ v ]

abbrev pub hex_digit : ℕ → ℕ
hex_digit d = if ltb d 10 then b'0' + d else b'A' + (d - 10)

-- `%02X` of a byte.
abbrev pub print_hex2 : ℕ → Bytes
print_hex2 v = hex_digit (v / 16) ∷ hex_digit (v % 16) ∷ []

-- The decimal digits of `n`, on fuel; `n` rounds are enough.
unfoldable pub dec_digits : ℕ → ℕ → Bytes → Bytes
dec_digits zero n acc = acc
dec_digits (suc f) n acc =
    let d = (b'0' + n % 10) ∷ acc in
    let more = dec_digits f (n / 10) d in if ltb n 10 then d else more

-- `%d` and `%ld`.
unfoldable pub print_dec : ℤ → Bytes
unfolding dec_digits
print_dec (pos n) = dec_digits (suc n) n []
print_dec (negsuc n) = b'-' ∷ dec_digits (suc (suc n)) (suc n) []
