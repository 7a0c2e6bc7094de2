-- ===== src/Azurectl/Modbus/Crc.antt =====
-- The checksum of package/evi-azurectl/src/modbus_rtu.c.
use Prim.Native.Nat.{bit_xor}
use python2c.Base.{
  ℕ, zero, suc, ◌+◌, ◌*◌, ◌/◌, ◌%◌, ◌^◌, ◌<◌, ◌≡◌, ◌≢◌, refl, sym, ap, ◌∙◌, [], ◌∷◌, ◌++◌, Bytes,
  IsByte, All, arith, if◌then◌else◌, ltb,
}
use python2c.Base.Xor.{bit_xor-lt, bit_xor-low, bit_xor_cancel, bit_xor_comm, bit_xor-top}
use python2c.Azurectl.Modbus.{crc_round, crc_rounds, crc_byte, crc_loop, crc16}

abbrev pub IsU16 : ℕ → Type 0
IsU16 n = n < 2 ^ 16

crc_round-IsU16 : (c : ℕ) → IsU16 c → IsU16 (crc_round c)
unfolding crc_round
crc_round-IsU16 c h = ground (arith, bit_xor-lt 16 (c / 2) 0xA001 (omega arith) (omega arith))

crc_rounds-IsU16 : (n c : ℕ) → IsU16 c → IsU16 (crc_rounds n c)
unfolding crc_rounds
crc_rounds-IsU16 zero c h = h
crc_rounds-IsU16 (suc n) c h = crc_rounds-IsU16 n (crc_round c) (crc_round-IsU16 c h)

pub crc_byte-IsU16 : (c b : ℕ) → IsU16 c → IsByte b → IsU16 (crc_byte c b)
unfolding crc_byte
crc_byte-IsU16 c b h k = crc_rounds-IsU16 8 _ (bit_xor-lt 16 c b h (omega arith))

-- The checksum is an uint16_t.
pub crc_loop-IsU16 : (c : ℕ) (bs : Bytes) → IsU16 c → All IsByte bs → IsU16 (crc_loop c bs)
unfolding crc_loop
crc_loop-IsU16 c [] h k = h
crc_loop-IsU16 c (b ∷ bs) h k = crc_loop-IsU16 (crc_byte c b) bs (crc_byte-IsU16 c b h k.0) k.1

pub crc_loop-append : (c : ℕ) (xs ys : Bytes) → crc_loop c (xs ++ ys) ≡ crc_loop (crc_loop c xs) ys
unfolding crc_loop
crc_loop-append c [] ys = refl
crc_loop-append c (x ∷ xs) ys = crc_loop-append (crc_byte c x) xs ys

even_round : (h : ℕ) → crc_round (2 * h) ≡ h
unfolding crc_round
even_round h = ground arith

eight_rounds : (h : ℕ) → crc_rounds 8 (h * 2 ^ 8) ≡ h
unfolding crc_rounds
eight_rounds h =
    let doubled : h * 2 ^ 8 ≡ 2 * (2 * (2 * (2 * (2 * (2 * (2 * (2 * h))))))) = omega arith in
    rw doubled (simp even_round)

-- The low byte of the checksum moves the high byte down.
crc_byte_low : (h l : ℕ) → l < 256 → crc_byte (h * 2 ^ 8 + l) l ≡ h
unfolding crc_byte
crc_byte_low h l k = rw (bit_xor-low 8 h l k) (eight_rounds h)

crc_byte_self : (c : ℕ) → crc_byte c (c % 256) ≡ c / 256
crc_byte_self c =
    let parts : c ≡ c / 256 * 2 ^ 8 + c % 256 = omega arith in
    ap (λ x. crc_byte x (c % 256)) parts ∙ crc_byte_low (c / 256) (c % 256) (omega arith)

pub own_checksum : (c : ℕ) → IsU16 c → crc_loop c ((c % 256) ∷ (c / 256) ∷ []) ≡ 0
unfolding crc_loop
own_checksum c h =
    let low : c / 256 ≡ 0 * 2 ^ 8 + c / 256 = omega arith in
    ap (λ x. crc_byte x (c / 256)) (crc_byte_self c ∙ low) ∙ crc_byte_low 0 (c / 256) (omega arith)

-- A message of bytes followed by its checksum, the low byte first, has checksum 0.
pub crc16_residue :
    (bs : Bytes) → All IsByte bs → crc16 (bs ++ ((crc16 bs % 256) ∷ (crc16 bs / 256) ∷ [])) ≡ 0
unfolding crc16
crc16_residue bs h =
    crc_loop-append 0xFFFF bs _
    ∙ own_checksum (crc_loop 0xFFFF bs) (crc_loop-IsU16 0xFFFF bs (omega arith) h)

-- A round can be undone: its top digit tells which case it took.
unround : ℕ → ℕ
unround c = if ltb c (2 ^ 15) then 2 * c else 2 * bit_xor c 0xA001 + 1

unround-crc_round : (c : ℕ) → IsU16 c → unround (crc_round c) ≡ c
unfolding unround crc_round
unround-crc_round c h = ground (
  arith,
  bit_xor-top (c / 2) 0xA001 (omega arith) (omega arith) (omega arith),
  bit_xor_cancel 16 (c / 2) 0xA001 (omega arith) (omega arith),
)

crc_rounds-injective : (n c d : ℕ) → IsU16 c → IsU16 d → crc_rounds n c ≡ crc_rounds n d → c ≡ d
unfolding crc_rounds
crc_rounds-injective zero c d h k e = e
crc_rounds-injective (suc n) c d h k e =
    let rounds =
      crc_rounds-injective n (crc_round c) (crc_round d) (crc_round-IsU16 c h) (crc_round-IsU16 d k)
        e in
    sym (unround-crc_round c h) ∙ ap unround rounds ∙ unround-crc_round d k

crc_byte-injective :
    (c d b : ℕ) → IsU16 c → IsU16 d → IsByte b → crc_byte c b ≡ crc_byte d b → c ≡ d
unfolding crc_byte
crc_byte-injective c d b h k i e =
    let mixed =
      crc_rounds-injective 8 (bit_xor c b) (bit_xor d b) (bit_xor-lt 16 c b h (omega arith))
        (bit_xor-lt 16 d b k (omega arith)) e in
    sym (bit_xor_cancel 16 c b h (omega arith))
    ∙ ap (λ x. bit_xor x b) mixed
    ∙ bit_xor_cancel 16 d b k (omega arith)

crc_byte-injective_right :
    (c x y : ℕ) → IsU16 c → IsByte x → IsByte y → crc_byte c x ≡ crc_byte c y → x ≡ y
unfolding crc_byte
crc_byte-injective_right c x y h i j e =
    let mixed =
      crc_rounds-injective 8 (bit_xor c x) (bit_xor c y) (bit_xor-lt 16 c x h (omega arith))
        (bit_xor-lt 16 c y h (omega arith)) e in
    sym (bit_xor_cancel 16 x c (omega arith) h)
    ∙ ap (λ v. bit_xor v c)
        (bit_xor_comm 16 x c (omega arith) h ∙ mixed ∙ bit_xor_comm 16 c y h (omega arith))
    ∙ bit_xor_cancel 16 y c (omega arith) h

crc_loop-injective :
    (bs : Bytes) (c d : ℕ)
    → IsU16 c
    → IsU16 d
    → All IsByte bs
    → crc_loop c bs ≡ crc_loop d bs
    → c ≡ d
unfolding crc_loop
crc_loop-injective [] c d h k i e = e
crc_loop-injective (b ∷ bs) c d h k i e = crc_byte-injective c d b h k i.0 (
    crc_loop-injective bs (crc_byte c b) (crc_byte d b) (crc_byte-IsU16 c b h i.0)
      (crc_byte-IsU16 d b k i.0) i.1 e)

-- Two messages of bytes that differ in one byte, whatever stands before and after it, have
-- different checksums.
pub crc16_detects :
    (xs ys : Bytes) (x y : ℕ)
    → All IsByte xs
    → All IsByte ys
    → IsByte x
    → IsByte y
    → x ≢ y
    → crc16 (xs ++ (x ∷ ys)) ≢ crc16 (xs ++ (y ∷ ys))
unfolding crc16 crc_loop
crc16_detects xs ys x y hx hy ix iy ne e =
    let start = crc_loop 0xFFFF xs in
    let fits = crc_loop-IsU16 0xFFFF xs (omega arith) hx in
    let tails = sym (crc_loop-append 0xFFFF xs (x ∷ ys)) ∙ e ∙ crc_loop-append 0xFFFF xs (y ∷ ys) in
    ne (
      crc_byte-injective_right start x y fits ix iy (
        crc_loop-injective ys (crc_byte start x) (crc_byte start y) (crc_byte-IsU16 start x fits ix)
          (crc_byte-IsU16 start y fits iy) hy tails))
