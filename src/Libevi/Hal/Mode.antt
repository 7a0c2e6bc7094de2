-- ===== src/Libevi/Hal/Mode.antt =====
-- The interface that the display controller is in, as evi_hal_mt7688_gpio.c drives it over four of
-- its eight data lines. By the data sheet, function set (0x20 to 0x3F) chooses the interface with
-- its bit DL (0x10). In the 8-bit interface each transfer is a whole byte: the nibble on D7..D4,
-- and on D3..D0, which are not wired, whatever they read. In the 4-bit interface two transfers make
-- one.
use python2c.Base.{
  ℕ, ◌+◌, ◌*◌, ◌/◌, ◌%◌, ◌<◌, ◌≡◌, refl, ap, ◌&&◌, List, [], ◌∷◌, ◌++◌, ◌≢◌, IsByte, All, arith,
  if◌then◌else◌, ◌==◌,
}
use python2c.Libevi.Hal
use python2c.Libevi.Hal.{HalCall}
use python2c.Libevi.Hal.Bus.{Bus, split_bytes}
use python2c.Libevi.Hal.Traffic.{config_bytes, BytePair}

-- `upper` holds the first half of a byte, in the 4-bit interface.
pub data Mode : Type 0 where
  eight four : Mode
  upper : ℕ → Mode

-- After a byte, with its register select.
unfoldable pub after_byte : Mode → ℕ × ℕ → Mode
after_byte m (rs, v) = if rs == 0 && v / 32 == 1 then if v / 16 % 2 == 1 then eight else four else m

-- A transfer of a nibble, with what D3..D0 read: the interface afterwards, and the byte, if any.
unfoldable pub transfer : ℕ → Mode → ℕ × ℕ → Mode × List (ℕ × ℕ)
unfolding after_byte
transfer low eight (rs, n) = (after_byte eight (rs, n * 16 + low), (rs, n * 16 + low) ∷ [])
transfer low four (rs, n) = (upper n, [])
transfer low (upper hi) (rs, n) = (after_byte four (rs, hi * 16 + n), (rs, hi * 16 + n) ∷ [])

-- `low k` is what D3..D0 read at the transfer `k` from here.
unfoldable pub bytes_read : (ℕ → ℕ) → Mode → List (ℕ × ℕ) → List (ℕ × ℕ)
unfolding transfer
bytes_read low m [] = []
bytes_read low m (x ∷ xs) =
    (transfer (low 0) m x).1 ++ bytes_read (λ k. low (1 + k)) (transfer (low 0) m x).0 xs

-- No function set with DL.
abbrev pub KeepsFour : ℕ × ℕ → Type 0
KeepsFour p = after_byte four p ≡ four

-- What D3..D0 read after these bytes, of two transfers each.
abbrev pub later_low : List (ℕ × ℕ) → (ℕ → ℕ) → ℕ → ℕ
later_low [] low = low
later_low (p ∷ ps) low = later_low ps (λ k. low (1 + (1 + k)))

pub bytes_read-split_bytes :
    (low : ℕ → ℕ) (ps xs : List (ℕ × ℕ))
    → All BytePair ps
    → All KeepsFour ps
    → bytes_read low four (split_bytes ps ++ xs) ≡ ps ++ bytes_read (later_low ps low) four xs
unfolding bytes_read
bytes_read-split_bytes low [] xs h keeps = refl
bytes_read-split_bytes low ((rs, v) ∷ ps) xs h keeps =
    rw (byte_parts v h.0, keeps.0)
      (ap (λ qs. (rs, v) ∷ qs) (bytes_read-split_bytes (λ k. low (1 + (1 + k))) ps xs h.1 keeps.1))
  where
    byte_parts : (v : ℕ) → IsByte v → v / 16 % 16 * 16 + v % 16 ≡ v
    byte_parts v h = omega arith

-- The wires D3..D0 read four bits.
abbrev pub AreLow : (ℕ → ℕ) → Type 0
AreLow low = (k : ℕ) → low k < 16

-- What the controller reads of the power-on sequence, the first three in its 8-bit interface.
abbrev pub wake_bytes : (ℕ → ℕ) → List (ℕ × ℕ)
wake_bytes low = (0, 0x30 + low 0) ∷ (0, 0x30 + low 1) ∷ (0, 0x30 + low 2) ∷ (0, 0x20 + low 3) ∷ []

abbrev pub after_wake : (ℕ → ℕ) → ℕ → ℕ
after_wake low k = low (1 + (1 + (1 + (1 + k))))

pub bytes_read-wake :
    (low : ℕ → ℕ) (xs : List (ℕ × ℕ))
    → AreLow low
    → bytes_read low eight ((0, 3) ∷ (0, 3) ∷ (0, 3) ∷ (0, 2) ∷ xs)
      ≡ wake_bytes low ++ bytes_read (after_wake low) four xs
unfolding bytes_read
bytes_read-wake low xs h = rw (stays _ (h 0), stays _ (h 1), stays _ (h 2), goes _ (h 3)) refl
  where
    stays : (l : ℕ) → l < 16 → after_byte eight (0, 0x30 + l) ≡ eight
    stays l h = unfold after_byte in ground arith

    goes : (l : ℕ) → l < 16 → after_byte eight (0, 0x20 + l) ≡ four
    goes l h = unfold after_byte in ground arith

-- No instruction is function set with DL.
abbrev pub KeepsInterface : HalCall → Type 0
KeepsInterface (HalCall.write_instr c) = c / 16 ≢ 3
KeepsInterface _ = Unit

-- The bytes of the set-up.
pub config-Keeps : All BytePair config_bytes × All KeepsFour config_bytes
unfolding after_byte
config-Keeps = (omega arith, (refl, (refl, (refl, (refl, (refl, tt))))))
