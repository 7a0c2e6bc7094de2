-- ===== src/Libevi/Begin.antt =====
-- `begin` of package/libevi/src/evi_caption.c and evi_charge_router.c, as a controller reads it
-- that follows the bit DL of function set: 0x38 has that bit, and the driver sends it over four
-- lines.
use python2c.Base.{ℕ, zero, suc, ◌+◌, List, [], ◌∷◌}
use python2c.Libevi.Hal
use python2c.Libevi.Hal.Bus.{Bus}

-- What D3..D0 read from the transfer `n` on.
abbrev pub from_transfer : ℕ → (ℕ → ℕ) → ℕ → ℕ
from_transfer zero low = low
from_transfer (suc n) low = from_transfer n (λ k. low (1 + k))

-- The six transfers of `begin`: the byte 0x38, and four bytes for the two instructions after it.
abbrev begin_bytes : (ℕ → ℕ) → List (ℕ × ℕ)
begin_bytes low = (0, 0x38) ∷ (0, low 2) ∷ (0, 0x10 + low 3) ∷ (0, low 4) ∷ (0, 0xC0 + low 5) ∷ []
