-- ===== src/Azurectl/Control/Mask.antt =====
-- The four switches of the relay board that the mask in the configuration keeps.
use python2c.Base.{
  Option, ℕ, zero, suc, ◌+◌, ◌-◌, ◌/◌, ◌%◌, ◌≤◌, ◌<◌, ◌≡◌, refl, Bool, true, false, ◌&&◌, ◌++◌, ◌∷◌,
  [], List, none, some, Bytes, codes, if◌then◌else◌, ltb, str_eq, str_eq_iff, ℤ, pos, negsuc, arith,
  ◌==ℤ◌, ==ℤ_iff,
}
use python2c.Base.Bits.{all_below, all_below→pass}
use python2c.Base.Scan.{print_dec, scan_dec}
use python2c.Azurectl.Uci.{fgets, strip_eol}
use python2c.Azurectl.Control.{switch, format_dongleport_bits}

-- The switches, that of port 1 first, as 0 and 1.
unfoldable pub switches : ℕ → List ℕ
switches mask = mask % 2 ∷ mask / 2 % 2 ∷ mask / 4 % 2 ∷ mask / 8 % 2 ∷ []

unfoldable pub put_at : ℕ → ℕ → List ℕ → List ℕ
put_at i x [] = []
put_at zero x (y ∷ ys) = x ∷ ys
put_at (suc i) x (y ∷ ys) = y ∷ put_at i x ys

-- Port `port` on or off, and no other.
unfoldable pub press : Bool → ℕ → List ℕ → List ℕ
unfolding put_at
press on port = put_at (port - 1) (if on then 1 else 0)

-- The switches, with commas between them.
unfoldable pub show_switches : List ℕ → Bytes
show_switches [] = []
show_switches (x ∷ []) = (b'0' + x) ∷ []
show_switches (x ∷ y ∷ ys) = (b'0' + x) ∷ b',' ∷ show_switches (y ∷ ys)

keeps : Bool → ℕ → ℕ → Bool
keeps on i mask =
    str_eq (switches (switch on (suc i) mask)) (press on (suc i) (switches mask))
    && ltb (switch on (suc i) mask) 16

keeps_table : (on : Bool) → all_below 4 (λ i. all_below 16 (keeps on i)) ≡ true
unfolding all_below keeps switches switch press
keeps_table true = refl
keeps_table false = refl

-- Switching one of the four ports in a mask below 16 sets that port's switch as asked and no other,
-- and the mask stays below 16.
pub switch-press :
    (on : Bool) (port mask : ℕ)
    → 1 ≤ port
    → port ≤ 4
    → mask < 16
    → (switches (switch on port mask) ≡ press on port (switches mask)) × (switch on port mask < 16)
unfolding keeps
switch-press on zero mask l u h = absurd (omega arith)
switch-press on (suc i) mask l u h = ground (
  arith,
  row,
  all_below→pass 16 (keeps on i) mask row h,
  str_eq_iff (switches (switch on (suc i) mask)) (press on (suc i) (switches mask)),
)
  where
    row : all_below 16 (keeps on i) ≡ true
    row = all_below→pass 4 (λ j. all_below 16 (keeps on j)) i (keeps_table on) (omega arith)

shown_table :
    all_below 16 (λ m. str_eq (format_dongleport_bits m) (show_switches (switches m))) ≡ true
unfolding all_below switches show_switches format_dongleport_bits
shown_table = refl

-- What is printed of a mask below 16 are its four switches.
pub format_dongleport_bits-shows :
    (mask : ℕ) → mask < 16 → format_dongleport_bits mask ≡ show_switches (switches mask)
format_dongleport_bits-shows mask h = (str_eq_iff _ _).0 (all_below→pass 16 _ mask shown_table h)

-- What `uci_get_int` makes of the output of `uci -q get`.
unfoldable pub read_back : Bytes → ℤ
read_back printed =
    let buf : Option Bytes = elim (fgets 64 printed) [
      | none ↦ none
      | some line ↦ some (strip_eol line)
    ] in
    elim buf [ none ↦ negsuc 0 | some line ↦ elim (scan_dec line) [ none ↦ negsuc 0 | some v ↦ v ] ]

read_table : all_below 16 (λ m. read_back (print_dec (pos m) ++ codes "\n") ==ℤ pos m) ≡ true
unfolding all_below read_back print_dec scan_dec fgets strip_eol
read_table = refl

pub read_back-print_dec : (m : ℕ) → m < 16 → read_back (print_dec (pos m) ++ codes "\n") ≡ pos m
read_back-print_dec m h = (==ℤ_iff _ _).0 (all_below→pass 16 _ m read_table h)
