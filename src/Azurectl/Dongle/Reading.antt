-- ===== src/Azurectl/Dongle/Reading.antt =====
-- The answer of the relay board: how much of `resp` the loop fills.
use python2c.Base.{
  ℕ, zero, suc, ◌-◌, ◌≤◌, ◌≡◌, refl, ◌∷◌, [], Option, none, some, Bytes, length, length-append,
  arith,
}
use python2c.Azurectl.Dongle.{Round, stop, again, round, read_loop, resp_size}

-- `read` fills at most the count it is given.
abbrev pub IsBounded : (ℕ → ℕ → Option Bytes) → Type 0
IsBounded read = (t n : ℕ) (bs : Bytes) → read t n ≡ some bs → length bs ≤ n

abbrev Fits : Round → Type 0
Fits (stop total) = length total ≤ resp_size
Fits (again total lines) = length total ≤ resp_size

round-Fits :
    (o : Option Bytes) (resp : Bytes) (lines : ℕ)
    → length resp ≤ resp_size
    → ((bs : Bytes) → o ≡ some bs → length bs ≤ resp_size - length resp)
    → Fits (round o resp lines)
unfolding round
round-Fits none resp lines h b = ground arith
round-Fits (some []) resp lines h b = ground arith
round-Fits (some (x ∷ xs)) resp lines h b = ground (arith, b _ refl, length-append resp (x ∷ xs))

after :
    (r : Round) (rest : Bytes → ℕ → Bytes)
    → Fits r
    → ((total : Bytes) (lines : ℕ)
        → length total ≤ resp_size
        → length (rest total lines) ≤ resp_size)
    → length (elim r [ stop total ↦ total | again total lines ↦ rest total lines ]) ≤ resp_size
after (stop total) rest f g = f
after (again total lines) rest f g = g total lines f

-- The bytes read never run over the end of `resp`: if each `read` returns at most the count it is
-- asked for and the bytes so far fit, then so do the bytes at the end of the loop.
pub read_loop-bounded :
    (read : ℕ → ℕ → Option Bytes) (left tries lines : ℕ) (resp : Bytes)
    → IsBounded read
    → length resp ≤ 128
    → length (read_loop read left tries resp lines) ≤ 128
unfolding read_loop
read_loop-bounded read zero tries lines resp b h = h
read_loop-bounded read (suc left) tries lines resp b h =
    after (round (read tries (resp_size - length resp)) resp lines)
      (λ total l. read_loop read left (suc tries) total l)
      (round-Fits _ resp lines h (b tries (resp_size - length resp)))
      (λ total l f. read_loop-bounded read left (suc tries) l total b f)
