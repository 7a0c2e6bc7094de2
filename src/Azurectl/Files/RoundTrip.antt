-- ===== src/Azurectl/Files/RoundTrip.antt =====
-- A line written to a file is read again.
use python2c.Base.{
  ℕ, zero, suc, ◌-◌, ◌<◌, ◌≤◌, ◌≡◌, ◌≢◌, refl, ap, ◌∙◌, true, false, ◌||◌, [], ◌∷◌, ◌++◌, some,
  Bytes, All, str_eq_refl, take, take-eq_of_le, length, if◌then◌else◌, ◌==◌, until_zero, arith,
}
use python2c.Azurectl.Uci.{first_line, fgets, strip_eol}
use python2c.Azurectl.Files
use python2c.Azurectl.Files.{Disk, line_of, set_content}

-- Neither a newline, nor a carriage return, nor the end of a string.
abbrev pub IsPrinted : ℕ → Type 0
IsPrinted c = ((c == b'\n') ≡ false) × ((c == b'\r') ≡ false) × ((c == 0) ≡ false)

-- What may follow a line: nothing, or its newline and other lines.
abbrev pub Ends : Bytes → Type 0
Ends [] = Unit
Ends (c ∷ cs) = c ≡ b'\n'

strip_eol-cons : (c : ℕ) (xs : Bytes) → IsPrinted c → strip_eol (c ∷ xs) ≡ c ∷ strip_eol xs
unfolding strip_eol
strip_eol-cons c xs (n, r, z) = behind (strip_eol xs)
  where
    behind :
        (d : Bytes)
        → elim d as (λ _. Bytes) [
          | [] ↦ if c == b'\n' || c == b'\r' then [] else c ∷ []
          | e ∷ es ↦ c ∷ e ∷ es
        ]
          ≡ c ∷ d
    behind [] = rw (n, r) refl
    behind (e ∷ es) = refl

first_line-cons : (c : ℕ) (xs : Bytes) → IsPrinted c → first_line (c ∷ xs) ≡ c ∷ first_line xs
unfolding first_line
first_line-cons c xs (n, r, z) = rw n refl

first_line-newline : (rest : Bytes) → first_line (b'\n' ∷ rest) ≡ b'\n' ∷ []
unfolding first_line
first_line-newline rest = refl

until_zero-cons : (c : ℕ) (xs : Bytes) → IsPrinted c → until_zero (c ∷ xs) ≡ c ∷ until_zero xs
unfolding until_zero
until_zero-cons c xs (n, r, z) = rw z refl

newline_only : strip_eol (until_zero (b'\n' ∷ [])) ≡ []
unfolding strip_eol until_zero
newline_only = refl

-- The line comes back, whether or not its newline fits.
taken_line :
    (n : ℕ) (s rest : Bytes)
    → All IsPrinted s
    → Ends rest
    → length s ≤ n
    → strip_eol (until_zero (take n (first_line (s ++ rest)))) ≡ s
taken_line zero [] rest h e l = unfold strip_eol until_zero in refl
taken_line zero (c ∷ cs) rest h e l = absurd (omega arith)
taken_line (suc n) [] [] h e l = unfold strip_eol until_zero first_line in refl
taken_line (suc n) [] (r ∷ rest) h e l =
    ap (λ x. strip_eol (until_zero (take (suc n) (first_line (x ∷ rest))))) e
    ∙ ap (λ x. strip_eol (until_zero (take (suc n) x))) (first_line-newline rest)
    ∙ ap (λ x. strip_eol (until_zero x)) (take-eq_of_le (suc n) (b'\n' ∷ []) (omega arith))
    ∙ newline_only
taken_line (suc n) (c ∷ cs) rest h e l =
    ap (λ x. strip_eol (until_zero (take (suc n) x))) (first_line-cons c (cs ++ rest) h.0)
    ∙ ap strip_eol (until_zero-cons c (take n (first_line (cs ++ rest))) h.0)
    ∙ strip_eol-cons c _ h.0
    ∙ ap (λ x. c ∷ x) (taken_line n cs rest h.1 e (omega (arith, l)))

fgets-filled :
    (n : ℕ) (xs : Bytes) → xs ≢ [] → fgets n xs ≡ some (until_zero (take (n - 1) (first_line xs)))
unfolding fgets
fgets-filled n [] ne = absurd (ne refl)
fgets-filled n (x ∷ xs) ne = refl

line_of-line :
    (n : ℕ) (line rest : Bytes)
    → All IsPrinted line
    → Ends rest
    → line ++ rest ≢ []
    → length line < n
    → line_of n (line ++ rest) ≡ some line
unfolding line_of
line_of-line n line rest h e ne l =
    rw (fgets-filled n (line ++ rest) ne, line_of)
      (ap some (taken_line (n - 1) line rest h e (omega (arith, l))))

read-set_content :
    (path s : Bytes) (outlen : ℕ) (d : Disk)
    → Files.read_file_line path outlen (set_content path s d) ≡ line_of outlen s
unfolding Files.read_file_line
read-set_content path s outlen d = rw (str_eq_refl path, Files.read_file_line) refl

-- A text of one line, or one that goes on with a newline and anything behind it, that is written to
-- a file is read again as that line, without its newline, into a buffer with room for the line; the
-- line is not empty or has its newline, and has no carriage return and no zero byte in it. The file
-- can be written.
pub written_line :
    (path line rest : Bytes) (outlen : ℕ) (d : Disk)
    → All IsPrinted line
    → Ends rest
    → line ++ rest ≢ []
    → length line < outlen
    → d.writable path ≡ true
    → d.writes (line ++ rest) ≡ true
    → ((Files.write_file path (line ++ rest) d).0 ≡ true)
      × (Files.read_file_line path outlen (Files.write_file path (line ++ rest) d).1 ≡ some line)
unfolding Files.write_file
written_line path line rest outlen d h e filled short opens writes =
    rw (opens, writes)
      (
        refl,
        read-set_content path (line ++ rest) outlen d
            ∙ line_of-line outlen line rest h e filled short,
      )
