-- ===== src/Azurectl/Uci.antt =====
-- package/evi-azurectl/src/uci_shim.c: the configuration, reached through the shell.
use python2c.Base.{
  ℕ, ◌-◌, ◌||◌, [], ◌∷◌, ◌++◌, Option, none, some, Bytes, codes, take, if◌then◌else◌, ◌==◌, ℤ,
  until_zero,
}

-- The system the program runs on: the exit status of a command and the system after it, and what a
-- command prints when it is read through `popen`, `none` if it does not start.
pub record Shell : Type 1 where
  pub State : Type 0
  pub system : Bytes → State → ℤ × State
  pub popen : Bytes → State → Option Bytes

-- The first line of a stream with its newline.
unfoldable pub first_line : Bytes → Bytes
first_line [] = []
first_line (c ∷ cs) = let rest = first_line cs in if c == b'\n' then c ∷ [] else c ∷ rest

-- `fgets(out, n, f)`
unfoldable pub fgets : ℕ → Bytes → Option Bytes
unfolding first_line until_zero
fgets n [] = none
fgets n (c ∷ cs) = some (until_zero (take (n - 1) (first_line (c ∷ cs))))

-- `while(n>0 && (out[n-1]=='\n' || out[n-1]=='\r')) out[--n]=0;`
unfoldable pub strip_eol : Bytes → Bytes
strip_eol [] = []
strip_eol (c ∷ cs) = elim (strip_eol cs) [
  | [] ↦ if c == b'\n' || c == b'\r' then [] else c ∷ []
  | d ∷ ds ↦ c ∷ d ∷ ds
]

-- `snprintf(cmd, n, ...)` of a text.
abbrev pub fit : ℕ → Bytes → Bytes
fit n text = take (n - 1) text

module _ (sh : Shell) where
  -- `none` is the return of -1.
  unfoldable pub uci_get : Bytes → ℕ → sh.State → Option Bytes
  unfolding fgets strip_eol
  uci_get key outlen s =
      elim (sh.popen (fit 256 (codes "uci -q get " ++ key ++ codes " 2>/dev/null")) s) [
        | none ↦ none
        | some printed ↦ elim (fgets outlen printed) [
          | none ↦ none
          | some line ↦ some (strip_eol line)
        ]
      ]

  unfoldable pub uci_set : Bytes → Bytes → sh.State → ℤ × sh.State
  uci_set key val s = sh.system (fit 512 (codes "uci set " ++ key ++ codes "=" ++ val)) s

  unfoldable pub uci_commit : Bytes → sh.State → ℤ × sh.State
  uci_commit pkg s = sh.system (fit 256 (codes "uci commit " ++ pkg)) s
