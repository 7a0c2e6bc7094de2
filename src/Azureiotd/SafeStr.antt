-- ===== src/Azureiotd/SafeStr.antt =====
-- package/azureiotd/src/safe_str.c: copies of strings that are cut at the end of the buffer. A
-- destination is a buffer of `dstsz` bytes, 1 at least, that is no null pointer: the string left in
-- it.
pub mod Hostname
use Prim.Native.Nat.{min}
use python2c.Base.{
  ℕ, ◌-◌, Bool, true, false, ◌||◌, List, [], ◌∷◌, ◌++◌, Option, none, some, Bytes, codes, take,
  drop, length, starts_with, if◌then◌else◌, ◌==◌,
}

-- The string in `dst`, and the length returned.
unfoldable pub strlcpy_compat : Option Bytes → ℕ → Bytes × ℕ
strlcpy_compat none dstsz = ([], 0)
strlcpy_compat (some src) dstsz = (take (min (length src) (dstsz - 1)) src, length src)

unfoldable pub is_in : Bytes → ℕ → Bool
is_in [] c = false
is_in (d ∷ ds) c = d == c || is_in ds c

-- `strpbrk` with `*p = '\0'`: what stands before the first byte of the set.
unfoldable pub chop_at_first : Bytes → Bytes → Bytes
unfolding is_in
chop_at_first cutset [] = []
chop_at_first cutset (c ∷ cs) =
    let rest = chop_at_first cutset cs in if is_in cutset c then [] else c ∷ rest

-- `strstr(s, "://")`, and what follows it.
unfoldable pub after_scheme : Bytes → Option Bytes
after_scheme [] = none
after_scheme (c ∷ cs) =
    let rest = after_scheme cs in
    if starts_with (c ∷ cs) (codes "://") then some (drop 3 (c ∷ cs)) else rest

unfoldable pub drop_scheme : Bytes → Bytes
drop_scheme s = elim (after_scheme s) [ none ↦ s | some rest ↦ rest ]

unfoldable pub safe_hostname_only : Option Bytes → ℕ → Bytes
safe_hostname_only none dstsz = []
safe_hostname_only (some src) dstsz =
    let tmp = (strlcpy_compat (some src) 512).0 in
    let dst = (strlcpy_compat (some (drop_scheme tmp)) dstsz).0 in
    chop_at_first (codes ":") (chop_at_first (codes "/?#") dst)

-- `strrchr`: what stands before and behind the last `c`.
unfoldable pub cut_last : ℕ → Bytes → Option (Bytes × Bytes)
cut_last c [] = none
cut_last c (x ∷ xs) = elim (cut_last c xs) [
  | some (before, behind) ↦ some (x ∷ before, behind)
  | none ↦ if x == c then some ([], xs) else none
]

unfoldable pub base_of : Bytes → Bytes
unfolding cut_last
base_of tmp = elim (cut_last b'/' tmp) [ none ↦ tmp | some (dir, base) ↦ base ]

unfoldable pub safe_remove_file_ext : Option Bytes → ℕ → Bytes
unfolding cut_last base_of
safe_remove_file_ext none dstsz = []
safe_remove_file_ext (some src) dstsz =
    let tmp = (strlcpy_compat (some src) 512).0 in
    let dst = (strlcpy_compat (some (base_of tmp)) dstsz).0 in
    elim (cut_last b'.' dst) [ none ↦ dst | some (stem, ext) ↦ stem ]
