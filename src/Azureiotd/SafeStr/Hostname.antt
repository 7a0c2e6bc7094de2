-- ===== src/Azureiotd/SafeStr/Hostname.antt =====
-- The host name that is left of an address.
use Prim.Native.Nat.{min}
use python2c.Base.{
  ℕ, zero, suc, ◌-◌, ◌≤◌, ◌<◌, ◌≡◌, refl, ap, ◌∙◌, true, false, [], ◌∷◌, ◌++◌, append-nil, Option,
  none, some, Bytes, codes, All, take, length, length-take, length-append, take-eq_of_le, arith,
}
use python2c.Azureiotd.SafeStr.{
  strlcpy_compat, is_in, chop_at_first, after_scheme, drop_scheme, safe_hostname_only,
}

-- No byte of the set stands in the text.
abbrev pub Avoids : Bytes → Bytes → Type 0
Avoids set s = All (λ c. is_in set c ≡ false) s

chop-Avoids : (set s : Bytes) → Avoids set (chop_at_first set s)
unfolding chop_at_first
chop-Avoids set [] = tt
chop-Avoids set (c ∷ cs) = ground (arith, chop-Avoids set cs)

chop-keeps : (set other s : Bytes) → Avoids other s → Avoids other (chop_at_first set s)
unfolding chop_at_first
chop-keeps set other [] h = tt
chop-keeps set other (c ∷ cs) h = ground (arith, chop-keeps set other cs)

chop-length : (set s : Bytes) → length (chop_at_first set s) ≤ length s
unfolding chop_at_first
chop-length set [] = omega arith
chop-length set (c ∷ cs) = ground (arith, chop-length set cs)

-- Whatever the source is, in a buffer of one byte at least the host name fits with its
-- terminating zero, and none of `/`, `?`, `#` and `:` stands in it.
pub safe_hostname_only-clean :
    (src : Option Bytes) (dstsz : ℕ)
    → 1 ≤ dstsz
    → (length (safe_hostname_only src dstsz) < dstsz)
      × Avoids (codes "/?#") (safe_hostname_only src dstsz)
      × Avoids (codes ":") (safe_hostname_only src dstsz)
unfolding safe_hostname_only strlcpy_compat
safe_hostname_only-clean none dstsz h = (omega arith, tt, tt)
safe_hostname_only-clean (some src) dstsz h =
    let s = drop_scheme (take (min (length src) 511) src) in
    let dst = take (min (length s) (dstsz - 1)) s in
    let host = chop_at_first (codes "/?#") dst in
    (
      ground (
        arith,
        chop-length (codes ":") host,
        chop-length (codes "/?#") dst,
        length-take (min (length s) (dstsz - 1)) s,
      ),
      chop-keeps (codes ":") (codes "/?#") host (chop-Avoids (codes "/?#") dst),
      chop-Avoids (codes ":") host,
    )

chop-append :
    (set s rest : Bytes)
    → Avoids set s
    → chop_at_first set (s ++ rest) ≡ s ++ chop_at_first set rest
unfolding chop_at_first
chop-append set [] rest h = refl
chop-append set (c ∷ s) rest h = rw h.0 (ap (λ r. c ∷ r) (chop-append set s rest h.1))

after_scheme-found :
    (scheme rest : Bytes)
    → Avoids (codes ":") scheme
    → after_scheme (scheme ++ (codes "://" ++ rest)) ≡ some rest
unfolding after_scheme is_in
after_scheme-found [] rest h = refl
after_scheme-found (c ∷ scheme) rest h = ground (arith, after_scheme-found scheme rest)

take-past :
    (n : ℕ) (xs ys : Bytes) → length xs ≤ n → take n (xs ++ ys) ≡ xs ++ take (n - length xs) ys
take-past n [] ys h = ap (λ k. take k ys) (omega arith)
take-past zero (x ∷ xs) ys h = absurd (omega arith)
take-past (suc n) (x ∷ xs) ys h =
    ap (λ r. x ∷ r) (take-past n xs ys (omega arith))
    ∙ ap (λ k. x ∷ (xs ++ take k ys)) (omega arith)

-- The two cuts leave nothing of what starts with a separator.
chop-separator :
    (n sep : ℕ) (rest : Bytes)
    → is_in (codes "/?#:") sep ≡ true
    → chop_at_first (codes ":") (chop_at_first (codes "/?#") (take n (sep ∷ rest))) ≡ []
unfolding chop_at_first is_in
chop-separator zero sep rest h = refl
chop-separator (suc n) sep rest h = ground arith

host-left :
    (host rest : Bytes) (sep dstsz : ℕ)
    → Avoids (codes "/?#") host
    → Avoids (codes ":") host
    → is_in (codes "/?#:") sep ≡ true
    → length host < dstsz
    → chop_at_first
        (codes ":")
        (chop_at_first (codes "/?#") (strlcpy_compat (some (host ++ (sep ∷ rest))) dstsz).0)
      ≡ host
unfolding strlcpy_compat
host-left host rest sep dstsz a b c d =
    let n : ℕ = min (length (host ++ (sep ∷ rest))) (dstsz - 1) in
    let fits : length host ≤ n = ground (arith, length-append host (sep ∷ rest)) in
    rw
      (
        take-past n host (sep ∷ rest) fits,
        chop-append (codes "/?#") host (take (n - length host) (sep ∷ rest)) a,
        chop-append (codes ":") host _ b,
        chop-separator (n - length host) sep rest c,
      )
      (append-nil host)

tmp-whole : (s : Bytes) → length s ≤ 511 → (strlcpy_compat (some s) 512).0 ≡ s
unfolding strlcpy_compat
tmp-whole s h = take-eq_of_le (min (length s) 511) s (omega arith)

drop_scheme-found :
    (scheme rest : Bytes)
    → Avoids (codes ":") scheme
    → drop_scheme (scheme ++ (codes "://" ++ rest)) ≡ rest
unfolding drop_scheme
drop_scheme-found scheme rest h = rw (after_scheme-found scheme rest h, drop_scheme) refl

-- An address with a scheme is read back: of `scheme://host` with a path, a query, a fragment or a
-- port behind the host, the host is left, when the address has at most 511 bytes, no `:` stands in
-- the scheme and no separator in the host, and the buffer is larger than the host.
pub safe_hostname_only-host :
    (scheme host rest : Bytes) (sep dstsz : ℕ)
    → Avoids (codes ":") scheme
    → Avoids (codes "/?#") host
    → Avoids (codes ":") host
    → is_in (codes "/?#:") sep ≡ true
    → length (scheme ++ (codes "://" ++ (host ++ (sep ∷ rest)))) ≤ 511
    → length host < dstsz
    → safe_hostname_only (some (scheme ++ (codes "://" ++ (host ++ (sep ∷ rest))))) dstsz ≡ host
unfolding safe_hostname_only
safe_hostname_only-host scheme host rest sep dstsz a b b' c l d =
    rw
      (
        tmp-whole (scheme ++ (codes "://" ++ (host ++ (sep ∷ rest)))) l,
        drop_scheme-found scheme (host ++ (sep ∷ rest)) a,
      )
      (host-left host rest sep dstsz b b' c d)
