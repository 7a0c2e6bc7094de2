-- ===== src/Azureiotd/Setup/Host.antt =====
-- The host names of the settings that main connects with.
use mathlib.Core.Path.{subst}
use python2c.Base.{
  ℕ, ◌-◌, ◌<◌, ◌≤◌, ◌≡◌, ◌≢◌, ◌⊎◌, inl, inr, refl, sym, ap, Bool, true, false, ◌||◌, [], ◌∷◌,
  Option, none, some, Bytes, codes, take, length, length-take, take-eq_of_le, arith, Bool-cases,
  if◌then◌else◌,
}
use Prim.Native.Nat.{min}
use python2c.Azureiotd.Conn.{is_empty}
use python2c.Azureiotd.SafeStr.{strlcpy_compat, safe_hostname_only}
use python2c.Azureiotd.SafeStr.Hostname.{Avoids, safe_hostname_only-clean}
use python2c.Azureiotd.Setup.{
  Settings, Start, refuses, connects, normalized, uci_get_str, read_settings, settings_of, start,
}

-- A name that can be looked up: no separator of an address is in it.
abbrev pub IsBare : Bytes → Type 0
IsBare s = Avoids (codes "/?#") s × Avoids (codes ":") s

copy-whole : (s : Bytes) (n : ℕ) → length s < n → (strlcpy_compat (some s) n).0 ≡ s
unfolding strlcpy_compat
copy-whole s n h = take-eq_of_le (min (length s) (n - 1)) s (omega arith)

normalized-kept :
    (c : ℕ) (cs : Bytes)
    → is_empty (safe_hostname_only (some (c ∷ cs)) 256) ≡ true
    → normalized (c ∷ cs) ≡ c ∷ cs
unfolding normalized is_empty
normalized-kept c cs e = rw e refl

normalized-only :
    (c : ℕ) (cs : Bytes)
    → is_empty (safe_hostname_only (some (c ∷ cs)) 256) ≡ false
    → normalized (c ∷ cs) ≡ safe_hostname_only (some (c ∷ cs)) 256
unfolding normalized is_empty
normalized-only c cs e =
    rw e (copy-whole _ 256 (safe_hostname_only-clean (some (c ∷ cs)) 256 (omega arith)).0)

empty-nil : (s : Bytes) → is_empty s ≡ true → s ≡ []
unfolding is_empty
empty-nil [] h = refl
empty-nil (c ∷ s) h = ground (arith, h)

-- What a normalized name is.
abbrev pub IsNormal : Bytes → Type 0
IsNormal s = (length s ≤ 255) × (IsBare s ⊎ (safe_hostname_only (some s) 256 ≡ []))

normalized-IsNormal : (raw : Bytes) → length raw ≤ 255 → IsNormal (normalized raw)
unfolding normalized
normalized-IsNormal [] h = (omega arith, inl (tt, tt))
normalized-IsNormal (c ∷ cs) h =
    elim (Bool-cases (is_empty (safe_hostname_only (some (c ∷ cs)) 256))) [
      | inl gone ↦ subst IsNormal (sym (normalized-kept c cs gone)) (h, inr (empty-nil _ gone))
      | inr left ↦
          let clean = safe_hostname_only-clean (some (c ∷ cs)) 256 (omega arith) in
          subst IsNormal (sym (normalized-only c cs left))
            (omega (arith, clean.0), inl (clean.1, clean.2))
    ]

read-length : (uci : Bytes → Option Bytes) (opt : Bytes) → length (uci_get_str uci opt [] 256) ≤ 255
unfolding uci_get_str
read-length uci opt = kept (uci opt)
  where
    kept :
        (found : Option Bytes)
        → length (elim found as (λ _. Bytes) [ none ↦ [] | some v ↦ take (256 - 1) v ]) ≤ 255
    kept none = omega arith
    kept (some v) = omega (arith, length-take 255 v)

refuses-connects : (n : ℕ) (s : Settings) → refuses n ≢ connects s
refuses-connects n s e = ground (arith, e)

connects-injective : (s t : Settings) → connects s ≡ connects t → s ≡ t
connects-injective s t e = ap from e
  where
    from : Start → Settings
    from (connects u) = u
    from (refuses n) = s

connects_of :
    (b : Bool) (s t : Settings)
    → (if b then refuses 2 else connects s) ≡ connects t
    → (b ≡ false) × (s ≡ t)
connects_of true s t e = absurd (refuses-connects 2 t e)
connects_of false s t e = (refl, connects-injective s t e)

both_there : (a b : Bool) → (a || b) ≡ false → (a ≡ false) × (b ≡ false)
both_there a b h = ground arith

settings-IsNormal :
    (ctx : Option (Bytes → Option Bytes))
    → IsNormal (settings_of ctx).host × IsNormal (settings_of ctx).sni_host
unfolding settings_of read_settings
settings-IsNormal none = ((omega arith, inl (tt, tt)), (omega arith, inl (tt, tt)))
settings-IsNormal (some uci) = (
  normalized-IsNormal _ (read-length uci (codes "azureiotd.main.host")),
  normalized-IsNormal _ (read-length uci (codes "azureiotd.main.sni_host")),
)

abbrev IsReady : Settings → Type 0
IsReady cfg =
    (is_empty cfg.host ≡ false)
    × (is_empty cfg.device_id ≡ false)
    × IsNormal cfg.host
    × IsNormal cfg.sni_host

-- When main goes on to connect, there are a host and a device id, and of the host and of the SNI
-- name each fits its buffer and has no `/`, `?`, `#` and `:` in it, unless nothing would be left of
-- the name without its scheme, path and port.
pub start-IsNormal :
    (ctx : Option (Bytes → Option Bytes)) (cfg : Settings)
    → start ctx ≡ connects cfg
    → (is_empty cfg.host ≡ false)
      × (is_empty cfg.device_id ≡ false)
      × IsNormal cfg.host
      × IsNormal cfg.sni_host
unfolding start
start-IsNormal ctx cfg h =
    let (there, same) = connects_of _ (settings_of ctx) cfg h in
    let (host, device) = both_there _ _ there in
    let (name, sni_name) = settings-IsNormal ctx in
    subst IsReady same (host, device, name, sni_name)
