-- ===== src/Azureiotd/Sas/Token.antt =====
-- What a server reads of the token of a shared key.
use mathlib.Core.Path.{subst}
use python2c.Base.{
  ℕ, ◌+◌, ◌/◌, ◌%◌, ◌≤◌, ◌≡◌, refl, sym, ap, ◌∙◌, true, false, [], ◌∷◌, ◌++◌, Option, none, some,
  Bytes, IsByte, All, codes, take, take-eq_of_le, drop, starts_with, length, length-append,
  if◌then◌else◌, ◌==◌, arith, ℤ, Bool-cases, inl, inr,
}
use python2c.Base.Scan.{print_dec}
use python2c.Azureiotd.Url.{
  url_encode, is_plain, hex_upper, encode-coded, idle, decode_from, decode-url_encode,
}
use python2c.Azureiotd.Conn.{is_empty}
use python2c.Azureiotd.Sas
use python2c.Azureiotd.Sas.{lifetime, to_long, uri_of, to_sign, token_text}

-- A text up to an ampersand, and what follows it.
unfoldable pub cut_amp : Bytes → Option (Bytes × Bytes)
cut_amp [] = none
cut_amp (c ∷ cs) =
    let rest = cut_amp cs in
    if c == b'&'
    then some ([], cs)
    else elim rest [ none ↦ none | some (field, more) ↦ some (c ∷ field, more) ]

-- What stands behind a prefix.
abbrev pub behind : Bytes → Bytes → Option Bytes
behind prefix s = if starts_with s prefix then some (drop (length prefix) s) else none

unfoldable pub bind {ℓ κ} : {A : Type ℓ} {B : Type κ} → Option A → (A → Option B) → Option B
bind none f = none
bind (some a) f = f a

-- The fields sr, sig and se, as they stand in the token.
unfoldable pub read_token : Bytes → Option (Bytes × Bytes × Bytes)
read_token s = bind (behind (codes "SharedAccessSignature sr=") s) (λ t. bind (cut_amp t) (λ u.
    bind (behind (codes "sig=") u.1)
      (λ v. bind (cut_amp v) (λ x. bind (behind (codes "se=") x.1) (λ se. some (u.0, x.0, se))))))

abbrev NoAmp : Bytes → Type 0
NoAmp = All (λ c. (c == b'&') ≡ false)

cut_amp-field :
    (field more : Bytes) → NoAmp field → cut_amp (field ++ (b'&' ∷ more)) ≡ some (field, more)
unfolding cut_amp
cut_amp-field [] more h = refl
cut_amp-field (c ∷ cs) more h = rw (h.0, cut_amp-field cs more h.1)

hex_upper-NoAmp : (v : ℕ) → (hex_upper v == b'&') ≡ false
unfolding hex_upper
hex_upper-NoAmp v = ground arith

plain-NoAmp : (c : ℕ) → is_plain c ≡ true → (c == b'&') ≡ false
unfolding is_plain
plain-NoAmp c h = ground arith

url_encode-NoAmp : (s : Bytes) → NoAmp (url_encode s)
unfolding url_encode
url_encode-NoAmp [] = tt
url_encode-NoAmp (c ∷ cs) = elim (Bool-cases (is_plain c)) [
  | inl plain ↦ rw (plain, url_encode) (plain-NoAmp c plain, url_encode-NoAmp cs)
  | inr coded ↦
      subst NoAmp (sym (encode-coded c cs coded))
        (refl, (hex_upper-NoAmp (c / 16), (hex_upper-NoAmp (c % 16), url_encode-NoAmp cs)))
]

read_token-text :
    (uri sig : Bytes) (se : ℤ)
    → read_token (token_text (url_encode uri) (url_encode sig) se)
      ≡ some (url_encode uri, url_encode sig, print_dec se)
unfolding read_token bind
read_token-text uri sig se =
    rw
      (
        cut_amp-field (url_encode uri) _ (url_encode-NoAmp uri),
        cut_amp-field (url_encode sig) _ (url_encode-NoAmp sig),
      )
      refl

-- What is signed is shorter than the token.
signed_fits :
    (sr sig : Bytes) (se : ℤ) → length (token_text sr sig se) ≤ 1023 → length (to_sign sr se) ≤ 1023
signed_fits sr sig se h = omega (
  arith,
  h,
  length-append sr (b'\n' ∷ print_dec se),
  length-append sr (codes "&sig=" ++ (sig ++ (codes "&se=" ++ print_dec se))),
  length-append sig (codes "&se=" ++ print_dec se),
)

module _ (b64_decode : Bytes → Option Bytes) (hmac : Bytes → Bytes → Bytes)
    (b64_encode : Bytes → Option Bytes) where
  build_lem :
      (host device_id b64_key key b64sig : Bytes) (ttl : ℤ) (now : ℕ)
      → (is_empty host ≡ false) × (is_empty device_id ≡ false) × (is_empty b64_key ≡ false)
      → b64_decode b64_key ≡ some key
      → length (uri_of host device_id) ≤ 511
      → length (to_sign (url_encode (uri_of host device_id)) (to_long (now + lifetime ttl))) ≤ 1023
      → b64_encode
          (hmac key (to_sign (url_encode (uri_of host device_id)) (to_long (now + lifetime ttl))))
        ≡ some b64sig
      → Sas.azure_sas_build_token b64_decode hmac b64_encode host device_id b64_key ttl now
        ≡ some (
            take 1023 (
              token_text
                (url_encode (uri_of host device_id))
                (url_encode b64sig)
                (to_long (now + lifetime ttl))))
  unfolding Sas.azure_sas_build_token
  build_lem host device_id b64_key key b64sig ttl now (h, d, k) decodes short signed encodes =
      rw
        (
          h,
          d,
          k,
          decodes,
          take-eq_of_le 511 _ short,
          take-eq_of_le 1023 _ signed,
          encodes,
          Sas.azure_sas_build_token,
        )
        (ap
          (λ u. some (
            take 1023
              (token_text (url_encode u) (url_encode b64sig) (to_long (now + lifetime ttl)))))
          (take-eq_of_le 511 (uri_of host device_id) short))

  -- From a host, a device, a key that base64 can read and a signature that it can write, if neither
  -- the resource nor the token is longer than its buffer, a token is built, and the server that
  -- reads it and undoes the percent encoding finds the resource `host/devices/device`, the base64
  -- of the HMAC, with the decoded key, of the encoded resource and the expiry on two lines, and the
  -- expiry, the lifetime after now as a `long` of 32 bits.
  pub token_read :
      (host device_id b64_key key b64sig : Bytes) (ttl : ℤ) (now : ℕ)
      → (is_empty host ≡ false) × (is_empty device_id ≡ false) × (is_empty b64_key ≡ false)
      → All IsByte (uri_of host device_id)
      → All IsByte b64sig
      → b64_decode b64_key ≡ some key
      → b64_encode
          (hmac key (to_sign (url_encode (uri_of host device_id)) (to_long (now + lifetime ttl))))
        ≡ some b64sig
      → length (uri_of host device_id) ≤ 511
      → length (
          token_text
            (url_encode (uri_of host device_id))
            (url_encode b64sig)
            (to_long (now + lifetime ttl)))
        ≤ 1023
      → (token : Bytes) × (sr : Bytes) × (sig : Bytes) × (Sas.azure_sas_build_token b64_decode hmac
            b64_encode host device_id b64_key ttl now
          ≡ some token)
        × (read_token token ≡ some (sr, sig, print_dec (to_long (now + lifetime ttl))))
        × (decode_from idle sr ≡ some (uri_of host device_id))
        × (decode_from idle sig ≡ some b64sig)
  token_read host device_id b64_key key b64sig ttl now given ub sb decodes encodes short fits = (
    token,
    url_encode (uri_of host device_id),
    url_encode b64sig,
    build_lem host device_id b64_key key b64sig ttl now given decodes short (signed_fits _ _ _ fits)
          encodes
        ∙ ap some (take-eq_of_le 1023 token fits),
    read_token-text (uri_of host device_id) b64sig (to_long (now + lifetime ttl)),
    decode-url_encode (uri_of host device_id) ub,
    decode-url_encode b64sig sb,
  )
    where
      token : Bytes
      token =
          token_text (url_encode (uri_of host device_id)) (url_encode b64sig)
            (to_long (now + lifetime ttl))
