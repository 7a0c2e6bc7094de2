-- ===== src/Azureiotd/Sas.antt =====
-- package/azureiotd/src/azure_conn.c: the token of a login with a shared key, and the run for
-- either kind of login. OpenSSL's base64 and HMAC are parameters, and `malloc` succeeds.
pub mod Token
use python2c.Base.{
  ℕ, ◌+◌, ◌-◌, ◌%◌, ◌^◌, ltb, Bool, true, false, ◌||◌, List, [], ◌∷◌, ◌++◌, Option, none, some,
  Bytes, codes, take, if◌then◌else◌, ◌==◌, ℤ, pos, negsuc,
}
use python2c.Base.Scan.{print_dec}
use python2c.Azureiotd.Url.{url_encode}
use python2c.Azureiotd.Conn.{Net, Config, NetEvent, is_empty, run_x509}

-- `ttl_secs>0?ttl_secs:3600`
unfoldable pub lifetime : ℤ → ℕ
lifetime (pos n) = if n == 0 then 3600 else n
lifetime (negsuc n) = 3600

-- The cast to a `long` of 32 bits.
unfoldable pub to_long : ℕ → ℤ
to_long n = let low = n % 2 ^ 32 in if ltb low (2 ^ 31) then pos low else negsuc (2 ^ 32 - 1 - low)

abbrev pub uri_of : Bytes → Bytes → Bytes
uri_of host device_id = host ++ (codes "/devices/" ++ device_id)

abbrev pub to_sign : Bytes → ℤ → Bytes
to_sign sr se = sr ++ (b'\n' ∷ print_dec se)

abbrev pub token_text : Bytes → Bytes → ℤ → Bytes
token_text sr sig se =
    codes "SharedAccessSignature sr="
    ++ (sr ++ (codes "&sig=" ++ (sig ++ (codes "&se=" ++ print_dec se))))

-- Which login the configuration asks for.
pub data Auth : Type 0 where
  sas x509 : Auth

-- `evi_azure_runtime_t`; a `none` is a null pointer.
pub record Runtime : Type 0 where
  pub connected : ℤ

unfoldable pub azure_conn_init : Option Runtime → ℤ × Option Runtime
azure_conn_init none = (negsuc 0, none)
azure_conn_init (some rt) = (pos 0, some (record { connected = pos 0 }))

module _ (b64_decode : Bytes → Option Bytes) (hmac : Bytes → Bytes → Bytes)
    (b64_encode : Bytes → Option Bytes) where
  unfoldable pub azure_sas_build_token : Bytes → Bytes → Bytes → ℤ → ℕ → Option Bytes
  unfolding is_empty lifetime to_long
  azure_sas_build_token host device_id b64_key ttl_secs now =
      let se = to_long (now + lifetime ttl_secs) in
      let sr = url_encode (take 511 (uri_of host device_id)) in
      if is_empty host || is_empty device_id || is_empty b64_key
      then none
      else elim (b64_decode b64_key) [
        | none ↦ none
        | some key ↦ elim (b64_encode (hmac key (take 1023 (to_sign sr se)))) [
          | none ↦ none
          | some b64sig ↦ some (take 1023 (token_text sr (url_encode b64sig) se))
        ]
      ]

  -- A login with a shared key only shows the token that it would use.
  unfoldable pub azure_conn_run : Net → Auth → Config → Bytes → ℤ → ℕ → ℤ × List NetEvent
  unfolding lifetime to_long
  azure_conn_run net x509 cfg sas_key sas_ttl now = run_x509 net cfg (to_long now)
  azure_conn_run net sas cfg sas_key sas_ttl now =
      elim (azure_sas_build_token cfg.host cfg.device_id sas_key (pos (lifetime sas_ttl)) now) [
        | none ↦ (negsuc 1, [])
        | some token ↦ (pos 0, [])
      ]
