-- ===== src/Azureiotd/Main.antt =====
-- package/azureiotd/src/azureiotd.c: main as a whole, from its settings through azure_conn.c to its
-- exit status.
use python2c.Base.{
  ℕ, ◌-◌, ◌^◌, ◌≡◌, ◌⊎◌, refl, ap, ◌∙◌, inl, inr, true, false, not, ◌||◌, List, [], Option, none,
  some, Bytes, Bool-cases, if◌then◌else◌, ◌==ℤ◌, ℤ, pos, negsuc,
}
use python2c.Azureiotd.Conn.{Net, Config, NetEvent, is_empty, run_x509}
use python2c.Azureiotd.Conn.Cleanup.{open_after, run_x509-closes}
use python2c.Azureiotd.Sas.{
  Auth, Runtime, azure_conn_init, azure_conn_run, azure_sas_build_token, lifetime, to_long,
}
use python2c.Azureiotd.Setup.{Settings, refuses, connects, settings_of, start}

-- Of an int, the bits that `>>` and `&` read.
unfoldable pub int_bits : ℤ → ℕ
int_bits (pos n) = n
int_bits (negsuc n) = 2 ^ 32 - 1 - n

-- What a login with a certificate reads of the settings.
abbrev pub config_of : Settings → Config
config_of cfg = record {
  host = cfg.host;
  device_id = cfg.device_id;
  keepalive = int_bits cfg.keepalive;
  x509_cert = cfg.x509_cert;
  x509_key = cfg.x509_key;
  ca_file = cfg.ca_file;
  sni_host = cfg.sni_host;
}

-- `rt` before azure_conn_init holds anything.
module _ (b64_decode : Bytes → Option Bytes) (hmac : Bytes → Bytes → Bytes)
    (b64_encode : Bytes → Option Bytes) (rt : Runtime) (net : Net) (now : ℕ) where
  unfoldable pub connect_with : Settings → ℤ × List NetEvent
  unfolding azure_conn_init azure_conn_run int_bits
  connect_with cfg =
      let (init, made) = azure_conn_init (some rt) in
      if not (init ==ℤ pos 0)
      then (pos 3, [])
      else azure_conn_run b64_decode hmac b64_encode net
          (if cfg.is_x509 then Auth.x509 else Auth.sas) (config_of cfg) cfg.sas_key cfg.sas_ttl now

  -- The exit status of main, and what it does with sockets and OpenSSL's objects.
  unfoldable pub main : Option (Bytes → Option Bytes) → ℤ × List NetEvent
  unfolding start connect_with
  main ctx = elim (start ctx) [ refuses n ↦ (pos n, []) | connects cfg ↦ connect_with cfg ]

  connect_x509 :
      (cfg : Settings)
      → cfg.is_x509 ≡ true
      → connect_with cfg ≡ run_x509 net (config_of cfg) (to_long now)
  unfolding connect_with azure_conn_run azure_conn_init
  connect_x509 cfg e = rw e refl

  sas_result : Option Bytes → ℤ × List NetEvent
  sas_result none = (negsuc 1, [])
  sas_result (some token) = (pos 0, [])

  connect_sas :
      (cfg : Settings)
      → cfg.is_x509 ≡ false
      → connect_with cfg
        ≡ sas_result (
            azure_sas_build_token b64_decode hmac b64_encode cfg.host cfg.device_id cfg.sas_key
              (pos (lifetime cfg.sas_ttl))
              now)
  unfolding connect_with azure_conn_run azure_conn_init sas_result
  connect_sas cfg e = rw e refl

  sas_result-quiet : (o : Option Bytes) → (sas_result o).1 ≡ []
  unfolding sas_result
  sas_result-quiet none = refl
  sas_result-quiet (some token) = refl

  none_open : open_after none [] ≡ some none
  unfolding open_after
  none_open = refl

  connect-closes : (cfg : Settings) → open_after none (connect_with cfg).1 ≡ some none
  connect-closes cfg = elim (Bool-cases cfg.is_x509) [
    | inl x ↦
        ap (λ (r : ℤ × List NetEvent). open_after none r.1) (connect_x509 cfg x)
        ∙ run_x509-closes net (config_of cfg) (to_long now)
    | inr s ↦
        ap (λ (r : ℤ × List NetEvent). open_after none r.1) (connect_sas cfg s)
        ∙ ap (open_after none) (sas_result-quiet _)
        ∙ none_open
  ]

  main-connects :
      (ctx : Option (Bytes → Option Bytes)) (cfg : Settings)
      → start ctx ≡ connects cfg
      → main ctx ≡ connect_with cfg
  unfolding main
  main-connects ctx cfg e = rw (main, e) refl

  main-refuses :
      (ctx : Option (Bytes → Option Bytes)) (n : ℕ) → start ctx ≡ refuses n → main ctx ≡ (pos n, [])
  unfolding main
  main-refuses ctx n e = rw (main, e) refl

  Start-cases :
      (ctx : Option (Bytes → Option Bytes))
      → (start ctx ≡ refuses 2) ⊎ ((cfg : Settings) × (start ctx ≡ connects cfg))
  unfolding start
  Start-cases ctx =
      elim (Bool-cases (is_empty (settings_of ctx).host || is_empty (settings_of ctx).device_id)) [
        | inl missing ↦ inl (rw (start, missing) refl)
        | inr there ↦ inr (settings_of ctx, rw (start, there) refl)
      ]

  -- On every path of main each socket that is opened is closed, once.
  pub main-closes : (ctx : Option (Bytes → Option Bytes)) → open_after none (main ctx).1 ≡ some none
  main-closes ctx = elim (Start-cases ctx) [
    | inl r ↦ ap (λ (r : ℤ × List NetEvent). open_after none r.1) (main-refuses ctx 2 r) ∙ none_open
    | inr (cfg, e) ↦
        ap (λ (r : ℤ × List NetEvent). open_after none r.1) (main-connects ctx cfg e)
        ∙ connect-closes cfg
  ]
