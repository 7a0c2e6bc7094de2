-- ===== src/Azureiotd/Setup.antt =====
-- package/azureiotd/src/azureiotd.c: the settings that main reads, and whether it goes on to
-- connect.
pub mod Host
use python2c.Base.{
  ℕ, ◌-◌, Bool, true, false, ◌||◌, List, [], ◌∷◌, ◌++◌, Option, none, some, Bytes, codes, str_eq,
  take, if◌then◌else◌, ℤ, pos,
}
use python2c.Base.Scan.{atoi}
use python2c.Azureiotd.SafeStr.{strlcpy_compat, safe_hostname_only}
use python2c.Azureiotd.Conn.{is_empty}

-- `evi_azure_cfg_t`
pub record Settings : Type 0 where
  pub host : Bytes
  pub device_id : Bytes
  pub is_x509 : Bool
  pub sas_key : Bytes
  pub sas_ttl : ℤ
  pub x509_cert : Bytes
  pub x509_key : Bytes
  pub x509_key_pass : Bytes
  pub sni_host : Bytes
  pub ca_file : Bytes
  pub keepalive : ℤ

-- How main ends: with an exit status of its own, or in `azure_conn_run` with the settings.
pub data Start : Type 0 where
  refuses : ℕ → Start
  connects : Settings → Start

-- The strip of the scheme, the path and the port, where it leaves anything.
unfoldable pub normalized : Bytes → Bytes
unfolding is_empty
normalized raw =
    let only = safe_hostname_only (some raw) 256 in
    if is_empty raw then raw else if is_empty only then raw else (strlcpy_compat (some only) 256).0

-- The value that libuci finds for an option that is there and is a string.
module _ (uci : Bytes → Option Bytes) where
  -- What is in `out` afterwards; its return is not looked at.
  unfoldable pub uci_get_str : Bytes → Bytes → ℕ → Bytes
  uci_get_str opt out outlen = elim (uci opt) [ none ↦ out | some v ↦ take (outlen - 1) v ]

  unfoldable pub uci_get_int : Bytes → ℤ → ℤ
  unfolding atoi
  uci_get_int opt defv = elim (uci opt) [
    | none ↦ defv
    | some v ↦ if is_empty v then defv else atoi v
  ]

  unfoldable pub read_settings : Settings
  read_settings = record {
    host = normalized (uci_get_str (codes "azureiotd.main.host") [] 256);
    device_id = uci_get_str (codes "azureiotd.main.device_id") [] 128;
    is_x509 = str_eq (uci_get_str (codes "azureiotd.main.auth") (codes "sas") 16) (codes "x509");
    sas_key = uci_get_str (codes "azureiotd.main.sas_key") [] 256;
    sas_ttl = uci_get_int (codes "azureiotd.main.sas_ttl") (pos 3600);
    x509_cert = uci_get_str (codes "azureiotd.main.x509_cert") [] 256;
    x509_key = uci_get_str (codes "azureiotd.main.x509_key") [] 256;
    x509_key_pass = uci_get_str (codes "azureiotd.main.x509_key_pass") [] 128;
    sni_host = normalized (uci_get_str (codes "azureiotd.main.sni_host") [] 256);
    ca_file = uci_get_str (codes "azureiotd.main.ca_file") [] 256;
    keepalive = uci_get_int (codes "azureiotd.main.keepalive") (pos 60);
  }

-- The settings after `memset`.
abbrev pub blank : Settings
blank = record {
  host = [];
  device_id = [];
  is_x509 = false;
  sas_key = [];
  sas_ttl = pos 0;
  x509_cert = [];
  x509_key = [];
  x509_key_pass = [];
  sni_host = [];
  ca_file = [];
  keepalive = pos 0;
}

unfoldable pub settings_of : Option (Bytes → Option Bytes) → Settings
settings_of none = blank
settings_of (some uci) = read_settings uci

-- `none` is a context that could not be allocated. azure_conn_init does not fail here.
unfoldable pub start : Option (Bytes → Option Bytes) → Start
start ctx =
    let cfg = settings_of ctx in
    if is_empty cfg.host || is_empty cfg.device_id then refuses 2 else connects cfg
