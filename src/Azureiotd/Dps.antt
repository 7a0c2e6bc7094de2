-- ===== src/Azureiotd/Dps.antt =====
-- package/azureiotd/src/dps_certificate.c: making the device's certificate, by commands of the
-- shell.
pub mod Outcomes
use python2c.Base.{
  ℕ, Bool, true, false, ◌&&◌, List, [], ◌∷◌, ◌++◌, Option, none, some, Bytes, codes, str_eq, take,
  if◌then◌else◌, ◌==◌, ◌==ℤ◌, ℤ, pos, negsuc, until_zero,
}

-- The system the program runs on: what `system` returns and the system after it, what a command
-- prints when it is read through `popen` (`none` if it does not start), and whether a file is
-- there.
pub record Host : Type 1 where
  pub State : Type 0
  pub system : Bytes → State → ℤ × State
  pub popen : Bytes → State → Option Bytes
  pub has_file : Bytes → State → Bool

-- What stands before the first newline.
unfoldable pub before_newline : Bytes → Bytes
before_newline [] = []
before_newline (c ∷ cs) = let rest = before_newline cs in if c == b'\n' then [] else c ∷ rest

-- `serial_no` is static and is empty before the call.
unfoldable pub serial_of : Bytes → Option Bytes
serial_of serial_no = elim serial_no [
  | [] ↦ none
  | c ∷ cs ↦ if str_eq (c ∷ cs) (codes "-1") then none else some (c ∷ cs)
]

unfoldable pub key_path : Bytes → Bytes
key_path n = take 255 (codes "/IoT/openssl/private/" ++ n ++ codes ".key.pem")

unfoldable pub cert_path : Bytes → Bytes
cert_path n = take 255 (codes "/IoT/openssl/certs/" ++ n ++ codes ".cert.pem")

unfoldable pub full_chain_path : Bytes → Bytes
full_chain_path n = take 255 (codes "/IoT/openssl/certs/" ++ n ++ codes "-full-chain.cert.pem")

-- The commands, in a buffer of 1024 bytes where they depend on the serial number.
unfoldable pub genrsa_cmd : Bytes → Bytes
genrsa_cmd n =
    take 1023
      (codes "openssl genrsa -out /IoT/openssl/private/" ++ n ++ codes ".key.pem 4096 2>/dev/null")

unfoldable pub req_cmd : Bytes → Bytes
req_cmd n = take 1023 (
    codes
      "openssl req -config /IoT/openssl/openssl_device_intermediate_ca.cnf -key /IoT/openssl/private/"
    ++ n
    ++ codes ".key.pem -subj \"/CN="
    ++ n
    ++ codes "\" -new -sha256 -out /IoT/openssl/csr/"
    ++ n
    ++ codes ".csr.pem 2>/dev/null")

unfoldable pub ca_cmd : Bytes → Bytes
ca_cmd n = take 1023 (
    codes
      "openssl ca -batch -config /IoT/openssl/openssl_device_intermediate_ca.cnf -passin pass:fev0000$ -extensions usr_cert -days 10950 -notext -md sha256 -in /IoT/openssl/csr/"
    ++ n
    ++ codes ".csr.pem -out /IoT/openssl/certs/"
    ++ n
    ++ codes ".cert.pem 2>/dev/null")

unfoldable pub verify_cmd : Bytes → Bytes
verify_cmd n =
    take 1023 (
      codes "openssl x509 -noout -in /IoT/openssl/certs/"
      ++ n
      ++ codes ".cert.pem > /dev/null 2>&1")

unfoldable pub chain_cmd : Bytes → Bytes
chain_cmd n = take 1023 (
    codes "cat /IoT/openssl/certs/"
    ++ n
    ++ codes
        ".cert.pem /IoT/openssl/certs/fev_charger_iot.intermediate.cert.pem /IoT/openssl/certs/fev_charger_iot.root.ca.cert.pem > /IoT/openssl/certs/"
    ++ n
    ++ codes "-full-chain.cert.pem 2>/dev/null")

unfoldable pub reset_cmd : Bytes
reset_cmd = codes "sleep 1 && firstboot -y && reboot now"

unfoldable pub settled_cmds : List Bytes
settled_cmds = codes "uci set system.@system[0].AzureKeyChange=0" ∷ codes "uci commit system" ∷ []

unfoldable pub prepare_cmds : List Bytes
prepare_cmds =
    codes "uci set system.@system[0].NetLink=0"
    ∷ codes "uci set system.@system[0].AzureBindingStatus=0"
    ∷ codes "uci set system.@system[0].AzureKeyChange=1"
    ∷ codes "uci set system.@system[0].MqttBindingStatus=0"
    ∷ codes "uci commit system"
    ∷ codes "cd /IoT/openssl && mkdir -m 755 -p csr newcerts 2>/dev/null"
    ∷ codes "cd /IoT/openssl && rm -f index.txt && touch index.txt 2>/dev/null"
    ∷ []

-- `dps_cert_manager_t`
pub record CertManager : Type 0 where
  pub serial_no : Bytes
  pub cert : Bytes
  pub key : Bytes
  pub full_chain : Bytes

-- The return code, the structure filled in if it is, the commands run in their order, and the
-- system afterwards.
pub record Made (S : Type 0) : Type 0 where
  pub code : ℤ
  pub manager : Option CertManager
  pub commands : List Bytes
  pub after : S

module _ (host : Host) where
  -- `fgets` takes 63 bytes of the first line at most.
  unfoldable pub dps_get_serial_number : host.State → Option Bytes
  unfolding serial_of before_newline until_zero
  dps_get_serial_number s = elim (host.popen (codes "uci -q get system.@system[0].regid") s) [
    | none ↦ serial_of []
    | some printed ↦ serial_of (before_newline (until_zero (take 63 printed)))
  ]

  unfoldable pub dps_check_certificates_exist : Option Bytes → host.State → Bool
  dps_check_certificates_exist none s = false
  dps_check_certificates_exist (some n) s =
      host.has_file (key_path n) s && host.has_file (full_chain_path n) s

  -- Commands whose status is not looked at.
  unfoldable pub run_all : List Bytes → host.State → host.State
  run_all [] s = s
  run_all (c ∷ cs) s = run_all cs (host.system c s).1

  -- After the check of the certificate.
  unfoldable pub conclude : CertManager → List Bytes → ℤ → host.State → Made host.State
  conclude mgr done result s =
      let n = mgr.serial_no in
      let last =
        if result ==ℤ pos 0
        then chain_cmd n ∷ (settled_cmds ++ (codes "sync" ∷ []))
        else reset_cmd ∷ [] in
      record {
        code = if result ==ℤ pos 0 then pos 0 else negsuc 0;
        manager = some mgr;
        commands = done ++ last;
        after = run_all last s;
      }

  -- The steps that stop at the first failure, and then the check.
  unfoldable pub steps : CertManager → List Bytes → List Bytes → host.State → Made host.State
  steps mgr done [] s =
      let n = mgr.serial_no in
      let (result, s') = host.system (verify_cmd n) s in
      conclude mgr (done ++ (verify_cmd n ∷ [])) result s'
  steps mgr done (c ∷ cs) s =
      let (result, s') = host.system c s in
      let rest = steps mgr (done ++ (c ∷ [])) cs s' in
      if result ==ℤ pos 0
      then rest
      else record { code = negsuc 0; manager = some mgr; commands = done ++ (c ∷ []); after = s' }

  abbrev pub manager_of : Bytes → CertManager
  manager_of n = record {
    serial_no = n;
    cert = cert_path n;
    key = key_path n;
    full_chain = full_chain_path n;
  }

  -- `cert_mgr` is no null pointer.
  unfoldable pub dps_generate_certificates : host.State → Made host.State
  dps_generate_certificates s = elim (dps_get_serial_number s) [
    | none ↦ record { code = negsuc 0; manager = none; commands = []; after = s }
    | some n ↦
        if dps_check_certificates_exist (some n) s
        then record {
          code = pos 0;
          manager = some (manager_of n);
          commands = settled_cmds;
          after = run_all settled_cmds s;
        }
        else steps (manager_of n) prepare_cmds (genrsa_cmd n ∷ req_cmd n ∷ ca_cmd n ∷ [])
            (run_all prepare_cmds s)
  ]
