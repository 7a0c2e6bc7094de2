-- ===== src/Azureiotd/Tests.antt =====
-- The theorems of azureiotd at concrete strings, systems and packets.
use python2c.Base.{
  Bytes, Option, some, true, false, none, ℕ, ◌+◌, ◌<◌, ◌≡◌, ◌↔◌, refl, [], ◌∷◌, ◌++◌, codes, length,
  drop, take, ap, ◌*◌, ◌/◌, ◌≤◌, length-take, arith, ℤ, pos, str_eq, if◌then◌else◌,
}
use python2c.Azureiotd.SafeStr.{safe_hostname_only, is_in}
use python2c.Base.Scan.{print_dec}
use python2c.Azureiotd.Sas
use python2c.Azureiotd.Sas.{lifetime, to_long, uri_of, token_text}
use python2c.Azureiotd.Sas.Token.{read_token, token_read}
use python2c.Azureiotd.Url.{url_encode, is_plain, hex_upper, decode_from, idle}
use python2c.Azureiotd.Setup.{connects, start, settings_of, read_settings, uci_get_str, normalized}
use python2c.Azureiotd.Setup.Host.{IsNormal, start-IsNormal}
use python2c.Azureiotd.SafeStr.{chop_at_first, drop_scheme, after_scheme, strlcpy_compat}
use python2c.Azureiotd.Conn.{is_empty, Net, Config}
use python2c.Azureiotd.Conn.Cleanup.{open_after}
use python2c.Azureiotd.Base64.{
  Bio, Decodes, b64_decode, b64_encode, held, given, base64-held, b64_decode-whole,
}
use python2c.Azureiotd.Main
use mathlib.Core.Path.{subst}
use mathlib.Core.Option.{some-injective}
use python2c.Azureiotd.Sas.{Runtime}
use python2c.Azureiotd.Mqtt.{Tls, remaining, connect_packet, connect_body}
use python2c.Azureiotd.Mqtt.Length.{read_length, read-remaining, connect_packet-length_iff}
use python2c.Azureiotd.Dps.{
  Host, dps_get_serial_number, dps_check_certificates_exist, dps_generate_certificates, run_all,
  prepare_cmds, serial_of, before_newline,
}
use python2c.Base.{if◌then◌else◌, ◌==◌, ◌↔◌, inr}
use python2c.Azureiotd.Conn.{run_x509, topic_of, hello_of}
use python2c.Azureiotd.Mqtt.{mqtt_read_exact, read_loop}
use python2c.Azureiotd.Conn.Answers.{IsAccepted, IsAcknowledged}
use python2c.Azureiotd.Conn.Success.{OneConnects, Handshakes, run_x509-code_iff}
use python2c.Azureiotd.SafeStr.Hostname.{safe_hostname_only-host}
use python2c.Azureiotd.Dps.Outcomes.{AllZero, openssl_cmds, generate-success_iff}

read-remaining_example : read_length 4 (remaining 4 300 ++ codes "body") ≡ some (300, codes "body")
read-remaining_example = read-remaining 4 300 (codes "body") (omega arith) (omega arith)

connect_packet-length_iff_example :
    (read_length 4 (drop 1 (connect_packet (codes "hub") (codes "dev") 60))
      ≡ some (
        length (connect_body (codes "hub") (codes "dev") 60),
        connect_body (codes "hub") (codes "dev") 60,
      ))
    ↔ (length (connect_body (codes "hub") (codes "dev") 60) < 128)
connect_packet-length_iff_example = connect_packet-length_iff (codes "hub") (codes "dev") 60

-- A system with the serial number A1 and no certificate; each command returns what it is told to.
abbrev fresh_host : ℤ → Host
fresh_host status = record {
  State = ℕ;
  system = λ cmd s. (status, s + 1);
  popen = λ cmd s. some (codes "A1\n");
  has_file = λ path s. false;
}

serial_read : (status : ℤ) → dps_get_serial_number (fresh_host status) 0 ≡ some (codes "A1")
unfolding dps_get_serial_number serial_of before_newline
serial_read status = refl

no_certificate :
    (status : ℤ) → dps_check_certificates_exist (fresh_host status) (some (codes "A1")) 0 ≡ false
unfolding dps_check_certificates_exist
no_certificate status = refl

generate-success_iff_example :
    ((dps_generate_certificates (fresh_host (pos 0)) 0).code ≡ pos 0)
    ↔ AllZero
        (fresh_host (pos 0))
        (openssl_cmds (codes "A1"))
        (run_all (fresh_host (pos 0)) prepare_cmds 0)
generate-success_iff_example =
    generate-success_iff (fresh_host (pos 0)) (codes "A1") 0 (serial_read (pos 0))
      (no_certificate (pos 0))

-- Two addresses, of which the second connects; a server whose certificate is refused.
abbrev mute : Tls
mute = record { ssl_write = λ b. true; ssl_read = λ n want. none }

abbrev untrusted : Net
untrusted = record {
  addresses = some ((some 3, false) ∷ (some 4, true) ∷ []);
  ctx_made = true;
  ca_loads = λ f. true;
  cert_loads = λ f. true;
  key_loads = λ f. true;
  ssl_made = true;
  handshake = false;
  at_login = mute;
  at_publish = mute;
}

abbrev hub : Config
hub = record {
  host = codes "hub";
  device_id = codes "dev";
  keepalive = 60;
  x509_cert = codes "c.pem";
  x509_key = codes "k.pem";
  ca_file = [];
  sni_host = [];
}

-- A configuration in which every option is an address.
abbrev hub_uci : Bytes → Option Bytes
hub_uci opt = some (codes "https://hub:443/x")

hub-connects : start (some hub_uci) ≡ connects (read_settings hub_uci)
unfolding start settings_of read_settings uci_get_str is_empty normalized safe_hostname_only
    chop_at_first drop_scheme after_scheme strlcpy_compat is_in
hub-connects = refl

start-IsNormal_example :
    (is_empty (read_settings hub_uci).host ≡ false)
    × (is_empty (read_settings hub_uci).device_id ≡ false)
    × IsNormal (read_settings hub_uci).host
    × IsNormal (read_settings hub_uci).sni_host
start-IsNormal_example = start-IsNormal (some hub_uci) (read_settings hub_uci) hub-connects

-- A configuration for a login with a certificate.
abbrev x509_uci : Bytes → Option Bytes
x509_uci opt = if str_eq opt (codes "azureiotd.main.auth") then some (codes "x509") else hub_uci opt

abbrev blank_rt : Runtime
blank_rt = record { connected = pos 7 }

main-closes_example :
    open_after none
      (Main.main (λ k. some k) (λ k m. m) (λ m. some m) blank_rt untrusted 1000 (some x509_uci)).1
    ≡ some none
main-closes_example =
    Main.main-closes (λ k. some k) (λ k m. m) (λ m. some m) blank_rt untrusted 1000 (some x509_uci)

token-length :
    length (
      token_text
        (url_encode (uri_of (codes "hub") (codes "evi")))
        (url_encode (codes "a+b"))
        (to_long (1000 + lifetime (pos 60))))
    ≡ 62
unfolding url_encode is_plain hex_upper lifetime to_long print_dec
token-length = refl

token_read_example :
    (token : Bytes) × (sr : Bytes) × (sig : Bytes) × (Sas.azure_sas_build_token
        (λ k. some k)
        (λ k m. k)
        (λ d. some d)
        (codes "hub")
        (codes "evi")
        (codes "a+b")
        (pos 60)
        1000
      ≡ some token)
    × (read_token token ≡ some (sr, sig, print_dec (to_long (1000 + lifetime (pos 60)))))
    × (decode_from idle sr ≡ some (uri_of (codes "hub") (codes "evi")))
    × (decode_from idle sig ≡ some (codes "a+b"))
unfolding is_empty
token_read_example =
    token_read (λ k. some k) (λ k m. k) (λ d. some d) (codes "hub") (codes "evi") (codes "a+b")
      (codes "a+b") (codes "a+b") (pos 60) 1000 (refl, refl, refl) (ground arith) (ground arith)
      refl refl (omega arith) (omega (arith, token-length))

abbrev shortened : Bytes → Bytes
shortened s = take (length s * 3 / 4) s

-- A BIO that takes a text for its own decoding, up to the bound of base64.
abbrev plain_bio : Bio
plain_bio = record {
  filter_made = true;
  other_made = true;
  room = true;
  bio_read = λ s n. (pos (length (take n (shortened s))), take n (shortened s));
  bio_text = λ s. s;
}

plain_bio-Decodes : Decodes plain_bio (λ s. some (shortened s))
plain_bio-Decodes = record {
  small = λ s t e.
      subst (λ u. length u ≤ length s * 3 / 4) (some-injective _ _ e)
        (omega (arith, length-take (length s * 3 / 4) s));
  reads = λ s t n e. ap (λ (u : Bytes). (pos (length (take n u)), take n u)) (some-injective _ _ e);
}

base64-held_example :
    (held (b64_decode plain_bio (codes "QUJD")).1 0 0
      ≡ given (b64_decode plain_bio (codes "QUJD")).0)
    × (held (b64_encode plain_bio (codes "QUJD")).1 0 0
        ≡ given (b64_encode plain_bio (codes "QUJD")).0)
base64-held_example = base64-held plain_bio (codes "QUJD")

b64_decode-whole_example : (b64_decode plain_bio (codes "QUJD")).0 ≡ some (codes "QUJ")
b64_decode-whole_example =
    b64_decode-whole plain_bio (λ s. some (shortened s)) (codes "QUJD") b'Q' (codes "UJ")
      plain_bio-Decodes (refl, refl, refl) refl

-- A server that accepts the login, in two pieces, and acknowledges the message.
abbrev friendly : Net
friendly = record {
  addresses = some ((none, false) ∷ (some 4, true) ∷ []);
  ctx_made = true;
  ca_loads = λ f. true;
  cert_loads = λ f. true;
  key_loads = λ f. true;
  ssl_made = true;
  handshake = true;
  at_login = record {
    ssl_write = λ b. true;
    ssl_read = λ n want. some (if n == 0 then 0x20 ∷ [] else 2 ∷ 0 ∷ 0 ∷ []);
  };
  at_publish = record { ssl_write = λ b. true; ssl_read = λ n want. some (0x40 ∷ 2 ∷ []) };
}

run_x509-code_iff_example : ((run_x509 friendly hub (pos 1000)).0 ≡ pos 0) ↔ (
    OneConnects friendly
    × Handshakes friendly hub
    × IsAccepted friendly hub
    × IsAcknowledged friendly.at_publish (topic_of hub.device_id) (hello_of (pos 1000)))
run_x509-code_iff_example = run_x509-code_iff friendly hub (pos 1000)

friendly-accepts : (run_x509 friendly hub (pos 1000)).0 ≡ pos 0
friendly-accepts = (run_x509-code_iff friendly hub (pos 1000)).1 (
  ((none, false) ∷ [], 4, [], refl),
  (refl, inr refl, inr refl, refl, refl),
  (refl, (0x20, 0, refl, unfold mqtt_read_exact read_loop in refl)),
  (refl, refl, refl, (0x40, 2 ∷ [], refl, unfold mqtt_read_exact read_loop in refl)),
)

safe_hostname_only-host_example :
    safe_hostname_only
      (some (codes "tls" ++ (codes "://" ++ (codes "hub" ++ (b':' ∷ codes "88")))))
      256
    ≡ codes "hub"
unfolding is_in
safe_hostname_only-host_example =
    safe_hostname_only-host (codes "tls") (codes "hub") (codes "88") b':' 256
      (refl, (refl, (refl, tt))) (refl, (refl, (refl, tt))) (refl, (refl, (refl, tt))) refl
      (omega arith) (omega arith)
