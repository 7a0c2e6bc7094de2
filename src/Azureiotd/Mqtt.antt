-- ===== src/Azureiotd/Mqtt.antt =====
-- package/azureiotd/src/azure_conn.c: the packets of the MQTT session and what they return.
pub mod Length
use Prim.Native.Nat.{bit_or}
use python2c.Base.{
  ℕ, zero, suc, ◌+◌, ◌-◌, ◌/◌, ◌%◌, Bool, true, false, not, List, [], ◌∷◌, ◌++◌, Option, none, some,
  Bytes, codes, take, length, if◌then◌else◌, ◌==◌, ltb, leb, ℤ, pos, negsuc,
}

-- What the TLS connection gives in answer to one packet: to `SSL_write` of some bytes, and to the
-- `SSL_read` that asks for `want` bytes after `n` others for that packet; `none` and no bytes are a
-- return that is not positive.
pub record Tls : Type 0 where
  pub ssl_write : Bytes → Bool
  pub ssl_read : ℕ → ℕ → Option Bytes

-- The return code, and what was given to `SSL_write`.
pub record Sent : Type 0 where
  pub code : ℤ
  pub written : List Bytes

-- The bytes that `w` has moved over.
unfoldable pub mqtt_write_str : Bytes → Bytes
mqtt_write_str s = (length s / 256 % 256) ∷ (length s % 256) ∷ s

-- The loop; each read that succeeds gives a byte, so `want` rounds are enough.
unfoldable pub read_loop : Tls → ℕ → ℕ → ℕ → Bytes → Option Bytes
read_loop tls zero n want got = if ltb (length got) want then none else some got
read_loop tls (suc f) n want got = elim (tls.ssl_read n (want - length got)) [
  | none ↦ if ltb (length got) want then none else some got
  | some [] ↦ if ltb (length got) want then none else some got
  | some (b ∷ bs) ↦
      let rest = read_loop tls f (suc n) want (got ++ (b ∷ bs)) in
      if ltb (length got) want then rest else some got
]

unfoldable pub mqtt_read_exact : Tls → ℕ → Option Bytes
unfolding read_loop
mqtt_read_exact tls want = read_loop tls want 0 want []

-- The variable part of CONNECT and its payload; `keepalive` is an int that is not negative.
unfoldable pub connect_body : Bytes → Bytes → ℕ → Bytes
unfolding mqtt_write_str
connect_body host device_id keepalive =
    let username = take 511 (host ++ codes "/" ++ device_id ++ codes "/?api-version=2021-04-12") in
    mqtt_write_str (codes "MQTT")
    ++ (4 ∷ 0xC2 ∷ (keepalive / 256 % 256) ∷ (keepalive % 256) ∷ [])
    ++ mqtt_write_str device_id
    ++ mqtt_write_str username

unfoldable pub connect_packet : Bytes → Bytes → ℕ → Bytes
connect_packet host device_id keepalive =
    let body = connect_body host device_id keepalive in 0x10 ∷ (length body % 256) ∷ body

-- The tests on the four bytes of CONNACK.
unfoldable pub connack_code : Bytes → ℤ
connack_code (h0 ∷ h1 ∷ h2 ∷ h3 ∷ []) =
    if not (h0 / 16 == 2)
    then negsuc 2
    else if not (h1 == 2)
    then negsuc 3
    else if not (h3 == 0)
    then negsuc 4
    else pos 0
connack_code _ = negsuc 1

unfoldable pub mqtt_connect_x509 : Tls → Bytes → Bytes → ℕ → Sent
mqtt_connect_x509 tls host device_id keepalive =
    let pkt = connect_packet host device_id keepalive in
    if tls.ssl_write pkt
    then record {
      code = elim (mqtt_read_exact tls 4) [ none ↦ negsuc 1 | some hdr ↦ connack_code hdr ];
      written = pkt ∷ [];
    }
    else record { code = negsuc 0; written = pkt ∷ [] }

-- The do loop; four bytes of `rem` are enough below 2 ^ 28.
unfoldable pub remaining : ℕ → ℕ → Bytes
remaining zero val = []
remaining (suc f) val =
    let rest = remaining f (val / 128) in
    if ltb 0 (val / 128) then bit_or (val % 128) 0x80 ∷ rest else (val % 128) ∷ []

unfoldable pub publish_body : Bytes → Bytes → ℕ → Bytes
unfolding mqtt_write_str
publish_body topic payload packet_id =
    mqtt_write_str topic ++ ((packet_id / 256 % 256) ∷ (packet_id % 256) ∷ []) ++ payload

-- The test on the two bytes of PUBACK that are read.
unfoldable pub puback_code : Bytes → ℤ
puback_code (a0 ∷ rest) = if a0 / 16 == 4 then pos 0 else negsuc 4
puback_code [] = negsuc 3

unfoldable pub mqtt_publish_qos1 : Tls → Bytes → Bytes → ℕ → Sent
mqtt_publish_qos1 tls topic payload packet_id =
    let body = publish_body topic payload packet_id in
    let rem = remaining 4 (length body) in
    if not (tls.ssl_write (0x32 ∷ []))
    then record { code = negsuc 0; written = (0x32 ∷ []) ∷ [] }
    else if not (tls.ssl_write rem)
    then record { code = negsuc 1; written = (0x32 ∷ []) ∷ rem ∷ [] }
    else if not (tls.ssl_write body)
    then record { code = negsuc 2; written = (0x32 ∷ []) ∷ rem ∷ body ∷ [] }
    else record {
      code = elim (mqtt_read_exact tls 2) [ none ↦ negsuc 3 | some a ↦ puback_code a ];
      written = (0x32 ∷ []) ∷ rem ∷ body ∷ [];
    }

abbrev pub disconnect_packet : Bytes
disconnect_packet = 0xE0 ∷ 0 ∷ []

-- Two bytes are written whole or not at all.
unfoldable pub mqtt_disconnect : Tls → Sent
mqtt_disconnect tls = record {
  code = if tls.ssl_write disconnect_packet then pos 0 else negsuc 0;
  written = disconnect_packet ∷ [];
}
