-- ===== src/Azureiotd/Conn/Answers.antt =====
-- What the server's answers have to be for the two exchanges of the MQTT session in
-- package/azureiotd/src/azure_conn.c.
use python2c.Base.{
  ℕ, ◌/◌, ◌≡◌, refl, ap, ◌∙◌, [], ◌∷◌, Bytes, length, false, ◌↔◌, Bool, true, List, Option, none,
  some, ℤ, pos, negsuc, arith, if◌then◌else◌,
}
use mathlib.Core.Option.{some-injective}
use python2c.Azureiotd.Conn.{Net, Config}
use python2c.Azureiotd.Mqtt.{
  Tls, Sent, mqtt_connect_x509, mqtt_publish_qos1, mqtt_read_exact, connect_packet, publish_body,
  remaining, connack_code, puback_code,
}

-- CONNECT is written, and the four bytes that are read are a CONNACK of length 2 with code 0.
abbrev pub IsAccepted : Net → Config → Type 0
IsAccepted net cfg =
    (net.at_login.ssl_write (connect_packet cfg.host cfg.device_id cfg.keepalive) ≡ true)
    × ((h0 : ℕ) × (h2 : ℕ) × (h0 / 16 ≡ 2)
        × (mqtt_read_exact net.at_login 4 ≡ some (h0 ∷ 2 ∷ h2 ∷ 0 ∷ [])))

abbrev IsConnack : Bytes → Type 0
IsConnack hdr = (h0 : ℕ) × (h2 : ℕ) × (h0 / 16 ≡ 2) × (hdr ≡ h0 ∷ 2 ∷ h2 ∷ 0 ∷ [])

connack_code-four :
    (h0 h1 h2 h3 : ℕ)
    → (connack_code (h0 ∷ h1 ∷ h2 ∷ h3 ∷ []) ≡ pos 0) ↔ ((h0 / 16 ≡ 2) × (h1 ≡ 2) × (h3 ≡ 0))
unfolding connack_code
connack_code-four h0 h1 h2 h3 = ground arith

connack_code_iff : (hdr : Bytes) → (connack_code hdr ≡ pos 0) ↔ IsConnack hdr
unfolding connack_code
connack_code_iff [] = ((λ e. cc e), (λ (_, _, _, e). cc e))
connack_code_iff (a ∷ []) = ((λ e. cc e), (λ (_, _, _, e). cc e))
connack_code_iff (a ∷ b ∷ []) = ((λ e. cc e), (λ (_, _, _, e). cc e))
connack_code_iff (a ∷ b ∷ c ∷ []) = ((λ e. cc e), (λ (_, _, _, e). cc e))
connack_code_iff (a ∷ b ∷ c ∷ d ∷ x ∷ r) = ((λ e. cc e), (λ (_, _, _, e). cc e))
connack_code_iff (a ∷ b ∷ c ∷ d ∷ []) = (
  λ e. let (k, two, zero_code) = (connack_code-four a b c d).0 e in (a, c, k, cc (two, zero_code)),
  λ (h0, h2, k, e).
      let same : a ≡ h0 = cc e in
      (connack_code-four a b c d).1 (ap (λ h. h / 16) same ∙ k, cc e, cc e),
)

accepted-code :
    (w : Bool) (o : Option Bytes) (sent : List Bytes)
    → ((if◌then◌else◌ {A = Sent} w
          (record {
            code = elim o as (λ _. ℤ) [ none ↦ negsuc 1 | some hdr ↦ connack_code hdr ];
            written = sent;
          })
          (record { code = negsuc 0; written = sent })).code
        ≡ pos 0)
      ↔ ((w ≡ true) × ((h0 : ℕ) × (h2 : ℕ) × (h0 / 16 ≡ 2) × (o ≡ some (h0 ∷ 2 ∷ h2 ∷ 0 ∷ []))))
accepted-code false o sent = ((λ e. cc e), (λ h. cc h.0))
accepted-code true none sent = ((λ e. cc e), (λ (_, (_, _, _, e)). cc e))
accepted-code true (some hdr) sent = (
  λ e. let (h0, h2, k, f) = (connack_code_iff hdr).0 e in (refl, (h0, h2, k, ap some f)),
  λ (_, (h0, h2, k, f)). (connack_code_iff hdr).1 (h0, h2, k, some-injective _ _ f),
)

pub Accepted_iff :
    (net : Net) (cfg : Config)
    → ((mqtt_connect_x509 net.at_login cfg.host cfg.device_id cfg.keepalive).code ≡ pos 0)
      ↔ IsAccepted net cfg
unfolding mqtt_connect_x509 connack_code
Accepted_iff net cfg = accepted-code _ (mqtt_read_exact net.at_login 4) _

-- The three parts of PUBLISH are written, and the bytes that are read begin with a PUBACK.
abbrev pub IsAcknowledged : Tls → Bytes → Bytes → Type 0
IsAcknowledged tls topic payload =
    let body = publish_body topic payload 1 in
    (tls.ssl_write (0x32 ∷ []) ≡ true)
    × (tls.ssl_write (remaining 4 (length body)) ≡ true)
    × (tls.ssl_write body ≡ true)
    × ((a0 : ℕ) × (rest : Bytes) × (a0 / 16 ≡ 4) × (mqtt_read_exact tls 2 ≡ some (a0 ∷ rest)))

puback_code_iff :
    (a : Bytes)
    → (puback_code a ≡ pos 0) ↔ ((a0 : ℕ) × (rest : Bytes) × (a0 / 16 ≡ 4) × (a ≡ a0 ∷ rest))
unfolding puback_code
puback_code_iff [] = ((λ e. cc e), (λ (_, _, _, e). cc e))
puback_code_iff (a ∷ r) = (
  λ e. (a, r, puback-four a r e, refl),
  λ (a0, rest, k, e). let same : a ≡ a0 = cc e in four-puback a r (ap (λ h. h / 16) same ∙ k),
)
  where
    puback-four : (a : ℕ) (r : Bytes) → puback_code (a ∷ r) ≡ pos 0 → a / 16 ≡ 4
    puback-four a r e = unfold puback_code in ground arith

    four-puback : (a : ℕ) (r : Bytes) → a / 16 ≡ 4 → puback_code (a ∷ r) ≡ pos 0
    four-puback a r e = unfold puback_code in ground arith

answer_code : Option Bytes → ℤ
answer_code o = elim o [ none ↦ negsuc 3 | some a ↦ puback_code a ]

answer_code_iff :
    (o : Option Bytes)
    → (answer_code o ≡ pos 0) ↔ ((a0 : ℕ) × (rest : Bytes) × (a0 / 16 ≡ 4) × (o ≡ some (a0 ∷ rest)))
unfolding answer_code
answer_code_iff none = ((λ e. cc e), (λ (_, _, _, e). cc e))
answer_code_iff (some a) = (
  λ e. let (a0, rest, k, f) = (puback_code_iff a).0 e in (a0, rest, k, ap some f),
  λ (a0, rest, k, f). (puback_code_iff a).1 (a0, rest, k, some-injective _ _ f),
)

acknowledged-code :
    (tls : Tls) (topic payload : Bytes)
    → ((mqtt_publish_qos1 tls topic payload 1).code ≡ pos 0) ↔ (
        (tls.ssl_write (0x32 ∷ []) ≡ true)
        × (tls.ssl_write (remaining 4 (length (publish_body topic payload 1))) ≡ true)
        × (tls.ssl_write (publish_body topic payload 1) ≡ true)
        × (answer_code (mqtt_read_exact tls 2) ≡ pos 0))
unfolding mqtt_publish_qos1 answer_code
acknowledged-code tls topic payload = ground arith

pub Acknowledged_iff :
    (tls : Tls) (topic payload : Bytes)
    → ((mqtt_publish_qos1 tls topic payload 1).code ≡ pos 0) ↔ IsAcknowledged tls topic payload
Acknowledged_iff tls topic payload = (
  λ e.
      let (a, b, c, d) = (acknowledged-code tls topic payload).0 e in
      (a, b, c, (answer_code_iff _).0 d),
  λ (a, b, c, d). (acknowledged-code tls topic payload).1 (a, b, c, (answer_code_iff _).1 d),
)
