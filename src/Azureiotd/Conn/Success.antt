-- ===== src/Azureiotd/Conn/Success.antt =====
-- When a login with a certificate in package/azureiotd/src/azure_conn.c returns 0, by what the
-- network, the files and the server give.
use python2c.Base.{
  ℕ, ◌≡◌, ◌⊎◌, refl, ap, ◌∙◌, [], ◌∷◌, Bytes, false, ◌↔◌, Bool, true, not, List, ◌++◌, Option, none,
  some, ◌==ℤ◌, ==ℤ_iff, ℤ, pos, negsuc, arith, if◌then◌else◌,
}
use mathlib.Core.Option.{some-injective}
use python2c.Azureiotd.Conn.{
  Net, Config, NetEvent, is_empty, try_addresses, tcp_connect, wrap_ssl, wrap_keys, tls_wrap_socket,
  session, run_tls, run_x509, topic_of, hello_of,
}
use python2c.Azureiotd.Mqtt.{mqtt_connect_x509, mqtt_publish_qos1}
use python2c.Azureiotd.Conn.Answers.{IsAccepted, Accepted_iff, IsAcknowledged, Acknowledged_iff}

-- The agreements of a conversation on a socket.
abbrev pub Answered : Net → Config → ℤ → Type 0
Answered net cfg now =
    ((mqtt_connect_x509 net.at_login cfg.host cfg.device_id cfg.keepalive).code ≡ pos 0)
    × ((mqtt_publish_qos1 net.at_publish (topic_of cfg.device_id) (hello_of now) 1).code ≡ pos 0)

abbrev pub Wrapped : Net → Config → Type 0
Wrapped net cfg =
    (tls_wrap_socket net (if is_empty cfg.sni_host then cfg.host else cfg.sni_host) cfg.ca_file
      cfg.x509_cert cfg.x509_key).0
    ≡ true

abbrev pub Connects : Net → Type 0
Connects net = (s : ℕ) × ((tcp_connect net).0 ≡ some s)

session-code :
    (a b : ℤ) (xs ys zs : List NetEvent)
    → ((if◌then◌else◌ {A = ℤ × List NetEvent}
          (not (a ==ℤ pos 0))
          (negsuc 0, xs)
          (if◌then◌else◌ {A = ℤ × List NetEvent} (not (b ==ℤ pos 0)) (negsuc 0, ys) (pos 0, zs))).0
        ≡ pos 0)
      ↔ ((a ≡ pos 0) × (b ≡ pos 0))
session-code a b xs ys zs = ground (arith, ==ℤ_iff a (pos 0), ==ℤ_iff b (pos 0))

session-code_iff :
    (net : Net) (cfg : Config) (now : ℤ) (s : ℕ)
    → ((session net cfg now s).0 ≡ pos 0) ↔ Answered net cfg now
unfolding session
session-code_iff net cfg now s =
    session-code (mqtt_connect_x509 net.at_login cfg.host cfg.device_id cfg.keepalive).code
      (mqtt_publish_qos1 net.at_publish (topic_of cfg.device_id) (hello_of now) 1).code _ _ _

chosen-code :
    (b : Bool) (c : ℤ) (xs ys : List NetEvent)
    → ((if◌then◌else◌ {A = ℤ × List NetEvent} b (c, xs) (negsuc 0, ys)).0 ≡ pos 0)
      ↔ ((b ≡ true) × (c ≡ pos 0))
chosen-code b c xs ys = ground arith

run_tls-code :
    (net : Net) (cfg : Config) (now : ℤ) (s : ℕ)
    → ((run_tls net cfg now s).0 ≡ pos 0) ↔ (Wrapped net cfg × ((session net cfg now s).0 ≡ pos 0))
unfolding run_tls
run_tls-code net cfg now s = chosen-code _ (session net cfg now s).0 _ _

run_from-code :
    (net : Net) (cfg : Config) (now : ℤ) (sock : Option ℕ) (evs : List NetEvent)
    → ((elim sock as (λ _. ℤ × List NetEvent) [
      | none ↦ (negsuc 0, evs)
      | some s ↦ ((run_tls net cfg now s).0, evs ++ (run_tls net cfg now s).1)
    ]).0
        ≡ pos 0)
      ↔ (((s : ℕ) × (sock ≡ some s)) × Wrapped net cfg × Answered net cfg now)
run_from-code net cfg now none evs = ground arith
run_from-code net cfg now (some s) evs = (
  (λ h.
      let (wrapped, served) = (run_tls-code net cfg now s).0 h in
      ((s, refl), wrapped, (session-code_iff net cfg now s).0 served)),
  (λ c. (run_tls-code net cfg now s).1 (c.1, (session-code_iff net cfg now s).1 c.2)),
)

run_x509-parts :
    (net : Net) (cfg : Config) (now : ℤ)
    → ((run_x509 net cfg now).0 ≡ pos 0) ↔ (Connects net × Wrapped net cfg × Answered net cfg now)
unfolding run_x509
run_x509-parts net cfg now = run_from-code net cfg now (tcp_connect net).0 (tcp_connect net).1

-- One of the addresses found has a socket that connects.
abbrev pub OneConnects : Net → Type 0
OneConnects net =
    (before : List (Option ℕ × Bool)) × (s : ℕ) × (after : List (Option ℕ × Bool)) × (net.addresses
      ≡ some (before ++ ((some s, true) ∷ after)))

try_addresses-finds :
    (before : List (Option ℕ × Bool)) (s : ℕ) (after : List (Option ℕ × Bool))
    → (t : ℕ) × ((try_addresses (before ++ ((some s, true) ∷ after))).0 ≡ some t)
unfolding try_addresses
try_addresses-finds [] s after = (s, refl)
try_addresses-finds ((none, up) ∷ before) s after = try_addresses-finds before s after
try_addresses-finds ((some r, true) ∷ before) s after = (r, refl)
try_addresses-finds ((some r, false) ∷ before) s after = try_addresses-finds before s after

try_addresses-found :
    (res : List (Option ℕ × Bool)) (t : ℕ)
    → (try_addresses res).0 ≡ some t
    → (before : List (Option ℕ × Bool)) × (s : ℕ) × (after : List (Option ℕ × Bool)) × (res
        ≡ before ++ ((some s, true) ∷ after))
unfolding try_addresses
try_addresses-found [] t e = cc e
try_addresses-found ((some r, true) ∷ res) t e = ([], r, res, refl)
try_addresses-found ((none, up) ∷ res) t e =
    let (before, s, after, f) = try_addresses-found res t e in
    ((none, up) ∷ before, s, after, ap (λ r. (none, up) ∷ r) f)
try_addresses-found ((some r, false) ∷ res) t e =
    let (before, s, after, f) = try_addresses-found res t e in
    ((some r, false) ∷ before, s, after, ap (λ q. (some r, false) ∷ q) f)

addresses_iff :
    (found : Option (List (Option ℕ × Bool)))
    → ((t : ℕ) × ((elim found as (λ _. Option ℕ × List NetEvent) [
      | none ↦ (none, [])
      | some res ↦ try_addresses res
    ]).0
          ≡ some t))
      ↔ ((before : List (Option ℕ × Bool)) × (s : ℕ) × (after : List (Option ℕ × Bool)) × (found
            ≡ some (before ++ ((some s, true) ∷ after))))
addresses_iff none = ((λ (_, e). cc e), (λ (_, _, _, e). cc e))
addresses_iff (some res) = (
  λ (t, e).
      let (before, s, after, f) = try_addresses-found res t e in (before, s, after, ap some f),
  λ (before, s, after, f).
      let (t, e) = try_addresses-finds before s after in
      (t, ap (λ r. (try_addresses r).0) (some-injective _ _ f) ∙ e),
)

connection_iff : (net : Net) → Connects net ↔ OneConnects net
unfolding tcp_connect
connection_iff net = addresses_iff net.addresses

-- Of a file's name: it is empty, or the file is taken.
abbrev pub IsTaken : (Bytes → Bool) → Bytes → Type 0
IsTaken loads name = (name ≡ []) ⊎ (loads name ≡ true)

-- OpenSSL makes its objects, takes the client's certificate and key, and the handshake succeeds.
abbrev pub Handshakes : Net → Config → Type 0
Handshakes net cfg =
    (net.ctx_made ≡ true)
    × IsTaken net.cert_loads cfg.x509_cert
    × IsTaken net.key_loads cfg.x509_key
    × (net.ssl_made ≡ true)
    × (net.handshake ≡ true)

is_empty_iff : (s : Bytes) → (is_empty s ≡ true) ↔ (s ≡ [])
unfolding is_empty
is_empty_iff [] = ((λ e. refl), (λ e. refl))
is_empty_iff (c ∷ s) = ((λ e. cc e), (λ e. cc e))

handshake_iff : (net : Net) (cfg : Config) → Wrapped net cfg ↔ Handshakes net cfg
unfolding tls_wrap_socket wrap_keys wrap_ssl
handshake_iff net cfg = ground (arith, is_empty_iff cfg.x509_cert, is_empty_iff cfg.x509_key)

-- A run that logs in with a certificate returns 0 just when one of the addresses found has a socket
-- that connects, OpenSSL makes its objects and takes the certificate and the key that are named,
-- the handshake succeeds, CONNECT is written and answered by a CONNACK of length 2 with the return
-- code 0, and the three parts of PUBLISH, with the topic of the device and a payload of the time,
-- are written and answered by a packet of the type PUBACK.
pub run_x509-code_iff :
    (net : Net) (cfg : Config) (now : ℤ)
    → ((run_x509 net cfg now).0 ≡ pos 0) ↔ (
        OneConnects net
        × Handshakes net cfg
        × IsAccepted net cfg
        × IsAcknowledged net.at_publish (topic_of cfg.device_id) (hello_of now))
run_x509-code_iff net cfg now =
    let parts = run_x509-parts net cfg now in
    let published = Acknowledged_iff net.at_publish (topic_of cfg.device_id) (hello_of now) in
    (
      λ e.
          let (c, w, (a, p)) = parts.0 e in
          (
            (connection_iff net).0 c,
            (handshake_iff net cfg).0 w,
            (Accepted_iff net cfg).0 a,
            published.0 p,
          ),
      λ (c, w, a, p). parts.1 (
        (connection_iff net).1 c,
        (handshake_iff net cfg).1 w,
        ((Accepted_iff net cfg).1 a, published.1 p),
      ),
    )
