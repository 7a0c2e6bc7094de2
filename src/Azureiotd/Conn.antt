-- ===== src/Azureiotd/Conn.antt =====
-- package/azureiotd/src/azure_conn.c: a run of the agent that logs in with a certificate, from the
-- socket to its closing. What is done with sockets and OpenSSL's objects is a list of events.
pub mod Cleanup
pub mod Answers
pub mod Success
use python2c.Base.{
  ℕ, Bool, true, false, not, ◌&&◌, List, [], ◌∷◌, ◌++◌, Option, none, some, Bytes, codes, take,
  if◌then◌else◌, ◌==ℤ◌, ℤ, pos, negsuc,
}
use python2c.Base.Scan.{print_dec}
use python2c.Azureiotd.Mqtt.{Tls, Sent, mqtt_connect_x509, mqtt_publish_qos1, mqtt_disconnect}

-- `evi_azure_cfg_t`, as far as a login with a certificate reads it.
pub record Config : Type 0 where
  pub host : Bytes
  pub device_id : Bytes
  pub keepalive : ℕ
  pub x509_cert : Bytes
  pub x509_key : Bytes
  pub ca_file : Bytes
  pub sni_host : Bytes

pub data NetEvent : Type 0 where
  socket_opened socket_closed : ℕ → NetEvent
  ctx_new ctx_free ssl_new ssl_free ssl_shutdown : NetEvent
  default_paths : NetEvent
  sni : Bytes → NetEvent
  written : Bytes → NetEvent

-- What the system gives: the addresses found, `none` if the look-up fails, each with the socket
-- that is made for it and whether it connects; and what OpenSSL answers, on the connection at the
-- login and at the publishing.
pub record Net : Type 0 where
  pub addresses : Option (List (Option ℕ × Bool))
  pub ctx_made : Bool
  pub ca_loads : Bytes → Bool
  pub cert_loads : Bytes → Bool
  pub key_loads : Bytes → Bool
  pub ssl_made : Bool
  pub handshake : Bool
  pub at_login : Tls
  pub at_publish : Tls

-- The loop over the addresses: `s` at its end, and what was done.
unfoldable pub try_addresses : List (Option ℕ × Bool) → Option ℕ × List NetEvent
try_addresses [] = (none, [])
try_addresses ((none, up) ∷ rest) = try_addresses rest
try_addresses ((some s, true) ∷ rest) = (some s, socket_opened s ∷ [])
try_addresses ((some s, false) ∷ rest) =
    let (found, evs) = try_addresses rest in (found, socket_opened s ∷ socket_closed s ∷ evs)

unfoldable pub tcp_connect : Net → Option ℕ × List NetEvent
unfolding try_addresses
tcp_connect net = elim net.addresses [ none ↦ (none, []) | some res ↦ try_addresses res ]

unfoldable pub is_empty : Bytes → Bool
is_empty [] = true
is_empty (c ∷ cs) = false

-- From `SSL_new` on.
unfoldable pub wrap_ssl : Net → Bytes → Bool × List NetEvent
unfolding is_empty
wrap_ssl net sni_name =
    let named = if is_empty sni_name then [] else sni sni_name ∷ [] in
    if not net.ssl_made
    then (false, ctx_free ∷ [])
    else if not net.handshake
    then (false, ssl_new ∷ (named ++ (ssl_free ∷ ctx_free ∷ [])))
    else (true, ssl_new ∷ named)

-- From the client's certificate on.
unfoldable pub wrap_keys : Net → Bytes → Bytes → Bytes → Bool × List NetEvent
unfolding is_empty
wrap_keys net sni_name cert key =
    if not (is_empty cert) && not (net.cert_loads cert)
    then (false, ctx_free ∷ [])
    else if not (is_empty key) && not (net.key_loads key)
    then (false, ctx_free ∷ [])
    else wrap_ssl net sni_name

-- Whether there is an `SSL` at the end, and what was done.
unfoldable pub tls_wrap_socket : Net → Bytes → Bytes → Bytes → Bytes → Bool × List NetEvent
unfolding is_empty
tls_wrap_socket net sni_name ca_file cert key =
    let (ok, evs) = wrap_keys net sni_name cert key in
    let verify =
      if not (is_empty ca_file) && net.ca_loads ca_file then [] else default_paths ∷ [] in
    if net.ctx_made then (ok, ctx_new ∷ (verify ++ evs)) else (false, [])

unfoldable pub all_written : List Bytes → List NetEvent
all_written [] = []
all_written (b ∷ bs) = written b ∷ all_written bs

unfoldable pub topic_of : Bytes → Bytes
topic_of device_id = take 255 (codes "devices/" ++ device_id ++ codes "/messages/events/")

-- The macro of the version stands inside a string literal, and is not expanded.
unfoldable pub hello_of : ℤ → Bytes
hello_of now = take 255 (
    codes "{\"ts\":"
    ++ print_dec now
    ++ codes ",\"msg\":\"hello from azureiotd  AZUREIOTD_VERSION \"}")

-- With the `SSL` there: the session, and the end that both it and the cleanup make.
unfoldable pub session : Net → Config → ℤ → ℕ → ℤ × List NetEvent
unfolding all_written mqtt_disconnect
session net cfg now sock =
    let login = mqtt_connect_x509 net.at_login cfg.host cfg.device_id cfg.keepalive in
    let sent = mqtt_publish_qos1 net.at_publish (topic_of cfg.device_id) (hello_of now) 1 in
    let last = ssl_shutdown ∷ socket_closed sock ∷ [] in
    if not (login.code ==ℤ pos 0)
    then (negsuc 0, all_written login.written ++ last)
    else if not (sent.code ==ℤ pos 0)
    then (negsuc 0, all_written login.written ++ (all_written sent.written ++ last))
    else (
      pos 0,
      all_written login.written
          ++ (all_written sent.written
              ++ (all_written (mqtt_disconnect net.at_publish).written ++ last)),
    )

-- With the socket connected.
unfoldable pub run_tls : Net → Config → ℤ → ℕ → ℤ × List NetEvent
unfolding is_empty
run_tls net cfg now sock =
    let sni_name = if is_empty cfg.sni_host then cfg.host else cfg.sni_host in
    let (ok, evs) = tls_wrap_socket net sni_name cfg.ca_file cfg.x509_cert cfg.x509_key in
    let (code, rest) = session net cfg now sock in
    if ok then (code, evs ++ rest) else (negsuc 0, evs ++ (socket_closed sock ∷ []))

-- `azure_conn_run` for a login with a certificate, at the time `now`.
unfoldable pub run_x509 : Net → Config → ℤ → ℤ × List NetEvent
run_x509 net cfg now =
    let (sock, evs) = tcp_connect net in
    elim sock [
      | none ↦ (negsuc 0, evs)
      | some s ↦ let (code, rest) = run_tls net cfg now s in (code, evs ++ rest)
    ]
