-- ===== src/Azureiotd/Conn/Cleanup.antt =====
-- What a run leaves open.
use python2c.Base.{
  ℕ, ◌≡◌, refl, sym, ap, ◌∙◌, Bool, true, false, not, List, [], ◌∷◌, ◌++◌, append-nil, Option, none,
  some, Bytes, ◌==ℤ◌, ℤ, pos, negsuc, arith, All, All-append, ◌==◌, if◌then◌else◌,
}
use python2c.Azureiotd.Conn.{
  Net, Config, NetEvent, socket_opened, socket_closed, ctx_new, ctx_free, ssl_new, ssl_free,
  ssl_shutdown, default_paths, sni, written, is_empty, try_addresses, tcp_connect, wrap_ssl,
  wrap_keys, tls_wrap_socket, all_written, session, run_tls, run_x509, topic_of, hello_of,
}
use python2c.Azureiotd.Mqtt.{Sent, mqtt_connect_x509, mqtt_publish_qos1}

-- One pass over the events, with the socket that is open before them: the one that is open behind
-- them, or `none` where a second one is opened or one that is not open is closed.
unfoldable pub open_after : Option ℕ → List NetEvent → Option (Option ℕ)
open_after p [] = some p
open_after none (socket_opened s ∷ es) = open_after (some s) es
open_after (some t) (socket_opened s ∷ es) = none
open_after none (socket_closed s ∷ es) = none
open_after (some t) (socket_closed s ∷ es) =
    let rest = open_after none es in if t == s then rest else none
open_after p (ctx_new ∷ es) = open_after p es
open_after p (ctx_free ∷ es) = open_after p es
open_after p (ssl_new ∷ es) = open_after p es
open_after p (ssl_free ∷ es) = open_after p es
open_after p (ssl_shutdown ∷ es) = open_after p es
open_after p (default_paths ∷ es) = open_after p es
open_after p (sni n ∷ es) = open_after p es
open_after p (written b ∷ es) = open_after p es

-- Events that touch no socket.
abbrev Apart : NetEvent → Type 0
Apart (socket_opened s) = ⊥
Apart (socket_closed s) = ⊥
Apart _ = Unit

open_after-Apart :
    (p : Option ℕ) (xs ys : List NetEvent)
    → All Apart xs
    → open_after p (xs ++ ys) ≡ open_after p ys
unfolding open_after
open_after-Apart p [] ys h = refl
open_after-Apart p (socket_opened s ∷ xs) ys h = absurd h.0
open_after-Apart p (socket_closed s ∷ xs) ys h = absurd h.0
open_after-Apart p (ctx_new ∷ xs) ys h = open_after-Apart p xs ys h.1
open_after-Apart p (ctx_free ∷ xs) ys h = open_after-Apart p xs ys h.1
open_after-Apart p (ssl_new ∷ xs) ys h = open_after-Apart p xs ys h.1
open_after-Apart p (ssl_free ∷ xs) ys h = open_after-Apart p xs ys h.1
open_after-Apart p (ssl_shutdown ∷ xs) ys h = open_after-Apart p xs ys h.1
open_after-Apart p (default_paths ∷ xs) ys h = open_after-Apart p xs ys h.1
open_after-Apart p (sni n ∷ xs) ys h = open_after-Apart p xs ys h.1
open_after-Apart p (written b ∷ xs) ys h = open_after-Apart p xs ys h.1

all_written-Apart : (bs : List Bytes) → All Apart (all_written bs)
unfolding all_written
all_written-Apart [] = tt
all_written-Apart (b ∷ bs) = (tt, all_written-Apart bs)

either {ℓ κ} :
    {A : Type ℓ} (P : A → Type κ) (b : Bool) (x y : A) → P x → P y → P (if b then x else y)
either P true x y h k = h
either P false x y h k = k

wrap_ssl-Apart : (net : Net) (name : Bytes) → All Apart (wrap_ssl net name).1
unfolding wrap_ssl is_empty
wrap_ssl-Apart net name =
    either {A = Bool × List NetEvent} (λ r. All Apart r.1) (not net.ssl_made) _ _ (tt, tt)
      (either {A = Bool × List NetEvent} (λ r. All Apart r.1) (not net.handshake) _ _
        (tt, All-append Apart (name_events name) _ (named name) (tt, (tt, tt))) (tt, named name))
  where
    name_events : Bytes → List NetEvent
    name_events n = if is_empty n then [] else sni n ∷ []

    named : (n : Bytes) → All Apart (name_events n)
    named n = either (All Apart) (is_empty n) _ _ tt (tt, tt)

wrap_keys-Apart : (net : Net) (name cert key : Bytes) → All Apart (wrap_keys net name cert key).1
unfolding wrap_keys
wrap_keys-Apart net name cert key = ground (arith, wrap_ssl-Apart net name)

tls_wrap_socket-Apart :
    (net : Net) (name ca cert key : Bytes) → All Apart (tls_wrap_socket net name ca cert key).1
unfolding tls_wrap_socket
tls_wrap_socket-Apart net name ca cert key = ground (arith, wrap_keys-Apart net name cert key)

closed_last : (s : ℕ) → open_after (some s) (ssl_shutdown ∷ socket_closed s ∷ []) ≡ some none
unfolding open_after
closed_last s = ground arith

session-closes :
    (net : Net) (cfg : Config) (now : ℤ) (s : ℕ)
    → open_after (some s) (session net cfg now s).1 ≡ some none
unfolding session open_after
session-closes net cfg now s =
    either Closes (not (login.code ==ℤ pos 0)) _ _ (behind login.written _ (closed_last s)) (
      either Closes (not (sent.code ==ℤ pos 0)) _ _
        (behind login.written _ (behind sent.written _ (closed_last s)))
        (behind login.written _ (behind sent.written _ (closed_last s))))
  where
    login : Sent
    login = mqtt_connect_x509 net.at_login cfg.host cfg.device_id cfg.keepalive

    sent : Sent
    sent = mqtt_publish_qos1 net.at_publish (topic_of cfg.device_id) (hello_of now) 1

    Closes : ℤ × List NetEvent → Type 0
    Closes r = open_after (some s) r.1 ≡ some none

    behind :
        (bs : List Bytes) (ys : List NetEvent)
        → open_after (some s) ys ≡ some none
        → open_after (some s) (all_written bs ++ ys) ≡ some none
    behind bs ys h = open_after-Apart (some s) (all_written bs) ys (all_written-Apart bs) ∙ h

try_addresses-open :
    (res : List (Option ℕ × Bool))
    → (ys : List NetEvent)
    → open_after none ((try_addresses res).1 ++ ys) ≡ open_after (try_addresses res).0 ys
unfolding try_addresses open_after
try_addresses-open [] ys = refl
try_addresses-open ((none, up) ∷ rest) ys = try_addresses-open rest ys
try_addresses-open ((some s, true) ∷ rest) ys = refl
try_addresses-open ((some s, false) ∷ rest) ys = ground (arith, try_addresses-open rest ys)

closed_own : (s : ℕ) → open_after (some s) (socket_closed s ∷ []) ≡ some none
unfolding open_after
closed_own s = ground arith

wrapped-closes :
    (w : Bool × List NetEvent) (r : ℤ × List NetEvent) (s : ℕ)
    → All Apart w.1
    → open_after (some s) r.1 ≡ some none
    → open_after
        (some s)
        (if◌then◌else◌ {A = ℤ × List NetEvent} w.0
          (r.0, w.1 ++ r.1)
          (negsuc 0, w.1 ++ (socket_closed s ∷ []))).1
      ≡ some none
wrapped-closes (true, evs) r s a h = open_after-Apart (some s) evs r.1 a ∙ h
wrapped-closes (false, evs) r s a h =
    open_after-Apart (some s) evs (socket_closed s ∷ []) a ∙ closed_own s

run_tls-closes :
    (net : Net) (cfg : Config) (now : ℤ) (s : ℕ)
    → open_after (some s) (run_tls net cfg now s).1 ≡ some none
unfolding run_tls
run_tls-closes net cfg now s =
    let name : Bytes = if is_empty cfg.sni_host then cfg.host else cfg.sni_host in
    wrapped-closes (tls_wrap_socket net name cfg.ca_file cfg.x509_cert cfg.x509_key)
      (session net cfg now s) s
      (tls_wrap_socket-Apart net name cfg.ca_file cfg.x509_cert cfg.x509_key)
      (session-closes net cfg now s)

tcp_connect-open :
    (net : Net) (ys : List NetEvent)
    → open_after none ((tcp_connect net).1 ++ ys) ≡ open_after (tcp_connect net).0 ys
unfolding tcp_connect
tcp_connect-open net ys = by_addresses net.addresses
  where
    by_addresses :
        (found : Option (List (Option ℕ × Bool)))
        → open_after none (
            (elim found as (λ _. Option ℕ × List NetEvent) [
              | none ↦ (none, [])
              | some res ↦ try_addresses res
            ]).1
            ++ ys)
          ≡ open_after
              (elim found as (λ _. Option ℕ × List NetEvent) [
                | none ↦ (none, [])
                | some res ↦ try_addresses res
              ]).0
              ys
    by_addresses none = refl
    by_addresses (some res) = try_addresses-open res ys

run_from :
    (net : Net) (cfg : Config) (now : ℤ) (sock : Option ℕ) (evs : List NetEvent)
    → ((ys : List NetEvent) → open_after none (evs ++ ys) ≡ open_after sock ys)
    → open_after none
        (elim sock as (λ _. ℤ × List NetEvent) [
          | none ↦ (negsuc 0, evs)
          | some s ↦ ((run_tls net cfg now s).0, evs ++ (run_tls net cfg now s).1)
        ]).1
      ≡ some none
unfolding open_after
run_from net cfg now none evs h = ap (open_after none) (sym (append-nil evs)) ∙ h []
run_from net cfg now (some s) evs h = h (run_tls net cfg now s).1 ∙ run_tls-closes net cfg now s

-- A run that logs in with a certificate closes every socket that it opens, on every path, the
-- failures of the look-up, the connection, the certificates, the handshake and the session
-- included: it never has two open, closes none that is not open, and has none open at its end.
pub run_x509-closes :
    (net : Net) (cfg : Config) (now : ℤ) → open_after none (run_x509 net cfg now).1 ≡ some none
unfolding run_x509
run_x509-closes net cfg now =
    run_from net cfg now (tcp_connect net).0 (tcp_connect net).1 (tcp_connect-open net)
