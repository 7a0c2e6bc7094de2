-- ===== src/Lcdclient/Tests.antt =====
-- The theorems of the client library at concrete calls.
use python2c.Base.{
  ℕ, if◌then◌else◌, ◌+◌, ◌-◌, zero, suc, ◌≡◌, ◌↔◌, refl, true, false, [], ◌∷◌, ◌++◌, Option, none,
  some, Bytes, codes, length, take, drop, starts_with, All, arith, ◌==◌, pos,
}
use python2c.Lcdsvc.Service
use python2c.Lcdsvc.Service.{write_instr, set_ddram, write_text, ok_reply}
use python2c.Lcdclient.Screen.{Screen, Memory, feed_all}
use python2c.Lcdclient.TextScreen.{written, effects, empty, showing, client_screen}
use python2c.Base.{map}
use python2c.Lcdclient
use python2c.Lcdclient.{Peer, lock, unlock, first_sock_path}
use python2c.Lcdclient.Session.{Balanced, send_cmd_session}
use python2c.Lcdclient.Threads.{pick, call, take_lock, give_lock, start, later, IsSession}
use python2c.Lcdclient.Threads.Sessions.{threads_sessions, all_events}
use python2c.Lcdclient.Ctl
use python2c.Lcdclient.Ctl.Same.{Reaches, library, ctl_same_bytes}
use python2c.Lcdclient.Link.{wire, serve, daemon, put_cut}
use python2c.Base.{List}
use python2c.Lcdsvc.Service.Lines.{flat}
use python2c.Lcdsvc.Hw.{Running}
use python2c.Lcdsvc.Hw.Wires.{watch}
use python2c.Lcdsvc.Hw.OneByte.{IsWiring}
use python2c.Lcdsvc.Hw.Init.{start_taken}
use python2c.Lcdsvc.Hw.Steady.{steady, steady-Obeys, steady-Opens, blank}
use python2c.Lcdsvc.Daemon
use python2c.Lcdsvc.Daemon.{Boot, serving}
use python2c.Lcdsvc.Daemon.Protocol.{pins}
use python2c.Lcdclient.OnDisplay.{
  ClientCall, lcd_clear, lcd_ddram, lcd_put, IsCall, promised, made, rounds_of, calls_on_display,
}

abbrev no_uci : Bytes → Option Bytes
no_uci key = none

abbrev deaf : Peer
deaf = record { socket_ok = true; connect_ok = λ p. true; answer = λ b. none }

send_cmd_session_example :
    Balanced false 0 (Lcdclient.send_cmd deaf first_sock_path (codes "HOME")).0
    × (((Lcdclient.send_cmd deaf first_sock_path (codes "HOME")).1 ≡ pos 0) ↔ (
        (deaf.socket_ok ≡ true)
        × (deaf.connect_ok (take 107 first_sock_path) ≡ true)
        × ((buf : Bytes) × (deaf.answer (codes "HOME" ++ (b'\n' ∷ [])) ≡ some buf)
            × (starts_with buf (codes "OK") ≡ true))))
send_cmd_session_example = send_cmd_session deaf first_sock_path (codes "HOME")

unfoldable dashes : ℕ → Bytes
dashes zero = []
dashes (suc n) = b'-' ∷ dashes n

dashes-All : (d n : ℕ) → (b'-' == d) ≡ false → All (λ c. (c == d) ≡ false) (dashes n)
unfolding dashes
dashes-All d zero h = tt
dashes-All d (suc n) h = (h, dashes-All d n h)

length-dashes : (n : ℕ) → length (dashes n) ≡ n
unfolding dashes
length-dashes zero = refl
length-dashes (suc n) = ground (arith, length-dashes n)

put_cut_example :
    serve no_uci (Lcdclient.evi_lcd_put (daemon no_uci) first_sock_path (some (dashes 520))).0
    ≡ Service.dispatch no_uci (drop 507 (dashes 520))
put_cut_example =
    put_cut no_uci first_sock_path (dashes 520) (dashes-All b'\n' 520 refl) (dashes-All 0 520 refl)
      (omega (arith, length-dashes 520)) (omega (arith, length-dashes 520))

abbrev all_up : Boot
all_up = record {
  lock_open = true;
  lock_free = true;
  socket_ok = true;
  bind_ok = true;
  listen_ok = true;
}

abbrev some_calls : List ClientCall
some_calls = lcd_clear ∷ lcd_ddram 0x40 ∷ lcd_put (codes "Hi") ∷ []

default_pins-IsWiring : IsWiring (pins no_uci)
unfolding Service.load_pins_from_uci
default_pins-IsWiring = ground arith

some_calls-All : All IsCall some_calls
some_calls-All = ground arith

calls_on_display_example :
    All (λ c. (made no_uci first_sock_path c).1 ≡ pos 0) some_calls
    × ((r : Running) × (Daemon.main no_uci steady all_up
            (rounds_of no_uci first_sock_path some_calls)
          ≡ serving r)
        × ((watch (pins no_uci) r.calls blank).taken
            ≡ blank.taken ++ (start_taken ++ flat promised some_calls)))
calls_on_display_example =
    calls_on_display no_uci first_sock_path steady blank all_up some_calls
      (refl, refl, refl, refl, refl) steady-Obeys (steady-Opens (pins no_uci)) default_pins-IsWiring
      (refl, refl) some_calls-All

ctl_same_bytes_example :
    (wire (Ctl.main deaf (codes "put" ∷ codes "Hi" ∷ codes "you" ∷ [])).events
      ≡ wire (library deaf (lcd_put (codes "Hi you"))).0)
    × (((Ctl.main deaf (codes "put" ∷ codes "Hi" ∷ codes "you" ∷ [])).status ≡ 0) ↔ Reaches deaf)
ctl_same_bytes_example =
    ctl_same_bytes deaf (lcd_put (codes "Hi you")) (codes "put" ∷ codes "Hi" ∷ codes "you" ∷ [])
      (codes "Hi", codes "you" ∷ [], refl, refl, omega arith)

-- One line of 80 characters, forwards and backwards.
abbrev one_line : Memory
one_line = record {
  next = λ two a. if a == 79 then 0 else a + 1;
  prev = λ two a. if a == 0 then 79 else a - 1;
}

-- A display that is off, writes backwards and shows the letter A everywhere.
abbrev full_of_a : Screen
full_of_a = record { cells = λ _. b'A'; at = 7; forwards = false; on = false; two_lines = true }

client_screen_example :
    (r : Running) × (Daemon.main no_uci steady all_up (rounds_of no_uci first_sock_path some_calls)
      ≡ serving r)
    × (feed_all one_line (map written (watch (pins no_uci) r.calls blank).taken) (some full_of_a)
        ≡ some (showing (effects (one_line.next false) some_calls empty)))
client_screen_example =
    client_screen one_line no_uci first_sock_path full_of_a steady blank all_up some_calls
      (refl, refl, refl, refl, refl) steady-Obeys (steady-Opens (pins no_uci)) default_pins-IsWiring
      (refl, refl) some_calls-All (tt, (tt, (tt, tt))) refl

abbrev no_socket : Peer
no_socket = record { socket_ok = false; connect_ok = λ p. true; answer = λ b. none }

threads_sessions_example :
    ((lock ∷ unlock ∷ []) ≡ all_events ((lock ∷ unlock ∷ []) ∷ []))
    × All (IsSession first_sock_path) ((lock ∷ unlock ∷ []) ∷ [])
unfolding Lcdclient.send_cmd
threads_sessions_example =
    threads_sessions first_sock_path {n = 2}
      (later
        (later
          (later (later start (pick 0 (omega arith) (call no_socket (codes "HOME"))))
            (pick 1 (omega arith) (call no_socket (codes "CLEAR"))))
          (pick 0 (omega arith) (take_lock refl)))
        (pick 0 (omega arith) give_lock))
      refl
