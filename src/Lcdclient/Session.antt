-- ===== src/Lcdclient/Session.antt =====
-- What each call of package/evi-lcdclient/src/evi_lcd.c does with the lock and the socket.
use python2c.Base.{
  ℕ, ◌≡◌, Bool, true, false, List, [], ◌∷◌, ◌++◌, some, Bytes, codes, starts_with, take, ◌↔◌, pos,
  arith, inl, inr, Bool-cases,
}
use python2c.Lcdclient
use python2c.Lcdclient.{Peer, Event, lock, unlock, opened, closed, connect, sent}

-- One pass over the events: `held` and `fds` are the lock and the open sockets before each.
pub data Balanced : Bool → ℕ → List Event → Type 0 where
  stop : Balanced false 0 []
  take_lock : {es : List Event} → Balanced true 0 es → Balanced false 0 (lock ∷ es)
  release : {es : List Event} → Balanced false 0 es → Balanced true 0 (unlock ∷ es)
  open_socket : {es : List Event} → Balanced true 1 es → Balanced true 0 (opened ∷ es)
  use_connect :
      {es : List Event} (p : Bytes) → Balanced true 1 es → Balanced true 1 (connect p ∷ es)
  use_sent : {es : List Event} (b : Bytes) → Balanced true 1 es → Balanced true 1 (sent b ∷ es)
  close_socket : {es : List Event} → Balanced true 0 es → Balanced true 1 (closed ∷ es)

send_cmd-Balanced :
    (peer : Peer) (sock_path cmd : Bytes)
    → Balanced false 0 (Lcdclient.send_cmd peer sock_path cmd).0
unfolding Lcdclient.send_cmd
send_cmd-Balanced peer sock_path cmd = elim (Bool-cases peer.socket_ok) [
  | inr no_socket ↦ rw no_socket (take_lock (release stop))
  | inl socket ↦ elim (Bool-cases (peer.connect_ok (take 107 sock_path))) [
    | inr refused ↦
        rw (socket, refused) (take_lock (open_socket (use_connect _ (close_socket (release stop)))))
    | inl accepted ↦
        rw (socket, accepted)
          (take_lock (open_socket (use_connect _ (use_sent _ (close_socket (release stop))))))
  ]
]

-- On every path of `send_cmd`: the lock is taken before anything else and released at the end, a
-- socket is used only while it is open, and each one opened is closed. The call returns 0 exactly
-- when socket and connect succeed and the reply starts with "OK".
pub send_cmd_session :
    (peer : Peer) (sock_path cmd : Bytes)
    → Balanced false 0 (Lcdclient.send_cmd peer sock_path cmd).0
      × (((Lcdclient.send_cmd peer sock_path cmd).1 ≡ pos 0) ↔ (
          (peer.socket_ok ≡ true)
          × (peer.connect_ok (take 107 sock_path) ≡ true)
          × ((buf : Bytes) × (peer.answer (cmd ++ (b'\n' ∷ [])) ≡ some buf)
              × (starts_with buf (codes "OK") ≡ true))))
unfolding Lcdclient.send_cmd
send_cmd_session peer sock_path cmd = (send_cmd-Balanced peer sock_path cmd, ground arith)
