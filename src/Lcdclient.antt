-- ===== src/Lcdclient.antt =====
-- package/evi-lcdclient/src/evi_lcd.c: the client library of the display daemon.
mod Tests
pub mod Session
pub mod Link
pub mod OnDisplay
pub mod Screen
pub mod TextScreen
pub mod Threads
pub mod Ctl
use python2c.Base.{
  Bool, true, false, List, [], ◌∷◌, ◌++◌, ℕ, Option, none, some, Bytes, codes, starts_with, take,
  if◌then◌else◌, ℤ, pos, negsuc,
}
use python2c.Base.Scan.{print_hex2}

-- What the system answers to one call: whether `socket` and `connect` (to a path) succeed, and
-- what one `read` of at most 255 bytes gives for the bytes sent; `none` if it gives none.
pub record Peer : Type 0 where
  pub socket_ok : Bool
  pub connect_ok : Bytes → Bool
  pub answer : Bytes → Option Bytes

-- What a call does to the world, in order.
pub data Event : Type 0 where
  lock unlock : Event
  opened : Event
  connect : Bytes → Event
  sent : Bytes → Event
  closed : Event

abbrev pub first_sock_path : Bytes
first_sock_path = codes "/var/run/evi-lcd.sock"

-- The static `g_sock_path` of 128 bytes, after a call.
unfoldable pub evi_lcd_set_socket : Option Bytes → Bytes → Bytes
evi_lcd_set_socket none sock_path = sock_path
evi_lcd_set_socket (some path) sock_path = take 127 path

-- `strncmp(buf, "OK", 2) == 0`
unfoldable pub reply_code : Option Bytes → ℤ
reply_code none = negsuc 3
reply_code (some buf) = if starts_with buf (codes "OK") then pos 0 else negsuc 4

module _ (peer : Peer) (sock_path : Bytes) where
  -- `sun_path` has 108 bytes.
  unfoldable pub send_cmd : Bytes → List Event × ℤ
  unfolding reply_code
  send_cmd cmd =
      if peer.socket_ok
      then if peer.connect_ok (take 107 sock_path)
        then (
          lock
              ∷ opened
              ∷ connect (take 107 sock_path)
              ∷ sent (cmd ++ (b'\n' ∷ []))
              ∷ closed
              ∷ unlock
              ∷ [],
          reply_code (peer.answer (cmd ++ (b'\n' ∷ []))),
        )
        else (lock ∷ opened ∷ connect (take 107 sock_path) ∷ closed ∷ unlock ∷ [], negsuc 2)
      else (lock ∷ unlock ∷ [], negsuc 1)

  unfoldable pub evi_lcd_init : List Event × ℤ
  evi_lcd_init = send_cmd (codes "INIT")

  unfoldable pub evi_lcd_clear : List Event × ℤ
  evi_lcd_clear = send_cmd (codes "CLEAR")

  unfoldable pub evi_lcd_home : List Event × ℤ
  evi_lcd_home = send_cmd (codes "HOME")

  -- The buffers of 32 bytes are never full.
  unfoldable pub evi_lcd_instr : ℕ → List Event × ℤ
  evi_lcd_instr v = send_cmd (codes "INSTR 0x" ++ print_hex2 v)

  unfoldable pub evi_lcd_ddram : ℕ → List Event × ℤ
  evi_lcd_ddram addr = send_cmd (codes "DDRAM 0x" ++ print_hex2 addr)

  -- `snprintf` into 600 bytes.
  unfoldable pub evi_lcd_put : Option Bytes → List Event × ℤ
  evi_lcd_put none = send_cmd (take 599 (codes "PUT "))
  evi_lcd_put (some s) = send_cmd (take 599 (codes "PUT " ++ s))

  -- `formatted` is what `vsnprintf` makes of the arguments, before it cuts it to 511 bytes.
  unfoldable pub evi_lcd_printf : Bytes → List Event × ℤ
  evi_lcd_printf formatted = send_cmd (take 599 (codes "PUT " ++ take 511 formatted))
