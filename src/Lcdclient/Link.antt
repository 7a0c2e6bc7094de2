-- ===== src/Lcdclient/Link.antt =====
-- The client library package/evi-lcdclient/src/evi_lcd.c against the daemon
-- package/evi-lcdsvc/src/lcdsvc.c: what a call makes the daemon do.
use python2c.Base.{
  ℕ, ◌≤◌, ◌<◌, ◌≡◌, refl, ◌∙◌, Bool, true, false, List, [], ◌∷◌, ◌++◌, append-nil, Option, none,
  some, Bytes, All-append, codes, length, length-append, arith, if◌then◌else◌, ◌==◌, drop, take,
  take-eq_of_le, take-append_of_le, drop-append_of_le, All-take, All-drop, pos, leb,
}
use python2c.Base.Bits.{all_below, all_below→pass}
use python2c.Base.Scan.{print_hex2}
use python2c.Lcdsvc.Service
use python2c.Lcdsvc.Service.{
  Action, write_instr, set_ddram, write_text, clear, home, hw_init, reply, ok_reply,
}
use python2c.Lcdsvc.Service.Lines.{
  NoNewline, NoZero, IsWhole, handle_client-lines, lines_from, lines_from-line,
  handle_client-partial,
}
use python2c.Lcdclient
use python2c.Lcdclient.{Peer, Event, sent}

-- Printing a byte as `0x%02X` and reading it by `parse_hex`, for each byte.
reads_back : ℕ → Bool
reads_back v = elim (Service.parse_hex (codes "0x" ++ print_hex2 v)) [
  | none ↦ false
  | some w ↦ w == v
]

hex_table : all_below 256 reads_back ≡ true
unfolding all_below reads_back Service.parse_hex
hex_table = refl

parse_hex-print_hex2 : (v : ℕ) → v < 256 → Service.parse_hex (codes "0x" ++ print_hex2 v) ≡ some v
parse_hex-print_hex2 v h = from (all_below→pass 256 reads_back v hex_table h)
  where
    from : reads_back v ≡ true → Service.parse_hex (codes "0x" ++ print_hex2 v) ≡ some v
    from e = unfold reads_back in ground (arith, e)

-- One line, sent whole, with a newline behind it.
IsWhole-line : (line : Bytes) → NoZero line → IsWhole (line ++ (b'\n' ∷ []))
IsWhole-line line z = record {
  lines_before = line;
  ended = refl;
  no_zero = All-append (λ c. (c == 0) ≡ false) line (b'\n' ∷ []) z (refl, tt);
}

module _ (uci : Bytes → Option Bytes) where
  pub served_line :
      (line : Bytes)
      → NoNewline line
      → NoZero line
      → Service.handle_client uci ((line ++ (b'\n' ∷ [])) ∷ []) ≡ Service.dispatch uci line
  served_line line n z =
      handle_client-lines uci ((line ++ (b'\n' ∷ [])) ∷ []) (IsWhole-line line z, tt)
      ∙ rw (append-nil (line ++ (b'\n' ∷ [])), lines_from-line [] line [] n)
          (unfold lines_from in append-nil (Service.dispatch uci line))

-- The bytes that a call sends.
abbrev pub wire : List Event → Bytes
wire [] = []
wire (sent b ∷ es) = b ++ wire es
wire (Event.lock ∷ es) = wire es
wire (Event.unlock ∷ es) = wire es
wire (Event.opened ∷ es) = wire es
wire (Event.connect p ∷ es) = wire es
wire (Event.closed ∷ es) = wire es

-- The daemon's buffer takes 511 bytes at a time, and a call sends 600 bytes at most.
abbrev pub received : Bytes → List Bytes
received w = if leb (length w) 511 then w ∷ [] else take 511 w ∷ drop 511 w ∷ []

-- What the daemon writes back on the socket.
abbrev pub replies : List Action → Bytes
replies [] = []
replies (reply b ∷ rest) = b ++ replies rest
replies (hw_init p ∷ rest) = replies rest
replies (clear ∷ rest) = replies rest
replies (home ∷ rest) = replies rest
replies (write_instr v ∷ rest) = replies rest
replies (set_ddram v ∷ rest) = replies rest
replies (write_text s ∷ rest) = replies rest

abbrev answer_of : Bytes → Option Bytes
answer_of [] = none
answer_of (b ∷ bs) = some (b ∷ bs)

received-short : (w : Bytes) → length w ≤ 511 → received w ≡ w ∷ []
received-short w h = ground arith

replies-ok : (act : Action) → replies (act ∷ []) ≡ [] → replies (act ∷ ok_reply ∷ []) ≡ codes "OK\n"
replies-ok (reply b) h = rw (rw append-nil at h)
replies-ok (hw_init p) h = refl
replies-ok _ h = refl

module _ (uci : Bytes → Option Bytes) where
  -- The actions of the daemon on what a call sent.
  abbrev pub serve : List Event → List Action
  serve es = Service.handle_client uci (received (wire es))

  -- The running daemon, as the client meets it.
  abbrev pub daemon : Peer
  daemon = record {
    socket_ok = true;
    connect_ok = λ path. true;
    answer = λ bs. answer_of (replies (Service.handle_client uci (received bs)));
  }

  -- A call whose command is one line, and fits one `recv`.
  pub send_cmd-served :
      (sock_path cmd : Bytes) (act : Action)
      → NoNewline cmd
      → NoZero cmd
      → length cmd ≤ 510
      → Service.dispatch uci cmd ≡ act ∷ ok_reply ∷ []
      → replies (act ∷ []) ≡ []
      → (serve (Lcdclient.send_cmd daemon sock_path cmd).0 ≡ act ∷ ok_reply ∷ [])
        × ((Lcdclient.send_cmd daemon sock_path cmd).1 ≡ pos 0)
  unfolding Lcdclient.send_cmd
  send_cmd-served sock_path cmd act n z short acts quiet =
      (rw append-nil whole, rw (whole, replies-ok act quiet) (unfold Lcdclient.reply_code in refl))
    where
      whole : Service.handle_client uci (received (cmd ++ (b'\n' ∷ []))) ≡ act ∷ ok_reply ∷ []
      whole =
          rw (received-short (cmd ++ (b'\n' ∷ [])) (omega (arith, length-append cmd (b'\n' ∷ []))))
            (served_line uci cmd n z ∙ acts)

  instr_acts :
      (v : ℕ)
      → v < 256
      → Service.dispatch uci (codes "INSTR 0x" ++ print_hex2 v) ≡ write_instr v ∷ ok_reply ∷ []
  unfolding Service.dispatch Service.hex_command
  instr_acts v h = rw (parse_hex-print_hex2 v h, Service.hex_command)

  ddram_acts :
      (v : ℕ)
      → v < 256
      → Service.dispatch uci (codes "DDRAM 0x" ++ print_hex2 v) ≡ set_ddram v ∷ ok_reply ∷ []
  unfolding Service.dispatch Service.hex_command
  ddram_acts v h = rw (parse_hex-print_hex2 v h, Service.hex_command)

  put_acts : (s : Bytes) → Service.dispatch uci (codes "PUT " ++ s) ≡ write_text s ∷ ok_reply ∷ []
  unfolding Service.dispatch
  put_acts s = refl

  -- A byte that the client sends as an instruction is the one that the daemon writes; it answers,
  -- and the call returns 0.
  pub instr_served :
      (sock_path : Bytes) (v : ℕ)
      → v < 256
      → (serve (Lcdclient.evi_lcd_instr daemon sock_path v).0 ≡ write_instr v ∷ ok_reply ∷ [])
        × ((Lcdclient.evi_lcd_instr daemon sock_path v).1 ≡ pos 0)
  unfolding Lcdclient.evi_lcd_instr
  instr_served sock_path v h =
      send_cmd-served sock_path _ (write_instr v) (ground arith) (ground arith) (ground arith)
        (instr_acts v h) refl

  -- An address of a byte that the client sends is the one that the daemon sets; it answers, and the
  -- call returns 0.
  pub ddram_served :
      (sock_path : Bytes) (v : ℕ)
      → v < 256
      → (serve (Lcdclient.evi_lcd_ddram daemon sock_path v).0 ≡ set_ddram v ∷ ok_reply ∷ [])
        × ((Lcdclient.evi_lcd_ddram daemon sock_path v).1 ≡ pos 0)
  unfolding Lcdclient.evi_lcd_ddram
  ddram_served sock_path v h =
      send_cmd-served sock_path _ (set_ddram v) (ground arith) (ground arith) (ground arith)
        (ddram_acts v h) refl

  -- A text of at most 506 bytes with no newline and no zero byte is written as it is, and the call
  -- returns 0.
  pub put_served :
      (sock_path s : Bytes)
      → NoNewline s
      → NoZero s
      → length s ≤ 506
      → (serve (Lcdclient.evi_lcd_put daemon sock_path (some s)).0 ≡ write_text s ∷ ok_reply ∷ [])
        × ((Lcdclient.evi_lcd_put daemon sock_path (some s)).1 ≡ pos 0)
  unfolding Lcdclient.evi_lcd_put
  put_served sock_path s n z h = rw (take-eq_of_le 599 (codes "PUT " ++ s) (omega arith)) (
      send_cmd-served sock_path (codes "PUT " ++ s) (write_text s) (refl, (refl, (refl, (refl, n))))
        (refl, (refl, (refl, (refl, z)))) (omega arith) (put_acts s) refl)

received-long : (w : Bytes) → 511 < length w → received w ≡ take 511 w ∷ drop 511 w ∷ []
received-long w h = rw (not-leb (length w) h)
  where
    not-leb : (n : ℕ) → 511 < n → leb n 511 ≡ false
    not-leb n lt = ground arith

long_split :
    (s : Bytes)
    → 507 ≤ length s
    → received ((codes "PUT " ++ s) ++ (b'\n' ∷ []))
      ≡ (codes "PUT " ++ take 507 s) ∷ (drop 507 s ++ (b'\n' ∷ [])) ∷ []
long_split s h =
    received-long ((codes "PUT " ++ s) ++ (b'\n' ∷ []))
      (omega (arith, length-append s (b'\n' ∷ [])))
    ∙ rw (take-append_of_le 507 s (b'\n' ∷ []) h, drop-append_of_le 507 s (b'\n' ∷ []) h)

module _ (uci : Bytes → Option Bytes) where
  -- A text of 507 to 595 bytes, no newline and no zero byte in it, is not written: the daemon drops
  -- what its first `recv` gives, and takes what stands from the 508th byte on for a command of its
  -- own.
  pub put_cut :
      (sock_path s : Bytes)
      → NoNewline s
      → NoZero s
      → 507 ≤ length s
      → length s ≤ 595
      → serve uci (Lcdclient.evi_lcd_put (daemon uci) sock_path (some s)).0
        ≡ Service.dispatch uci (drop 507 s)
  unfolding Lcdclient.evi_lcd_put Lcdclient.send_cmd
  put_cut sock_path s n z lo hi =
      rw (take-eq_of_le 595 s hi, append-nil (s ++ (b'\n' ∷ [])), long_split s lo)
        (handle_client-partial uci (codes "PUT " ++ take 507 s) ((drop 507 s ++ (b'\n' ∷ [])) ∷ [])
            (λ e. cc) (refl, (refl, (refl, (refl, All-take _ 507 s z))))
            (refl, (refl, (refl, (refl, All-take _ 507 s n))))
          ∙ served_line uci (drop 507 s) (All-drop _ 507 s n) (All-drop _ 507 s z))
