-- ===== src/Lcdsvc/Service.antt =====
-- package/evi-lcdsvc/src/lcdsvc.c: the line protocol of the daemon. What a client's connection
-- makes the daemon do is a list of actions: calls of lcd_hw.h and replies on the socket.
pub mod Lines
use Prim.Native.String.{String}
use python2c.Base.{
  ℕ, zero, suc, ◌%◌, ◌-◌, ◌≡◌, refl, Bool, true, false, ◌||◌, List, [], ◌∷◌, ◌++◌, Option, none,
  some, Bytes, codes, str_eq, starts_with, drop, length, if◌then◌else◌, ◌==◌, ℤ, pos, until_zero,
}
use python2c.Base.Scan.{scan_hex, scan_dec}

-- `struct lcd_pins`.
pub record LcdPins : Type 0 where
  pub rs : ℤ
  pub rw_pin : ℤ
  pub en : ℤ
  pub d : List ℤ
  pub bits : ℕ

pub data Action : Type 0 where
  hw_init : LcdPins → Action
  clear home : Action
  write_instr : ℕ → Action
  set_ddram : ℕ → Action
  write_text : Bytes → Action
  reply : Bytes → Action

-- `(int)(v & 0xFF)`, or `none` for the -1.
unfoldable pub parse_hex : Bytes → Option ℕ
unfolding scan_hex
parse_hex s = elim (scan_hex s) [ none ↦ none | some v ↦ some (v % 256) ]

abbrev pub ok_reply : Action
ok_reply = reply (codes "OK\n")

-- `strchr(p, '\n')` with `*e = 0`: the line, and what follows it; `none` if there is no newline.
unfoldable pub cut_line : Bytes → Option (Bytes × Bytes)
cut_line [] = none
cut_line (c ∷ cs) =
    let rest = cut_line cs in
    if c == b'\n'
    then some ([], cs)
    else elim rest [ none ↦ none | some (line, more) ↦ some (c ∷ line, more) ]

unfoldable pub hex_command : (ℕ → Action) → Bytes → List Action
hex_command act s = elim (parse_hex s) [
  | none ↦ reply (codes "ERR badhex\n") ∷ []
  | some v ↦ act v ∷ ok_reply ∷ []
]

-- The configuration that `uci -q get` gives: the first line of its output for a key, if any.
module _ (uci : Bytes → Option Bytes) where
  unfoldable pub uci_get_int : Bytes → ℤ → ℤ
  uci_get_int key def = elim (uci key) [
    | none ↦ def
    | some buf ↦ elim (scan_dec buf) [ none ↦ def | some v ↦ v ]
  ]

  unfoldable pub load_pins_from_uci : LcdPins
  unfolding uci_get_int
  load_pins_from_uci = record {
    rs = uci_get_int (codes "lcd.@lcd[0].rs") (pos 0);
    rw_pin = uci_get_int (codes "lcd.@lcd[0].rw") (pos 1);
    en = uci_get_int (codes "lcd.@lcd[0].en") (pos 2);
    d =
        uci_get_int (codes "lcd.@lcd[0].d0") (pos 3)
        ∷ uci_get_int (codes "lcd.@lcd[0].d1") (pos 4)
        ∷ uci_get_int (codes "lcd.@lcd[0].d2") (pos 5)
        ∷ uci_get_int (codes "lcd.@lcd[0].d3") (pos 6)
        ∷ uci_get_int (codes "lcd.@lcd[0].d4") (pos 7)
        ∷ uci_get_int (codes "lcd.@lcd[0].d5") (pos 8)
        ∷ uci_get_int (codes "lcd.@lcd[0].d6") (pos 9)
        ∷ uci_get_int (codes "lcd.@lcd[0].d7") (pos 10)
        ∷ [];
    bits = 8;
  }

  -- One line of the protocol: the chain of `strncmp` tests.
  unfoldable pub dispatch : Bytes → List Action
  dispatch p =
      if starts_with p (codes "INIT")
      then hw_init load_pins_from_uci ∷ ok_reply ∷ []
      else if starts_with p (codes "CLEAR")
      then clear ∷ ok_reply ∷ []
      else if starts_with p (codes "HOME")
      then home ∷ ok_reply ∷ []
      else if starts_with p (codes "INSTR ")
      then hex_command write_instr (drop 6 p)
      else if starts_with p (codes "PUT ")
      then write_text (drop 4 p) ∷ ok_reply ∷ []
      else if starts_with p (codes "DDRAM ")
      then hex_command set_ddram (drop 6 p)
      else reply (codes "ERR unknown\n") ∷ []

  -- The inner loop; each round takes a newline at least, so the length of the buffer is fuel
  -- enough.
  unfoldable pub line_loop : ℕ → Bytes → List Action
  line_loop zero p = []
  line_loop (suc f) p = elim (cut_line p) [
    | none ↦ []
    | some (line, more) ↦ dispatch line ++ line_loop f more
  ]

  -- One `recv` of at most 511 bytes.
  unfoldable pub handle_chunk : Bytes → List Action
  handle_chunk buf = line_loop (length (until_zero buf)) (until_zero buf)

  -- The outer loop over what successive `recv` calls give, up to the one that fails or is empty.
  unfoldable pub handle_client : List Bytes → List Action
  handle_client [] = []
  handle_client ([] ∷ chunks) = []
  handle_client ((c ∷ cs) ∷ chunks) = handle_chunk (c ∷ cs) ++ handle_client chunks
