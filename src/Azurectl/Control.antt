-- ===== src/Azurectl/Control.antt =====
-- package/evi-azurectl/src/main.c: the command line of azurectl.
pub mod Mask
pub mod Session
use Prim.Native.Nat.{bit_and, bit_or}
use python2c.Base.{
  ℕ, suc, ◌+◌, ◌-◌, ◌*◌, ◌^◌, Bool, true, false, ◌||◌, not, List, [], ◌∷◌, ◌++◌, Option, none, some,
  Bytes, codes, str_eq, starts_with, take, drop, if◌then◌else◌, ◌==◌, ltb, ℤ, pos, negsuc, ◌==ℤ◌,
}
use python2c.Base.Scan.{scan_hex, scan_dec, atoi, print_dec}
use python2c.Azurectl.Uci.{Shell, uci_get, uci_set, uci_commit}
use python2c.Azurectl.Dongle.{Board, BoardEvent, usb_set_port}

-- `none` is the -1. `v` is an int, and `%x` may leave a negative number in it.
unfoldable pub parse_hex_u8 : Bytes → Option ℕ
unfolding scan_hex
parse_hex_u8 s = elim (scan_hex s) [ none ↦ none | some v ↦ if ltb 255 v then none else some v ]

unfoldable pub bit_at : ℕ → ℕ → ℕ
bit_at mask i = if bit_and mask (2 ^ i) == 0 then 0 else 1

unfoldable pub format_dongleport_bits : ℕ → Bytes
unfolding bit_at print_dec
format_dongleport_bits mask =
    print_dec (pos (bit_at mask 0))
    ++ codes ","
    ++ print_dec (pos (bit_at mask 1))
    ++ codes ","
    ++ print_dec (pos (bit_at mask 2))
    ++ codes ","
    ++ print_dec (pos (bit_at mask 3))

-- What the command prints for the two settings.
unfoldable pub dongle_line : ℤ → ℤ → Bytes
dongle_line (negsuc _) dp = codes "usbdongle,0,-1,-1,-1,-1\n"
dongle_line (pos ud) (pos dp) =
    codes "usbdongle," ++ print_dec (pos ud) ++ codes "," ++ format_dongleport_bits dp ++ codes "\n"
dongle_line (pos ud) (negsuc _) = codes "usbdongle," ++ print_dec (pos ud) ++ codes ",-1,-1,-1,-1\n"

-- `strchr(pair, ',')`: what stands before the first comma, and behind it.
unfoldable pub cut_comma : Bytes → Option (Bytes × Bytes)
cut_comma [] = none
cut_comma (c ∷ cs) =
    let rest = cut_comma cs in
    if c == b','
    then some ([], cs)
    else elim rest [ none ↦ none | some (key, val) ↦ some (c ∷ key, val) ]

-- `mask < 0 ? 0 : mask`
abbrev pub mask_of : ℤ → ℕ
mask_of (pos n) = n
mask_of (negsuc _) = 0

-- `mask |= bit` or `mask &= ~bit`, for an int that is not negative.
unfoldable pub switch : Bool → ℕ → ℕ → ℕ
switch on port mask =
    let bit = 2 ^ (port - 1) in if on then bit_or mask bit else bit_and mask (2 ^ 32 - 1 - bit)

-- `port_hex >= 1 ? port_hex : atoi(valStr)`
unfoldable pub port_number : Bytes → ℤ
unfolding parse_hex_u8 atoi
port_number val = elim (parse_hex_u8 val) [
  | none ↦ atoi val
  | some n ↦ if ltb n 1 then atoi val else pos n
]

-- The port that a setDev command names, if it is one of the four.
unfoldable pub port_of : Bytes → Option ℕ
unfolding port_number
port_of val = elim (port_number val) [
  | negsuc _ ↦ none
  | pos n ↦ if ltb n 1 || ltb 4 n then none else some n
]

abbrev pub usbdongle : Bytes
usbdongle = codes "system.@system[0].usbdongle"

abbrev pub dongleport : Bytes
dongleport = codes "system.@system[0].dongleport"

abbrev pub pingsettings : Bytes
pingsettings = codes "system.@system[0].pingsettings"

-- The exit status, what is printed on the standard output, what is done with the board, and the
-- system afterwards.
pub record Ran (S : Type 0) : Type 0 where
  pub code : ℕ
  pub printed : Bytes
  pub board : List BoardEvent
  pub after : S

module _ (sh : Shell) where
  unfoldable pub uci_get_int : Bytes → sh.State → ℤ
  unfolding scan_dec
  uci_get_int key s = elim (uci_get sh key 64 s) [
    | none ↦ negsuc 0
    | some buf ↦ elim (scan_dec buf) [ none ↦ negsuc 0 | some v ↦ v ]
  ]

  unfoldable pub uci_set_int : Bytes → ℤ → sh.State → ℤ × sh.State
  uci_set_int key v s = uci_set sh key (print_dec v) s

  -- The update of the mask, when the board answered.
  unfoldable pub store_mask : Bool → ℕ → sh.State → sh.State
  store_mask on port s =
      (uci_commit sh (codes "system")
        (uci_set_int dongleport (pos (switch on port (mask_of (uci_get_int dongleport s)))) s).1).1

  -- The branch of a key that starts with "setDev", for a port of the board.
  unfoldable pub set_dev : Board → Bytes → Bytes → ℕ → sh.State → Ran sh.State
  set_dev board key val port s =
      let on = str_eq (drop 6 key) (codes "On") in
      let (rc, events) = usb_set_port board (if on then codes "On" else codes "Off") port in
      record {
        code = 0;
        printed = (if on then codes "devon" else codes "devoff") ++ codes "," ++ val ++ codes "\n";
        board = events;
        after = if rc ==ℤ pos 0 then store_mask on port s else s;
      }

  abbrev pub say : ℕ → Bytes → sh.State → Ran sh.State
  say code text s = record { code = code; printed = text; board = []; after = s }

  unfoldable pub set_pair : Board → Bytes → Bytes → sh.State → Ran sh.State
  set_pair board key val s =
      if starts_with key (codes "setDev")
      then elim (port_of val) [
        | none ↦ say 0 (codes "Wrong settings\n") s
        | some port ↦ set_dev board key val port s
      ]
      else if str_eq key (codes "setPingSettings")
      then say 0 (codes "pingsettings," ++ val ++ codes "\n")
          (uci_commit sh (codes "system") (uci_set sh pingsettings val s).1).1
      else say 0 (codes "Wrong settings\n") s

  unfoldable pub get_cmd : Bytes → sh.State → Ran sh.State
  get_cmd cmd s =
      if str_eq cmd (codes "getUsbDongle")
      then say 0 (dongle_line (uci_get_int usbdongle s) (uci_get_int dongleport s)) s
      else say 0 (codes "unknown\n") s

  -- The arguments behind the program's name.
  unfoldable pub main : Board → List Bytes → sh.State → Ran sh.State
  unfolding cut_comma
  main board (mode ∷ arg ∷ more) s =
      if str_eq mode (codes "--get")
      then get_cmd arg s
      else if str_eq mode (codes "--set")
      then elim (cut_comma arg) [
        | none ↦ say 0 (codes "Wrong settings\n") s
        | some (key, val) ↦ set_pair board key val s
      ]
      else say 1 [] s
  main board _ s = say 1 [] s
