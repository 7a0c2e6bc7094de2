-- ===== src/Azurectl/Tests.antt =====
-- The theorems of azurectl at concrete lines, boards and configurations.
use mathlib.Core.Path.{subst}
use mathlib.Core.Option.{some-injective}
use python2c.Azurectl.Serial
use python2c.Azurectl.Serial.{
  Libc, Termios, Baud, b9600, b19200, b38400, b57600, b115200, no_settings,
}
use python2c.Base.{
  length-take, ℕ, ◌+◌, ◌≤◌, ◌≡◌, ◌≢◌, refl, ap, true, false, [], ◌∷◌, ◌++◌, some, Bytes, IsByte,
  codes, length, All, take, drop, str_eq, str_eq_iff, starts_with, if◌then◌else◌, arith, pos,
}
use python2c.Base.Bits.{all_below, all_below→pass}
use python2c.Base.Scan.{print_dec}
use python2c.Azurectl.Modbus
use python2c.Azurectl.Modbus.{SerialLine, crc16}
use python2c.Azurectl.Modbus.Crc.{crc16_detects}
use python2c.Azurectl.Modbus.Reply.{IsClosed, mb_read-IsClosed}
use python2c.Azurectl.Modbus.Accept.{tail_of, mb_read-frame}
use python2c.Azurectl.Modbus.Sound.{mb_read_sound}
use python2c.Azurectl.Modbus.Arrival.{mb_read-Arrives_iff}
use Prim.Native.Nat.{bit_and, bit_or}
use python2c.Base.{none, ◌-◌, ◌^◌, ◌↔◌}
use python2c.Azurectl.Files
use python2c.Azurectl.Files.{Disk}
use python2c.Azurectl.Files.RoundTrip.{written_line}
use python2c.Azurectl.Uci.{Shell, uci_set, uci_commit}
use python2c.Azurectl.Dongle.{
  Board, set_message, usb_set_port, read_loop, set_and_query, query, took, round, newlines,
}
use python2c.Azurectl.Dongle.Reading.{IsBounded, read_loop-bounded}
use python2c.Azurectl.Dongle.Setting.{full_run, usb_set_port-success}
use python2c.Azurectl.Control.{main, dongleport}
use python2c.Azurectl.Control.Mask.{switches, show_switches}
use python2c.Azurectl.Control.Session.{UciWorks, Answers, run_settings, pressed, settings_shown}

crc16_detects_example : crc16 (codes "A" ++ (3 ∷ codes "B")) ≢ crc16 (codes "A" ++ (4 ∷ codes "B"))
crc16_detects_example =
    crc16_detects (codes "A") (codes "B") 3 4 (omega arith, tt) (omega arith, tt) (omega arith)
      (omega arith) (λ e. absurd (omega (arith, e)))

-- A slave that answers a request for one register with the value 7.
abbrev reply_body : Bytes
reply_body = (0 ∷ 7 ∷ []) ++ tail_of (crc16 ((51 ∷ 0x03 ∷ 2 ∷ []) ++ (0 ∷ 7 ∷ [])))

abbrev slave : SerialLine
slave = record {
  opens = true;
  write = λ req. some 8;
  read_hdr = λ n. some (51 ∷ 0x03 ∷ 2 ∷ []);
  read_body = λ n. some reply_body;
}

mb_read-IsClosed_example : IsClosed (Modbus.mb_read_holding_regs slave 51 0 1 64).events
mb_read-IsClosed_example = mb_read-IsClosed slave 51 0 1 64

slave_answers :
    ((Modbus.mb_read_holding_regs slave 51 0 1 64).code ≡ pos 0)
    × ((Modbus.mb_read_holding_regs slave 51 0 1 64).out ≡ some (reply_body, 2))
slave_answers = mb_read-frame slave 51 0 1 64 2 (0 ∷ 7 ∷ []) refl refl refl refl (omega arith) refl

slave-hdr : (hdr : Bytes) → slave.read_hdr 3 ≡ some hdr → All IsByte hdr
slave-hdr hdr e =
    subst (All IsByte) (some-injective _ _ e) (omega arith, (omega arith, (omega arith, tt)))

slave-body : (k : ℕ) (bs : Bytes) → slave.read_body k ≡ some bs → All IsByte bs
unfolding crc16 Modbus.crc_loop Modbus.crc_byte Modbus.crc_rounds Modbus.crc_round
slave-body k bs e =
    subst (All IsByte) (some-injective _ _ e)
      (omega arith, (omega arith, (omega arith, (omega arith, tt))))

mb_read_sound_example :
    (slave.opens ≡ true)
    × (slave.write (Modbus.request 51 0 1) ≡ some 8)
    × ((n : ℕ) × (body : Bytes) × (slave.read_hdr 3 ≡ some (51 ∷ 0x03 ∷ n ∷ []))
        × (slave.read_body (n + 2) ≡ some body)
        × (length body ≡ n + 2)
        × (n + 2 ≤ 64)
        × ((Modbus.mb_read_holding_regs slave 51 0 1 64).out ≡ some (body, n))
        × (crc16 ((51 ∷ 0x03 ∷ n ∷ []) ++ body) ≡ 0))
mb_read_sound_example = mb_read_sound slave 51 0 1 64 slave-hdr slave-body slave_answers.0

-- A slave of which the last byte comes after the second read.
abbrev slow_slave : SerialLine
slow_slave = record {
  opens = true;
  write = λ req. some 8;
  read_hdr = λ n. some (take n (51 ∷ 0x03 ∷ 2 ∷ 0 ∷ []));
  read_body = λ n. some (take n (0 ∷ take 2 (drop 1 reply_body)));
}

mb_read-Arrives_iff_example :
    ((Modbus.mb_read_holding_regs slow_slave 51 0 1 64).code ≡ pos 0)
    ↔ ((3 ≤ 4) × (drop 3 reply_body ≡ []))
mb_read-Arrives_iff_example =
    mb_read-Arrives_iff 51 (0 ∷ 7 ∷ []) (51 ∷ 0x03 ∷ 2 ∷ 0 ∷ []) (take 2 (drop 1 reply_body))
      (drop 3 reply_body) refl slow_slave 0 1 64
      (record { hdr_read = λ n. refl; body_read = λ n. refl }) refl refl (omega arith)

-- A board that takes what it is sent and answers with 40 bytes in four lines.
abbrev answer : Bytes
answer = codes "CH1: OFF \nCH2: OFF \nCH3: OFF \nCH4: OFF \n"

abbrev good_board : Board
good_board = record {
  glob = some (codes "/dev/ttyUSB0" ∷ []);
  opens = λ dev. true;
  write = λ bs. some (length bs);
  read = λ t n. some (take n answer);
}

good_read-IsBounded : IsBounded good_board.read
good_read-IsBounded t n bs e =
    subst (λ r. length r ≤ n) (some-injective _ _ e) (omega (arith, length-take n answer))

read_loop-bounded_example : length (read_loop good_board.read 20 0 [] 0) ≤ 128
read_loop-bounded_example =
    read_loop-bounded good_board.read 20 0 0 [] good_read-IsBounded (omega arith)

good_board-accepts : (act : Bytes) (port : ℕ) → (set_and_query good_board act port).0 ≡ pos 0
unfolding set_and_query query took set_message read_loop round newlines
good_board-accepts act port = refl

good_board-Answers : Answers good_board
unfolding usb_set_port
good_board-Answers act port l u = ground (arith, good_board-accepts act port)

usb_set_port-success_example :
    (1 ≤ 2)
    × (2 ≤ 4)
    × (good_board.write (set_message (codes "On") 2) ≡ some 4)
    × (good_board.write (0xFF ∷ []) ≡ some 1)
    × (40 ≤ length (read_loop good_board.read 20 0 [] 0))
    × ((usb_set_port good_board (codes "On") 2).1 ≡ full_run (set_message (codes "On") 2))
usb_set_port-success_example =
    usb_set_port-success good_board (codes "On") 2
      (good_board-Answers (codes "On") 2 (omega arith) (omega arith))

-- A uci that keeps one number, the mask, as its text.
abbrev mask_query : Bytes
mask_query = codes "uci -q get system.@system[0].dongleport 2>/dev/null"

abbrev mask_setter : Bytes
mask_setter = codes "uci set system.@system[0].dongleport="

abbrev toy : Shell
toy = record {
  State = Bytes;
  system = λ cmd s. (pos 0, if starts_with cmd mask_setter then drop 37 cmd else s);
  popen = λ cmd s. if str_eq cmd mask_query then some (s ++ codes "\n") else some (codes "1\n");
}

toy_table :
    (s : Bytes)
    → all_below 16
        (λ m. str_eq (uci_set toy dongleport (print_dec (pos m)) s).1 (print_dec (pos m)))
      ≡ true
unfolding all_below uci_set print_dec
toy_table s = refl

toy-UciWorks : UciWorks toy
unfolding uci_commit
toy-UciWorks = record {
  set_mask = λ m s b.
      ap (λ v. some (v ++ codes "\n")) ((str_eq_iff _ _).0 (all_below→pass 16 _ m (toy_table s) b));
  set_other = λ m val s h. h;
  commit = λ key val s h. h;
}

settings_shown_example :
    (main toy good_board
      (codes "--get" ∷ codes "getUsbDongle" ∷ [])
      (run_settings toy good_board ((true, 1) ∷ (false, 3) ∷ []) (codes "6"))).printed
    ≡ codes "usbdongle,"
      ++ print_dec (pos 1)
      ++ codes ","
      ++ show_switches (pressed ((true, 1) ∷ (false, 3) ∷ []) (switches 6))
      ++ codes "\n"
unfolding print_dec
settings_shown_example =
    settings_shown toy good_board ((true, 1) ∷ (false, 3) ∷ []) 1 6 (codes "6") toy-UciWorks
      good_board-Answers ((omega arith, omega arith), ((omega arith, omega arith), tt))
      (omega arith) (omega arith) refl refl

abbrev empty_disk : Disk
empty_disk = record {
  content = λ path. none;
  writable = λ path. true;
  writes = λ s. true;
  torso = λ s. [];
}

written_line_example :
    ((Files.write_file (codes "/tmp/mac") (codes "AB" ++ codes "\nCD") empty_disk).0 ≡ true)
    × (Files.read_file_line
          (codes "/tmp/mac")
          3
          (Files.write_file (codes "/tmp/mac") (codes "AB" ++ codes "\nCD") empty_disk).1
        ≡ some (codes "AB"))
written_line_example =
    written_line (codes "/tmp/mac") (codes "AB") (codes "\nCD") 3 empty_disk (ground arith) refl
      (λ e. cc) (omega arith) refl refl

abbrev linux_speed : Baud → ℕ
linux_speed b9600 = 0xD
linux_speed b19200 = 0xE
linux_speed b38400 = 0xF
linux_speed b57600 = 0x1001
linux_speed b115200 = 0x1002

-- The speeds are bits of c_cflag, as on Linux.
abbrev linux : Libc
linux = record {
  cs8 = 0x30;
  clocal = 0x800;
  cread = 0x80;
  o_nonblock = 0x80;
  speed = linux_speed;
  cfsetospeed = λ t v. record t { c_cflag = bit_or (bit_and t.c_cflag (2 ^ 32 - 1 - 0x100F)) v };
  cfsetispeed = λ t v. t;
  cfgetospeed = λ t. bit_and t.c_cflag 0x100F;
  open_tty = λ dev. pos 3;
  tcgetattr = λ fd t. t;
  getfl = λ fd. 0x82;
  close = λ fd. pos 0;
  read = λ fd n. (pos 0, []);
  write = λ fd buf. pos 0;
  tcflush = λ fd. pos 0;
}

serial_open-speed_example :
    (left : Termios) × (Serial.in_force linux no_settings
        (Serial.serial_open linux (codes "/dev/ttyS1") (pos 9600)).1
      ≡ left)
    × (left.c_iflag ≡ 0)
    × (left.c_oflag ≡ 0)
    × (left.c_lflag ≡ 0)
    × (left.vmin ≡ 0)
    × (left.vtime ≡ 2)
    × (bit_and left.c_cflag 0x100F ≡ bit_and 0x8B0 0x100F)
serial_open-speed_example =
    Serial.serial_open-speed linux (codes "/dev/ttyS1") (pos 9600) no_settings
      (λ s t e. ap (λ c. bit_and c 0x100F) e) refl

-- The speed is 0, which hangs up.
speed_zero : linux.cfgetospeed (Serial.settings linux (pos 3) (pos 9600)) ≡ 0
unfolding Serial.settings
speed_zero = refl
