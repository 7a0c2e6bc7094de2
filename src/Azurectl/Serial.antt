-- ===== src/Azurectl/Serial.antt =====
-- package/evi-azurectl/src/serial_posix.c: the settings of a serial line. The C library with its
-- constants and the system are parameters; what is done to the line is a list of calls.
use Prim.Native.Nat.{bit_and, bit_or}
use python2c.Base.{
  ℕ, ◌-◌, ◌^◌, ◌≡◌, refl, false, List, [], ◌∷◌, Bytes, if◌then◌else◌, ℤ, pos, negsuc, ◌==ℤ◌, is_neg,
}

-- `struct termios`, with the two characters that are set of `c_cc`. A library may keep the speeds
-- in `c_cflag` or in the fields of their own.
pub record Termios : Type 0 where
  pub c_iflag : ℕ
  pub c_oflag : ℕ
  pub c_cflag : ℕ
  pub c_lflag : ℕ
  pub vmin : ℕ
  pub vtime : ℕ
  pub c_ispeed : ℕ
  pub c_ospeed : ℕ

pub data Baud : Type 0 where
  b9600 b19200 b38400 b57600 b115200 : Baud

-- The C library: its constants, its functions on a `struct termios`, and the calls of the system,
-- where a descriptor below 0 is a failure. `open_tty` is `open` with O_RDWR, O_NOCTTY and
-- O_NONBLOCK. `tcgetattr` says what is in `tio` after the call.
pub record Libc : Type 0 where
  pub cs8 : ℕ
  pub clocal : ℕ
  pub cread : ℕ
  pub o_nonblock : ℕ
  pub speed : Baud → ℕ
  pub cfsetospeed : Termios → ℕ → Termios
  pub cfsetispeed : Termios → ℕ → Termios
  pub cfgetospeed : Termios → ℕ
  pub open_tty : Bytes → ℤ
  pub tcgetattr : ℤ → Termios → Termios
  pub getfl : ℤ → ℕ
  pub close : ℤ → ℤ
  pub read : ℤ → ℕ → ℤ × Bytes
  pub write : ℤ → Bytes → ℤ
  pub tcflush : ℤ → ℤ

pub data TtyCall : Type 0 where
  set_attr : ℤ → Termios → TtyCall
  set_flags : ℤ → ℕ → TtyCall

unfoldable pub to_baud : ℤ → Baud
to_baud b =
    if b ==ℤ pos 9600
    then b9600
    else if b ==ℤ pos 19200
    then b19200
    else if b ==ℤ pos 38400
    then b38400
    else if b ==ℤ pos 57600
    then b57600
    else if b ==ℤ pos 115200
    then b115200
    else b115200

-- `tio` after `memset`.
abbrev pub no_settings : Termios
no_settings = record {
  c_iflag = 0;
  c_oflag = 0;
  c_cflag = 0;
  c_lflag = 0;
  vmin = 0;
  vtime = 0;
  c_ispeed = 0;
  c_ospeed = 0;
}

module _ (libc : Libc) where
  -- What `tcsetattr` is given.
  unfoldable pub settings : ℤ → ℤ → Termios
  unfolding to_baud
  settings fd baud =
      let tio = libc.tcgetattr fd no_settings in
      let tio' = libc.cfsetospeed tio (libc.speed (to_baud baud)) in
      let tio'' = libc.cfsetispeed tio' (libc.speed (to_baud baud)) in
      record tio'' {
        c_cflag = bit_or (bit_or libc.cs8 libc.clocal) libc.cread;
        c_iflag = 0;
        c_oflag = 0;
        c_lflag = 0;
        vmin = 0;
        vtime = 2;
      }

  -- The complement has the 32 bits of an int.
  unfoldable pub serial_open : Bytes → ℤ → ℤ × List TtyCall
  unfolding settings
  serial_open dev baud =
      let fd = libc.open_tty dev in
      if is_neg fd then (negsuc 0, []) else (
        fd,
        set_attr fd (settings fd baud)
            ∷ set_flags fd (bit_and (libc.getfl fd) (2 ^ 32 - 1 - libc.o_nonblock))
            ∷ [],
      )

  unfoldable pub serial_close : ℤ → ℤ
  serial_close fd = libc.close fd

  unfoldable pub serial_read : ℤ → ℕ → ℤ × Bytes
  serial_read fd n = libc.read fd n

  unfoldable pub serial_write : ℤ → Bytes → ℤ
  serial_write fd buf = libc.write fd buf

  unfoldable pub serial_flush : ℤ → ℤ
  serial_flush fd = libc.tcflush fd

  -- The settings in force at the end of some calls, from these.
  unfoldable pub in_force : Termios → List TtyCall → Termios
  in_force t [] = t
  in_force t (set_attr fd u ∷ cs) = in_force u cs
  in_force t (set_flags fd n ∷ cs) = in_force t cs

  -- The library keeps the speed among the bits of `c_cflag`, as Linux does.
  abbrev pub SpeedInCflag : Type 0
  SpeedInCflag = (s t : Termios) → s.c_cflag ≡ t.c_cflag → libc.cfgetospeed s ≡ libc.cfgetospeed t

  -- On a C library that keeps the speed of a line in c_cflag, for a device that opens: whatever
  -- rate is asked for, the line is left, raw and with a wait of 0.2 s, at the speed that stands for
  -- the bits CS8, CLOCAL and CREAD alone.
  pub serial_open-speed :
      (dev : Bytes) (baud : ℤ) (before : Termios)
      → SpeedInCflag
      → is_neg (libc.open_tty dev) ≡ false
      → (left : Termios) × (in_force before (serial_open dev baud).1 ≡ left)
        × (left.c_iflag ≡ 0)
        × (left.c_oflag ≡ 0)
        × (left.c_lflag ≡ 0)
        × (left.vmin ≡ 0)
        × (left.vtime ≡ 2)
        × (libc.cfgetospeed left
            ≡ libc.cfgetospeed
                (record no_settings { c_cflag = bit_or (bit_or libc.cs8 libc.clocal) libc.cread }))
  unfolding in_force settings serial_open
  serial_open-speed dev baud before keeps opens = (
    settings (libc.open_tty dev) baud,
    rw opens refl,
    refl,
    refl,
    refl,
    refl,
    refl,
    keeps _ _ refl,
  )
