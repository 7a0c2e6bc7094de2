-- ===== src/Lcdsvc/Gpio.antt =====
-- package/evi-lcdsvc/src/gpio_sysfs.c: GPIO pins through the files of /sys/class/gpio. What a
-- function does is the list of its system calls, behind those made before.
use python2c.Base.{
  ℕ, Bool, false, List, [], ◌∷◌, ◌++◌, Option, none, some, Bytes, codes, if◌then◌else◌, ◌==◌, ℤ,
}
use python2c.Base.Scan.{print_dec}

-- The files that are opened.
pub data File : Type 0 where
  export_file unexport_file : File
  direction_file value_file : ℤ → File

-- Their paths.
unfoldable pub path_of : File → Bytes
path_of export_file = codes "/sys/class/gpio/export"
path_of unexport_file = codes "/sys/class/gpio/unexport"
path_of (direction_file pin) = codes "/sys/class/gpio/gpio" ++ (print_dec pin ++ codes "/direction")
path_of (value_file pin) = codes "/sys/class/gpio/gpio" ++ (print_dec pin ++ codes "/value")

pub data Call : Type 0 where
  opened : File → ℕ → Call
  sought : ℕ → Call
  written : ℕ → Bytes → Call
  read_from : ℕ → Call
  closed : ℕ → Call
  slept : ℕ → Call

-- What the system answers, by the calls made so far: `open` of a file gives a descriptor or fails,
-- `lseek` to the start of a file succeeds or not, `write` takes all its bytes or not, and `read` of
-- at most 7 bytes gives bytes or fails.
pub record World : Type 0 where
  pub open_fd : List Call → File → Option ℕ
  pub seek_ok : List Call → ℕ → Bool
  pub write_ok : List Call → ℕ → Bytes → Bool
  pub read_fd : List Call → ℕ → Option Bytes

-- `val ? "1" : "0"`
abbrev pub digit : ℕ → Bytes
digit val = if val == 0 then codes "0" else codes "1"

module _ (w : World) where
  -- Whether the function returns 0, and the calls afterwards.
  unfoldable pub write_str : File → Bytes → List Call → Bool × List Call
  write_str file s log = elim (w.open_fd log file) [
    | none ↦ (false, log)
    | some fd ↦ (
      w.write_ok (log ++ (opened file fd ∷ [])) fd s,
      log ++ (opened file fd ∷ written fd s ∷ closed fd ∷ []),
    )
  ]

  unfoldable pub gpio_export : ℤ → List Call → Bool × List Call
  gpio_export pin = write_str export_file (print_dec pin)

  unfoldable pub gpio_unexport : ℤ → List Call → Bool × List Call
  gpio_unexport pin = write_str unexport_file (print_dec pin)

  unfoldable pub gpio_direction : ℤ → Bool → List Call → Bool × List Call
  gpio_direction pin is_output =
      write_str (direction_file pin) (if is_output then codes "out" else codes "in")

  unfoldable pub gpio_write : ℤ → ℕ → List Call → Bool × List Call
  gpio_write pin val = write_str (value_file pin) (digit val)

  unfoldable pub gpio_open_handle : ℤ → List Call → Option ℕ × List Call
  gpio_open_handle pin log = elim (w.open_fd log (value_file pin)) [
    | none ↦ (none, log)
    | some fd ↦ (some fd, log ++ (opened (value_file pin) fd ∷ []))
  ]

  -- On a descriptor of -1 `lseek` fails, and nothing is done.
  unfoldable pub gpio_write_fd : Option ℕ → ℕ → List Call → Bool × List Call
  gpio_write_fd none val log = (false, log)
  gpio_write_fd (some fd) val log =
      if w.seek_ok log fd
      then (
        w.write_ok (log ++ (sought fd ∷ [])) fd (digit val),
        log ++ (sought fd ∷ written fd (digit val) ∷ []),
      )
      else (false, log ++ (sought fd ∷ []))

  unfoldable pub gpio_close_fd : Option ℕ → List Call → List Call
  gpio_close_fd none log = log
  gpio_close_fd (some fd) log = log ++ (closed fd ∷ [])

  -- `n <= 0` is a failure; otherwise the first byte decides.
  unfoldable pub level_read : Option Bytes → Option ℕ
  level_read none = none
  level_read (some []) = none
  level_read (some (c ∷ cs)) = some (if c == b'1' then 1 else 0)

  unfoldable pub gpio_read : ℤ → List Call → Option ℕ × List Call
  gpio_read pin log = elim (w.open_fd log (value_file pin)) [
    | none ↦ (none, log)
    | some fd ↦ (
      level_read (w.read_fd (log ++ (opened (value_file pin) fd ∷ [])) fd),
      log ++ (opened (value_file pin) fd ∷ read_from fd ∷ closed fd ∷ []),
    )
  ]

  unfoldable pub gpio_write_fast : ℤ → ℕ → List Call → Bool × List Call
  gpio_write_fast pin val = gpio_write pin val
