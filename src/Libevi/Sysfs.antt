-- ===== src/Libevi/Sysfs.antt =====
-- package/libevi/src/gpio_sysfs.c: the pins of the display driver through the files of
-- /sys/class/gpio; a file is opened for each access and closed behind it.
pub mod Levels
use python2c.Base.{
  ℕ, Bool, true, false, List, [], ◌∷◌, ◌++◌, Option, none, some, Bytes, codes, if◌then◌else◌, ◌==◌,
  ℤ, pos,
}
use python2c.Base.Scan.{print_dec}
use python2c.Lcdsvc.Gpio.{
  File, export_file, unexport_file, direction_file, value_file, Call, opened, written, read_from,
  closed, slept, World, digit,
}
use python2c.Libevi.Hal.{GpioOp}

module _ (w : World) where
  -- Whether 0 is returned, and the calls afterwards.
  unfoldable pub write_str : File → Bytes → List Call → Bool × List Call
  write_str path s log = elim (w.open_fd log path) [
    | none ↦ (false, log)
    | some fd ↦ (
      w.write_ok (log ++ (opened path fd ∷ [])) fd s,
      log ++ (opened path fd ∷ written fd s ∷ closed fd ∷ []),
    )
  ]

  -- A failure is taken for a pin that is exported already; it returns 0 always.
  unfoldable pub gpio_export : ℤ → List Call → List Call
  gpio_export gpio log =
      let (ok, log') = write_str export_file (print_dec gpio ++ codes "\n") log in
      if ok then log' else log' ++ (slept 1000 ∷ [])

  unfoldable pub gpio_unexport : ℤ → List Call → Bool × List Call
  gpio_unexport gpio = write_str unexport_file (print_dec gpio ++ codes "\n")

  unfoldable pub gpio_set_dir : ℤ → ℕ → List Call → Bool × List Call
  gpio_set_dir gpio is_out =
      write_str (direction_file gpio) (if is_out == 0 then codes "in\n" else codes "out\n")

  unfoldable pub gpio_write_fast : File → ℕ → List Call → Bool × List Call
  gpio_write_fast path value log = elim (w.open_fd log path) [
    | none ↦ (false, log)
    | some fd ↦ (
      w.write_ok (log ++ (opened path fd ∷ [])) fd (digit value),
      log ++ (opened path fd ∷ written fd (digit value) ∷ closed fd ∷ []),
    )
  ]

  unfoldable pub gpio_write : ℤ → ℕ → List Call → Bool × List Call
  gpio_write gpio value = gpio_write_fast (value_file gpio) value

  -- One byte is read.
  unfoldable pub level_of_byte : Option Bytes → Option ℕ
  level_of_byte none = none
  level_of_byte (some []) = none
  level_of_byte (some (c ∷ cs)) = some (if c == b'1' then 1 else 0)

  unfoldable pub gpio_read : ℤ → List Call → Option ℕ × List Call
  gpio_read gpio log = elim (w.open_fd log (value_file gpio)) [
    | none ↦ (none, log)
    | some fd ↦ (
      level_of_byte (w.read_fd (log ++ (opened (value_file gpio) fd ∷ [])) fd),
      log ++ (opened (value_file gpio) fd ∷ read_from fd ∷ closed fd ∷ []),
    )
  ]

  -- The calls of the driver, whose results it does not look at.
  unfoldable pub run_op : GpioOp → List Call → List Call
  run_op (GpioOp.write pin v) log = (gpio_write (pos pin) v log).1
  run_op (GpioOp.export pin) log = gpio_export (pos pin) log
  run_op (GpioOp.set_dir pin out) log = (gpio_set_dir (pos pin) out log).1
  run_op (GpioOp.usleep us) log = log ++ (slept us ∷ [])

  unfoldable pub run_ops : List GpioOp → List Call → List Call
  run_ops [] log = log
  run_ops (op ∷ ops) log = run_ops ops (run_op op log)
