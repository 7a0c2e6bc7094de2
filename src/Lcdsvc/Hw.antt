-- ===== src/Lcdsvc/Hw.antt =====
-- package/evi-lcdsvc/src/lcd_hw.c: the display on eight data lines, each line an open file.
pub mod Wires
pub mod OneByte
pub mod Calls
pub mod Shown
pub mod Start
pub mod Init
pub mod Leak
pub mod Run
pub mod Steady
use Prim.Native.Nat.{bit_and, bit_or}
use python2c.Base.{
  ℕ, ◌/◌, ◌%◌, Bool, true, false, List, [], ◌∷◌, ◌++◌, Option, none, some, Bytes, if◌then◌else◌, ℤ,
}
use python2c.Lcdsvc.Service.{LcdPins, Action}
use python2c.Lcdsvc.Gpio.{
  Call, slept, World, gpio_export, gpio_direction, gpio_open_handle, gpio_write_fd, gpio_close_fd,
}

-- The descriptors of `struct lcd_ctx`; `none` is the -1.
pub record LcdCtx : Type 0 where
  pub fd_rs : Option ℕ
  pub fd_rw : Option ℕ
  pub fd_en : Option ℕ
  pub fd_d : List (Option ℕ)

abbrev pub lcd_delay_us : ℕ → List Call → List Call
lcd_delay_us us log = log ++ (slept us ∷ [])

-- The eleven pins, in the order of the array `pins`.
abbrev pub pins_of : LcdPins → List ℤ
pins_of p = p.rs ∷ p.rw_pin ∷ p.en ∷ p.d

-- The descriptors in their fields.
unfoldable pub ctx_of : List (Option ℕ) → LcdCtx
ctx_of (rs ∷ rw_fd ∷ en ∷ d) = record { fd_rs = rs; fd_rw = rw_fd; fd_en = en; fd_d = d }
ctx_of _ = record { fd_rs = none; fd_rw = none; fd_en = none; fd_d = [] }

-- What the daemon has done: the display's context, the calls, and the replies.
pub record Running : Type 0 where
  pub ctx : LcdCtx
  pub calls : List Call
  pub replies : List Bytes

module _ (w : World) where
  -- The loop over the lines, the value shifted on; a line with no descriptor is passed over, and
  -- the first failure ends the loop.
  unfoldable pub set_lines : List (Option ℕ) → ℕ → List Call → Bool × List Call
  set_lines [] val log = (true, log)
  set_lines (none ∷ fds) val log = set_lines fds (val / 2) log
  set_lines (some fd ∷ fds) val log =
      let (ok, log') = gpio_write_fd w (some fd) (val % 2) log in
      let rest = set_lines fds (val / 2) log' in if ok then rest else (false, log')

  unfoldable pub set_data_bus : LcdCtx → ℕ → List Call → Bool × List Call
  set_data_bus g val = set_lines g.fd_d val

  unfoldable pub pulse_en : LcdCtx → List Call → Bool × List Call
  pulse_en g log =
      let (up, log1) = gpio_write_fd w g.fd_en 1 log in
      let (down, log2) = gpio_write_fd w g.fd_en 0 (lcd_delay_us 1 log1) in
      if up then (if down then (true, lcd_delay_us 50 log2) else (false, log2)) else (false, log1)

  -- A byte with the register select; only the result of `pulse_en` is passed on.
  unfoldable pub lcd_write : ℕ → LcdCtx → ℕ → List Call → Bool × List Call
  lcd_write rs g v log =
      pulse_en g
        (set_data_bus g v (gpio_write_fd w g.fd_rw 0 (gpio_write_fd w g.fd_rs rs log).1).1).1

  unfoldable pub lcd_write_instr : LcdCtx → ℕ → List Call → Bool × List Call
  lcd_write_instr = lcd_write 0

  unfoldable pub lcd_write_data : LcdCtx → ℕ → List Call → Bool × List Call
  lcd_write_data = lcd_write 1

  unfoldable pub lcd_write_text : LcdCtx → Bytes → List Call → List Call
  lcd_write_text g [] log = log
  lcd_write_text g (c ∷ cs) log = lcd_write_text g cs (lcd_delay_us 40 (lcd_write_data g c log).1)

  unfoldable pub lcd_set_ddram : LcdCtx → ℕ → List Call → Bool × List Call
  lcd_set_ddram g addr = lcd_write_instr g (bit_or 0x80 (bit_and addr 0x7F))

  unfoldable pub lcd_clear : LcdCtx → List Call → Bool × List Call
  lcd_clear g log = let (rc, log') = lcd_write_instr g 0x01 log in (rc, lcd_delay_us 2000 log')

  unfoldable pub lcd_home : LcdCtx → List Call → Bool × List Call
  lcd_home g log = let (rc, log') = lcd_write_instr g 0x02 log in (rc, lcd_delay_us 2000 log')

  unfoldable pub export_all : List ℤ → List Call → List Call
  export_all [] log = log
  export_all (pin ∷ pins) log = export_all pins (gpio_export w pin log).1

  unfoldable pub direct_all : List ℤ → List Call → List Call
  direct_all [] log = log
  direct_all (pin ∷ pins) log = direct_all pins (gpio_direction w pin true log).1

  unfoldable pub open_all : List ℤ → List Call → List (Option ℕ) × List Call
  open_all [] log = ([], log)
  open_all (pin ∷ pins) log =
      let (fd, log1) = gpio_open_handle w pin log in
      let (fds, log2) = open_all pins log1 in (fd ∷ fds, log2)

  unfoldable pub zero_all : List (Option ℕ) → List Call → List Call
  zero_all [] log = log
  zero_all (fd ∷ fds) log = zero_all fds (gpio_write_fd w fd 0 log).1

  -- From the power-on delay to the return.
  unfoldable pub wake : LcdCtx → List Call → List Call
  wake g log =
      let log1 = lcd_delay_us 4500 (lcd_write_instr g 0x30 (lcd_delay_us 15000 log)).1 in
      let log2 = lcd_delay_us 150 (lcd_write_instr g 0x30 log1).1 in
      let log3 = (lcd_clear g (lcd_write_instr g 0x08 log2).1).1 in
      (lcd_write_instr g 0x0C (lcd_write_instr g 0x06 log3).1).1

  -- It returns 0 always; `g` afterwards, and the calls.
  unfoldable pub lcd_hw_init : LcdPins → List Call → LcdCtx × List Call
  lcd_hw_init p log =
      let pins = pins_of p in
      let (fds, log1) =
        open_all pins (direct_all pins (lcd_delay_us 10000 (export_all pins log))) in
      (ctx_of fds, wake (ctx_of fds) (zero_all fds log1))

  unfoldable pub close_all : List (Option ℕ) → List Call → List Call
  close_all [] log = log
  close_all (fd ∷ fds) log = close_all fds (gpio_close_fd w fd log)

  unfoldable pub lcd_hw_free : LcdCtx → List Call → List Call
  lcd_hw_free g = close_all (g.fd_rs ∷ g.fd_rw ∷ g.fd_en ∷ g.fd_d)

  -- The calls that handle_client makes of this file, for each of its actions.
  unfoldable pub perform : Action → Running → Running
  perform (Action.hw_init p) r = record r {
    ctx = (lcd_hw_init p r.calls).0;
    calls = (lcd_hw_init p r.calls).1;
  }
  perform Action.clear r = record r { calls = (lcd_clear r.ctx r.calls).1 }
  perform Action.home r = record r { calls = (lcd_home r.ctx r.calls).1 }
  perform (Action.write_instr v) r = record r { calls = (lcd_write_instr r.ctx v r.calls).1 }
  perform (Action.set_ddram v) r = record r { calls = (lcd_set_ddram r.ctx v r.calls).1 }
  perform (Action.write_text s) r = record r { calls = lcd_write_text r.ctx s r.calls }
  perform (Action.reply b) r = record r { replies = r.replies ++ (b ∷ []) }

  unfoldable pub perform_all : List Action → Running → Running
  perform_all [] r = r
  perform_all (a ∷ actions) r = perform_all actions (perform a r)
