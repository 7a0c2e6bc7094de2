-- ===== src/Libevi/Hal.antt =====
-- package/libevi/src/evi_hal_mt7688_gpio.c with evi_hal_gpio_conf.h: the display driver.
-- The driver ignores what the GPIO calls return, so its behaviour is the list of calls it makes:
-- a write of a pin, an export, a direction, a sleep. `EVI_GPIO_RW` is -1, so no write of it is
-- compiled. A caller is a list of `HalCall`s, one constructor for each function of evi_hal.h.
pub mod Bus
pub mod Traffic
pub mod Mode
use Prim.Native.Nat.{bit_and, bit_or}
use python2c.Base.{
  ℕ, ◌/◌, ◌%◌, ◌^◌, Bool, true, false, List, [], ◌∷◌, ◌++◌, Option, none, some, Bytes,
  if◌then◌else◌, ◌==◌,
}

pub data GpioOp : Type 0 where
  write : ℕ → ℕ → GpioOp
  export : ℕ → GpioOp
  set_dir : ℕ → ℕ → GpioOp
  usleep : ℕ → GpioOp

abbrev pub gpio_rs : ℕ
gpio_rs = 18

abbrev pub gpio_en : ℕ
gpio_en = 37

abbrev pub gpio_d4 : ℕ
gpio_d4 = 2

abbrev pub gpio_d5 : ℕ
gpio_d5 = 3

abbrev pub gpio_d6 : ℕ
gpio_d6 = 4

abbrev pub gpio_d7 : ℕ
gpio_d7 = 5

abbrev pub us_pulse : ℕ
us_pulse = 1

abbrev pub us_settle : ℕ
us_settle = 40

unfoldable pub set_n : ℕ → List GpioOp
set_n n =
    write gpio_d4 (n / 2 ^ 0 % 2)
    ∷ write gpio_d5 (n / 2 ^ 1 % 2)
    ∷ write gpio_d6 (n / 2 ^ 2 % 2)
    ∷ write gpio_d7 (n / 2 ^ 3 % 2)
    ∷ []

unfoldable pub pulse : List GpioOp
pulse = write gpio_en 1 ∷ usleep us_pulse ∷ write gpio_en 0 ∷ usleep us_pulse ∷ []

-- `n & 0xF` is `n % 16`, and `v >> 4` is `v / 16`.
unfoldable pub w4 : ℕ → ℕ → List GpioOp
unfolding set_n pulse
w4 n rs =
    write gpio_rs (if rs == 0 then 0 else 1)
    ∷ (set_n (n % 16) ++ (pulse ++ (usleep us_settle ∷ [])))

unfoldable pub w8 : ℕ → ℕ → List GpioOp
unfolding w4
w8 v rs = w4 (v / 16 % 16) rs ++ w4 (v % 16) rs

-- The static `inited`, and the GPIO calls made so far, in order.
pub record Hal : Type 0 where
  pub inited : Bool
  pub ops : List GpioOp

abbrev pub emit : List GpioOp → Hal → Hal
emit l h = record h { ops = h.ops ++ l }

unfoldable pub setup_ops : List GpioOp
setup_ops =
    export gpio_rs
    ∷ export gpio_en
    ∷ export gpio_d4
    ∷ export gpio_d5
    ∷ export gpio_d6
    ∷ export gpio_d7
    ∷ set_dir gpio_rs 1
    ∷ set_dir gpio_en 1
    ∷ set_dir gpio_d4 1
    ∷ set_dir gpio_d5 1
    ∷ set_dir gpio_d6 1
    ∷ set_dir gpio_d7 1
    ∷ usleep 15000
    ∷ []

-- Four single nibbles that bring the controller into its 4-bit mode.
unfoldable pub wake_ops : List GpioOp
unfolding w4
wake_ops =
    w4 0x03 0
    ++ (usleep 4500
        ∷ (w4 0x03 0
            ++ (usleep 150 ∷ (w4 0x03 0 ++ (usleep 150 ∷ (w4 0x02 0 ++ (usleep 150 ∷ [])))))))

unfoldable pub config_ops : List GpioOp
unfolding w8
config_ops = w8 0x28 0 ++ (w8 0x08 0 ++ (w8 0x01 0 ++ (usleep 1600 ∷ (w8 0x06 0 ++ w8 0x0C 0))))

unfoldable pub ensure : Hal → Hal
unfolding setup_ops wake_ops config_ops
ensure h =
    if h.inited
    then h
    else record { inited = true; ops = h.ops ++ (setup_ops ++ (wake_ops ++ config_ops)) }

unfoldable pub hal_write_instr : ℕ → Hal → Hal
unfolding ensure w8
hal_write_instr c h = emit (w8 c 0) (ensure h)

-- The loop `while(*p){ w8(*p++,1); }`.
unfoldable pub letter_ops : Bytes → List GpioOp
unfolding w8
letter_ops [] = []
letter_ops (c ∷ s) = w8 c 1 ++ letter_ops s

unfoldable pub hal_write_letters : Option Bytes → Hal → Hal
unfolding ensure letter_ops
hal_write_letters none h = ensure h
hal_write_letters (some s) h = emit (letter_ops s) (ensure h)

unfoldable pub hal_write_graphic : ℕ → Hal → Hal
unfolding ensure w8
hal_write_graphic c h = emit (w8 c 1) (ensure h)

unfoldable pub hal_delay_us : ℕ → Hal → Hal
hal_delay_us us h = emit (usleep us ∷ []) h

-- The argument is an `unsigned char`.
unfoldable pub hal_move_ddram : ℕ → Hal → Hal
unfolding hal_write_instr
hal_move_ddram a h = hal_write_instr (bit_or 0x80 (bit_and a 0x7F)) h

pub data HalCall : Type 0 where
  write_instr : ℕ → HalCall
  write_letters : Option Bytes → HalCall
  write_graphic : ℕ → HalCall
  delay_us : ℕ → HalCall
  move_ddram : ℕ → HalCall

unfoldable pub run_call : HalCall → Hal → Hal
unfolding hal_write_instr hal_write_letters hal_write_graphic hal_delay_us hal_move_ddram
run_call (write_instr c) = hal_write_instr c
run_call (write_letters s) = hal_write_letters s
run_call (write_graphic c) = hal_write_graphic c
run_call (delay_us us) = hal_delay_us us
run_call (move_ddram a) = hal_move_ddram a

unfoldable pub run_calls : List HalCall → Hal → Hal
unfolding run_call
run_calls [] h = h
run_calls (c ∷ cs) h = run_calls cs (run_call c h)
