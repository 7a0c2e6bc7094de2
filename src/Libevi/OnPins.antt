-- ===== src/Libevi/OnPins.antt =====
-- The captions down to the files of the pins: package/libevi/src/evi_caption.c over
-- evi_hal_mt7688_gpio.c over gpio_sysfs.c.
use python2c.Base.{
  ℕ, ◌/◌, ◌%◌, ◌<◌, ◌≡◌, refl, ap, ◌∙◌, List, [], ◌∷◌, ◌++◌, none, some, Bytes, All, All-append,
  arith, if◌then◌else◌, ◌==◌, ℤ, pos, negsuc, inl, inr, Bool-cases,
}
use python2c.Lcdsvc.Gpio.{World}
use python2c.Libevi.Hal
use python2c.Libevi.Hal.{GpioOp, HalCall, Hal}
use python2c.Libevi.Hal.Bus.{Bus, set_pin, watch, split_bytes, init_nibbles}
use python2c.Libevi.Hal.Traffic.{meanings, fresh}
use python2c.Libevi.Screen.{Lib, loaded}
use python2c.Libevi.Caption.Cache.{Scene, frame}
use python2c.Libevi.Caption.Latest.{run, IsShort, last_scene}
use python2c.Libevi.Display.{SceneBytes, display_latest}
use python2c.Libevi.Sysfs
use python2c.Libevi.Sysfs.Levels.{Pins, OpensAll, follow, pins_at, wanted, run_ops-levels}

-- The controller as it meets the levels that arrive at the pins.
unfoldable pub arrive : List (ℤ × ℕ) → Bus → Bus
arrive [] b = b
arrive ((pos pin, v) ∷ ls) b = arrive ls (set_pin pin v b)
arrive ((negsuc pin, v) ∷ ls) b = arrive ls b

-- A level written is 0 or 1.
abbrev IsBinary : GpioOp → Type 0
IsBinary (GpioOp.write pin v) = v < 2
IsBinary (GpioOp.export pin) = Unit
IsBinary (GpioOp.set_dir pin out) = Unit
IsBinary (GpioOp.usleep us) = Unit

binary_lem : (v : ℕ) → v < 2 → (if v == 0 then 0 else 1) ≡ v
binary_lem v h = ground arith

arrive-wanted :
    (ops : List GpioOp) (b : Bus) → All IsBinary ops → arrive (wanted ops) b ≡ watch ops b
unfolding arrive watch
arrive-wanted [] b h = refl
arrive-wanted (GpioOp.write pin v ∷ ops) b h =
    ap (λ k. arrive (wanted ops) (set_pin pin k b)) (binary_lem v h.0)
    ∙ arrive-wanted ops (set_pin pin v b) h.1
arrive-wanted (GpioOp.export pin ∷ ops) b h = arrive-wanted ops b h.1
arrive-wanted (GpioOp.set_dir pin out ∷ ops) b h = arrive-wanted ops b h.1
arrive-wanted (GpioOp.usleep us ∷ ops) b h = arrive-wanted ops b h.1

abbrev AreBinary : List GpioOp → Type 0
AreBinary = All IsBinary

both : (xs ys : List GpioOp) → AreBinary xs → AreBinary ys → AreBinary (xs ++ ys)
both xs ys h k = All-append IsBinary xs ys h k

w4-AreBinary : (n rs : ℕ) → AreBinary (Hal.w4 n rs)
unfolding Hal.w4 Hal.set_n Hal.pulse
w4-AreBinary n rs = ground arith

w8-AreBinary : (v rs : ℕ) → AreBinary (Hal.w8 v rs)
unfolding Hal.w8
w8-AreBinary v rs =
    both (Hal.w4 (v / 16 % 16) rs) (Hal.w4 (v % 16) rs) (w4-AreBinary (v / 16 % 16) rs)
      (w4-AreBinary (v % 16) rs)

-- The calls of the set-up, which are closed terms.
start-AreBinary : AreBinary (Hal.setup_ops ++ (Hal.wake_ops ++ Hal.config_ops))
unfolding Hal.setup_ops Hal.wake_ops Hal.config_ops Hal.w8 Hal.w4 Hal.set_n Hal.pulse
start-AreBinary = ground arith

ensure-AreBinary : (h : Hal) → AreBinary h.ops → AreBinary (Hal.ensure h).ops
unfolding Hal.ensure
ensure-AreBinary h k = elim (Bool-cases h.inited) [
  | inl up ↦ rw (up, Hal.ensure) k
  | inr down ↦
      rw (down, Hal.ensure)
        (both h.ops (Hal.setup_ops ++ (Hal.wake_ops ++ Hal.config_ops)) k start-AreBinary)
]

letter_ops-AreBinary : (s : Bytes) → AreBinary (Hal.letter_ops s)
unfolding Hal.letter_ops
letter_ops-AreBinary [] = tt
letter_ops-AreBinary (c ∷ s) =
    both (Hal.w8 c 1) (Hal.letter_ops s) (w8-AreBinary c 1) (letter_ops-AreBinary s)

instr-AreBinary : (c : ℕ) (h : Hal) → AreBinary h.ops → AreBinary (Hal.hal_write_instr c h).ops
unfolding Hal.hal_write_instr
instr-AreBinary c h k =
    both (Hal.ensure h).ops (Hal.w8 c 0) (ensure-AreBinary h k) (w8-AreBinary c 0)

run_call-AreBinary : (c : HalCall) (h : Hal) → AreBinary h.ops → AreBinary (Hal.run_call c h).ops
unfolding Hal.run_call Hal.hal_write_letters Hal.hal_write_graphic Hal.hal_delay_us
    Hal.hal_move_ddram
run_call-AreBinary (HalCall.write_instr c) h k = instr-AreBinary c h k
run_call-AreBinary (HalCall.write_letters none) h k = ensure-AreBinary h k
run_call-AreBinary (HalCall.write_letters (some s)) h k =
    both (Hal.ensure h).ops (Hal.letter_ops s) (ensure-AreBinary h k) (letter_ops-AreBinary s)
run_call-AreBinary (HalCall.write_graphic c) h k =
    both (Hal.ensure h).ops (Hal.w8 c 1) (ensure-AreBinary h k) (w8-AreBinary c 1)
run_call-AreBinary (HalCall.delay_us us) h k = both h.ops (GpioOp.usleep us ∷ []) k (tt, tt)
run_call-AreBinary (HalCall.move_ddram a) h k = instr-AreBinary _ h k

pub run_calls-AreBinary :
    (cs : List HalCall) (h : Hal) → AreBinary h.ops → AreBinary (Hal.run_calls cs h).ops
unfolding Hal.run_calls
run_calls-AreBinary [] h k = k
run_calls-AreBinary (c ∷ cs) h k =
    run_calls-AreBinary cs (Hal.run_call c h) (run_call-AreBinary c h k)

abbrev pub no_levels : Pins
no_levels = record { open_files = []; levels = [] }

-- The levels that reach the pins through the files, when the driver's calls are made from the
-- start.
abbrev pub arrived : World → List GpioOp → List (ℤ × ℕ)
arrived w ops = (pins_at w no_levels (Sysfs.run_ops w ops [])).levels

pub arrived-watch :
    (w : World) (ops : List GpioOp) (b : Bus)
    → OpensAll w no_levels
    → AreBinary ops
    → arrive (arrived w ops) b ≡ watch ops b
arrived-watch w ops b opens h =
    ap (λ ls. arrive ls b) (run_ops-levels w no_levels ops [] opens ∙ from_none)
    ∙ arrive-wanted ops b h
  where
    from_none : (pins_at w no_levels []).levels ++ wanted ops ≡ wanted ops
    from_none = unfold follow in refl

-- Any sequence of captions of evi_caption.c, from the loaded library and a driver that is not up,
-- down to the files of /sys/class/gpio, when every open succeeds, whatever the levels of the
-- display's lines: all calls return, and the nibbles that EN latches of the levels that arrive at
-- the pins begin with the power-on sequence and end with the two nibbles of each byte of the last
-- caption's frame, whether or not that call drew it. The texts are byte strings of at most 47 bytes
-- or null pointers.
pub files_latest :
    (w : World) (sc : Scene) (scs : List Scene) (b : Bus)
    → OpensAll w no_levels
    → All IsShort (sc ∷ scs)
    → All SceneBytes (sc ∷ scs)
    → b.taken ≡ []
    → (l' : Lib) × (run (sc ∷ scs) loaded ≡ some l')
      × (earlier : List (ℕ × ℕ)) × ((arrive (arrived w (Hal.run_calls l'.calls fresh).ops) b).taken
          ≡ init_nibbles ++ (earlier ++ split_bytes (meanings (frame (last_scene sc scs)))))
files_latest w sc scs b opens short bytes e =
    let (l', runs, (earlier, reads)) = display_latest sc scs b short bytes e in
    (
      l',
      runs,
      earlier,
      ap (λ (x : Bus). x.taken)
            (arrived-watch w (Hal.run_calls l'.calls fresh).ops b opens
              (run_calls-AreBinary l'.calls fresh tt))
          ∙ reads,
    )
