-- ===== src/Lcdsvc/Hw/Shown.antt =====
-- What the controller takes of the calls of each function that writes to it.
use mathlib.Core.Path.{subst}
use python2c.Base.{
  ℕ, zero, suc, ◌/◌, ◌<◌, ◌≡◌, refl, sym, ap, ◌∙◌, List, [], ◌∷◌, ◌++◌, append_assoc, append-nil,
  Bytes, length, arith, All,
}
use python2c.Lcdsvc.Service.{LcdPins}
use python2c.Lcdsvc.Gpio.{Call, slept, World}
use python2c.Lcdsvc.Hw.{
  LcdCtx, lcd_delay_us, lcd_write, lcd_write_instr, lcd_write_data, lcd_write_text,
}
use python2c.Lcdsvc.Hw.Wires.{Panel, watch, bits}
use python2c.Lcdsvc.Hw.OneByte.{IsWiring, after_byte, byte_on-after}
use python2c.Lcdsvc.Hw.Calls.{Obeys, IsWired, slept-seen, lcd_write-seen}

-- A byte the controller takes: RS, RW and the data lines.
abbrev pub Taken : Type 0
Taken = ℕ × ℕ × ℕ

-- The display has eight data lines and EN is low.
abbrev pub IsIdle : Panel → Type 0
IsIdle x = (length x.d ≡ 8) × (x.en ≡ 0)

-- From one panel to a later one: the same files are open, and the bytes `out` are taken.
pub record Shows (x y : Panel) (out : List Taken) : Type 0 where
  pub same_files : y.files ≡ x.files
  pub idle : IsIdle y
  pub took : y.taken ≡ x.taken ++ out

pub then-Shows :
    (x y z : Panel) (o1 o2 : List Taken) → Shows x y o1 → Shows y z o2 → Shows x z (o1 ++ o2)
then-Shows x y z o1 o2 f g = record {
  same_files = g.same_files ∙ f.same_files;
  idle = g.idle;
  took = g.took ∙ ap (λ t. t ++ o2) f.took ∙ append_assoc x.taken o1 o2;
}

pub length-bits : (n v : ℕ) → length (bits n v) ≡ n
length-bits zero v = refl
length-bits (suc n) v = ap suc (length-bits n (v / 2))

after_byte-Shows : (r v : ℕ) (x : Panel) → Shows x (after_byte r v x) ((r, 0, v) ∷ [])
after_byte-Shows r v x = record { same_files = refl; idle = (length-bits 8 v, refl); took = refl }

abbrev pub text_taken : Bytes → List Taken
text_taken [] = []
text_taken (c ∷ cs) = (1, 0, c) ∷ text_taken cs

module _ (w : World) (p : LcdPins) (b : Panel) (g : LcdCtx) where
  abbrev pub panel : List Call → Panel
  panel log = watch p log b

  -- The context drives the display.
  abbrev pub IsReady : List Call → Type 0
  IsReady log = IsWired p g (panel log).files × IsIdle (panel log)

  pub sleep-Shows :
      (us : ℕ) (x : Panel) (log : List Call) (out : List Taken)
      → Shows x (panel log) out
      → Shows x (panel (log ++ (slept us ∷ []))) out
  sleep-Shows us x log out s = subst (λ y. Shows x y out) (sym (slept-seen w p b us log)) s

  pub after-IsReady :
      (log log' : List Call) (out : List Taken)
      → IsReady log
      → Shows (panel log) (panel log') out
      → IsReady log'
  after-IsReady log log' out r s = (subst (IsWired p g) (sym s.same_files) r.0, s.idle)

  lcd_write-Shows :
      (r v : ℕ) (log : List Call)
      → Obeys w
      → IsWiring p
      → r < 2
      → v < 256
      → IsReady log
      → Shows (panel log) (panel (lcd_write w r g v log).1) ((r, 0, v) ∷ [])
  lcd_write-Shows r v log o wiring hr hv (wired, (eight, low)) =
      subst (λ y. Shows (panel log) y ((r, 0, v) ∷ []))
        (sym (
          lcd_write-seen w p b g r v log o hr wired
          ∙ byte_on-after p r v (panel log) wiring hv eight))
        (after_byte-Shows r v (panel log))

  data_lem :
      (c : ℕ) (log : List Call)
      → Obeys w
      → IsWiring p
      → c < 256
      → IsReady log
      → Shows (panel log) (panel (lcd_delay_us 40 (lcd_write_data w g c log).1)) ((1, 0, c) ∷ [])
  unfolding lcd_write_data
  data_lem c log o wiring h r =
      sleep-Shows 40 (panel log) (lcd_write w 1 g c log).1 _
        (lcd_write-Shows 1 c log o wiring (omega arith) h r)

  pub lcd_write_text-Shows :
      (s : Bytes) (log : List Call)
      → Obeys w
      → IsWiring p
      → All (λ c. c < 256) s
      → IsReady log
      → Shows (panel log) (panel (lcd_write_text w g s log)) (text_taken s)
  unfolding lcd_write_text
  lcd_write_text-Shows [] log o wiring h (wired, idle) = record {
    same_files = refl;
    idle = idle;
    took = sym (append-nil (panel log).taken);
  }
  lcd_write_text-Shows (c ∷ cs) log o wiring h r =
      then-Shows (panel log) (panel next) (panel (lcd_write_text w g cs next)) ((1, 0, c) ∷ [])
        (text_taken cs) first
        (lcd_write_text-Shows cs next o wiring h.1 (after-IsReady log next _ r first))
    where
      next : List Call
      next = lcd_delay_us 40 (lcd_write_data w g c log).1

      first : Shows (panel log) (panel next) ((1, 0, c) ∷ [])
      first = data_lem c log o wiring h.0 r

  pub lcd_write_instr-Shows :
      (v : ℕ) (log : List Call)
      → Obeys w
      → IsWiring p
      → v < 256
      → IsReady log
      → Shows (panel log) (panel (lcd_write_instr w g v log).1) ((0, 0, v) ∷ [])
  unfolding lcd_write_instr
  lcd_write_instr-Shows v log o wiring h r = lcd_write-Shows 0 v log o wiring (omega arith) h r

  -- An instruction and a pause.
  pub slow-Shows :
      (us v : ℕ) (log : List Call)
      → Obeys w
      → IsWiring p
      → v < 256
      → IsReady log
      → Shows (panel log) (panel (lcd_delay_us us (lcd_write_instr w g v log).1)) ((0, 0, v) ∷ [])
  slow-Shows us v log o wiring h r =
      sleep-Shows us (panel log) (lcd_write_instr w g v log).1 _
        (lcd_write_instr-Shows v log o wiring h r)
