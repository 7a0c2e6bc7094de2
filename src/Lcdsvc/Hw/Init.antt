-- ===== src/Lcdsvc/Hw/Init.antt =====
-- lcd_hw_init as the controller sees it.
use mathlib.Core.Path.{subst}
use python2c.Base.{
  ℕ, ◌<◌, ◌≡◌, refl, sym, ap, ◌∙◌, List, [], ◌∷◌, ◌++◌, append-nil, length, arith, Option,
}
use python2c.Lcdsvc.Service.{LcdPins}
use python2c.Lcdsvc.Gpio.{File, Call, World}
use python2c.Lcdsvc.Hw.{
  LcdCtx, lcd_delay_us, lcd_write_instr, lcd_clear, export_all, direct_all, open_all, zero_all,
  pins_of, ctx_of, wake, lcd_hw_init,
}
use python2c.Lcdsvc.Hw.Wires.{Panel, watch, bits, drive, put_all-bits}
use python2c.Lcdsvc.Hw.OneByte.{IsWiring, drive_all, drive_all-d, drive-rs, drive-rw, drive-en}
use python2c.Lcdsvc.Hw.Calls.{Obeys, AllDrive, IsWired, slept-seen}
use python2c.Lcdsvc.Hw.Shown.{
  Taken, IsIdle, IsReady, Shows, then-Shows, length-bits, sleep-Shows, after-IsReady,
  lcd_write_instr-Shows,
}
use python2c.Lcdsvc.Hw.Start.{
  Opens, OpensMore, export_all-seen, direct_all-seen, open_all-seen, zero_all-seen,
}

ctx_of-IsWired :
    (p : LcdPins) (fds : List (Option ℕ)) (fs : List (ℕ × File))
    → AllDrive fds (pins_of p) fs
    → IsWired p (ctx_of fds) fs
unfolding ctx_of
ctx_of-IsWired p [] fs h = absurd h
ctx_of-IsWired p (a ∷ []) fs h = absurd h.1
ctx_of-IsWired p (a ∷ b ∷ []) fs h = absurd h.1.1
ctx_of-IsWired p (a ∷ b ∷ c ∷ d) fs h = (h.0, h.1.0, h.1.1.0, h.1.1.1)

-- All lines are 0, and with EN low before nothing is taken.
drive_all-zero :
    (p : LcdPins) (x : Panel)
    → IsWiring p
    → IsIdle x
    → drive_all p (pins_of p) 0 x ≡ record x { rs = 0; rw_line = 0; en = 0; d = bits 8 0 }
unfolding drive_all
drive_all-zero p x wiring idle =
    ap (λ y. drive_all p p.d 0 (drive p p.en 0 (drive p p.rw_pin 0 y))) (drive-rs p 0 x)
    ∙ ap (λ y. drive_all p p.d 0 (drive p p.en 0 y))
        (drive-rw p 0 (record x { rs = 0 }) wiring.0.0.0)
    ∙ ap (drive_all p p.d 0) low
    ∙ drive_all-d p p.d 0 zeroed wiring.0.0.1.1 wiring.0.1.0.1 wiring.0.1.1.0
    ∙ ap {A = List ℕ} (λ ds. record x { rs = 0; rw_line = 0; en = 0; d = ds })
        (put_all-bits p.d 0 x.d wiring.0.1.1.1 (idle.0 ∙ sym wiring.1)
          ∙ ap (λ n. bits n 0) wiring.1)
  where
    zeroed : Panel
    zeroed = record x { rs = 0; rw_line = 0; en = 0 }

    low : drive p p.en 0 (record x { rs = 0; rw_line = 0 }) ≡ zeroed
    low =
        drive-en p 0 (record x { rs = 0; rw_line = 0 }) wiring.0.0.1.0 wiring.0.1.0.0
        ∙ ground (arith, idle.1)

-- The instructions of the start: twice the function set, display off, clear, entry mode, display
-- on.
abbrev pub start_taken : List Taken
start_taken =
    (0, 0, 0x30) ∷ (0, 0, 0x30) ∷ (0, 0, 0x08) ∷ (0, 0, 0x01) ∷ (0, 0, 0x06) ∷ (0, 0, 0x0C) ∷ []

module _ (w : World) (p : LcdPins) (b : Panel) where
  abbrev pub panel : List Call → Panel
  panel log = watch p log b

  abbrev Reached : List Call → List Call → List Taken → Type 0
  Reached log0 log out = Shows (panel log0) (panel log) out

  -- One more instruction.
  then_instr :
      (g : LcdCtx) (v : ℕ) (log0 log : List Call) (out : List Taken)
      → Obeys w
      → IsWiring p
      → v < 256
      → IsReady w p b g log0
      → Reached log0 log out
      → Reached log0 (lcd_write_instr w g v log).1 (out ++ ((0, 0, v) ∷ []))
  then_instr g v log0 log out o wiring h r s =
      then-Shows _ _ _ out _ s
        (lcd_write_instr-Shows w p b g v log o wiring h (after-IsReady w p b g log0 log out r s))

  pub wake-Shows :
      (g : LcdCtx) (log : List Call)
      → Obeys w
      → IsWiring p
      → IsReady w p b g log
      → Reached log (wake w g log) start_taken
  unfolding wake lcd_clear
  wake-Shows g log o wiring r = go 0x0C _ _ (omega arith) (
      go 0x06 _ _ (omega arith) (
        sleep 2000 _ _ (
          go 0x01 _ _ (omega arith) (
            go 0x08 _ _ (omega arith) (
              sleep 150 _ _ (
                go 0x30 _ _ (omega arith)
                  (sleep 4500 _ _ (go 0x30 _ _ (omega arith) (sleep 15000 _ _ still)))))))))
    where
      still : Reached log log []
      still = record { same_files = refl; idle = r.1; took = sym (append-nil (panel log).taken) }

      go :
          (v : ℕ) (log1 : List Call) (out : List Taken)
          → v < 256
          → Reached log log1 out
          → Reached log (lcd_write_instr w g v log1).1 (out ++ ((0, 0, v) ∷ []))
      go v log1 out h s = then_instr g v log log1 out o wiring h r s

      sleep :
          (us : ℕ) (log1 : List Call) (out : List Taken)
          → Reached log log1 out
          → Reached log (lcd_delay_us us log1) out
      sleep us log1 out s = sleep-Shows w p b g us (panel log) log1 out s

  -- The lines as lcd_hw_init leaves them before its first instruction.
  pub lines_open :
      (log : List Call) (made : List (Option ℕ) × List Call)
      → open_all w (pins_of p) log ≡ made
      → Obeys w
      → Opens w p b
      → IsWiring p
      → IsIdle (panel log)
      → IsReady w p b (ctx_of made.0) (zero_all w made.0 made.1)
        × ((panel (zero_all w made.0 made.1)).taken ≡ (panel log).taken)
        × ((panel (zero_all w made.0 made.1)).files ≡ (panel made.1).files)
  lines_open log made e o op wiring idle = (
    (
      ctx_of-IsWired p made.0 _
          (subst (λ y. AllDrive made.0 (pins_of p) y.files) (sym low) opens.0),
      (ap (λ y. length y.d) low ∙ length-bits 8 0, ap (λ y. y.en) low),
    ),
    ap (λ y. y.taken) low ∙ ap (λ y. y.taken) opens.1.others,
    ap (λ y. y.files) low,
  )
    where
      opens :
          AllDrive made.0 (pins_of p) (panel made.1).files × OpensMore (panel log) (panel made.1)
      opens =
          subst
            (λ m. AllDrive m.0 (pins_of p) (panel m.1).files × OpensMore (panel log) (panel m.1)) e
            (open_all-seen w p b (pins_of p) log op)

      low :
          panel (zero_all w made.0 made.1)
          ≡ record (panel made.1) { rs = 0; rw_line = 0; en = 0; d = bits 8 0 }
      low =
          zero_all-seen w p b (pins_of p) made.0 made.1 o opens.0
          ∙ drive_all-zero p (panel made.1) wiring
              (ap (λ y. length y.d) opens.1.others ∙ idle.0, ap (λ y. y.en) opens.1.others ∙ idle.1)

  -- The context that lcd_hw_init makes drives the display, which has taken the instructions of
  -- the start.
  pub lcd_hw_init-Shows :
      (log : List Call)
      → Obeys w
      → Opens w p b
      → IsWiring p
      → IsIdle (panel log)
      → IsReady w p b (lcd_hw_init w p log).0 (lcd_hw_init w p log).1
        × ((panel (lcd_hw_init w p log).1).taken ≡ (panel log).taken ++ start_taken)
  unfolding lcd_hw_init
  lcd_hw_init-Shows log o op wiring idle = (
    after-IsReady w p b (ctx_of made.0) _ _ _ ready.0 woken,
    woken.took ∙ ap (λ t. t ++ start_taken) (ready.1 ∙ ap (λ y. y.taken) quiet),
  )
    where
      log1 : List Call
      log1 = direct_all w (pins_of p) (lcd_delay_us 10000 (export_all w (pins_of p) log))

      made : List (Option ℕ) × List Call
      made = open_all w (pins_of p) log1

      quiet : panel log1 ≡ panel log
      quiet =
          direct_all-seen w p b (pins_of p) _
          ∙ slept-seen w p b 10000 _
          ∙ export_all-seen w p b (pins_of p) log

      ready :
          IsReady w p b (ctx_of made.0) (zero_all w made.0 made.1)
          × ((panel (zero_all w made.0 made.1)).taken ≡ (panel log1).taken)
          × ((panel (zero_all w made.0 made.1)).files ≡ (panel made.1).files)
      ready = lines_open log1 made refl o op wiring (subst IsIdle (sym quiet) idle)

      woken :
          Reached
            (zero_all w made.0 made.1)
            (wake w (ctx_of made.0) (zero_all w made.0 made.1))
            start_taken
      woken = wake-Shows (ctx_of made.0) _ o wiring ready.0
