-- ===== src/Lcdsvc/Hw/Leak.antt =====
-- The descriptors that lcd_hw_init leaves open.
use mathlib.Core.Path.{subst}
use python2c.Base.{
  ℕ, suc, ◌+◌, ◌≡◌, refl, sym, ap, ◌∙◌, List, [], ◌∷◌, length, arith, Option, some, ℤ,
}
use python2c.Lcdsvc.Service.{LcdPins}
use python2c.Lcdsvc.Gpio.{Call, World, value_file, gpio_open_handle}
use python2c.Lcdsvc.Hw.{
  lcd_delay_us, export_all, direct_all, open_all, zero_all, pins_of, ctx_of, wake, lcd_hw_init,
}
use python2c.Lcdsvc.Hw.Wires.{Panel, watch}
use python2c.Lcdsvc.Hw.OneByte.{IsWiring}
use python2c.Lcdsvc.Hw.Calls.{Obeys, slept-seen}
use python2c.Lcdsvc.Hw.Shown.{IsIdle, IsReady, Shows}
use python2c.Lcdsvc.Hw.Start.{
  Opens, IsFresh, opened_seen, gpio_open_handle-opened, export_all-seen, direct_all-seen,
}
use python2c.Lcdsvc.Hw.Init.{start_taken, lines_open, wake-Shows}

module _ (w : World) (p : LcdPins) (b : Panel) where
  abbrev files_open : List Call → ℕ
  files_open log = length (watch p log b).files

  gpio_open_handle-files :
      (pin : ℤ) (log : List Call)
      → Opens w p b
      → files_open (gpio_open_handle w pin log).1 ≡ suc (files_open log)
  gpio_open_handle-files pin log o = counted (o log (value_file pin))
    where
      counted :
          (fd : ℕ) × (w.open_fd log (value_file pin) ≡ some fd) × IsFresh fd (watch p log b)
          → files_open (gpio_open_handle w pin log).1 ≡ suc (files_open log)
      counted (fd, got, _) =
          ap (λ r. files_open r.1) (gpio_open_handle-opened w p b pin log fd got)
          ∙ ap (λ y. length y.files) (opened_seen p fd (value_file pin) log b)

  open_all-files :
      (pins : List ℤ) (log : List Call)
      → Opens w p b
      → files_open (open_all w pins log).1 ≡ length pins + files_open log
  unfolding open_all
  open_all-files [] log o = omega arith
  open_all-files (q ∷ qs) log o =
      omega
        (arith, open_all-files qs (gpio_open_handle w q log).1 o, gpio_open_handle-files q log o)

  pub lcd_hw_init-files :
      (log : List Call)
      → Obeys w
      → Opens w p b
      → IsWiring p
      → IsIdle (watch p log b)
      → length (watch p (lcd_hw_init w p log).1 b).files ≡ 11 + length (watch p log b).files
  unfolding lcd_hw_init
  lcd_hw_init-files log o op wiring idle =
      ap length woken.same_files
      ∙ ap length ready.2
      ∙ open_all-files (pins_of p) log1 op
      ∙ omega (arith, wiring.1, ap (λ y. length y.files) quiet)
    where
      log1 : List Call
      log1 = direct_all w (pins_of p) (lcd_delay_us 10000 (export_all w (pins_of p) log))

      made : List (Option ℕ) × List Call
      made = open_all w (pins_of p) log1

      quiet : watch p log1 b ≡ watch p log b
      quiet =
          direct_all-seen w p b (pins_of p) _
          ∙ slept-seen w p b 10000 _
          ∙ export_all-seen w p b (pins_of p) log

      ready :
          IsReady w p b (ctx_of made.0) (zero_all w made.0 made.1)
          × ((watch p (zero_all w made.0 made.1) b).taken ≡ (watch p log1 b).taken)
          × ((watch p (zero_all w made.0 made.1) b).files ≡ (watch p made.1 b).files)
      ready = lines_open w p b log1 made refl o op wiring (subst IsIdle (sym quiet) idle)

      woken :
          Shows
            (watch p (zero_all w made.0 made.1) b)
            (watch p (wake w (ctx_of made.0) (zero_all w made.0 made.1)) b)
            start_taken
      woken = wake-Shows w p b (ctx_of made.0) _ o wiring ready.0
