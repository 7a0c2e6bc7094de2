-- ===== src/Lcdsvc/Hw/Calls.antt =====
-- The calls of a byte, as the controller sees them.
use mathlib.Core.Path.{subst}
use python2c.Base.{
  ℕ, ◌/◌, ◌%◌, ◌<◌, ◌≡◌, refl, sym, ap, ◌∙◌, true, List, [], ◌∷◌, ◌++◌, Option, none, some, Bytes,
  arith, ℤ,
}
use python2c.Lcdsvc.Service.{LcdPins}
use python2c.Lcdsvc.Gpio.{
  File, value_file, Call, sought, written, slept, digit, World, gpio_write_fd,
}
use python2c.Lcdsvc.Hw.{LcdCtx, set_lines, set_data_bus, pulse_en, lcd_write}
use python2c.Lcdsvc.Hw.Wires.{Panel, lookup, drive, write_to, see, watch, watch-append}
use python2c.Lcdsvc.Hw.OneByte.{drive-files, level-digit, drive_all, drive_all-files, byte_on}

-- Every seek succeeds and every write takes its bytes.
pub record Obeys (w : World) : Type 0 where
  pub seeks : (log : List Call) (fd : ℕ) → w.seek_ok log fd ≡ true
  pub writes : (log : List Call) (fd : ℕ) (s : Bytes) → w.write_ok log fd s ≡ true

-- The descriptor is an open file of the pin's level.
abbrev pub Drives : Option ℕ → ℤ → List (ℕ × File) → Type 0
Drives none pin fs = ⊥
Drives (some fd) pin fs = lookup fd fs ≡ some (value_file pin)

abbrev pub AllDrive : List (Option ℕ) → List ℤ → List (ℕ × File) → Type 0
AllDrive [] [] fs = Unit
AllDrive (fd ∷ fds) (pin ∷ pins) fs = Drives fd pin fs × AllDrive fds pins fs
AllDrive _ _ fs = ⊥

-- The state of the wires for a context: its descriptors are open files of the pins.
abbrev pub IsWired : LcdPins → LcdCtx → List (ℕ × File) → Type 0
IsWired p g fs =
    Drives g.fd_rs p.rs fs
    × Drives g.fd_rw p.rw_pin fs
    × Drives g.fd_en p.en fs
    × AllDrive g.fd_d p.d fs

landed :
    (p : LcdPins) (fd : ℕ) (pin : ℤ) (v : ℕ) (b : Panel)
    → v < 2
    → lookup fd b.files ≡ some (value_file pin)
    → watch p (sought fd ∷ written fd (digit v) ∷ []) b ≡ drive p pin v b
unfolding watch see write_to
landed p fd pin v b h d =
    ap (λ f. write_to p f (digit v) b) d ∙ ap (λ k. drive p pin k b) (level-digit v h)

module _ (w : World) (p : LcdPins) (b : Panel) where
  -- The controller after the calls.
  abbrev pub seen : List Call → Panel
  seen log = watch p log b

  pub write_fd-seen :
      (fd : Option ℕ) (pin : ℤ) (v : ℕ) (log : List Call)
      → Obeys w
      → v < 2
      → Drives fd pin (seen log).files
      → ((gpio_write_fd w fd v log).0 ≡ true)
        × (seen (gpio_write_fd w fd v log).1 ≡ drive p pin v (seen log))
  unfolding gpio_write_fd
  write_fd-seen none pin v log o h d = absurd d
  write_fd-seen (some fd) pin v log o h d = rw (o.seeks log fd) (
    o.writes (log ++ (sought fd ∷ [])) fd (digit v),
    watch-append p log (sought fd ∷ written fd (digit v) ∷ []) b ∙ landed p fd pin v (seen log) h d,
  )

  -- The descriptors stay those of the pins while only levels are written.
  after_drive :
      (pins : List ℤ) (fds : List (Option ℕ)) (pin : ℤ) (v : ℕ) (x : Panel)
      → AllDrive fds pins x.files
      → AllDrive fds pins (drive p pin v x).files
  after_drive pins fds pin v x h = subst (AllDrive fds pins) (sym (drive-files p pin v x)) h

  set_lines-seen :
      (pins : List ℤ) (fds : List (Option ℕ)) (v : ℕ) (log : List Call)
      → Obeys w
      → AllDrive fds pins (seen log).files
      → seen (set_lines w fds v log).1 ≡ drive_all p pins v (seen log)
  unfolding set_lines drive_all
  set_lines-seen [] [] v log o h = refl
  set_lines-seen (q ∷ qs) [] v log o h = absurd h
  set_lines-seen [] (fd ∷ fds) v log o h = absurd h
  set_lines-seen (q ∷ qs) (none ∷ fds) v log o h = absurd h.0
  set_lines-seen (q ∷ qs) (some fd ∷ fds) v log o h =
      let (ok, here) = write_fd-seen (some fd) q (v % 2) log o (omega arith) h.0 in
      rw ok (
        set_lines-seen qs fds (v / 2) (gpio_write_fd w (some fd) (v % 2) log).1 o (
          subst (λ x. AllDrive fds qs x.files) (sym here)
            (after_drive qs fds q (v % 2) (seen log) h.1))
        ∙ ap (drive_all p qs (v / 2)) here)

  pub slept-seen : (us : ℕ) (log : List Call) → seen (log ++ (slept us ∷ [])) ≡ seen log
  unfolding watch see
  slept-seen us log = watch-append p log (slept us ∷ []) b

  pulse_en-seen :
      (g : LcdCtx) (log : List Call)
      → Obeys w
      → Drives g.fd_en p.en (seen log).files
      → seen (pulse_en w g log).1 ≡ drive p p.en 0 (drive p p.en 1 (seen log))
  unfolding pulse_en
  pulse_en-seen g log o h =
      rw (up.0, down.0)
        (slept-seen 50 log2 ∙ down.1 ∙ ap (drive p p.en 0) (slept-seen 1 log1 ∙ up.1))
    where
      log1 : List Call
      log1 = (gpio_write_fd w g.fd_en 1 log).1

      log2 : List Call
      log2 = (gpio_write_fd w g.fd_en 0 (log1 ++ (slept 1 ∷ []))).1

      up : ((gpio_write_fd w g.fd_en 1 log).0 ≡ true) × (seen log1 ≡ drive p p.en 1 (seen log))
      up = write_fd-seen g.fd_en p.en 1 log o (omega arith) h

      down :
          ((gpio_write_fd w g.fd_en 0 (log1 ++ (slept 1 ∷ []))).0 ≡ true)
          × (seen log2 ≡ drive p p.en 0 (seen (log1 ++ (slept 1 ∷ []))))
      down = write_fd-seen g.fd_en p.en 0 (log1 ++ (slept 1 ∷ [])) o (omega arith) (
          subst (λ x. Drives g.fd_en p.en x.files) (sym (slept-seen 1 log1 ∙ up.1))
            (subst (Drives g.fd_en p.en) (sym (drive-files p p.en 1 (seen log))) h))

  pub lcd_write-seen :
      (g : LcdCtx) (r v : ℕ) (log : List Call)
      → Obeys w
      → r < 2
      → IsWired p g (seen log).files
      → seen (lcd_write w r g v log).1 ≡ byte_on p r v (seen log)
  unfolding lcd_write set_data_bus byte_on
  lcd_write-seen g r v log o h (hr, hw, he, hd) =
      pulse_en-seen g log3 o (subst (Drives g.fd_en p.en) (sym files3) he)
      ∙ ap (λ x. drive p p.en 0 (drive p p.en 1 x)) at3
    where
      log1 : List Call
      log1 = (gpio_write_fd w g.fd_rs r log).1

      log2 : List Call
      log2 = (gpio_write_fd w g.fd_rw 0 log1).1

      log3 : List Call
      log3 = (set_lines w g.fd_d v log2).1

      at1 : seen log1 ≡ drive p p.rs r (seen log)
      at1 = (write_fd-seen g.fd_rs p.rs r log o h hr).1

      files1 : (seen log1).files ≡ (seen log).files
      files1 = ap (λ x. x.files) at1 ∙ drive-files p p.rs r (seen log)

      at2 : seen log2 ≡ drive p p.rw_pin 0 (drive p p.rs r (seen log))
      at2 =
          (write_fd-seen g.fd_rw p.rw_pin 0 log1 o (omega arith)
            (subst (Drives g.fd_rw p.rw_pin) (sym files1) hw)).1
          ∙ ap (drive p p.rw_pin 0) at1

      files2 : (seen log2).files ≡ (seen log).files
      files2 = ap (λ x. x.files) at2 ∙ drive-files p p.rw_pin 0 _ ∙ drive-files p p.rs r (seen log)

      at3 : seen log3 ≡ drive_all p p.d v (drive p p.rw_pin 0 (drive p p.rs r (seen log)))
      at3 =
          set_lines-seen p.d g.fd_d v log2 o (subst (AllDrive g.fd_d p.d) (sym files2) hd)
          ∙ ap (drive_all p p.d v) at2

      files3 : (seen log3).files ≡ (seen log).files
      files3 =
          ap (λ x. x.files) at3
          ∙ drive_all-files p p.d v _
          ∙ drive-files p p.rw_pin 0 _
          ∙ drive-files p p.rs r (seen log)
