-- ===== src/Libevi/Sysfs/Levels.antt =====
-- The levels that reach the pins through the files.
use python2c.Base.{
  ℕ, ◌≡◌, refl, sym, ap, ◌∙◌, Bool, true, false, List, [], ◌∷◌, ◌++◌, append_assoc, append-nil,
  Option, some, Bytes, codes, str_eq, if◌then◌else◌, ◌==◌, ℤ, pos, inl, inr, Option-cases,
  Bool-cases,
}
use python2c.Lcdsvc.Gpio.{
  File, export_file, direction_file, value_file, Call, opened, sought, written, read_from, closed,
  slept, World, digit,
}
use python2c.Lcdsvc.Hw.Wires.{lookup, remove}
use python2c.Lcdsvc.Hw.Start.{lookup_new, remove_new}
use python2c.Libevi.Hal.{GpioOp}
use python2c.Libevi.Sysfs

-- The open files, and the levels written so far to the pins.
pub record Pins : Type 0 where
  pub open_files : List (ℕ × File)
  pub levels : List (ℤ × ℕ)

abbrev level : Bytes → ℕ
level s = if str_eq s (codes "1") then 1 else 0

abbrev Levels : Type 0
Levels = List (ℤ × ℕ)

unfoldable pub reach : Option File → Bytes → Levels → Levels
reach (some (value_file pin)) s ls = ls ++ ((pin, level s) ∷ [])
reach _ s ls = ls

unfoldable pub follow : List Call → Pins → Pins
unfolding reach
follow [] b = b
follow (opened f fd ∷ cs) b = follow cs (record b { open_files = (fd, f) ∷ b.open_files })
follow (written fd s ∷ cs) b =
    follow cs (record b { levels = reach (lookup fd b.open_files) s b.levels })
follow (closed fd ∷ cs) b = follow cs (record b { open_files = remove fd b.open_files })
follow (sought fd ∷ cs) b = follow cs b
follow (read_from fd ∷ cs) b = follow cs b
follow (slept us ∷ cs) b = follow cs b

-- The levels that a call of the driver is for.
abbrev pub wanted : List GpioOp → List (ℤ × ℕ)
wanted [] = []
wanted (GpioOp.write pin v ∷ ops) = (pos pin, if v == 0 then 0 else 1) ∷ wanted ops
wanted (_ ∷ ops) = wanted ops

follow-append : (xs ys : List Call) (b : Pins) → follow (xs ++ ys) b ≡ follow ys (follow xs b)
unfolding follow
follow-append [] ys b = refl
follow-append (opened f fd ∷ xs) ys b = follow-append xs ys _
follow-append (written fd s ∷ xs) ys b = follow-append xs ys _
follow-append (closed fd ∷ xs) ys b = follow-append xs ys _
follow-append (sought fd ∷ xs) ys b = follow-append xs ys b
follow-append (read_from fd ∷ xs) ys b = follow-append xs ys b
follow-append (slept us ∷ xs) ys b = follow-append xs ys b

-- One access leaves the open files as they were.
one_access :
    (f : File) (fd : ℕ) (s : Bytes) (b : Pins)
    → follow (opened f fd ∷ written fd s ∷ closed fd ∷ []) b
      ≡ record b { levels = reach (some f) s b.levels }
unfolding follow
one_access f fd s b =
    ap {A = Option File}
      (λ k. record b {
        open_files = remove fd ((fd, f) ∷ b.open_files);
        levels = reach k s b.levels;
      })
      (lookup_new fd f b.open_files)
    ∙ ap {A = List (ℕ × File)}
        (λ fs. record b { open_files = fs; levels = reach (some f) s b.levels })
        (remove_new fd f b.open_files)

level-digit : (v : ℕ) → level (digit v) ≡ (if v == 0 then 0 else 1)
level-digit v = elim (Bool-cases (v == 0)) [ inl z ↦ rw z refl | inr n ↦ rw n refl ]

module _ (w : World) (b : Pins) where
  abbrev pub pins_at : List Call → Pins
  pins_at log = follow log b

  -- A file that is not a level's.
  write_str-quiet :
      (f : File) (s : Bytes) (log : List Call)
      → ((ls : Levels) → reach (some f) s ls ≡ ls)
      → pins_at (Sysfs.write_str w f s log).1 ≡ pins_at log
  unfolding Sysfs.write_str
  write_str-quiet f s log quiet = elim (Option-cases (w.open_fd log f)) [
    | inl failed ↦ rw (failed, Sysfs.write_str) refl
    | inr (fd, got) ↦
        rw (got, Sysfs.write_str)
          (follow-append log (opened f fd ∷ written fd s ∷ closed fd ∷ []) b
            ∙ one_access f fd s (pins_at log)
            ∙ ap {A = Levels} (λ ls. record (pins_at log) { levels = ls }) (quiet _))
  ]

  -- Every open succeeds.
  abbrev pub OpensAll : Type 0
  OpensAll = (log : List Call) (f : File) → (fd : ℕ) × (w.open_fd log f ≡ some fd)

  slept-quiet : (us : ℕ) (log : List Call) → pins_at (log ++ (slept us ∷ [])) ≡ pins_at log
  unfolding follow
  slept-quiet us log = follow-append log (slept us ∷ []) b

  export-quiet :
      (pin : ℕ) (log : List Call) → pins_at (Sysfs.gpio_export w (pos pin) log) ≡ pins_at log
  unfolding Sysfs.gpio_export reach
  export-quiet pin log = late _ _ (write_str-quiet export_file _ log (λ ls. refl))
    where
      late :
          (ok : Bool) (log' : List Call)
          → pins_at log' ≡ pins_at log
          → pins_at (if ok then log' else log' ++ (slept 1000 ∷ [])) ≡ pins_at log
      late true log' e = e
      late false log' e = slept-quiet 1000 log' ∙ e

  gpio_write-reaches :
      (pin : ℤ) (v : ℕ) (log : List Call)
      → OpensAll
      → (pins_at (Sysfs.gpio_write w pin v log).1).levels
        ≡ (pins_at log).levels ++ ((pin, if v == 0 then 0 else 1) ∷ [])
  unfolding Sysfs.gpio_write Sysfs.gpio_write_fast reach
  gpio_write-reaches pin v log opens =
      let (fd, got) = opens log (value_file pin) in
      rw (got, Sysfs.gpio_write_fast)
        (ap (λ x. x.levels)
            (follow-append log (opened (value_file pin) fd ∷ written fd (digit v) ∷ closed fd ∷ [])
                b
              ∙ one_access (value_file pin) fd (digit v) (pins_at log))
          ∙ ap (λ l. (pins_at log).levels ++ ((pin, l) ∷ [])) (level-digit v))

  quietly :
      (log log' : List Call)
      → pins_at log' ≡ pins_at log
      → (pins_at log').levels ≡ (pins_at log).levels ++ []
  quietly log log' e = ap (λ x. x.levels) e ∙ sym (append-nil (pins_at log).levels)

  run_op-levels :
      (op : GpioOp) (log : List Call)
      → OpensAll
      → (pins_at (Sysfs.run_op w op log)).levels ≡ (pins_at log).levels ++ wanted (op ∷ [])
  unfolding Sysfs.run_op Sysfs.gpio_set_dir reach
  run_op-levels (GpioOp.write pin v) log opens = gpio_write-reaches (pos pin) v log opens
  run_op-levels (GpioOp.export pin) log opens = quietly log _ (export-quiet pin log)
  run_op-levels (GpioOp.set_dir pin out) log opens =
      quietly log _ (write_str-quiet (direction_file (pos pin)) _ log (λ ls. refl))
  run_op-levels (GpioOp.usleep us) log opens = quietly log _ (slept-quiet us log)

  wanted-cons :
      (op : GpioOp) (ops : List GpioOp) → wanted (op ∷ ops) ≡ wanted (op ∷ []) ++ wanted ops
  wanted-cons (GpioOp.write pin v) ops = refl
  wanted-cons (GpioOp.export pin) ops = refl
  wanted-cons (GpioOp.set_dir pin out) ops = refl
  wanted-cons (GpioOp.usleep us) ops = refl

  -- If every open succeeds, then the calls of the driver reach the pins through the files: each
  -- level that it writes, 0 or 1, arrives at its pin, in the order of the calls, and neither the
  -- exports nor the directions write a level.
  pub run_ops-levels :
      (ops : List GpioOp) (log : List Call)
      → OpensAll
      → (pins_at (Sysfs.run_ops w ops log)).levels ≡ (pins_at log).levels ++ wanted ops
  unfolding Sysfs.run_ops
  run_ops-levels [] log opens = sym (append-nil (pins_at log).levels)
  run_ops-levels (op ∷ ops) log opens =
      run_ops-levels ops (Sysfs.run_op w op log) opens
      ∙ ap (λ ls. ls ++ wanted ops) (run_op-levels op log opens)
      ∙ append_assoc (pins_at log).levels (wanted (op ∷ [])) (wanted ops)
      ∙ ap (λ ls. (pins_at log).levels ++ ls) (sym (wanted-cons op ops))
