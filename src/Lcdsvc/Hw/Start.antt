-- ===== src/Lcdsvc/Hw/Start.antt =====
-- The start of the display: the pins are exported, made outputs and opened, and set to 0.
use mathlib.Core.Path.{subst}
use python2c.Base.{
  ℕ, ◌≡◌, refl, sym, ap, ◌∙◌, true, List, [], ◌∷◌, ◌++◌, Bytes, arith, Option, none, some, ℤ,
  ==_iff, codes, inl, inr, Option-cases,
}
use python2c.Base.Scan.{print_dec}
use python2c.Lcdsvc.Service.{LcdPins}
use python2c.Lcdsvc.Gpio.{
  File, export_file, direction_file, value_file, Call, opened, written, closed, World, write_str,
  gpio_export, gpio_direction, gpio_open_handle, gpio_write_fd,
}
use python2c.Lcdsvc.Hw.{export_all, direct_all, open_all, zero_all}
use python2c.Lcdsvc.Hw.Wires.{Panel, lookup, remove, watch, watch-append, see, write_to, drive}
use python2c.Lcdsvc.Hw.OneByte.{drive_all, drive-files}
use python2c.Lcdsvc.Hw.Calls.{Obeys, Drives, AllDrive, write_fd-seen}

-- A descriptor is not open.
abbrev pub IsFresh : ℕ → Panel → Type 0
IsFresh fd b = lookup fd b.files ≡ none

pub lookup_new : (fd : ℕ) (f : File) (fs : List (ℕ × File)) → lookup fd ((fd, f) ∷ fs) ≡ some f
unfolding lookup
lookup_new fd f fs = rw ((==_iff fd fd).1 refl) refl

lookup_old :
    (fd k : ℕ) (f h : File) (fs : List (ℕ × File))
    → lookup k fs ≡ some h
    → lookup fd fs ≡ none
    → lookup k ((fd, f) ∷ fs) ≡ some h
unfolding lookup
lookup_old fd k f h fs e n = grind arith

pub remove_new : (fd : ℕ) (f : File) (fs : List (ℕ × File)) → remove fd ((fd, f) ∷ fs) ≡ fs
unfolding remove
remove_new fd f fs = rw ((==_iff fd fd).1 refl) refl

-- Neither file is that of a level.
setup_seen :
    (p : LcdPins) (fd : ℕ) (f : File) (s : Bytes) (b : Panel)
    → ((x : Panel) → write_to p (some f) s x ≡ x)
    → watch p (opened f fd ∷ written fd s ∷ closed fd ∷ []) b ≡ b
unfolding watch see
setup_seen p fd f s b quiet =
    ap (λ k. see p (closed fd) (write_to p k s opened_b)) (lookup_new fd f b.files)
    ∙ ap (see p (closed fd)) (quiet opened_b)
    ∙ ap (λ fs. record b { files = fs }) (remove_new fd f b.files)
  where
    opened_b : Panel
    opened_b = record b { files = (fd, f) ∷ b.files }

-- From one panel to a later one: files were opened, and nothing else.
pub record OpensMore (x y : Panel) : Type 0 where
  pub others : y ≡ record x { files = y.files }
  pub keeps : (k : ℕ) (h : File) → lookup k x.files ≡ some h → lookup k y.files ≡ some h

then_opens : (x y z : Panel) → OpensMore x y → OpensMore y z → OpensMore x z
then_opens x y z f g = record {
  others = g.others ∙ ap {A = Panel} (λ q. record q { files = z.files }) f.others;
  keeps = λ k h e. g.keeps k h (f.keeps k h e);
}

keeps_Drives :
    (fd : Option ℕ) (pin : ℤ) (x y : Panel)
    → Drives fd pin x.files
    → OpensMore x y
    → Drives fd pin y.files
keeps_Drives none pin x y d m = d
keeps_Drives (some fd) pin x y d m = m.keeps fd (value_file pin) d

opened-OpensMore :
    (fd : ℕ) (f : File) (x : Panel)
    → IsFresh fd x
    → OpensMore x (record x { files = (fd, f) ∷ x.files })
opened-OpensMore fd f x fresh = record {
  others = refl;
  keeps = λ k h e. lookup_old fd k f h x.files e fresh;
}

pub opened_seen :
    (p : LcdPins) (fd : ℕ) (f : File) (log : List Call) (b : Panel)
    → watch p (log ++ (opened f fd ∷ [])) b
      ≡ record (watch p log b) { files = (fd, f) ∷ (watch p log b).files }
unfolding watch see
opened_seen p fd f log b = watch-append p log (opened f fd ∷ []) b

module _ (w : World) (p : LcdPins) (b : Panel) where
  abbrev pub panel : List Call → Panel
  panel log = watch p log b

  write_str-seen :
      (f : File) (s : Bytes) (log : List Call)
      → ((x : Panel) → write_to p (some f) s x ≡ x)
      → panel (write_str w f s log).1 ≡ panel log
  unfolding write_str
  write_str-seen f s log quiet = elim (Option-cases (w.open_fd log f)) [
    | inl failed ↦ rw (failed, write_str) refl
    | inr (fd, got) ↦
        rw (got, write_str)
          (watch-append p log (opened f fd ∷ written fd s ∷ closed fd ∷ []) b
            ∙ setup_seen p fd f s (panel log) quiet)
  ]

  pub export_all-seen :
      (pins : List ℤ) (log : List Call) → panel (export_all w pins log) ≡ panel log
  unfolding export_all gpio_export write_to
  export_all-seen [] log = refl
  export_all-seen (q ∷ qs) log =
      export_all-seen qs (gpio_export w q log).1
      ∙ write_str-seen export_file (print_dec q) log (λ x. refl)

  pub direct_all-seen :
      (pins : List ℤ) (log : List Call) → panel (direct_all w pins log) ≡ panel log
  unfolding direct_all gpio_direction write_to
  direct_all-seen [] log = refl
  direct_all-seen (q ∷ qs) log =
      direct_all-seen qs (gpio_direction w q true log).1
      ∙ write_str-seen (direction_file q) (codes "out") log (λ x. refl)

  -- Every open succeeds, with a descriptor that is not open.
  abbrev pub Opens : Type 0
  Opens =
      (log : List Call) (f : File) → (fd : ℕ) × (w.open_fd log f ≡ some fd) × IsFresh fd (panel log)

  pub gpio_open_handle-opened :
      (pin : ℤ) (log : List Call) (fd : ℕ)
      → w.open_fd log (value_file pin) ≡ some fd
      → gpio_open_handle w pin log ≡ (some fd, log ++ (opened (value_file pin) fd ∷ []))
  unfolding gpio_open_handle
  gpio_open_handle-opened pin log fd got = rw (got, gpio_open_handle) refl

  gpio_open_handle-seen :
      (pin : ℤ) (log : List Call)
      → Opens
      → Drives (gpio_open_handle w pin log).0 pin (panel (gpio_open_handle w pin log).1).files
        × OpensMore (panel log) (panel (gpio_open_handle w pin log).1)
  gpio_open_handle-seen pin log o = opens (o log (value_file pin))
    where
      opens :
          (fd : ℕ) × (w.open_fd log (value_file pin) ≡ some fd) × IsFresh fd (panel log)
          → Drives (gpio_open_handle w pin log).0 pin (panel (gpio_open_handle w pin log).1).files
            × OpensMore (panel log) (panel (gpio_open_handle w pin log).1)
      opens (fd, got, fresh) =
          subst (λ r. Drives r.0 pin (panel r.1).files × OpensMore (panel log) (panel r.1))
            (sym (gpio_open_handle-opened pin log fd got))
            (subst (λ y. (lookup fd y.files ≡ some (value_file pin)) × OpensMore (panel log) y)
              (sym (opened_seen p fd (value_file pin) log b))
              (
                lookup_new fd (value_file pin) (panel log).files,
                opened-OpensMore fd (value_file pin) (panel log) fresh,
              ))

  pub open_all-seen :
      (pins : List ℤ) (log : List Call)
      → Opens
      → AllDrive (open_all w pins log).0 pins (panel (open_all w pins log).1).files
        × OpensMore (panel log) (panel (open_all w pins log).1)
  unfolding open_all
  open_all-seen [] log o = (tt, record { others = refl; keeps = λ k h e. e })
  open_all-seen (q ∷ qs) log o =
      let here = gpio_open_handle-seen q log o in
      let rest = open_all-seen qs (gpio_open_handle w q log).1 o in
      (
        (keeps_Drives (gpio_open_handle w q log).0 q _ _ here.0 rest.1, rest.0),
        then_opens _ _ _ here.1 rest.1,
      )

  -- The levels are written in order, each 0.
  pub zero_all-seen :
      (pins : List ℤ) (fds : List (Option ℕ)) (log : List Call)
      → Obeys w
      → AllDrive fds pins (panel log).files
      → panel (zero_all w fds log) ≡ drive_all p pins 0 (panel log)
  unfolding zero_all drive_all
  zero_all-seen [] [] log o h = refl
  zero_all-seen (q ∷ qs) [] log o h = absurd h
  zero_all-seen [] (fd ∷ fds) log o h = absurd h
  zero_all-seen (q ∷ qs) (fd ∷ fds) log o h =
      zero_all-seen qs fds (gpio_write_fd w fd 0 log).1 o (
        subst (λ x. AllDrive fds qs x.files) (sym here)
          (subst (AllDrive fds qs) (sym (drive-files p q 0 (panel log))) h.1))
      ∙ ap (drive_all p qs 0) here
    where
      here : panel (gpio_write_fd w fd 0 log).1 ≡ drive p q 0 (panel log)
      here = (write_fd-seen w p b fd q 0 log o (omega arith) h.0).1
