-- ===== src/Azurectl/Control/Session.antt =====
-- What the `--get` command prints after a series of `--set` commands.
use mathlib.Core.Path.{subst}
use python2c.Base.{
  ℕ, zero, suc, ◌+◌, ◌≤◌, ◌<◌, ◌≡◌, refl, sym, ap, ◌∙◌, Bool, true, false, ◌++◌, ◌∷◌, [], List,
  some, Bytes, codes, All, if◌then◌else◌, pos, arith,
}
use python2c.Base.Scan.{print_dec}
use python2c.Azurectl.Uci.{Shell, uci_get, uci_set, uci_commit}
use python2c.Azurectl.Dongle.{Board, usb_set_port}
use python2c.Azurectl.Control.{
  switch, dongle_line, dongleport, usbdongle, mask_of, uci_get_int, uci_set_int, store_mask, main,
  set_dev, get_cmd, set_pair, port_of,
}
use python2c.Azurectl.Control.Mask.{
  switches, press, show_switches, switch-press, format_dongleport_bits-shows, read_back,
  read_back-print_dec,
}

-- What `uci -q get` prints for a key.
abbrev pub Holds : (sh : Shell) → Bytes → Bytes → sh.State → Type 0
Holds sh key val s =
    sh.popen (codes "uci -q get " ++ key ++ codes " 2>/dev/null") s ≡ some (val ++ codes "\n")

-- The documented effect of uci's commands on the two numbers that azurectl reads: a mask
-- below 16 that is set can be read back, and setting it or committing leaves the other one alone.
pub record UciWorks (sh : Shell) : Type 0 where
  pub set_mask :
      (m : ℕ) (s : sh.State)
      → m < 16
      → Holds sh dongleport (print_dec (pos m)) (uci_set sh dongleport (print_dec (pos m)) s).1
  pub set_other :
      (m : ℕ) (val : Bytes) (s : sh.State)
      → Holds sh usbdongle val s
      → Holds sh usbdongle val (uci_set sh dongleport (print_dec (pos m)) s).1
  pub commit :
      (key val : Bytes) (s : sh.State)
      → Holds sh key val s
      → Holds sh key val (uci_commit sh (codes "system") s).1

-- A setting: on or off, and the port.
abbrev pub Setting : Type 0
Setting = Bool × ℕ

abbrev IsPort : Setting → Type 0
IsPort (on, port) = (1 ≤ port) × (port ≤ 4)

-- The argument behind `--set`.
unfoldable pub setting_arg : Setting → Bytes
setting_arg (on, port) =
    (if on then codes "setDevOn," else codes "setDevOff,") ++ ((b'0' + port) ∷ [])

unfoldable pub pressed : List Setting → List ℕ → List ℕ
pressed [] row = row
pressed ((on, port) ∷ xs) row = pressed xs (press on port row)

uci_get_int-mask :
    (sh : Shell) (m : ℕ) (s : sh.State)
    → m < 16
    → Holds sh dongleport (print_dec (pos m)) s
    → uci_get_int sh dongleport s ≡ pos m
unfolding uci_get_int uci_get read_back
uci_get_int-mask sh m s b h = rw (h, uci_get_int, uci_get) (read_back-print_dec m b)

uci_get_int-dongle :
    (sh : Shell) (m : ℕ) (s : sh.State)
    → m < 16
    → Holds sh usbdongle (print_dec (pos m)) s
    → uci_get_int sh usbdongle s ≡ pos m
unfolding uci_get_int uci_get read_back
uci_get_int-dongle sh m s b h = rw (h, uci_get_int, uci_get) (read_back-print_dec m b)

-- The board answers every setting of one of its ports.
abbrev pub Answers : Board → Type 0
Answers board =
    (act : Bytes) (port : ℕ) → 1 ≤ port → port ≤ 4 → (usb_set_port board act port).0 ≡ pos 0

module _ (sh : Shell) (board : Board) where
  -- The system after the settings, one run of azurectl each.
  unfoldable pub run_settings : List Setting → sh.State → sh.State
  run_settings [] s = s
  run_settings (x ∷ xs) s =
      run_settings xs (main sh board (codes "--set" ∷ setting_arg x ∷ []) s).after

  set_dev-stores :
      (on : Bool) (val : Bytes) (port : ℕ) (s : sh.State)
      → (usb_set_port board (if on then codes "On" else codes "Off") port).0 ≡ pos 0
      → (set_dev sh board (if on then codes "setDevOn" else codes "setDevOff") val port s).after
        ≡ store_mask sh on port s
  unfolding set_dev
  set_dev-stores true val port s h = rw h refl
  set_dev-stores false val port s h = rw h refl

  main-stores :
      (on : Bool) (port : ℕ) (s : sh.State)
      → 1 ≤ port
      → port ≤ 4
      → Answers board
      → (main sh board (codes "--set" ∷ setting_arg (on, port) ∷ []) s).after
        ≡ store_mask sh on port s
  unfolding main set_pair port_of setting_arg
  main-stores true (suc zero) s l u a = set_dev-stores true (codes "1") 1 s (a (codes "On") 1 l u)
  main-stores true (suc (suc zero)) s l u a =
      set_dev-stores true (codes "2") 2 s (a (codes "On") 2 l u)
  main-stores true (suc (suc (suc zero))) s l u a =
      set_dev-stores true (codes "3") 3 s (a (codes "On") 3 l u)
  main-stores true (suc (suc (suc (suc zero)))) s l u a =
      set_dev-stores true (codes "4") 4 s (a (codes "On") 4 l u)
  main-stores false (suc zero) s l u a =
      set_dev-stores false (codes "1") 1 s (a (codes "Off") 1 l u)
  main-stores false (suc (suc zero)) s l u a =
      set_dev-stores false (codes "2") 2 s (a (codes "Off") 2 l u)
  main-stores false (suc (suc (suc zero))) s l u a =
      set_dev-stores false (codes "3") 3 s (a (codes "Off") 3 l u)
  main-stores false (suc (suc (suc (suc zero)))) s l u a =
      set_dev-stores false (codes "4") 4 s (a (codes "Off") 4 l u)
  main-stores on zero s l u a = absurd (omega arith)
  main-stores on (suc (suc (suc (suc (suc i))))) s l u a = absurd (omega arith)

  store_mask-Holds :
      (on : Bool) (port m : ℕ) (s : sh.State)
      → UciWorks sh
      → 1 ≤ port
      → port ≤ 4
      → m < 16
      → Holds sh dongleport (print_dec (pos m)) s
      → Holds sh dongleport (print_dec (pos (switch on port m))) (store_mask sh on port s)
  unfolding store_mask uci_set_int
  store_mask-Holds on port m s w l u b h =
      rw (uci_get_int-mask sh m s b h, store_mask)
        (w.commit dongleport _ _ (w.set_mask (switch on port m) s (switch-press on port m l u b).1))

  store_mask-other :
      (on : Bool) (port : ℕ) (val : Bytes) (s : sh.State)
      → UciWorks sh
      → Holds sh usbdongle val s
      → Holds sh usbdongle val (store_mask sh on port s)
  unfolding store_mask uci_set_int
  store_mask-other on port val s w h =
      w.commit usbdongle _ _
        (w.set_other (switch on port (mask_of (uci_get_int sh dongleport s))) val s h)

  -- The end of a series: a mask below 16 whose switches are those pressed.
  abbrev Ends : ℕ → List ℕ → sh.State → Type 0
  Ends ud row s =
      (m : ℕ) × (m < 16)
      × (switches m ≡ row)
      × Holds sh dongleport (print_dec (pos m)) s
      × Holds sh usbdongle (print_dec (pos ud)) s

  run_settings-Ends :
      (xs : List Setting) (ud : ℕ) (row : List ℕ) (s : sh.State)
      → UciWorks sh
      → Answers board
      → All IsPort xs
      → Ends ud row s
      → Ends ud (pressed xs row) (run_settings xs s)
  unfolding run_settings pressed
  run_settings-Ends [] ud row s w a ps e = e
  run_settings-Ends ((on, port) ∷ xs) ud row s w a ps (m, b, r, h, o) =
      run_settings-Ends xs ud (press on port row) _ w a ps.1 (
        switch on port m,
        (switch-press on port m ps.0.0 ps.0.1 b).1,
        (switch-press on port m ps.0.0 ps.0.1 b).0 ∙ ap (press on port) r,
        subst (Holds sh dongleport (print_dec (pos (switch on port m))))
            (sym (main-stores on port s ps.0.0 ps.0.1 a))
            (store_mask-Holds on port m s w ps.0.0 ps.0.1 b h),
        subst (Holds sh usbdongle (print_dec (pos ud)))
            (sym (main-stores on port s ps.0.0 ps.0.1 a)) (store_mask-other on port _ s w o),
      )

  main-get :
      (ud m : ℕ) (s : sh.State)
      → ud < 16
      → m < 16
      → Holds sh dongleport (print_dec (pos m)) s
      → Holds sh usbdongle (print_dec (pos ud)) s
      → (main sh board (codes "--get" ∷ codes "getUsbDongle" ∷ []) s).printed
        ≡ codes "usbdongle,"
          ++ print_dec (pos ud)
          ++ codes ","
          ++ show_switches (switches m)
          ++ codes "\n"
  unfolding main get_cmd dongle_line
  main-get ud m s c b h o =
      rw
        (
          uci_get_int-dongle sh ud s c o,
          uci_get_int-mask sh m s b h,
          format_dongleport_bits-shows m b,
          dongle_line,
        )
        refl

  -- The switches survive the trip through the configuration: after any series of `--set` commands
  -- on the four ports, with a board that answers each and a uci that keeps what it is told, the
  -- `--get` command prints the switches of the mask stored at first (below 16) with each
  -- command's port pressed in turn, behind the number of the dongle (below 16), which the series
  -- does not change.
  pub settings_shown :
      (xs : List Setting) (ud m : ℕ) (s : sh.State)
      → UciWorks sh
      → Answers board
      → All IsPort xs
      → ud < 16
      → m < 16
      → Holds sh dongleport (print_dec (pos m)) s
      → Holds sh usbdongle (print_dec (pos ud)) s
      → (main sh board (codes "--get" ∷ codes "getUsbDongle" ∷ []) (run_settings xs s)).printed
        ≡ codes "usbdongle,"
          ++ print_dec (pos ud)
          ++ codes ","
          ++ show_switches (pressed xs (switches m))
          ++ codes "\n"
  settings_shown xs ud m s w a ps c b h o =
      finish (run_settings-Ends xs ud (switches m) s w a ps (m, b, refl, h, o))
    where
      finish :
          Ends ud (pressed xs (switches m)) (run_settings xs s)
          → (main sh board (codes "--get" ∷ codes "getUsbDongle" ∷ []) (run_settings xs s)).printed
            ≡ codes "usbdongle,"
              ++ print_dec (pos ud)
              ++ codes ","
              ++ show_switches (pressed xs (switches m))
              ++ codes "\n"
      finish (n, b', r, h', o') = rw (sym r) (main-get ud n _ c b' h' o')
