-- ===== src/Lcdsvc/Hw/Run.antt =====
-- What the controller takes of a list of the daemon's actions.
use Prim.Native.Nat.{bit_and, bit_or}
use mathlib.Core.Path.{subst}
use python2c.Base.{
  ℕ, ◌+◌, ◌<◌, ◌≡◌, length, refl, sym, ap, ◌∙◌, List, [], ◌∷◌, ◌++◌, append_assoc, append-nil, All,
  arith,
}
use python2c.Base.Bits.{ddram_byte}
use python2c.Lcdsvc.Service.{
  LcdPins, Action, hw_init, clear, home, write_instr, set_ddram, write_text, reply,
}
use python2c.Lcdsvc.Service.Lines.{flat}
use python2c.Lcdsvc.Gpio.{Call, World}
use python2c.Lcdsvc.Hw.{Running, perform, perform_all, lcd_set_ddram, lcd_clear, lcd_home}
use python2c.Lcdsvc.Hw.Wires.{Panel, watch}
use python2c.Lcdsvc.Hw.OneByte.{IsWiring}
use python2c.Lcdsvc.Hw.Calls.{Obeys}
use python2c.Lcdsvc.Hw.Shown.{
  Taken, IsIdle, IsReady, Shows, after-IsReady, text_taken, lcd_write_text-Shows,
  lcd_write_instr-Shows, slow-Shows,
}
use python2c.Lcdsvc.Hw.Start.{Opens}
use python2c.Lcdsvc.Hw.Init.{start_taken, lcd_hw_init-Shows}
use python2c.Lcdsvc.Hw.Leak.{lcd_hw_init-files}

-- The bytes that an action means for the controller.
unfoldable pub meaning : Action → List Taken
meaning (hw_init p) = start_taken
meaning clear = (0, 0, 0x01) ∷ []
meaning home = (0, 0, 0x02) ∷ []
meaning (write_instr v) = (0, 0, v) ∷ []
meaning (set_ddram v) = (0, 0, bit_or 0x80 (bit_and v 0x7F)) ∷ []
meaning (write_text s) = text_taken s
meaning (reply b) = []

-- The files that an action leaves open: those of lcd_hw_init, which closes none.
abbrev pub files_left : Action → ℕ
files_left (hw_init p) = 11
files_left _ = 0

abbrev pub all_files_left : List Action → ℕ
all_files_left [] = 0
all_files_left (a ∷ actions) = files_left a + all_files_left actions

-- An action with bytes, for the display on the pins `p`.
abbrev pub IsFor : LcdPins → Action → Type 0
IsFor p (hw_init q) = q ≡ p
IsFor p clear = Unit
IsFor p home = Unit
IsFor p (write_instr v) = v < 256
IsFor p (set_ddram v) = v < 256
IsFor p (write_text s) = All (λ c. c < 256) s
IsFor p (reply b) = Unit

pub perform_all-append :
    (w : World) (xs ys : List Action) (r : Running)
    → perform_all w (xs ++ ys) r ≡ perform_all w ys (perform_all w xs r)
unfolding perform_all
perform_all-append w [] ys r = refl
perform_all-append w (x ∷ xs) ys r = perform_all-append w xs ys (perform w x r)

module _ (w : World) (p : LcdPins) (b : Panel) where
  abbrev pub panel : Running → Panel
  panel r = watch p r.calls b

  abbrev pub IsReadyRun : Running → Type 0
  IsReadyRun r = IsReady w p b r.ctx r.calls

  -- The context still drives the display, the bytes `out` are taken, and `n` more files are open.
  abbrev pub Advances : Running → Running → List Taken → ℕ → Type 0
  Advances r r' out n =
      IsReadyRun r'
      × ((panel r').taken ≡ (panel r).taken ++ out)
      × (length (panel r').files ≡ n + length (panel r).files)

  advance :
      (r : Running) (calls : List Call) (out : List Taken)
      → IsReadyRun r
      → Shows (panel r) (watch p calls b) out
      → Advances r (record r { calls = calls }) out 0
  advance r calls out ready s = (
    after-IsReady w p b r.ctx r.calls calls out ready s,
    s.took,
    omega (arith, ap length s.same_files),
  )

  pub hw_init-Advances :
      (q : LcdPins) (r : Running)
      → q ≡ p
      → Obeys w
      → Opens w p b
      → IsWiring p
      → IsIdle (panel r)
      → Advances r (perform w (hw_init q) r) start_taken 11
  hw_init-Advances q r e o op wiring idle =
      subst (λ k. Advances r (perform w (hw_init k) r) start_taken 11) (sym e)
        (unfold perform in
          let (ready, takes) = lcd_hw_init-Shows w p b r.calls o op wiring idle in
          (ready, takes, lcd_hw_init-files w p b r.calls o op wiring idle))

  perform-Advances :
      (a : Action) (r : Running)
      → Obeys w
      → Opens w p b
      → IsWiring p
      → IsFor p a
      → IsReadyRun r
      → Advances r (perform w a r) (meaning a) (files_left a)
  unfolding perform meaning lcd_clear lcd_home lcd_set_ddram
  perform-Advances (hw_init q) r o op wiring h ready = hw_init-Advances q r h o op wiring ready.1
  perform-Advances clear r o op wiring h ready =
      advance r _ _ ready (slow-Shows w p b r.ctx 2000 0x01 r.calls o wiring (omega arith) ready)
  perform-Advances home r o op wiring h ready =
      advance r _ _ ready (slow-Shows w p b r.ctx 2000 0x02 r.calls o wiring (omega arith) ready)
  perform-Advances (write_instr v) r o op wiring h ready =
      advance r _ _ ready (lcd_write_instr-Shows w p b r.ctx v r.calls o wiring h ready)
  perform-Advances (set_ddram v) r o op wiring h ready =
      advance r _ _ ready
        (lcd_write_instr-Shows w p b r.ctx _ r.calls o wiring (ddram_byte v h) ready)
  perform-Advances (write_text s) r o op wiring h ready =
      advance r _ _ ready (lcd_write_text-Shows w p b r.ctx s r.calls o wiring h ready)
  perform-Advances (reply bs) r o op wiring h ready =
      (ready, sym (append-nil (panel r).taken), omega arith)

  -- The daemon's actions reach the display in their order: the controller takes the bytes that they
  -- mean, and no others.
  pub perform_all-Advances :
      (actions : List Action) (r : Running)
      → Obeys w
      → Opens w p b
      → IsWiring p
      → All (IsFor p) actions
      → IsReadyRun r
      → Advances r (perform_all w actions r) (flat meaning actions) (all_files_left actions)
  unfolding perform_all
  perform_all-Advances [] r o op wiring h ready =
      (ready, sym (append-nil (panel r).taken), omega arith)
  perform_all-Advances (a ∷ actions) r o op wiring h ready =
      let first = perform-Advances a r o op wiring h.0 ready in
      let rest = perform_all-Advances actions (perform w a r) o op wiring h.1 first.0 in
      (
        rest.0,
        rest.1
            ∙ ap (λ t. t ++ flat meaning actions) first.1
            ∙ append_assoc (panel r).taken (meaning a) (flat meaning actions),
        omega (arith, first.2, rest.2),
      )
