-- ===== src/Libevi/InitLcm/Taken.antt =====
-- What the controller takes of package/libevi/src/initlcm.c as a whole.
use python2c.Base.{
  ℕ, ◌≡◌, refl, sym, ap, ◌∙◌, Bool, false, List, [], ◌∷◌, ◌++◌, append-nil, All, ◌⊎◌, Bool-cases,
  inl, inr, if◌then◌else◌,
}
use mathlib.Core.Path.{subst}
use python2c.Libevi.InitLcm
use python2c.Libevi.InitLcm.{LcmOp, all_pins}
use python2c.Libevi.InitLcm.Bus.{Bus, watch, watch-append}
use python2c.Libevi.InitLcm.Commands.{commands, five, AllOut, Sends-commands}
use python2c.Libevi.InitLcm.Directions.{setup_loop-IsSetUp, mute}

module _ (fails : ℕ → Bool) where
  main-parts : InitLcm.main fails ≡ InitLcm.setup_loop fails all_pins ++ commands
  unfolding InitLcm.main InitLcm.setup_pins commands
  main-parts = refl

  taken_five :
      (b : Bus)
      → b.en ≡ 0
      → All (λ p. fails p ≡ false) all_pins
      → (watch fails (InitLcm.main fails) b).taken ≡ b.taken ++ five
  taken_five b low fine =
      let (took, low', same) = setup_loop-IsSetUp fails all_pins b fine low in
      ap (λ os. (watch fails os b).taken) main-parts
      ∙ ap (λ (c : Bus). c.taken)
          (watch-append fails (InitLcm.setup_loop fails all_pins) commands b)
      ∙ (Sends-commands fails (watch fails (InitLcm.setup_loop fails all_pins) b) low' (
          subst AllOut (sym same) (
            refl,
            (refl, (refl, (refl, (refl, (refl, (refl, (refl, (refl, (refl, (refl, tt)))))))))),
          ))).0
      ∙ ap (λ ts. ts ++ five) took

  -- EN an input and low at the start, whatever the other lines and directions are, and the
  -- directions of the other ten pins can be written: if that of EN can be written as well, the
  -- controller takes exactly five commands from the program, twice 0x30, 0x0C, 0x01 and 0x06, and
  -- else it takes nothing.
  pub main-taken :
      (b : Bus)
      → b.en ≡ 0
      → b.outs InitLcm.gpio_en ≡ false
      → All (λ p. (p ≡ InitLcm.gpio_en) ⊎ (fails p ≡ false)) all_pins
      → (watch fails (InitLcm.main fails) b).taken
        ≡ b.taken
          ++ (if fails InitLcm.gpio_en
              then []
              else (0, 0, 0x30) ∷ (0, 0, 0x30) ∷ (0, 0, 0x0C) ∷ (0, 0, 0x01) ∷ (0, 0, 0x06) ∷ [])
  main-taken b low input fine = elim (Bool-cases (fails InitLcm.gpio_en)) [
    | inl stuck ↦
        rw stuck (mute fails (InitLcm.main fails) b stuck input ∙ sym (append-nil b.taken))
    | inr moves ↦ rw moves (taken_five b low (all_fine all_pins moves fine))
  ]
    where
      all_fine :
          (ps : List ℕ)
          → fails InitLcm.gpio_en ≡ false
          → All (λ p. (p ≡ InitLcm.gpio_en) ⊎ (fails p ≡ false)) ps
          → All (λ p. fails p ≡ false) ps
      all_fine [] moves h = tt
      all_fine (p ∷ ps) moves (inl is_en, h) = (ap fails is_en ∙ moves, all_fine ps moves h)
      all_fine (p ∷ ps) moves (inr ok, h) = (ok, all_fine ps moves h)
