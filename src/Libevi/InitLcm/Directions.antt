-- ===== src/Libevi/InitLcm/Directions.antt =====
-- What setup_pins of package/libevi/src/initlcm.c does to the pins.
use python2c.Base.{
  ℕ, ◌≡◌, refl, sym, ap, ◌∙◌, Bool, true, false, List, [], ◌∷◌, arith, All, Bool-cases, inl, inr,
  ==_iff, ◌==◌,
}
use mathlib.Core.Path.{subst}
use python2c.Base.Family.{update, update-same, update-other}
use python2c.Libevi.InitLcm
use python2c.Libevi.InitLcm.{LcmOp, all_pins}
use python2c.Libevi.InitLcm.Bus.{Bus, set_pin, set_pin-outs, set_pin-other, see, watch}

module _ (fails : ℕ → Bool) where
  set_pin-low :
      (p : ℕ) (b : Bus) → b.en ≡ 0 → ((set_pin p 0 b).taken ≡ b.taken) × ((set_pin p 0 b).en ≡ 0)
  unfolding set_pin
  set_pin-low p b low = ground arith

  -- With EN low, what is done to one pin makes it an output, and the controller takes nothing.
  abbrev pub IsSetUp : Bus → (ℕ → Bool) → Bus → Type 0
  IsSetUp b outs c = (c.taken ≡ b.taken) × (c.en ≡ 0) × (c.outs ≡ outs)

  see_out : (p v : ℕ) (b : Bus) → b.outs p ≡ true → see fails (LcmOp.write p v) b ≡ set_pin p v b
  unfolding see
  see_out p v b is_out = rw is_out refl

  see_dir :
      (p : ℕ) (b : Bus)
      → fails p ≡ false
      → see fails (LcmOp.set_dir p 1) b ≡ set_pin p 0 (record b { outs = update b.outs p true })
  unfolding see
  see_dir p b fine = rw fine refl

  pin_done :
      (p : ℕ) (os : List LcmOp) (outs : ℕ → Bool) (b : Bus)
      → fails p ≡ false
      → b.en ≡ 0
      → ((c : Bus) → IsSetUp b (update b.outs p true) c → IsSetUp b outs (watch fails os c))
      → IsSetUp b outs (
          watch fails
            (LcmOp.export p ∷ LcmOp.usleep 1000 ∷ LcmOp.set_dir p 1 ∷ LcmOp.write p 0 ∷ os)
            b)
  unfolding watch see
  pin_done p os outs b fine low rest =
      let c = record b { outs = update b.outs p true } in
      let (took, low') = set_pin-low p c low in
      let (took', low'') = set_pin-low p (set_pin p 0 c) low' in
      let same : (set_pin p 0 c).outs ≡ update b.outs p true = set_pin-outs p 0 c in
      let is_out : (set_pin p 0 c).outs p ≡ true =
        ap (λ (o : ℕ → Bool). o p) same ∙ update-same b.outs p true in
      subst (λ d. IsSetUp b outs (watch fails os d))
        (sym (
          ap (see fails (LcmOp.write p 0)) (see_dir p b fine) ∙ see_out p 0 (set_pin p 0 c) is_out))
        (rest (set_pin p 0 (set_pin p 0 c))
          (took' ∙ took, low'', set_pin-outs p 0 (set_pin p 0 c) ∙ same))

  abbrev pub outs_after : List ℕ → (ℕ → Bool) → ℕ → Bool
  outs_after [] outs = outs
  outs_after (p ∷ ps) outs = outs_after ps (update outs p true)

  pub setup_loop-IsSetUp :
      (ps : List ℕ) (b : Bus)
      → All (λ p. fails p ≡ false) ps
      → b.en ≡ 0
      → IsSetUp b (outs_after ps b.outs) (watch fails (InitLcm.setup_loop fails ps) b)
  unfolding watch InitLcm.setup_loop
  setup_loop-IsSetUp [] b h low = (refl, low, refl)
  setup_loop-IsSetUp (p ∷ ps) b h low = rw h.0 (
      pin_done p (InitLcm.setup_loop fails ps) (outs_after (p ∷ ps) b.outs) b h.0 low
        (λ c (took, low', same).
          let (took', low'', same') = setup_loop-IsSetUp ps c h.1 low' in
          (took' ∙ took, low'', same' ∙ ap (outs_after ps) same)))

  -- A pin EN that is an input and stays one.
  abbrev IsMute : Bus → Bus → Type 0
  IsMute b c = (c.taken ≡ b.taken) × (c.outs InitLcm.gpio_en ≡ false)

  write-IsMute :
      (p v : ℕ) (b : Bus)
      → b.outs InitLcm.gpio_en ≡ false
      → IsMute b (see fails (LcmOp.write p v) b)
  unfolding see
  write-IsMute p v b input = elim (Bool-cases (p == InitLcm.gpio_en)) [
    | inl e ↦ rw (ap b.outs ((==_iff p InitLcm.gpio_en).0 e) ∙ input) (refl, input)
    | inr n ↦ elim (Bool-cases (b.outs p)) [
      | inl is_out ↦ rw is_out (
        set_pin-other p v b n,
        ap (λ (o : ℕ → Bool). o InitLcm.gpio_en) (set_pin-outs p v b) ∙ input,
      )
      | inr is_in ↦ rw is_in (refl, input)
    ]
  ]

  moved-IsMute :
      (p out : ℕ) (b : Bus)
      → fails p ≡ false
      → fails InitLcm.gpio_en ≡ true
      → b.outs InitLcm.gpio_en ≡ false
      → IsMute b (see fails (LcmOp.set_dir p out) b)
  unfolding see
  moved-IsMute p out b moves stuck input = elim (Bool-cases (out == 0)) [
    | inl zero_out ↦ rw (moves, zero_out) (refl, keeps false)
    | inr one_out ↦
        rw (moves, one_out)
          (
            set_pin-other p 0 _ not_en,
            ap (λ (o : ℕ → Bool). o InitLcm.gpio_en) (set_pin-outs p 0 _) ∙ keeps true,
          )
  ]
    where
      not_en : (p == InitLcm.gpio_en) ≡ false
      not_en = elim (Bool-cases (p == InitLcm.gpio_en)) [
        | inl e ↦ cc (stuck, moves, (==_iff p InitLcm.gpio_en).0 e)
        | inr n ↦ n
      ]

      keeps : (v : Bool) → update b.outs p v InitLcm.gpio_en ≡ false
      keeps v = update-other b.outs p InitLcm.gpio_en v (λ e. cc (stuck, moves, e)) ∙ input

  dir-IsMute :
      (p out : ℕ) (b : Bus)
      → fails InitLcm.gpio_en ≡ true
      → b.outs InitLcm.gpio_en ≡ false
      → IsMute b (see fails (LcmOp.set_dir p out) b)
  unfolding see
  dir-IsMute p out b stuck input = elim (Bool-cases (fails p)) [
    | inl stays ↦ rw stays (refl, input)
    | inr moves ↦ moved-IsMute p out b moves stuck input
  ]

  pub mute :
      (os : List LcmOp) (b : Bus)
      → fails InitLcm.gpio_en ≡ true
      → b.outs InitLcm.gpio_en ≡ false
      → (watch fails os b).taken ≡ b.taken
  unfolding watch see
  mute [] b stuck input = refl
  mute (LcmOp.write p v ∷ os) b stuck input =
      let (took, input') = write-IsMute p v b input in
      mute os (see fails (LcmOp.write p v) b) stuck input' ∙ took
  mute (LcmOp.set_dir p out ∷ os) b stuck input =
      let (took, input') = dir-IsMute p out b stuck input in
      mute os (see fails (LcmOp.set_dir p out) b) stuck input' ∙ took
  mute (LcmOp.export p ∷ os) b stuck input = mute os b stuck input
  mute (LcmOp.usleep us ∷ os) b stuck input = mute os b stuck input
  mute (LcmOp.perror s ∷ os) b stuck input = mute os b stuck input
