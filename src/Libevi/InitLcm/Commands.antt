-- ===== src/Libevi/InitLcm/Commands.antt =====
-- What the commands of package/libevi/src/initlcm.c make the controller take, once all pins are
-- outputs.
use python2c.Base.{
  ℕ, ◌<◌, ◌≡◌, refl, sym, ap, ◌∙◌, Bool, true, List, [], ◌∷◌, ◌++◌, append-nil, append_assoc, arith,
  All,
}
use mathlib.Core.Path.{subst}
use python2c.Libevi.InitLcm
use python2c.Libevi.InitLcm.{LcmOp, all_pins}
use python2c.Libevi.InitLcm.Bus.{Bus, set_pin, set_pin-outs, watch, watch-append}

-- The same of writes to pins that are all outputs.
drive : List (ℕ × ℕ) → Bus → Bus
unfolding set_pin
drive [] b = b
drive ((p, v) ∷ ws) b = drive ws (set_pin p v b)

writes_of : List LcmOp → List (ℕ × ℕ)
writes_of [] = []
writes_of (LcmOp.write p v ∷ os) = (p, v) ∷ writes_of os
writes_of (_ ∷ os) = writes_of os

-- The GPIO calls of `write_cmd` make the controller take the byte, as a command that it reads.
drive-write_cmd :
    (v : ℕ) (b : Bus)
    → v < 256
    → ((drive (writes_of (InitLcm.write_cmd v)) b).taken ≡ b.taken ++ ((0, 0, v) ∷ []))
      × ((drive (writes_of (InitLcm.write_cmd v)) b).en ≡ 0)
      × ((drive (writes_of (InitLcm.write_cmd v)) b).outs ≡ b.outs)
unfolding drive writes_of InitLcm.write_cmd
drive-write_cmd v b h = ground arith

unfoldable pub commands : List LcmOp
commands =
    InitLcm.write_cmd 0x30
    ++ (InitLcm.delay_100us
        ++ (InitLcm.write_cmd 0x30
            ++ (InitLcm.delay_100us
                ++ (InitLcm.write_cmd 0x0C
                    ++ (InitLcm.delay_100us
                        ++ (InitLcm.write_cmd 0x01
                            ++ (InitLcm.delay_10ms ++ InitLcm.write_cmd 0x06)))))))

abbrev pub five : List (ℕ × ℕ × ℕ)
five = (0, 0, 0x30) ∷ (0, 0, 0x30) ∷ (0, 0, 0x0C) ∷ (0, 0, 0x01) ∷ (0, 0, 0x06) ∷ []

-- All pins of the display are outputs.
abbrev pub AllOut : (ℕ → Bool) → Type 0
AllOut outs = All (λ p. outs p ≡ true) all_pins

module _ (fails : ℕ → Bool) where
  -- A call that changes no direction, and writes to outputs only.
  abbrev IsDriven : (ℕ → Bool) → LcmOp → Type 0
  IsDriven outs (LcmOp.write p v) = outs p ≡ true
  IsDriven outs (LcmOp.set_dir p out) = ⊥
  IsDriven outs _ = Unit

  watch-drive :
      (os : List LcmOp) (outs : ℕ → Bool) (b : Bus)
      → b.outs ≡ outs
      → All (IsDriven outs) os
      → watch fails os b ≡ drive (writes_of os) b
  unfolding watch drive writes_of
  watch-drive [] outs b e h = refl
  watch-drive (LcmOp.write p v ∷ os) outs b e h =
      rw (ap (λ (o : ℕ → Bool). o p) e ∙ h.0)
        (watch-drive os outs (set_pin p v b) (set_pin-outs p v b ∙ e) h.1)
  watch-drive (LcmOp.export p ∷ os) outs b e h = watch-drive os outs b e h.1
  watch-drive (LcmOp.set_dir p out ∷ os) outs b e h = absurd h.0
  watch-drive (LcmOp.usleep us ∷ os) outs b e h = watch-drive os outs b e h.1
  watch-drive (LcmOp.perror s ∷ os) outs b e h = watch-drive os outs b e h.1

  write_cmd-IsDriven :
      (v : ℕ) (outs : ℕ → Bool) → AllOut outs → All (IsDriven outs) (InitLcm.write_cmd v)
  unfolding InitLcm.write_cmd
  write_cmd-IsDriven v outs
        (rs, (rw_out, (en, (d7, (d6, (d5, (d4, (d3, (d2, (d1, (d0, _))))))))))) =
      (rs, (rw_out, (en, (d7, (d6, (d5, (d4, (d3, (d2, (d1, (d0, (en, tt))))))))))))

  -- From EN low and the pins outputs, these calls make the controller take `ns`, and leave it so.
  abbrev pub Sends : List LcmOp → List (ℕ × ℕ × ℕ) → Type 0
  Sends os ns =
      (b : Bus)
      → b.en ≡ 0
      → AllOut b.outs
      → ((watch fails os b).taken ≡ b.taken ++ ns)
        × ((watch fails os b).en ≡ 0)
        × AllOut (watch fails os b).outs

  Sends-append :
      (xs ys : List LcmOp) (ms ns : List (ℕ × ℕ × ℕ))
      → Sends xs ms
      → Sends ys ns
      → Sends (xs ++ ys) (ms ++ ns)
  Sends-append xs ys ms ns hx hy b low outs =
      let (took, low', outs') = hx b low outs in
      let (took', low'', outs'') = hy (watch fails xs b) low' outs' in
      rw (watch-append fails) (
        took' ∙ ap (λ (t : List (ℕ × ℕ × ℕ)). t ++ ns) took ∙ append_assoc b.taken ms ns,
        low'',
        outs'',
      )

  Sends-write_cmd : (v : ℕ) → v < 256 → Sends (InitLcm.write_cmd v) ((0, 0, v) ∷ [])
  Sends-write_cmd v h b low outs =
      let (took, low', same) = drive-write_cmd v b h in
      rw (watch-drive _ b.outs b refl (write_cmd-IsDriven v b.outs outs))
        (took, low', subst AllOut (sym same) outs)

  Sends-usleep : (us : ℕ) → Sends (LcmOp.usleep us ∷ []) []
  unfolding watch
  Sends-usleep us b low outs = (sym (append-nil b.taken), low, outs)

  sent : ℕ → List (ℕ × ℕ × ℕ)
  sent v = (0, 0, v) ∷ []

  -- A command and the delay behind it.
  Sends-command :
      (v us : ℕ) (os : List LcmOp) (ns : List (ℕ × ℕ × ℕ))
      → v < 256
      → Sends os ns
      → Sends (InitLcm.write_cmd v ++ ((LcmOp.usleep us ∷ []) ++ os)) ((0, 0, v) ∷ ns)
  Sends-command v us os ns h rest =
      Sends-append (InitLcm.write_cmd v) _ ((0, 0, v) ∷ []) ns (Sends-write_cmd v h)
        (Sends-append (LcmOp.usleep us ∷ []) os [] ns (Sends-usleep us) rest)

  pub Sends-commands : Sends commands five
  unfolding commands InitLcm.delay_100us InitLcm.delay_10ms
  Sends-commands = Sends-command 0x30 100 _ _ (omega arith) (
      Sends-command 0x30 100 _ _ (omega arith) (
        Sends-command 0x0C 100 _ _ (omega arith)
          (Sends-command 0x01 10000 _ _ (omega arith) (Sends-write_cmd 0x06 (omega arith)))))
