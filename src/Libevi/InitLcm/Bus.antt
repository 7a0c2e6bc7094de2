-- ===== src/Libevi/InitLcm/Bus.antt =====
-- What the display controller sees of package/libevi/src/initlcm.c: in its 8-bit mode it takes the
-- byte on DB7..DB0 whenever EN falls from 1 to 0, with the lines RS and RW. A line has the level
-- that is written to its pin only when the pin is an output: a pin becomes one, and low, when "out"
-- is written to its direction without an error, and an input when anything else is; a write to the
-- value of an input changes nothing. Its direction can only be written when a pin is exported.
use python2c.Base.{
  ℕ, ◌+◌, ◌*◌, ◌≡◌, refl, Bool, true, false, ◌&&◌, List, [], ◌∷◌, ◌++◌, arith, if◌then◌else◌, ◌==◌,
}
use python2c.Base.Family.{update}
use python2c.Libevi.InitLcm
use python2c.Libevi.InitLcm.{LcmOp, all_pins}

pub record Bus : Type 0 where
  pub rs : ℕ
  pub rw_line : ℕ
  pub en : ℕ
  pub db0 : ℕ
  pub db1 : ℕ
  pub db2 : ℕ
  pub db3 : ℕ
  pub db4 : ℕ
  pub db5 : ℕ
  pub db6 : ℕ
  pub db7 : ℕ
  pub outs : ℕ → Bool
  pub taken : List (ℕ × ℕ × ℕ)

abbrev pub on_lines : Bus → ℕ × ℕ × ℕ
on_lines b = (
  b.rs,
  b.rw_line,
  b.db0 + 2 * b.db1 + 4 * b.db2 + 8 * b.db3 + 16 * b.db4 + 32 * b.db5 + 64 * b.db6 + 128 * b.db7,
)

unfoldable pub set_pin : ℕ → ℕ → Bus → Bus
set_pin pin v b =
    if pin == InitLcm.gpio_rs
    then record b { rs = v }
    else if pin == InitLcm.gpio_rw
    then record b { rw_line = v }
    else if pin == InitLcm.gpio_en
    then record b {
      en = v;
      taken = if b.en == 1 && v == 0 then b.taken ++ (on_lines b ∷ []) else b.taken;
    }
    else if pin == InitLcm.gpio_db0
    then record b { db0 = v }
    else if pin == InitLcm.gpio_db1
    then record b { db1 = v }
    else if pin == InitLcm.gpio_db2
    then record b { db2 = v }
    else if pin == InitLcm.gpio_db3
    then record b { db3 = v }
    else if pin == InitLcm.gpio_db4
    then record b { db4 = v }
    else if pin == InitLcm.gpio_db5
    then record b { db5 = v }
    else if pin == InitLcm.gpio_db6
    then record b { db6 = v }
    else if pin == InitLcm.gpio_db7
    then record b { db7 = v }
    else b

pub set_pin-outs : (p v : ℕ) (b : Bus) → (set_pin p v b).outs ≡ b.outs
unfolding set_pin
set_pin-outs p v b = ground arith

pub set_pin-other :
    (p v : ℕ) (b : Bus) → (p == InitLcm.gpio_en) ≡ false → (set_pin p v b).taken ≡ b.taken
unfolding set_pin
set_pin-other p v b n = ground arith

module _ (fails : ℕ → Bool) where
  -- `fails` are the pins whose direction cannot be written.
  unfoldable pub see : LcmOp → Bus → Bus
  unfolding set_pin
  see (LcmOp.write pin v) b = if b.outs pin then set_pin pin v b else b
  see (LcmOp.export pin) b = b
  see (LcmOp.set_dir pin out) b =
      if fails pin
      then b
      else if out == 0
      then record b { outs = update b.outs pin false }
      else set_pin pin 0 (record b { outs = update b.outs pin true })
  see (LcmOp.usleep us) b = b
  see (LcmOp.perror s) b = b

  unfoldable pub watch : List LcmOp → Bus → Bus
  unfolding see
  watch [] b = b
  watch (o ∷ os) b = watch os (see o b)

  pub watch-append : (xs ys : List LcmOp) (b : Bus) → watch (xs ++ ys) b ≡ watch ys (watch xs b)
  unfolding watch
  watch-append [] ys b = refl
  watch-append (x ∷ xs) ys b = watch-append xs ys (see x b)
