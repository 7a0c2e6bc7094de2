-- ===== src/Lcdsvc/Hw/OneByte.antt =====
-- One byte on the lines: what the controller takes of the calls of lcd_write.
use python2c.Base.{
  ℕ, zero, suc, ◌/◌, ◌%◌, ◌<◌, ◌≡◌, refl, sym, ap, ◌∙◌, true, false, ◌&&◌, List, [], ◌∷◌, ◌++◌,
  length, if◌then◌else◌, ◌==◌, arith, ℤ, ◌==ℤ◌, ==ℤ_iff,
}
use python2c.Lcdsvc.Service.{LcdPins}
use python2c.Lcdsvc.Gpio.{digit}
use python2c.Lcdsvc.Hw.Wires.{
  Panel, number, put, drive, level_of, IsNew, IsDistinct, bits, number-bits, put_all, put_all-bits,
}

-- The pins are eleven different ones.
abbrev pub IsWiring : LcdPins → Type 0
IsWiring p = IsDistinct (p.rs ∷ p.rw_pin ∷ p.en ∷ p.d) × (length p.d ≡ 8)

pub drive-files : (p : LcdPins) (pin : ℤ) (v : ℕ) (b : Panel) → (drive p pin v b).files ≡ b.files
unfolding drive
drive-files p pin v b = ground arith

pub level-digit : (v : ℕ) → v < 2 → level_of (digit v) ≡ v
level-digit zero h = refl
level-digit (suc zero) h = refl
level-digit (suc (suc v)) h = absurd (omega arith)

==ℤ_self : (a : ℤ) → (a ==ℤ a) ≡ true
==ℤ_self a = (==ℤ_iff a a).1 refl

-- The five drives of a byte, as an update of the lines.
pub drive-rs : (p : LcdPins) (v : ℕ) (b : Panel) → drive p p.rs v b ≡ record b { rs = v }
unfolding drive
drive-rs p v b = rw (==ℤ_self p.rs) refl

pub drive-rw :
    (p : LcdPins) (v : ℕ) (b : Panel)
    → (p.rs ==ℤ p.rw_pin) ≡ false
    → drive p p.rw_pin v b ≡ record b { rw_line = v }
unfolding drive
drive-rw p v b h = rw (h, ==ℤ_self p.rw_pin) refl

pub drive-en :
    (p : LcdPins) (v : ℕ) (b : Panel)
    → (p.rs ==ℤ p.en) ≡ false
    → (p.rw_pin ==ℤ p.en) ≡ false
    → drive p p.en v b ≡ record b {
      en = v;
      taken =
          if b.en == 1 && v == 0 then b.taken ++ ((b.rs, b.rw_line, number b.d) ∷ []) else b.taken;
    }
unfolding drive
drive-en p v b h k = rw (h, k, ==ℤ_self p.en) refl

drive-d :
    (p : LcdPins) (pin : ℤ) (v : ℕ) (b : Panel)
    → (p.rs ==ℤ pin) ≡ false
    → (p.rw_pin ==ℤ pin) ≡ false
    → (p.en ==ℤ pin) ≡ false
    → drive p pin v b ≡ record b { d = put p.d pin v b.d }
unfolding drive
drive-d p pin v b h k l = rw (h, k, l) refl

unfoldable pub drive_all : LcdPins → List ℤ → ℕ → Panel → Panel
drive_all p [] v b = b
drive_all p (q ∷ qs) v b = drive_all p qs (v / 2) (drive p q (v % 2) b)

pub drive_all-files :
    (p : LcdPins) (qs : List ℤ) (v : ℕ) (b : Panel) → (drive_all p qs v b).files ≡ b.files
unfolding drive_all
drive_all-files p [] v b = refl
drive_all-files p (q ∷ qs) v b =
    drive_all-files p qs (v / 2) (drive p q (v % 2) b) ∙ drive-files p q (v % 2) b

pub drive_all-d :
    (p : LcdPins) (qs : List ℤ) (v : ℕ) (b : Panel)
    → IsNew p.rs qs
    → IsNew p.rw_pin qs
    → IsNew p.en qs
    → drive_all p qs v b ≡ record b { d = put_all p.d qs v b.d }
unfolding drive_all put_all
drive_all-d p [] v b h k l = refl
drive_all-d p (q ∷ qs) v b h k l =
    ap (drive_all p qs (v / 2)) (drive-d p q (v % 2) b h.0 k.0 l.0)
    ∙ drive_all-d p qs (v / 2) (record b { d = put p.d q (v % 2) b.d }) h.1 k.1 l.1

-- The lines after a byte.
unfoldable pub byte_on : LcdPins → ℕ → ℕ → Panel → Panel
unfolding drive_all
byte_on p r v b =
    drive p p.en 0 (drive p p.en 1 (drive_all p p.d v (drive p p.rw_pin 0 (drive p p.rs r b))))

abbrev pub after_byte : ℕ → ℕ → Panel → Panel
after_byte r v b = record b {
  rs = r;
  rw_line = 0;
  en = 0;
  d = bits 8 v;
  taken = b.taken ++ ((r, 0, v) ∷ []);
}

pub byte_on-after :
    (p : LcdPins) (r v : ℕ) (b : Panel)
    → IsWiring p
    → v < 256
    → length b.d ≡ 8
    → byte_on p r v b ≡ after_byte r v b
unfolding byte_on
byte_on-after p r v b w h l =
    ap (λ x. drive p p.en 0 (drive p p.en 1 (drive_all p p.d v x)))
      (ap (drive p p.rw_pin 0) (drive-rs p r b) ∙ drive-rw p 0 (record b { rs = r }) w.0.0.0)
    ∙ ap (λ x. drive p p.en 0 (drive p p.en 1 x)) lines
    ∙ ap (drive p p.en 0) (raised bus)
    ∙ drive-en p 0 (record bus { en = 1 }) w.0.0.1.0 w.0.1.0.0
    ∙ ap
        (λ n. record b {
          rs = r;
          rw_line = 0;
          en = 0;
          d = bits 8 v;
          taken = b.taken ++ ((r, 0, n) ∷ []);
        })
        (number-bits 8 v (omega (arith, h)))
  where
    bus : Panel
    bus = record b { rs = r; rw_line = 0; d = bits 8 v }

    lines : drive_all p p.d v (record b { rs = r; rw_line = 0 }) ≡ bus
    lines =
        drive_all-d p p.d v _ w.0.0.1.1 w.0.1.0.1 w.0.1.1.0
        ∙ ap (λ ds. record b { rs = r; rw_line = 0; d = ds })
            (put_all-bits p.d v b.d w.0.1.1.1 (l ∙ sym w.1) ∙ ap (λ n. bits n v) w.1)

    raised : (x : Panel) → drive p p.en 1 x ≡ record x { en = 1 }
    raised x = drive-en p 1 x w.0.0.1.0 w.0.1.0.0 ∙ ground arith
