-- ===== src/Lcdsvc/Hw/Wires.antt =====
-- The display controller behind the files: it follows the open files and takes the byte on its
-- eight data lines whenever EN falls from 1 to 0, with the lines RS and RW.
use python2c.Base.{
  ℕ, zero, suc, ◌+◌, ◌*◌, ◌/◌, ◌%◌, ◌^◌, ◌<◌, ◌≡◌, refl, ap, ◌∙◌, true, false, ◌&&◌, List, [], ◌∷◌,
  ◌++◌, Option, none, some, Bytes, codes, str_eq, length, if◌then◌else◌, ◌==◌, arith, ℤ, ◌==ℤ◌,
  ==ℤ_iff,
}
use python2c.Lcdsvc.Service.{LcdPins}
use python2c.Lcdsvc.Gpio.{File, value_file, Call, opened, sought, written, read_from, closed, slept}

pub record Panel : Type 0 where
  pub files : List (ℕ × File)
  pub rs : ℕ
  pub rw_line : ℕ
  pub en : ℕ
  pub d : List ℕ
  pub taken : List (ℕ × ℕ × ℕ)

unfoldable pub lookup : ℕ → List (ℕ × File) → Option File
lookup fd [] = none
lookup fd ((k, f) ∷ fs) = let rest = lookup fd fs in if k == fd then some f else rest

unfoldable pub remove : ℕ → List (ℕ × File) → List (ℕ × File)
remove fd [] = []
remove fd ((k, f) ∷ fs) = let rest = remove fd fs in if k == fd then fs else (k, f) ∷ rest

-- The number on the data lines, the lowest first.
abbrev pub number : List ℕ → ℕ
number [] = 0
number (x ∷ xs) = x + 2 * number xs

unfoldable pub put : List ℤ → ℤ → ℕ → List ℕ → List ℕ
put (p ∷ ps) pin v (x ∷ xs) = let rest = put ps pin v xs in if p ==ℤ pin then v ∷ xs else x ∷ rest
put _ pin v xs = xs

-- A pin takes a level.
unfoldable pub drive : LcdPins → ℤ → ℕ → Panel → Panel
drive p pin v b =
    if p.rs ==ℤ pin
    then record b { rs = v }
    else if p.rw_pin ==ℤ pin
    then record b { rw_line = v }
    else if p.en ==ℤ pin
    then record b {
      en = v;
      taken =
          if b.en == 1 && v == 0 then b.taken ++ ((b.rs, b.rw_line, number b.d) ∷ []) else b.taken;
    }
    else record b { d = put p.d pin v b.d }

abbrev pub level_of : Bytes → ℕ
level_of s = if str_eq s (codes "1") then 1 else 0

-- A write to a file: that of a pin's level drives the pin.
unfoldable pub write_to : LcdPins → Option File → Bytes → Panel → Panel
write_to p (some (value_file pin)) s b = drive p pin (level_of s) b
write_to p _ s b = b

unfoldable pub see : LcdPins → Call → Panel → Panel
see p (opened f fd) b = record b { files = (fd, f) ∷ b.files }
see p (sought fd) b = b
see p (written fd s) b = write_to p (lookup fd b.files) s b
see p (read_from fd) b = b
see p (closed fd) b = record b { files = remove fd b.files }
see p (slept us) b = b

unfoldable pub watch : LcdPins → List Call → Panel → Panel
unfolding see
watch p [] b = b
watch p (c ∷ cs) b = watch p cs (see p c b)

pub watch-append :
    (p : LcdPins) (xs ys : List Call) (b : Panel) → watch p (xs ++ ys) b ≡ watch p ys (watch p xs b)
unfolding watch
watch-append p [] ys b = refl
watch-append p (x ∷ xs) ys b = watch-append p xs ys (see p x b)

-- A pin is none of a list.
abbrev pub IsNew : ℤ → List ℤ → Type 0
IsNew pin [] = Unit
IsNew pin (p ∷ ps) = ((pin ==ℤ p) ≡ false) × IsNew pin ps

abbrev pub IsDistinct : List ℤ → Type 0
IsDistinct [] = Unit
IsDistinct (p ∷ ps) = IsNew p ps × IsDistinct ps

abbrev pub bits : ℕ → ℕ → List ℕ
bits zero v = []
bits (suc n) v = (v % 2) ∷ bits n (v / 2)

pub number-bits : (n v : ℕ) → v < 2 ^ n → number (bits n v) ≡ v
number-bits zero v h = omega arith
number-bits (suc n) v h =
    ap (λ k. v % 2 + 2 * k) (number-bits n (v / 2) (omega (arith, h))) ∙ omega arith

==ℤ_refl : (a : ℤ) → (a ==ℤ a) ≡ true
==ℤ_refl a = (==ℤ_iff a a).1 refl

pub put_here : (p : ℤ) (ps : List ℤ) (v x : ℕ) (xs : List ℕ) → put (p ∷ ps) p v (x ∷ xs) ≡ v ∷ xs
unfolding put
put_here p ps v x xs = rw (==ℤ_refl p) refl

pub put_there :
    (p pin : ℤ) (ps : List ℤ) (v x : ℕ) (xs : List ℕ)
    → (p ==ℤ pin) ≡ false
    → put (p ∷ ps) pin v (x ∷ xs) ≡ x ∷ put ps pin v xs
unfolding put
put_there p pin ps v x xs h = rw h refl

-- The levels of the data lines written one after the other, shifting the value on.
unfoldable pub put_all : List ℤ → List ℤ → ℕ → List ℕ → List ℕ
put_all ps [] v xs = xs
put_all ps (q ∷ qs) v xs = put_all ps qs (v / 2) (put ps q (v % 2) xs)

put_all-behind :
    (p : ℤ) (ps qs : List ℤ) (v x : ℕ) (xs : List ℕ)
    → IsNew p qs
    → put_all (p ∷ ps) qs v (x ∷ xs) ≡ x ∷ put_all ps qs v xs
unfolding put_all
put_all-behind p ps [] v x xs h = refl
put_all-behind p ps (q ∷ qs) v x xs h =
    ap (put_all (p ∷ ps) qs (v / 2)) (put_there p q ps (v % 2) x xs h.0)
    ∙ put_all-behind p ps qs (v / 2) x (put ps q (v % 2) xs) h.1

pub put_all-bits :
    (ps : List ℤ) (v : ℕ) (xs : List ℕ)
    → IsDistinct ps
    → length xs ≡ length ps
    → put_all ps ps v xs ≡ bits (length ps) v
unfolding put_all
put_all-bits [] v [] h l = refl
put_all-bits [] v (x ∷ xs) h l = absurd (omega (arith, l))
put_all-bits (p ∷ ps) v [] h l = absurd (omega (arith, l))
put_all-bits (p ∷ ps) v (x ∷ xs) h l =
    ap (put_all (p ∷ ps) ps (v / 2)) (put_here p ps (v % 2) x xs)
    ∙ put_all-behind p ps ps (v / 2) (v % 2) xs h.0
    ∙ ap (λ r. v % 2 ∷ r) (put_all-bits ps (v / 2) xs h.1 (omega (arith, l)))
