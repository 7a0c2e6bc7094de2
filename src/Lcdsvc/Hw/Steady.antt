-- ===== src/Lcdsvc/Hw/Steady.antt =====
-- A system that answers as the display's hypotheses say: descriptors are never reused.
use python2c.Base.{
  ℕ, suc, ◌+◌, ◌<◌, ◌≡◌, refl, sym, true, List, [], ◌∷◌, All, arith, Option, none, some,
}
use mathlib.Core.Path.{subst}
use python2c.Lcdsvc.Service.{LcdPins}
use python2c.Lcdsvc.Gpio.{File, Call, opened, sought, written, read_from, closed, slept, World}
use python2c.Lcdsvc.Hw.Wires.{Panel, lookup, remove, watch, see, write_to}
use python2c.Lcdsvc.Hw.OneByte.{drive-files}
use python2c.Lcdsvc.Hw.Calls.{Obeys}
use python2c.Lcdsvc.Hw.Start.{Opens}

-- No descriptor that was opened is above it.
abbrev total : List Call → ℕ
total [] = 0
total (opened f fd ∷ cs) = fd + total cs
total (_ ∷ cs) = total cs

abbrev pub steady : World
steady = record {
  open_fd = λ log f. some (suc (total log));
  seek_ok = λ log fd. true;
  write_ok = λ log fd s. true;
  read_fd = λ log fd. none;
}

pub steady-Obeys : Obeys steady
steady-Obeys = record { seeks = λ log fd. refl; writes = λ log fd s. refl }

Below : ℕ → List (ℕ × File) → Type 0
Below n = All (λ x. x.0 < n)

lookup-Below : (n : ℕ) (fs : List (ℕ × File)) → Below n fs → lookup n fs ≡ none
unfolding lookup Below
lookup-Below n [] h = refl
lookup-Below n ((k, f) ∷ fs) h = ground (arith, lookup-Below n fs h.1)

remove-Below : (n fd : ℕ) (fs : List (ℕ × File)) → Below n fs → Below n (remove fd fs)
unfolding remove Below
remove-Below n fd [] h = tt
remove-Below n fd ((k, f) ∷ fs) h = ground (arith, remove-Below n fd fs h.1)

write_to-files :
    (p : LcdPins) (o : Option File) (s : List ℕ) (b : Panel) → (write_to p o s b).files ≡ b.files
unfolding write_to
write_to-files p none s b = refl
write_to-files p (some (File.value_file pin)) s b = drive-files p pin _ b
write_to-files p (some _) s b = refl

watch-Below :
    (p : LcdPins) (n : ℕ) (log : List Call) (b : Panel)
    → total log < n
    → Below n b.files
    → Below n (watch p log b).files
unfolding watch see Below
watch-Below p n [] b h k = k
watch-Below p n (opened f fd ∷ cs) b h k = watch-Below p n cs _ (omega arith) (omega arith, k)
watch-Below p n (sought fd ∷ cs) b h k = watch-Below p n cs b h k
watch-Below p n (written fd s ∷ cs) b h k =
    watch-Below p n cs _ h (subst (Below n) (sym (write_to-files p (lookup fd b.files) s b)) k)
watch-Below p n (read_from fd ∷ cs) b h k = watch-Below p n cs b h k
watch-Below p n (closed fd ∷ cs) b h k = watch-Below p n cs _ h (remove-Below n fd b.files k)
watch-Below p n (slept us ∷ cs) b h k = watch-Below p n cs b h k

-- A display that is idle, with nothing open yet.
abbrev pub blank : Panel
blank = record {
  files = [];
  rs = 0;
  rw_line = 0;
  en = 0;
  d = 0 ∷ 0 ∷ 0 ∷ 0 ∷ 0 ∷ 0 ∷ 0 ∷ 0 ∷ [];
  taken = [];
}

pub steady-Opens : (p : LcdPins) → Opens steady p blank
unfolding Below
steady-Opens p log f = (
  suc (total log),
  refl,
  lookup-Below (suc (total log)) _ (watch-Below p _ log blank (omega arith) tt),
)
