-- ===== src/Libevi/Hal/Traffic.antt =====
-- The calls of evi_hal.h as the bytes that the display controller reads, through the GPIO calls
-- that evi_hal_mt7688_gpio.c makes for them.
use Prim.Native.Nat.{bit_and, bit_or}
use python2c.Base.{
  ℕ, ◌≡◌, refl, ap, ◌∙◌, Bool, true, false, not, ◌||◌, List, [], ◌∷◌, ◌++◌, append_assoc,
  append-nil, map, drop, take, none, some, Bytes, IsByte, All, All-append, arith, if◌then◌else◌,
  Bool-cases, inl, inr,
}
use mathlib.Core.Bool.{or-true}
use python2c.Base.Bits.{ddram_byte}
use python2c.Libevi.Hal
use python2c.Libevi.Hal.{Hal, HalCall}
use python2c.Libevi.Hal.Bus.{
  Bus, watch, Adds, Adds-append, Adds-nil, Adds-usleep, Adds-w8, Adds-letter_ops, Adds-ensure_ops,
  split_bytes, join_nibbles, join_nibbles-split_bytes, init_nibbles,
}

-- The bytes that a call stands for, each with its register select: 0 a command, 1 a character.
abbrev pub meaning : HalCall → List (ℕ × ℕ)
meaning (HalCall.write_instr c) = (0, c) ∷ []
meaning (HalCall.write_letters none) = []
meaning (HalCall.write_letters (some s)) = map (λ c. (1, c)) s
meaning (HalCall.write_graphic c) = (1, c) ∷ []
meaning (HalCall.delay_us us) = []
meaning (HalCall.move_ddram a) = (0, bit_or 0x80 (bit_and a 0x7F)) ∷ []

abbrev pub meanings : List HalCall → List (ℕ × ℕ)
meanings [] = []
meanings (c ∷ cs) = meaning c ++ meanings cs

-- All calls but a delay bring the display up first.
abbrev pub wakes : HalCall → Bool
wakes (HalCall.delay_us us) = false
wakes _ = true

-- The nibbles on the bus, from a driver that is up or not.
abbrev pub traffic : Bool → List HalCall → List (ℕ × ℕ)
traffic up [] = []
traffic up (c ∷ cs) =
    (if up || not (wakes c) then [] else init_nibbles)
    ++ (split_bytes (meaning c) ++ traffic (up || wakes c) cs)

ensure-inited : (h : Hal) → (Hal.ensure h).inited ≡ true
unfolding Hal.ensure
ensure-inited h = ground arith

Adds-ensure :
    (h : Hal) (ns : List (ℕ × ℕ))
    → Adds h.ops ns
    → Adds (Hal.ensure h).ops (ns ++ (if h.inited then [] else init_nibbles))
Adds-ensure h ns a = elim (Bool-cases h.inited) [
  | inl up ↦ unfold Hal.ensure in rw (up, append-nil) a
  | inr down ↦ unfold Hal.ensure in rw down (Adds-append h.ops _ ns _ a Adds-ensure_ops)
]

run_call-inited : (c : HalCall) (h : Hal) → (Hal.run_call c h).inited ≡ (h.inited || wakes c)
unfolding Hal.run_call Hal.ensure
run_call-inited (HalCall.write_instr c) h = ground arith
run_call-inited (HalCall.write_letters none) h = ground arith
run_call-inited (HalCall.write_letters (some s)) h = ground arith
run_call-inited (HalCall.write_graphic c) h = ground arith
run_call-inited (HalCall.delay_us us) h = ground arith
run_call-inited (HalCall.move_ddram a) h = ground arith

-- After `ensure`, the calls `os` go on top.
Adds-ensure_then :
    (h : Hal) (ns ms : List (ℕ × ℕ)) (os : List Hal.GpioOp)
    → Adds os ms
    → Adds h.ops ns
    → Adds ((Hal.ensure h).ops ++ os) (ns ++ ((if h.inited then [] else init_nibbles) ++ ms))
Adds-ensure_then h ns ms os o a =
    rw (← append_assoc ns (if h.inited then [] else init_nibbles) ms)
      (Adds-append (Hal.ensure h).ops os _ ms (Adds-ensure h ns a) o)

up-or_false : (u : Bool) → (u || not true) ≡ u
up-or_false true = refl
up-or_false false = refl

Adds-run_call :
    (c : HalCall) (h : Hal) (ns : List (ℕ × ℕ))
    → Adds h.ops ns
    → Adds (Hal.run_call c h).ops (
        ns ++ ((if h.inited || not (wakes c) then [] else init_nibbles) ++ split_bytes (meaning c)))
unfolding Hal.run_call
Adds-run_call (HalCall.write_instr c) h ns a =
    rw up-or_false (Adds-ensure_then h ns _ _ (Adds-w8 c 0 (omega arith)) a)
Adds-run_call (HalCall.write_letters none) h ns a =
    rw (up-or_false, append-nil) (Adds-ensure h ns a)
Adds-run_call (HalCall.write_letters (some s)) h ns a =
    rw up-or_false (Adds-ensure_then h ns _ _ (Adds-letter_ops s) a)
Adds-run_call (HalCall.write_graphic c) h ns a =
    rw up-or_false (Adds-ensure_then h ns _ _ (Adds-w8 c 1 (omega arith)) a)
Adds-run_call (HalCall.delay_us us) h ns a =
    rw or-true (Adds-append h.ops _ ns [] a (Adds-usleep us))
Adds-run_call (HalCall.move_ddram p) h ns a =
    rw up-or_false
      (Adds-ensure_then h ns _ _ (Adds-w8 (bit_or 0x80 (bit_and p 0x7F)) 0 (omega arith)) a)

-- From any driver state, the calls add to the bus what `traffic` says.
pub run_calls-traffic :
    (cs : List HalCall) (h : Hal) (ns : List (ℕ × ℕ))
    → Adds h.ops ns
    → Adds (Hal.run_calls cs h).ops (ns ++ traffic h.inited cs)
unfolding Hal.run_calls
run_calls-traffic [] h ns a = rw append-nil a
run_calls-traffic (c ∷ cs) h ns a =
    let later = run_calls-traffic cs (Hal.run_call c h) _ (Adds-run_call c h ns a) in
    rw (run_call-inited, append_assoc, append_assoc) at later

pub split_bytes-append :
    (ps qs : List (ℕ × ℕ)) → split_bytes (ps ++ qs) ≡ split_bytes ps ++ split_bytes qs
split_bytes-append [] qs = refl
split_bytes-append (p ∷ ps) qs = rw (split_bytes-append ps qs, append_assoc)

traffic_up : (cs : List HalCall) → traffic true cs ≡ split_bytes (meanings cs)
traffic_up [] = refl
traffic_up (c ∷ cs) = rw (split_bytes-append (meaning c) (meanings cs), traffic_up cs)

-- The arguments are bytes, as their C types say.
abbrev pub HasBytes : HalCall → Type 0
HasBytes (HalCall.write_instr c) = IsByte c
HasBytes (HalCall.write_letters none) = Unit
HasBytes (HalCall.write_letters (some s)) = All IsByte s
HasBytes (HalCall.write_graphic c) = IsByte c
HasBytes (HalCall.delay_us us) = Unit
HasBytes (HalCall.move_ddram a) = IsByte a

abbrev pub BytePair : ℕ × ℕ → Type 0
BytePair p = IsByte p.1

letters-BytePair : (s : Bytes) → All IsByte s → All BytePair (map (λ c. (1, c)) s)
letters-BytePair [] h = tt
letters-BytePair (c ∷ s) h = (h.0, letters-BytePair s h.1)

meaning-BytePair : (c : HalCall) → HasBytes c → All BytePair (meaning c)
meaning-BytePair (HalCall.write_instr c) h = (h, tt)
meaning-BytePair (HalCall.write_letters none) h = tt
meaning-BytePair (HalCall.write_letters (some s)) h = letters-BytePair s h
meaning-BytePair (HalCall.write_graphic c) h = (h, tt)
meaning-BytePair (HalCall.delay_us us) h = tt
meaning-BytePair (HalCall.move_ddram a) h = (ddram_byte a h, tt)

pub meanings-BytePair : (cs : List HalCall) → All HasBytes cs → All BytePair (meanings cs)
meanings-BytePair [] h = tt
meanings-BytePair (c ∷ cs) h =
    All-append BytePair (meaning c) (meanings cs) (meaning-BytePair c h.0)
      (meanings-BytePair cs h.1)

abbrev pub fresh : Hal
fresh = record { inited = false; ops = [] }

abbrev pub config_bytes : List (ℕ × ℕ)
config_bytes = (0, 0x28) ∷ (0, 0x08) ∷ (0, 0x01) ∷ (0, 0x06) ∷ (0, 0x0C) ∷ []

-- From power-up, the nibbles on the bus.
pub from_power_up :
    (c : HalCall) (cs : List HalCall) (b : Bus)
    → wakes c ≡ true
    → b.taken ≡ []
    → (watch (Hal.run_calls (c ∷ cs) fresh).ops b).taken
      ≡ init_nibbles ++ split_bytes (meanings (c ∷ cs))
from_power_up c cs b w e =
    run_calls-traffic (c ∷ cs) fresh [] Adds-nil b
    ∙ ap (λ ns. ns ++ traffic false (c ∷ cs)) e
    ∙ rw (w, traffic_up, split_bytes-append)

-- From power-up, the first call no delay and all arguments bytes, whatever the levels of the lines:
-- the controller first takes the nibbles 3, 3, 3 and 2 as commands; the nibbles after them, joined
-- in pairs, are the five commands of the set-up and then, in order, exactly the bytes that the
-- calls stand for, each with its register select.
pub run_calls-display :
    (c : HalCall) (cs : List HalCall) (b : Bus)
    → wakes c ≡ true
    → All HasBytes (c ∷ cs)
    → b.taken ≡ []
    → (take 4 (watch (Hal.run_calls (c ∷ cs) fresh).ops b).taken
        ≡ (0, 3) ∷ (0, 3) ∷ (0, 3) ∷ (0, 2) ∷ [])
      × (join_nibbles (drop 4 (watch (Hal.run_calls (c ∷ cs) fresh).ops b).taken)
          ≡ config_bytes ++ meanings (c ∷ cs))
unfolding join_nibbles
run_calls-display c cs b w h e = rw (from_power_up c cs b w e) (
  refl,
  ap (λ ps. config_bytes ++ ps)
      (join_nibbles-split_bytes (meanings (c ∷ cs)) (meanings-BytePair (c ∷ cs) h)),
)
