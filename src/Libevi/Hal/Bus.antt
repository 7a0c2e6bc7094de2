-- ===== src/Libevi/Hal/Bus.antt =====
-- What the display controller sees of the driver in evi_hal_mt7688_gpio.c. The controller takes
-- the nibble on D7..D4, with the register select line, whenever EN falls from 1 to 0. In its 4-bit
-- mode two nibbles make a byte, the upper one first; here it stays in that mode, and Mode.antt
-- follows how the instructions change it.
use python2c.Base.{
  ℕ, ◌+◌, ◌*◌, ◌/◌, ◌%◌, ◌<◌, ◌≡◌, refl, sym, ap, ◌∙◌, ◌&&◌, List, [], ◌∷◌, ◌++◌, append_assoc,
  append-nil, map, Bytes, IsByte, All, arith, if◌then◌else◌, ◌==◌,
}
use python2c.Libevi.Hal

-- The levels of the lines, and the nibbles taken so far, each with its register select.
pub record Bus : Type 0 where
  pub rs : ℕ
  pub en : ℕ
  pub d4 : ℕ
  pub d5 : ℕ
  pub d6 : ℕ
  pub d7 : ℕ
  pub taken : List (ℕ × ℕ)

abbrev nibble : Bus → ℕ
nibble b = b.d4 + 2 * b.d5 + 4 * b.d6 + 8 * b.d7

unfoldable pub set_pin : ℕ → ℕ → Bus → Bus
set_pin pin v b =
    if pin == Hal.gpio_rs
    then record b { rs = v }
    else if pin == Hal.gpio_en
    then record b {
      en = v;
      taken = if b.en == 1 && v == 0 then b.taken ++ ((b.rs, nibble b) ∷ []) else b.taken;
    }
    else if pin == Hal.gpio_d4
    then record b { d4 = v }
    else if pin == Hal.gpio_d5
    then record b { d5 = v }
    else if pin == Hal.gpio_d6
    then record b { d6 = v }
    else if pin == Hal.gpio_d7
    then record b { d7 = v }
    else b

unfoldable pub see : Hal.GpioOp → Bus → Bus
unfolding set_pin
see (Hal.GpioOp.write pin v) b = set_pin pin v b
see (Hal.GpioOp.export pin) b = b
see (Hal.GpioOp.set_dir pin out) b = b
see (Hal.GpioOp.usleep us) b = b

unfoldable pub watch : List Hal.GpioOp → Bus → Bus
unfolding see
watch [] b = b
watch (o ∷ os) b = watch os (see o b)

pub watch-append : (xs ys : List Hal.GpioOp) (b : Bus) → watch (xs ++ ys) b ≡ watch ys (watch xs b)
unfolding watch
watch-append [] ys b = refl
watch-append (x ∷ xs) ys b = watch-append xs ys (see x b)

-- The lines after `w4 n rs`.
pub held_nibble : ℕ → ℕ → Bus → Bus
held_nibble n rs b = record {
  rs = rs;
  en = 0;
  d4 = n % 2;
  d5 = n / 2 % 2;
  d6 = n / 4 % 2;
  d7 = n / 8 % 2;
  taken = b.taken ++ ((rs, n % 16) ∷ []);
}

pub watch-w4 : (n rs : ℕ) (b : Bus) → n < 16 → rs < 2 → watch (Hal.w4 n rs) b ≡ held_nibble n rs b
unfolding watch Hal.w4 held_nibble
watch-w4 n rs b h hr = ground arith

-- Whatever the lines were, these GPIO calls make the controller take these nibbles.
abbrev pub Adds : List Hal.GpioOp → List (ℕ × ℕ) → Type 0
Adds os ns = (b : Bus) → (watch os b).taken ≡ b.taken ++ ns

pub Adds-append :
    (xs ys : List Hal.GpioOp) (ms ns : List (ℕ × ℕ))
    → Adds xs ms
    → Adds ys ns
    → Adds (xs ++ ys) (ms ++ ns)
Adds-append xs ys ms ns hx hy b =
    ap (λ (t : Bus). t.taken) (watch-append xs ys b)
    ∙ hy (watch xs b)
    ∙ ap (λ (t : List (ℕ × ℕ)). t ++ ns) (hx b)
    ∙ append_assoc b.taken ms ns

pub Adds-nil : Adds [] []
unfolding watch
Adds-nil b = sym (append-nil b.taken)

pub Adds-usleep : (us : ℕ) → Adds (Hal.GpioOp.usleep us ∷ []) []
unfolding watch
Adds-usleep us b = sym (append-nil b.taken)

pub Adds-w4 : (n rs : ℕ) → n < 16 → rs < 2 → Adds (Hal.w4 n rs) ((rs, n % 16) ∷ [])
unfolding held_nibble
Adds-w4 n rs h hr b = ap (λ (t : Bus). t.taken) (watch-w4 n rs b h hr)

-- The nibbles of one byte, the upper one first.
abbrev pub split_byte : ℕ × ℕ → List (ℕ × ℕ)
split_byte (rs, v) = (rs, v / 16 % 16) ∷ (rs, v % 16) ∷ []

pub Adds-w8 : (v rs : ℕ) → rs < 2 → Adds (Hal.w8 v rs) (split_byte (rs, v))
unfolding Hal.w8
Adds-w8 v rs hr b = rw (← mods v) (
    Adds-append (Hal.w4 (v / 16 % 16) rs) (Hal.w4 (v % 16) rs) _ _
      (Adds-w4 (v / 16 % 16) rs (omega arith) hr) (Adds-w4 (v % 16) rs (omega arith) hr) b)
  where
    mods :
        (v : ℕ)
        → ◌≡◌ {A = List (ℕ × ℕ)}
            ((rs, v / 16 % 16 % 16) ∷ (rs, v % 16 % 16) ∷ [])
            ((rs, v / 16 % 16) ∷ (rs, v % 16) ∷ [])
    mods v = ground arith

abbrev pub split_bytes : List (ℕ × ℕ) → List (ℕ × ℕ)
split_bytes [] = []
split_bytes (p ∷ ps) = split_byte p ++ split_bytes ps

-- The controller's own reading of the nibbles in its 4-bit mode.
unfoldable pub join_nibbles : List (ℕ × ℕ) → List (ℕ × ℕ)
join_nibbles ((r, hi) ∷ (s, lo) ∷ ns) = (s, hi * 16 + lo) ∷ join_nibbles ns
join_nibbles _ = []

pub join_nibbles-split_bytes :
    (ps : List (ℕ × ℕ)) → All (λ (p : ℕ × ℕ). IsByte p.1) ps → join_nibbles (split_bytes ps) ≡ ps
unfolding join_nibbles
join_nibbles-split_bytes [] h = refl
join_nibbles-split_bytes ((rs, v) ∷ ps) h = ground (arith, join_nibbles-split_bytes ps h.1)

-- The power-on sequence: three times 3 and once 2, and five commands.
abbrev pub init_nibbles : List (ℕ × ℕ)
init_nibbles =
    (0, 3)
    ∷ (0, 3)
    ∷ (0, 3)
    ∷ (0, 2)
    ∷ split_bytes ((0, 0x28) ∷ (0, 0x08) ∷ (0, 0x01) ∷ (0, 0x06) ∷ (0, 0x0C) ∷ [])

pub Adds-letter_ops : (s : Bytes) → Adds (Hal.letter_ops s) (split_bytes (map (λ c. (1, c)) s))
unfolding Hal.letter_ops
Adds-letter_ops [] = Adds-nil
Adds-letter_ops (c ∷ s) =
    Adds-append (Hal.w8 c 1) _ _ _ (Adds-w8 c 1 (omega arith)) (Adds-letter_ops s)

pub Adds-setup_ops : Adds Hal.setup_ops []
unfolding Hal.setup_ops watch
Adds-setup_ops b = sym (append-nil b.taken)

pub Adds-wake_ops : Adds Hal.wake_ops ((0, 3) ∷ (0, 3) ∷ (0, 3) ∷ (0, 2) ∷ [])
unfolding Hal.wake_ops
Adds-wake_ops =
    Adds-append (Hal.w4 3 0) _ ((0, 3) ∷ []) _ (Adds-w4 3 0 (omega arith) (omega arith)) (
      Adds-append _ _ [] _ (Adds-usleep 4500) (
        Adds-append (Hal.w4 3 0) _ ((0, 3) ∷ []) _ (Adds-w4 3 0 (omega arith) (omega arith)) (
          Adds-append _ _ [] _ (Adds-usleep 150) (
            Adds-append (Hal.w4 3 0) _ ((0, 3) ∷ []) _ (Adds-w4 3 0 (omega arith) (omega arith)) (
              Adds-append _ _ [] _ (Adds-usleep 150) (
                Adds-append (Hal.w4 2 0) _ ((0, 2) ∷ []) []
                  (Adds-w4 2 0 (omega arith) (omega arith)) (Adds-usleep 150)))))))

abbrev cmd_byte : ℕ → List (ℕ × ℕ)
cmd_byte v = split_byte (0, v)

pub Adds-config_ops :
    Adds Hal.config_ops
      (cmd_byte 0x28 ++ (cmd_byte 0x08 ++ (cmd_byte 0x01 ++ (cmd_byte 0x06 ++ cmd_byte 0x0C))))
unfolding Hal.config_ops
Adds-config_ops = Adds-append (Hal.w8 0x28 0) _ (cmd_byte 0x28) _ (Adds-w8 0x28 0 (omega arith)) (
    Adds-append (Hal.w8 0x08 0) _ (cmd_byte 0x08) _ (Adds-w8 0x08 0 (omega arith)) (
      Adds-append (Hal.w8 0x01 0) _ (cmd_byte 0x01) _ (Adds-w8 0x01 0 (omega arith)) (
        Adds-append _ _ [] _ (Adds-usleep 1600) (
          Adds-append (Hal.w8 0x06 0) (Hal.w8 0x0C 0) (cmd_byte 0x06) (cmd_byte 0x0C)
            (Adds-w8 0x06 0 (omega arith)) (Adds-w8 0x0C 0 (omega arith))))))

pub Adds-ensure_ops : Adds (Hal.setup_ops ++ (Hal.wake_ops ++ Hal.config_ops)) init_nibbles
Adds-ensure_ops =
    Adds-append Hal.setup_ops _ [] _ Adds-setup_ops
      (Adds-append Hal.wake_ops Hal.config_ops _ _ Adds-wake_ops Adds-config_ops)
