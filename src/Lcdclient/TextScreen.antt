-- ===== src/Lcdclient/TextScreen.antt =====
-- What package/evi-lcdclient/src/evi_lcd.c promises to a program that uses it: a text screen. The
-- daemon of package/evi-lcdsvc/src and the display behind it keep the promise.
use python2c.Base.{
  ℕ, ◌+◌, ◌%◌, ◌≡◌, ◌<◌, ◌/◌, ◌==◌, refl, ap, ◌∙◌, true, false, List, [], ◌∷◌, ◌++◌, map, Option,
  some, Bytes, All, arith,
}
use python2c.Base.Bits.{ddram_value}
use python2c.Base.Family.{update}
use python2c.Lcdsvc.Service.Lines.{flat}
use python2c.Lcdsvc.Gpio.{World}
use python2c.Lcdsvc.Hw.{Running}
use python2c.Lcdsvc.Hw.Wires
use python2c.Lcdsvc.Hw.OneByte.{IsWiring}
use python2c.Lcdsvc.Hw.Calls.{Obeys}
use python2c.Lcdsvc.Hw.Shown.{Taken, IsIdle, text_taken}
use python2c.Lcdsvc.Hw.Start.{Opens}
use python2c.Lcdsvc.Hw.Init.{start_taken}
use python2c.Lcdsvc.Daemon
use python2c.Lcdsvc.Daemon.{Boot, serving}
use python2c.Lcdsvc.Daemon.Protocol.{pins}
use python2c.Lcdsvc.Daemon.Display.{IsUp}
use python2c.Lcdclient.Screen.{Screen, Memory, space, instruct, store, feed_all, feed_all-append}
use python2c.Lcdclient.OnDisplay.{
  ClientCall, lcd_init, lcd_clear, lcd_home, lcd_instr, lcd_ddram, lcd_put, IsCall, promised,
  rounds_of, calls_on_display,
}

-- A byte of an 8-bit display without its RW, which is 0.
abbrev pub written : Taken → ℕ × ℕ
written (rs, rw_line, v) = (rs, v)

-- The screen as a program sees it: the characters by address, and the cursor.
pub record Text : Type 0 where
  pub chars : ℕ → ℕ
  pub cursor : ℕ

abbrev pub empty : Text
empty = record { chars = λ _. space; cursor = 0 }

-- A text written from the cursor on, along the display's memory.
unfoldable pub type_in : (ℕ → ℕ) → Bytes → Text → Text
type_in next [] t = t
type_in next (c ∷ cs) t =
    type_in next cs (record { chars = update t.chars t.cursor c; cursor = next t.cursor })

-- The screen after a call: cleared, the cursor moved, or a text written.
unfoldable pub effect : (ℕ → ℕ) → ClientCall → Text → Text
unfolding type_in
effect next lcd_init t = empty
effect next lcd_clear t = empty
effect next lcd_home t = record t { cursor = 0 }
effect next (lcd_instr v) t = t
effect next (lcd_ddram a) t = record t { cursor = a % 128 }
effect next (lcd_put s) t = type_in next s t

unfoldable pub effects : (ℕ → ℕ) → List ClientCall → Text → Text
effects next [] t = t
effects next (c ∷ cs) t = effects next cs (effect next c t)

-- A call that is not evi_lcd_instr.
abbrev pub IsPlain : ClientCall → Type 0
IsPlain (lcd_instr v) = ⊥
IsPlain _ = Unit

-- The display, on and of one line, that shows a text.
abbrev pub showing : Text → Screen
showing t = record { cells = t.chars; at = t.cursor; forwards = true; on = true; two_lines = false }

map-written : (xs ys : List Taken) → map written (xs ++ ys) ≡ map written xs ++ map written ys
map-written [] ys = refl
map-written (x ∷ xs) ys = ap (λ r. written x ∷ r) (map-written xs ys)

text-written : (s : Bytes) → map written (text_taken s) ≡ map (λ c. (1, c)) s
text-written [] = refl
text-written (c ∷ cs) = ap (λ r. (1, c) ∷ r) (text-written cs)

instruct-address :
    (a : ℕ) (s : Screen) → a < 128 → instruct (128 + a) s ≡ some (record s { at = a })
unfolding instruct
instruct-address a s h =
    rw (t0 a h, t1 a h, t2 a h, t4 a h, t8 a h, t32 a h, t128 a h, back a h) refl
  where
    t0 : (a : ℕ) → a < 128 → (128 + a == 0) ≡ false
    t0 a h = ground arith

    t1 : (a : ℕ) → a < 128 → (128 + a == 1) ≡ false
    t1 a h = ground arith

    t2 : (a : ℕ) → a < 128 → ((128 + a) / 2 == 1) ≡ false
    t2 a h = ground arith

    t4 : (a : ℕ) → a < 128 → ((128 + a) / 4 == 1) ≡ false
    t4 a h = ground arith

    t8 : (a : ℕ) → a < 128 → ((128 + a) / 8 == 1) ≡ false
    t8 a h = ground arith

    t32 : (a : ℕ) → a < 128 → ((128 + a) / 32 == 1) ≡ false
    t32 a h = ground arith

    t128 : (a : ℕ) → a < 128 → ((128 + a) / 128 == 1) ≡ true
    t128 a h = ground arith

    back : (a : ℕ) → a < 128 → (128 + a) % 128 ≡ a
    back a h = omega arith

module _ (m : Memory) where
  abbrev order : ℕ → ℕ
  order = m.next false

  feed-letters :
      (s : Bytes) (t : Text)
      → feed_all m (map (λ c. (1, c)) s) (some (showing t)) ≡ some (showing (type_in order s t))
  unfolding feed_all store type_in
  feed-letters [] t = refl
  feed-letters (c ∷ cs) t = feed-letters cs _

  from_start :
      (bs : List (ℕ × ℕ)) (s : Screen)
      → feed_all m (map written start_taken ++ bs) (some s) ≡ feed_all m bs (some (showing empty))
  unfolding feed_all instruct
  from_start bs s = refl

  promised-effect :
      (c : ClientCall) (t : Text)
      → IsCall c
      → IsPlain c
      → feed_all m (map written (promised c)) (some (showing t)) ≡ some (showing (effect order c t))
  unfolding feed_all effect
  promised-effect lcd_init t h k = from_start [] (showing t)
  promised-effect lcd_clear t h k = unfold instruct in refl
  promised-effect lcd_home t h k = unfold instruct in refl
  promised-effect (lcd_instr v) t h k = absurd k
  promised-effect (lcd_ddram a) t h k =
      ap (λ v. feed_all m ((0, v) ∷ []) (some (showing t))) (ddram_value a h)
      ∙ ap (feed_all m []) (instruct-address (a % 128) (showing t) (omega arith))
  promised-effect (lcd_put s) t h k =
      ap (λ bs. feed_all m bs (some (showing t))) (text-written s) ∙ feed-letters s t

  promised-effects :
      (cs : List ClientCall) (t : Text)
      → All IsCall cs
      → All IsPlain cs
      → feed_all m (map written (flat promised cs)) (some (showing t))
        ≡ some (showing (effects order cs t))
  unfolding feed_all effects
  promised-effects [] t h k = refl
  promised-effects (c ∷ cs) t h k =
      ap (λ bs. feed_all m bs (some (showing t))) (map-written (promised c) (flat promised cs))
      ∙ feed_all-append m (map written (promised c)) (map written (flat promised cs))
          (some (showing t))
      ∙ ap (feed_all m (map written (flat promised cs))) (promised-effect c t h.0 k.0)
      ∙ promised-effects cs (effect order c t) h.1 k.1

  -- Any calls of the client library but evi_lcd_instr, one after the other, on a daemon that has
  -- its lock and its socket, with byte arguments and texts of at most 506 bytes, no newline and no
  -- zero byte: the daemon goes on serving, and whatever stood on a display in its 8-bit interface,
  -- whatever the order of its memory, it is on and shows what the calls do to an empty text screen:
  -- to clear it, to move the cursor, and to write a text from the cursor on. The display starts
  -- with EN low and has taken nothing yet, the pins of the configuration are eleven different ones,
  -- every open gives a descriptor that is not open, and every seek and write succeeds.
  pub client_screen :
      (uci : Bytes → Option Bytes) (sock_path : Bytes) (s : Screen) (w : World) (b : Wires.Panel)
      (boot : Boot) (cs : List ClientCall)
      → IsUp uci boot
      → Obeys w
      → Opens w (pins uci) b
      → IsWiring (pins uci)
      → IsIdle b
      → All IsCall cs
      → All IsPlain cs
      → b.taken ≡ []
      → (r : Running) × (Daemon.main uci w boot (rounds_of uci sock_path cs) ≡ serving r)
        × (feed_all m (map written (Wires.watch (pins uci) r.calls b).taken) (some s)
            ≡ some (showing (effects (m.next false) cs empty)))
  client_screen uci sock_path s w b boot cs up o op wiring idle h k e =
      let (zeros, (r, serves, takes)) =
        calls_on_display uci sock_path w b boot cs up o op wiring idle h in
      (
        r,
        serves,
        ap (λ ts. feed_all m (map written ts) (some s))
              (takes ∙ ap (λ ts. ts ++ (start_taken ++ flat promised cs)) e)
            ∙ from_start (map written (flat promised cs)) s
            ∙ promised-effects cs empty h k,
      )
