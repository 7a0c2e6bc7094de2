-- ===== src/Lcdclient/OnDisplay.antt =====
-- From the client library to the display: package/evi-lcdclient/src/evi_lcd.c over the daemon of
-- package/evi-lcdsvc/src.
use Prim.Native.Nat.{bit_and, bit_or}
use mathlib.Core.Path.{subst}
use python2c.Base.{
  ℕ, ◌≤◌, ◌<◌, ◌≡◌, refl, sym, ap, ◌∙◌, List, [], ◌∷◌, ◌++◌, append-nil, Option, some, Bytes, All,
  All-append, codes, length, arith, ℤ, pos,
}
use python2c.Lcdsvc.Service
use python2c.Lcdsvc.Service.{
  Action, hw_init, clear, home, write_instr, set_ddram, write_text, ok_reply,
}
use python2c.Lcdsvc.Service.Lines.{flat, flat-append, NoNewline, NoZero}
use python2c.Lcdsvc.Gpio.{World}
use python2c.Lcdsvc.Hw.{Running}
use python2c.Lcdsvc.Hw.Wires.{Panel, watch}
use python2c.Lcdsvc.Hw.OneByte.{IsWiring}
use python2c.Lcdsvc.Hw.Calls.{Obeys}
use python2c.Lcdsvc.Hw.Shown.{Taken, IsIdle, text_taken}
use python2c.Lcdsvc.Hw.Start.{Opens}
use python2c.Lcdsvc.Hw.Init.{start_taken}
use python2c.Lcdsvc.Hw.Run.{meaning, IsFor}
use python2c.Lcdsvc.Daemon
use python2c.Lcdsvc.Daemon.{Boot, serving}
use python2c.Lcdsvc.Daemon.Protocol.{AreBytes, round_actions, pins}
use python2c.Lcdsvc.Daemon.Display.{IsUp, main_shows}
use python2c.Lcdclient
use python2c.Lcdclient.{Event}
use python2c.Lcdclient.Link.{
  serve, wire, received, daemon, send_cmd-served, instr_served, ddram_served, put_served,
}

-- A call of the library.
pub data ClientCall : Type 0 where
  lcd_init lcd_clear lcd_home : ClientCall
  lcd_instr lcd_ddram : ℕ → ClientCall
  lcd_put : Bytes → ClientCall

-- Its arguments are bytes, and a text is one that the line protocol can carry.
abbrev pub IsCall : ClientCall → Type 0
IsCall lcd_init = Unit
IsCall lcd_clear = Unit
IsCall lcd_home = Unit
IsCall (lcd_instr v) = v < 256
IsCall (lcd_ddram a) = a < 256
IsCall (lcd_put s) = NoNewline s × NoZero s × AreBytes s × (length s ≤ 506)

-- What the display has to take for it.
abbrev pub promised : ClientCall → List Taken
promised lcd_init = start_taken
promised lcd_clear = (0, 0, 0x01) ∷ []
promised lcd_home = (0, 0, 0x02) ∷ []
promised (lcd_instr v) = (0, 0, v) ∷ []
promised (lcd_ddram a) = (0, 0, bit_or 0x80 (bit_and a 0x7F)) ∷ []
promised (lcd_put s) = text_taken s

module _ (uci : Bytes → Option Bytes) (sock_path : Bytes) where
  -- What the call does over the socket to the daemon, and what it returns.
  abbrev pub made : ClientCall → List Event × ℤ
  made lcd_init = Lcdclient.evi_lcd_init (daemon uci) sock_path
  made lcd_clear = Lcdclient.evi_lcd_clear (daemon uci) sock_path
  made lcd_home = Lcdclient.evi_lcd_home (daemon uci) sock_path
  made (lcd_instr v) = Lcdclient.evi_lcd_instr (daemon uci) sock_path v
  made (lcd_ddram a) = Lcdclient.evi_lcd_ddram (daemon uci) sock_path a
  made (lcd_put s) = Lcdclient.evi_lcd_put (daemon uci) sock_path (some s)

  abbrev action_of : ClientCall → Action
  action_of lcd_init = hw_init (pins uci)
  action_of lcd_clear = clear
  action_of lcd_home = home
  action_of (lcd_instr v) = write_instr v
  action_of (lcd_ddram a) = set_ddram a
  action_of (lcd_put s) = write_text s

  made-served :
      (c : ClientCall)
      → IsCall c
      → (serve uci (made c).0 ≡ action_of c ∷ ok_reply ∷ []) × ((made c).1 ≡ pos 0)
  unfolding Lcdclient.evi_lcd_init Lcdclient.evi_lcd_clear Lcdclient.evi_lcd_home Service.dispatch
  made-served lcd_init h =
      send_cmd-served uci sock_path (codes "INIT") (hw_init (pins uci))
        (refl, (refl, (refl, (refl, tt)))) (refl, (refl, (refl, (refl, tt)))) (omega arith) refl
        refl
  made-served lcd_clear h =
      send_cmd-served uci sock_path (codes "CLEAR") clear (refl, (refl, (refl, (refl, (refl, tt)))))
        (refl, (refl, (refl, (refl, (refl, tt))))) (omega arith) refl refl
  made-served lcd_home h =
      send_cmd-served uci sock_path (codes "HOME") home (refl, (refl, (refl, (refl, tt))))
        (refl, (refl, (refl, (refl, tt)))) (omega arith) refl refl
  made-served (lcd_instr v) h = instr_served uci sock_path v h
  made-served (lcd_ddram a) h = ddram_served uci sock_path a h
  made-served (lcd_put s) (n, z, _, short) = put_served uci sock_path s n z short

  meaning-promised : (c : ClientCall) → flat meaning (action_of c ∷ ok_reply ∷ []) ≡ promised c
  unfolding meaning
  meaning-promised lcd_init = refl
  meaning-promised lcd_clear = refl
  meaning-promised lcd_home = refl
  meaning-promised (lcd_instr v) = refl
  meaning-promised (lcd_ddram a) = refl
  meaning-promised (lcd_put s) = append-nil (text_taken s)

  action-IsFor : (c : ClientCall) → IsCall c → All (IsFor (pins uci)) (action_of c ∷ ok_reply ∷ [])
  action-IsFor lcd_init h = (refl, (tt, tt))
  action-IsFor lcd_clear h = (tt, (tt, tt))
  action-IsFor lcd_home h = (tt, (tt, tt))
  action-IsFor (lcd_instr v) h = (h, (tt, tt))
  action-IsFor (lcd_ddram a) h = (h, (tt, tt))
  action-IsFor (lcd_put s) (_, _, bs, _) = (bs, (tt, tt))

  -- The rounds of the daemon's loop that some calls, one after the other, make.
  abbrev pub rounds_of : List ClientCall → List (Option (List Bytes))
  rounds_of [] = []
  rounds_of (c ∷ cs) = some (received (wire (made c).0)) ∷ rounds_of cs

  rounds_of-IsFor :
      (cs : List ClientCall)
      → All IsCall cs
      → All (IsFor (pins uci)) (flat (round_actions uci) (rounds_of cs))
  rounds_of-IsFor [] h = tt
  rounds_of-IsFor (c ∷ cs) h =
      All-append _ _ _
        (subst (All (IsFor (pins uci))) (sym (made-served c h.0).0) (action-IsFor c h.0))
        (rounds_of-IsFor cs h.1)

  rounds_of-promised :
      (cs : List ClientCall)
      → All IsCall cs
      → flat meaning (flat (round_actions uci) (rounds_of cs)) ≡ flat promised cs
  rounds_of-promised [] h = refl
  rounds_of-promised (c ∷ cs) h =
      flat-append meaning (serve uci (made c).0) (flat (round_actions uci) (rounds_of cs))
      ∙ ap (λ t. t ++ flat meaning (flat (round_actions uci) (rounds_of cs)))
          (ap (flat meaning) (made-served c h.0).0 ∙ meaning-promised c)
      ∙ ap (λ t. promised c ++ t) (rounds_of-promised cs h.1)

  every_zero : (cs : List ClientCall) → All IsCall cs → All (λ c. (made c).1 ≡ pos 0) cs
  every_zero [] h = tt
  every_zero (c ∷ cs) h = ((made-served c h.0).1, every_zero cs h.1)

  -- Any calls of the client library, one after the other, on a daemon that has its lock and its
  -- socket, all return 0, and the display takes the instructions of the daemon's start and then
  -- what each call promises, in order, and nothing else. The arguments are bytes, a text has at
  -- most 506 of them, no newline and no zero byte; the display starts with EN low, the pins of the
  -- configuration are eleven different ones, every open gives a descriptor that is not open, and
  -- every seek and write succeeds.
  pub calls_on_display :
      (w : World) (b : Panel) (boot : Boot) (cs : List ClientCall)
      → IsUp uci boot
      → Obeys w
      → Opens w (pins uci) b
      → IsWiring (pins uci)
      → IsIdle b
      → All IsCall cs
      → All (λ c. (made c).1 ≡ pos 0) cs
        × ((r : Running) × (Daemon.main uci w boot (rounds_of cs) ≡ serving r)
            × ((watch (pins uci) r.calls b).taken ≡ b.taken ++ (start_taken ++ flat promised cs)))
  calls_on_display w b boot cs up o op wiring idle h =
      let (r, serves, takes, files) =
        main_shows uci w b boot (rounds_of cs) up o op wiring idle (rounds_of-IsFor cs h) in
      (
        every_zero cs h,
        (r, serves, takes ∙ ap (λ t. b.taken ++ (start_taken ++ t)) (rounds_of-promised cs h)),
      )
