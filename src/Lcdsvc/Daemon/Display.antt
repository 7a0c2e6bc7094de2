-- ===== src/Lcdsvc/Daemon/Display.antt =====
-- The running daemon as the display sees it.
use python2c.Base.{
  ℕ, suc, ◌+◌, ◌*◌, ◌≡◌, refl, sym, ap, ◌∙◌, true, List, [], ◌∷◌, ◌++◌, append_assoc, All, arith,
  Option, none, some, Bytes, length,
}
use python2c.Lcdsvc.Service
use python2c.Lcdsvc.Service.{
  LcdPins, Action, hw_init, clear, home, write_instr, set_ddram, write_text, reply, cut_line,
  hex_command,
}
use python2c.Lcdsvc.Service.Lines.{flat}
use python2c.Lcdsvc.Gpio.{World}
use python2c.Lcdsvc.Hw.{Running, perform, perform_all}
use python2c.Lcdsvc.Hw.Wires.{Panel, watch}
use python2c.Lcdsvc.Hw.OneByte.{IsWiring}
use python2c.Lcdsvc.Hw.Calls.{Obeys}
use python2c.Lcdsvc.Hw.Shown.{IsIdle}
use python2c.Lcdsvc.Hw.Start.{Opens}
use python2c.Lcdsvc.Hw.Init.{start_taken}
use python2c.Lcdsvc.Hw.Run.{
  meaning, all_files_left, IsFor, hw_init-Advances, perform_all-Advances, perform_all-append,
}
use python2c.Lcdsvc.Daemon
use python2c.Lcdsvc.Daemon.{Boot, Outcome, serving, at_rest}
use python2c.Lcdsvc.Daemon.Protocol.{pins, round_actions, RoundsAreBytes, rounds-IsFor}

module _ (uci : Bytes → Option Bytes) where
  accept_loop-actions :
      (w : World) (rounds : List (Option (List Bytes))) (r : Running)
      → Daemon.accept_loop uci w rounds r ≡ perform_all w (flat (round_actions uci) rounds) r
  unfolding Daemon.accept_loop perform_all
  accept_loop-actions w [] r = refl
  accept_loop-actions w (none ∷ rounds) r = accept_loop-actions w rounds r
  accept_loop-actions w (some chunks ∷ rounds) r =
      accept_loop-actions w rounds _
      ∙ sym (perform_all-append w (Service.handle_client uci chunks) _ r)

  -- Everything that `main` asks for before its loop is given.
  abbrev pub IsUp : Boot → Type 0
  IsUp boot =
      (boot.lock_open ≡ true)
      × (boot.lock_free ≡ true)
      × (boot.socket_ok ≡ true)
      × (boot.bind_ok ≡ true)
      × (boot.listen_ok ≡ true)

  main-serving :
      (w : World) (boot : Boot) (rounds : List (Option (List Bytes)))
      → IsUp boot
      → Daemon.main uci w boot rounds
        ≡ serving (perform_all w (hw_init (pins uci) ∷ flat (round_actions uci) rounds) at_rest)
  unfolding Daemon.main perform_all
  main-serving w boot rounds (lo, lf, so, bo, li) =
      rw (lo, lf, so, bo, li) (ap serving (accept_loop-actions w rounds _))

  pub main_shows :
      (w : World) (b : Panel) (boot : Boot) (rounds : List (Option (List Bytes)))
      → IsUp boot
      → Obeys w
      → Opens w (pins uci) b
      → IsWiring (pins uci)
      → IsIdle b
      → All (IsFor (pins uci)) (flat (round_actions uci) rounds)
      → (r : Running) × (Daemon.main uci w boot rounds ≡ serving r)
        × ((watch (pins uci) r.calls b).taken
            ≡ b.taken ++ (start_taken ++ flat meaning (flat (round_actions uci) rounds)))
        × (length (watch (pins uci) r.calls b).files
            ≡ 11 + (all_files_left (flat (round_actions uci) rounds) + length b.files))
  unfolding watch perform_all
  main_shows w b boot rounds up o op wiring idle h =
      let start = hw_init-Advances w (pins uci) b (pins uci) at_rest refl o op wiring idle in
      let later =
        perform_all-Advances w (pins uci) b (flat (round_actions uci) rounds)
          (perform w (hw_init (pins uci)) at_rest) o op wiring h start.0 in
      (
        perform_all w (hw_init (pins uci) ∷ flat (round_actions uci) rounds) at_rest,
        main-serving w boot rounds up,
        later.1
            ∙ ap (λ t. t ++ flat meaning (flat (round_actions uci) rounds)) start.1
            ∙ append_assoc b.taken start_taken (flat meaning (flat (round_actions uci) rounds)),
        omega (arith, start.2, later.2),
      )

  -- Once the daemon has its lock and its socket, it serves; then, whatever bytes its clients send,
  -- in whatever pieces, and whenever `accept` fails, the display has taken the instructions of the
  -- start and the bytes of each command in order, and no others. The display starts with EN low,
  -- the pins of the configuration are eleven different ones, every open gives a descriptor that is
  -- not open, and every seek and write succeeds.
  pub main_display :
      (w : World) (b : Panel) (boot : Boot) (rounds : List (Option (List Bytes)))
      → IsUp boot
      → Obeys w
      → Opens w (pins uci) b
      → IsWiring (pins uci)
      → IsIdle b
      → RoundsAreBytes uci rounds
      → (r : Running) × (Daemon.main uci w boot rounds ≡ serving r)
        × ((watch (pins uci) r.calls b).taken
            ≡ b.taken ++ (start_taken ++ flat meaning (flat (round_actions uci) rounds)))
  main_display w b boot rounds up o op wiring idle h =
      let (r, serves, takes, files) =
        main_shows w b boot rounds up o op wiring idle (rounds-IsFor uci rounds h) in
      (r, serves, takes)

  -- The commands of the rounds that set the display up again.
  abbrev pub inits : List Action → ℕ
  inits [] = 0
  inits (hw_init p ∷ actions) = suc (inits actions)
  inits (_ ∷ actions) = inits actions

  inits-all_files_left : (actions : List Action) → all_files_left actions ≡ 11 * inits actions
  inits-all_files_left [] = omega arith
  inits-all_files_left (hw_init p ∷ actions) = omega (arith, inits-all_files_left actions)
  inits-all_files_left (clear ∷ actions) = omega (arith, inits-all_files_left actions)
  inits-all_files_left (home ∷ actions) = omega (arith, inits-all_files_left actions)
  inits-all_files_left (write_instr v ∷ actions) = omega (arith, inits-all_files_left actions)
  inits-all_files_left (set_ddram v ∷ actions) = omega (arith, inits-all_files_left actions)
  inits-all_files_left (write_text s ∷ actions) = omega (arith, inits-all_files_left actions)
  inits-all_files_left (reply bs ∷ actions) = omega (arith, inits-all_files_left actions)

  -- While the daemon serves, it holds 11 open files for its own start and 11 more for each INIT
  -- that a client sent, since none is closed, and all other commands leave the files as they are;
  -- the clients send bytes, the display starts with EN low, the pins of the configuration are
  -- eleven different ones, every open gives a descriptor that is not open, and every seek and write
  -- succeeds.
  pub main_descriptors :
      (w : World) (b : Panel) (boot : Boot) (rounds : List (Option (List Bytes)))
      → IsUp boot
      → Obeys w
      → Opens w (pins uci) b
      → IsWiring (pins uci)
      → IsIdle b
      → RoundsAreBytes uci rounds
      → (r : Running) × (Daemon.main uci w boot rounds ≡ serving r)
        × (length (watch (pins uci) r.calls b).files
            ≡ length b.files + 11 * (1 + inits (flat (round_actions uci) rounds)))
  main_descriptors w b boot rounds up o op wiring idle h =
      let (r, serves, takes, files) =
        main_shows w b boot rounds up o op wiring idle (rounds-IsFor uci rounds h) in
      (r, serves, omega (arith, files, inits-all_files_left (flat (round_actions uci) rounds)))
