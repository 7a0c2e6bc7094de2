-- ===== src/Lcdsvc/Tests.antt =====
-- Runs of the daemon's protocol, and its theorems at concrete buffers.
use python2c.Base.{
  ◌+◌, ◌*◌, true, ◌++◌, some, List, ◌≡◌, ◌≢◌, refl, ap, [], ◌∷◌, Option, none, Bytes, codes, length,
  arith,
}
use python2c.Lcdsvc.Service
use python2c.Lcdsvc.Service.Lines.{
  IsWhole, flat, lines, joined, line_loop-lines, handle_client-lines, handle_client-partial,
}
use python2c.Lcdsvc.Hw.{Running}
use python2c.Lcdsvc.Hw.Wires.{watch}
use python2c.Lcdsvc.Hw.OneByte.{IsWiring}
use python2c.Lcdsvc.Hw.Init.{start_taken}
use python2c.Lcdsvc.Hw.Run.{meaning}
use python2c.Lcdsvc.Hw.Steady.{steady, steady-Obeys, steady-Opens, blank}
use python2c.Lcdsvc.Daemon
use python2c.Lcdsvc.Daemon.{Boot, serving}
use python2c.Lcdsvc.Daemon.Protocol.{pins, round_actions}
use python2c.Lcdsvc.Daemon.Display.{main_display, main_descriptors, inits}

abbrev no_uci : Bytes → Option Bytes
no_uci key = none

abbrev two_lines : Bytes
two_lines = codes "CLEAR\nHOME\n"

line_loop-lines_example :
    Service.line_loop no_uci 11 two_lines ≡ flat (Service.dispatch no_uci) (lines two_lines)
line_loop-lines_example = line_loop-lines no_uci 11 two_lines (omega arith)

two_lines-IsWhole : IsWhole two_lines
two_lines-IsWhole = record {
  lines_before = codes "CLEAR\nHOME";
  ended = refl;
  no_zero =
      (refl, (refl, (refl, (refl, (refl, (refl, (refl, (refl, (refl, (refl, (refl, tt)))))))))));
}

handle_client-lines_example :
    Service.handle_client no_uci (two_lines ∷ two_lines ∷ [])
    ≡ flat (Service.dispatch no_uci) (lines (joined (two_lines ∷ two_lines ∷ [])))
handle_client-lines_example =
    handle_client-lines no_uci (two_lines ∷ two_lines ∷ [])
      (two_lines-IsWhole, (two_lines-IsWhole, tt))

cle-not_nil : codes "CLE" ≢ []
cle-not_nil e = absurd (omega (arith, ap length e))

handle_client-partial_example :
    Service.handle_client no_uci (codes "CLE" ∷ codes "AR\n" ∷ [])
    ≡ Service.handle_client no_uci (codes "AR\n" ∷ [])
handle_client-partial_example =
    handle_client-partial no_uci (codes "CLE") (codes "AR\n" ∷ []) cle-not_nil
      (refl, (refl, (refl, tt))) (refl, (refl, (refl, tt)))

abbrev all_up : Boot
all_up = record {
  lock_open = true;
  lock_free = true;
  socket_ok = true;
  bind_ok = true;
  listen_ok = true;
}

abbrev two_rounds : List (Option (List Bytes))
two_rounds = none ∷ some (codes "INIT\n" ∷ codes "PUT Hi\n" ∷ []) ∷ []

default_pins-IsWiring : IsWiring (pins no_uci)
unfolding Service.load_pins_from_uci
default_pins-IsWiring = ground arith

main_display_example :
    (r : Running) × (Daemon.main no_uci steady all_up two_rounds ≡ serving r)
    × ((watch (pins no_uci) r.calls blank).taken
        ≡ blank.taken ++ (start_taken ++ flat meaning (flat (round_actions no_uci) two_rounds)))
main_display_example =
    main_display no_uci steady blank all_up two_rounds (refl, refl, refl, refl, refl) steady-Obeys
      (steady-Opens (pins no_uci)) default_pins-IsWiring (refl, refl) (ground arith)

main_descriptors_example :
    (r : Running) × (Daemon.main no_uci steady all_up two_rounds ≡ serving r)
    × (length (watch (pins no_uci) r.calls blank).files
        ≡ length blank.files + 11 * (1 + inits no_uci (flat (round_actions no_uci) two_rounds)))
main_descriptors_example =
    main_descriptors no_uci steady blank all_up two_rounds (refl, refl, refl, refl, refl)
      steady-Obeys (steady-Opens (pins no_uci)) default_pins-IsWiring (refl, refl) (ground arith)
