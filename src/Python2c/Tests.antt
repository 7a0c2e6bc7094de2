-- ===== src/Python2c/Tests.antt =====
-- The event loop's theorem at a concrete run.
use python2c.Base.{◌≡◌, refl, true, false, List, [], ◌∷◌, ◌++◌, some}
use python2c.Python2c
use python2c.Python2c.{Setup, Wait, ticks, interrupted, Round}
use python2c.Python2c.Loop.{main-rounds, open_after, tick_lines}

abbrev all_set : Setup
all_set = record { epoll_ok = true; timer_ok = true; settime_ok = true; add_ok = true }

abbrev two_ticks : List Round
two_ticks =
    record { signalled = false; wait = ticks 1 } ∷ record { signalled = false; wait = ticks 3 } ∷ []

abbrev sigterm : Round
sigterm = record { signalled = true; wait = interrupted }

main-rounds_example :
    ((Python2c.main all_set (two_ticks ++ (sigterm ∷ two_ticks))).1 ≡ some 0)
    × (open_after
          (some (false, false))
          (Python2c.main all_set (two_ticks ++ (sigterm ∷ two_ticks))).0
        ≡ some (false, false))
    × (tick_lines (Python2c.main all_set (two_ticks ++ (sigterm ∷ two_ticks))).0 ≡ 1 ∷ 3 ∷ [])
main-rounds_example =
    main-rounds all_set (two_ticks ++ (sigterm ∷ two_ticks)) (refl, refl, refl, refl)
