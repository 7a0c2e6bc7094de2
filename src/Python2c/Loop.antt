-- ===== src/Python2c/Loop.antt =====
-- When the event loop of package/evi-python2c/src/main.c ends, what it prints until then, and what
-- becomes of its two descriptors.
use python2c.Base.{
  ℕ, ◌≡◌, refl, ap, Bool, true, false, ◌||◌, List, [], ◌∷◌, ◌++◌, Option, none, some, if◌then◌else◌,
}
use python2c.Python2c
use python2c.Python2c.{
  Setup, Wait, interrupted, failed, other_event, nothing_read, ticks, Round, Event, epoll_opened,
  timer_opened, timer_closed, epoll_closed, banner, bye, complained, tick, run_loop, after_wait,
}

-- The two descriptors as the kernel has them: whether each is open. `none` stands for a descriptor
-- that is opened or closed twice.
abbrev pub Fds : Type 0
Fds = Option (Bool × Bool)

abbrev after_event : Event → Bool × Bool → Fds
after_event epoll_opened (false, t) = some (true, t)
after_event epoll_opened (true, t) = none
after_event timer_opened (e, false) = some (e, true)
after_event timer_opened (e, true) = none
after_event epoll_closed (true, t) = some (false, t)
after_event epoll_closed (false, t) = none
after_event timer_closed (e, true) = some (e, false)
after_event timer_closed (e, false) = none
after_event _ fds = some fds

abbrev pub open_after : Fds → List Event → Fds
open_after none es = none
open_after (some fds) [] = some fds
open_after (some fds) (e ∷ es) = open_after (after_event e fds) es

-- The numbers in the `[tick]` lines.
abbrev pub tick_lines : List Event → List ℕ
tick_lines [] = []
tick_lines (tick n ∷ es) = n ∷ tick_lines es
tick_lines (_ ∷ es) = tick_lines es

-- A round in which a signal has come, or in which epoll_wait fails other than by a signal.
abbrev pub is_last : Round → Bool
is_last r = r.signalled || fails r.wait
  where
    fails : Wait → Bool
    fails failed = true
    fails _ = false

abbrev pub ends : List Round → Bool
ends [] = false
ends (r ∷ rounds) = is_last r || ends rounds

-- What the timer has counted in the rounds before the last.
abbrev pub ticks_until : List Round → List ℕ
ticks_until [] = []
ticks_until (r ∷ rounds) = if is_last r then [] else counted r.wait ++ ticks_until rounds
  where
    counted : Wait → List ℕ
    counted (ticks n) = n ∷ []
    counted _ = []

-- The exit status, the descriptors and the lines that these rounds should give, from open
-- descriptors on.
abbrev IsRun : List Round → List Event × Option ℕ → Type 0
IsRun rounds (es, status) =
    (status ≡ (if ends rounds then some 0 else none))
    × (open_after (some (true, true)) es
        ≡ some (if ends rounds then (false, false) else (true, true)))
    × (tick_lines es ≡ ticks_until rounds)

IsRun-step :
    (signalled : Bool) (wait : Wait) (rounds : List Round)
    → IsRun rounds (run_loop true rounds)
    → IsRun
        (record { signalled = signalled; wait = wait } ∷ rounds)
        (run_loop true (record { signalled = signalled; wait = wait } ∷ rounds))
unfolding run_loop after_wait
IsRun-step true wait rounds h = (refl, refl, refl)
IsRun-step false interrupted rounds h = h
IsRun-step false failed rounds h = (refl, refl, refl)
IsRun-step false other_event rounds h = h
IsRun-step false nothing_read rounds h = h
IsRun-step false (ticks n) rounds h = (h.0, h.1, ap (λ ns. n ∷ ns) h.2)

run_loop-IsRun : (rounds : List Round) → IsRun rounds (run_loop true rounds)
unfolding run_loop
run_loop-IsRun [] = (refl, refl, refl)
run_loop-IsRun (r ∷ rounds) = IsRun-step r.signalled r.wait rounds (run_loop-IsRun rounds)

-- Every call before the loop succeeds.
abbrev pub IsReadySetup : Setup → Type 0
IsReadySetup s =
    (s.epoll_ok ≡ true) × (s.timer_ok ≡ true) × (s.settime_ok ≡ true) × (s.add_ok ≡ true)

-- After calls that succeed, whatever the rounds are: the service has exited, and then with 0, just
-- when a signal has come or epoll_wait has failed in one of them; then both descriptors have been
-- opened and closed once each, and else both are open; and until the first such round it has
-- printed every count of its timer, in order, and nothing of the rounds after it.
pub main-rounds :
    (s : Setup) (rounds : List Round)
    → IsReadySetup s
    → ((Python2c.main s rounds).1 ≡ (if ends rounds then some 0 else none))
      × (open_after (some (false, false)) (Python2c.main s rounds).0
          ≡ some (if ends rounds then (false, false) else (true, true)))
      × (tick_lines (Python2c.main s rounds).0 ≡ ticks_until rounds)
unfolding Python2c.main
main-rounds s rounds (e, t, i, a) = rw (e, t, i, a) (run_loop-IsRun rounds)
