-- ===== src/Python2c.antt =====
-- package/evi-python2c/src/main.c: the event loop of the service, a timer of one second.
pub mod Loop
mod Tests
use python2c.Base.{ℕ, Bool, true, false, List, [], ◌∷◌, ◌++◌, Option, none, some, if◌then◌else◌}

-- Whether the calls before the loop succeed: `epoll_create1`, `timerfd_create`, `timerfd_settime`
-- and `epoll_ctl`.
pub record Setup : Type 0 where
  pub epoll_ok : Bool
  pub timer_ok : Bool
  pub settime_ok : Bool
  pub add_ok : Bool

-- What one `epoll_wait` gives: -1 with EINTR, another error, an event that is not the timer's
-- input, or the timer's, with what `read` gives: nothing, or the number of ticks.
pub data Wait : Type 0 where
  interrupted failed other_event nothing_read : Wait
  ticks : ℕ → Wait

-- One round of the loop: whether a SIGINT or SIGTERM came since the last test of `running`, and
-- what `epoll_wait` gives if the round goes on to it.
pub record Round : Type 0 where
  pub signalled : Bool
  pub wait : Wait

pub data Event : Type 0 where
  epoll_opened timer_opened timer_closed epoll_closed : Event
  banner bye : Event
  complained : ℕ → Event
  tick : ℕ → Event

abbrev ending : List Event
ending = timer_closed ∷ epoll_closed ∷ bye ∷ []

-- The round after `epoll_wait`, before what the later rounds do.
unfoldable pub after_wait : Wait → List Event × Option ℕ → List Event × Option ℕ
after_wait interrupted rest = rest
after_wait failed rest = (complained 5 ∷ ending, some 0)
after_wait other_event rest = rest
after_wait nothing_read rest = rest
after_wait (ticks n) rest = (tick n ∷ rest.0, rest.1)

-- What the rounds do, and the exit status if the loop has ended.
unfoldable pub run_loop : Bool → List Round → List Event × Option ℕ
run_loop running [] = ([], none)
run_loop running (r ∷ rounds) =
    let running' = if r.signalled then false else running in
    let rest = run_loop running' rounds in
    if running' then after_wait r.wait rest else (ending, some 0)

-- `main`; the number of a complaint is that of its `perror`, in the order of the source.
unfoldable pub main : Setup → List Round → List Event × Option ℕ
main s rounds =
    if s.epoll_ok
    then if s.timer_ok
      then if s.settime_ok
        then if s.add_ok
          then (
            epoll_opened ∷ timer_opened ∷ banner ∷ (run_loop true rounds).0,
            (run_loop true rounds).1,
          )
          else (epoll_opened ∷ timer_opened ∷ complained 4 ∷ [], some 4)
        else (epoll_opened ∷ timer_opened ∷ complained 3 ∷ [], some 3)
      else (epoll_opened ∷ complained 2 ∷ [], some 2)
    else (complained 1 ∷ [], some 1)
