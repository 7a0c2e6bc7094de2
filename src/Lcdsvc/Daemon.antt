-- ===== src/Lcdsvc/Daemon.antt =====
-- package/evi-lcdsvc/src/lcdsvc.c: the daemon's `main` over its display.
pub mod Protocol
pub mod Display
use python2c.Base.{ℕ, Bool, List, [], ◌∷◌, Option, none, some, Bytes, if◌then◌else◌}
use python2c.Lcdsvc.Service
use python2c.Lcdsvc.Service.{hw_init}
use python2c.Lcdsvc.Gpio.{World}
use python2c.Lcdsvc.Hw.{LcdCtx, Running, perform_all}

-- What the system answers before the loop: whether the lock file opens, whether the lock is free,
-- and whether `socket`, `bind` and `listen` succeed.
pub record Boot : Type 0 where
  pub lock_open : Bool
  pub lock_free : Bool
  pub socket_ok : Bool
  pub bind_ok : Bool
  pub listen_ok : Bool

pub data Outcome : Type 0 where
  exited : ℕ → Outcome
  serving : Running → Outcome

-- Before the first call: the static `g` is all 0.
abbrev pub at_rest : Running
at_rest = record {
  ctx = record {
    fd_rs = some 0;
    fd_rw = some 0;
    fd_en = some 0;
    fd_d = some 0 ∷ some 0 ∷ some 0 ∷ some 0 ∷ some 0 ∷ some 0 ∷ some 0 ∷ some 0 ∷ [];
  };
  calls = [];
  replies = [];
}

module _ (uci : Bytes → Option Bytes) (w : World) where
  -- The loop, up to some number of rounds: each `accept` fails, or gives a client with what its
  -- `recv` calls give.
  unfoldable pub accept_loop : List (Option (List Bytes)) → Running → Running
  accept_loop [] r = r
  accept_loop (none ∷ rounds) r = accept_loop rounds r
  accept_loop (some chunks ∷ rounds) r =
      accept_loop rounds (perform_all w (Service.handle_client uci chunks) r)

  unfoldable pub main : Boot → List (Option (List Bytes)) → Outcome
  main boot rounds =
      if boot.lock_open
      then if boot.lock_free
        then if boot.socket_ok
          then if boot.bind_ok
            then if boot.listen_ok
              then serving (
                  accept_loop rounds
                    (perform_all w (hw_init (Service.load_pins_from_uci uci) ∷ []) at_rest))
              else exited 1
            else exited 1
          else exited 1
        else exited 1
      else exited 1
