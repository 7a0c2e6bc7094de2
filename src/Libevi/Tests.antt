-- ===== src/Libevi/Tests.antt =====
-- Runs of the display code, and its theorems at concrete captions.
use python2c.Base.{◌≡◌, ◌≢◌, refl, true, false, List, [], ◌∷◌, ◌++◌, some, codes, arith, pos}
use python2c.Libevi.Hal
use python2c.Libevi.Hal.{HalCall}
use python2c.Libevi.Hal.Bus.{watch, join_nibbles}
use python2c.Libevi.Screen.{Lib, loaded, ◌>>◌, begin, evi_lock}
use python2c.Libevi.Caption.Cache.{Scene, show, info1, standby}
use python2c.Libevi.Router.Stale.{Notice, notify, notice_drawing, stale_after_notice}
use python2c.Libevi.Threads.{Job, Pc, run_jobs, System, Run, Reach, inside}
use python2c.Libevi.Threads.Serial.{threads_serial, one_inside}
use python2c.Libevi.Threads.Progress.{call_returns, run_then, pending}
use python2c.Libevi.Threads.Schedule.{Ran, turns, unstarted}
use python2c.Base.{Bool, inl, inr, ℕ, ◌==◌}
use python2c.Libevi.InitLcm
use python2c.Libevi.InitLcm.Bus
use python2c.Libevi.InitLcm.Taken.{main-taken}

abbrev low : Hal.Bus.Bus
low = record { rs = 0; en = 0; d4 = 0; d5 = 0; d6 = 0; d7 = 0; taken = [] }

abbrev low8 : InitLcm.Bus.Bus
low8 = record {
  rs = 0;
  rw_line = 0;
  en = 0;
  db0 = 0;
  db1 = 0;
  db2 = 0;
  db3 = 0;
  db4 = 0;
  db5 = 0;
  db6 = 0;
  db7 = 0;
  outs = λ p. false;
  taken = [];
}

abbrev ver : Scene
ver = info1 (some (codes "1.0")) (some (codes "2"))

stale_after_notice_example :
    (l' : Lib) × ((show ver >> (notify Notice.preparing >> show ver)) loaded ≡ some l')
    × ((before : List HalCall) × (l'.calls ≡ before ++ (begin ++ notice_drawing Notice.preparing)))
stale_after_notice_example =
    stale_after_notice ver Notice.preparing loaded refl (omega arith) (omega arith) refl

-- The directions of all pins but EN can be written.
abbrev stuck_en : ℕ → Bool
stuck_en p = p == InitLcm.gpio_en

main-taken_example :
    (InitLcm.Bus.watch stuck_en (InitLcm.main stuck_en) low8).taken ≡ low8.taken ++ []
main-taken_example = main-taken stuck_en low8 refl refl (
  inr refl,
  (
    inr refl,
    (
      inl refl,
      (
        inr refl,
        (inr refl, (inr refl, (inr refl, (inr refl, (inr refl, (inr refl, (inr refl, tt))))))),
      ),
    ),
  ),
)

main-taken_sent :
    (InitLcm.Bus.watch (λ p. false) (InitLcm.main (λ p. false)) low8).taken
    ≡ (0, 0, 0x30) ∷ (0, 0, 0x30) ∷ (0, 0, 0x0C) ∷ (0, 0, 0x01) ∷ (0, 0, 0x06) ∷ []
unfolding InitLcm.Bus.watch InitLcm.Bus.see InitLcm.Bus.set_pin InitLcm.main InitLcm.setup_pins
    InitLcm.setup_loop InitLcm.write_cmd InitLcm.set_data_bus InitLcm.delay_100us InitLcm.delay_10ms
main-taken_sent = refl

-- Two threads at the same time: the second waits in vain while the first is inside.
abbrev two_threads : Ran 2
two_threads =
    turns
      ((1, Job.caption ver)
        ∷ (0, Job.caption (standby (pos 1)))
        ∷ (1, Job.caption ver)
        ∷ (0, Job.caption ver)
        ∷ [])
      (unstarted 2)

two_threads_contend :
    (two_threads.jobs ≡ Job.caption ver ∷ [])
    × (two_threads.last.pc 1 ≡ Pc.entered (Job.caption ver))
    × (two_threads.last.pc 0 ≡ Pc.waiting (Job.caption (standby (pos 1))))
unfolding turns evi_lock
two_threads_contend = (refl, refl, refl)

one_inside_example :
    (two_threads.last.lib.locked ≡ true)
    × ((k : ℕ) → k ≢ 1 → inside (two_threads.last.pc k) ≡ false)
unfolding turns evi_lock
one_inside_example = one_inside 1 two_threads.reach refl

call_returns_example :
    (t : System) × Run 2 two_threads.last t (pending (two_threads.last.pc 0))
    × (t.pc 0 ≡ Pc.idle)
    × (t.lib.locked ≡ false)
    × (run_jobs (two_threads.jobs ++ pending (two_threads.last.pc 0)) loaded ≡ some t.lib)
call_returns_example = call_returns 0 two_threads.reach (omega arith)

-- Both captions have returned.
abbrev both_done :
    (t : System) × Reach 2 t (Job.caption ver ∷ Job.caption (standby (pos 1)) ∷ [])
    × (t.lib.locked ≡ false)
both_done =
    unfold turns evi_lock in
    let (t, runs, _, f, _) = call_returns 0 two_threads.reach (omega arith) in
    (t, run_then two_threads.reach runs, f)

threads_serial_example :
    run_jobs (Job.caption ver ∷ Job.caption (standby (pos 1)) ∷ []) loaded ≡ some both_done.0.lib
threads_serial_example = threads_serial both_done.1 both_done.2
