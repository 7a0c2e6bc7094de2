-- ===== src/Libevi/Threads.antt =====
-- Threads that call the captions of package/libevi/src/evi_caption.c and evi_charge_router.c at the
-- same time, with the lock of evi_mutex.c. A step of a thread is one call: to take the lock, to ask
-- the cache, to make one call of evi_hal.h, to keep the key, to unlock. Every access to the two
-- caches and to the display stands between the lock and the unlock.
pub mod Rest
pub mod Serial
pub mod Progress
pub mod Schedule
use python2c.Base.{
  ℕ, ◌<◌, ◌≡◌, Bool, true, false, List, [], ◌∷◌, ◌++◌, Option, some, if◌then◌else◌, ◌==◌,
}
use python2c.Base.Family.{update}
use python2c.Libevi.Hal.{HalCall}
use python2c.Libevi.Screen.{Lib, M, ◌>>◌, done, loaded, begin, evi_lock, evi_unlock}
use python2c.Libevi.Caption
use python2c.Libevi.Router
use python2c.Libevi.Caption.Cache.{Scene, show, frame, scene_id, scene_a, scene_b, scene_extra}
use python2c.Libevi.Router.Stale.{Notice, notify, notice_drawing, notice_id, notice_a, notice_b}

-- A caption of either file.
pub data Job : Type 0 where
  caption : Scene → Job
  notice : Notice → Job

-- The whole function.
unfoldable pub job : Job → M
job (caption sc) = show sc
job (notice r) = notify r

-- The functions one after the other.
unfoldable pub run_jobs : List Job → M
run_jobs [] = done
run_jobs (j ∷ js) = job j >> run_jobs js

-- The test of the cache, with what it writes there.
unfoldable pub ask : Job → Lib → Lib × Bool
ask (caption sc) l =
    let (ui, draw) = Caption.need (scene_id sc) (scene_a sc) (scene_b sc) (scene_extra sc) l.ui in
    (record l { ui = ui }, draw)
ask (notice r) l = (l, Router.need2 (notice_id r) (notice_a r) (notice_b r) l.u2)

abbrev pub job_frame : Job → List HalCall
job_frame (caption sc) = frame sc
job_frame (notice r) = begin ++ notice_drawing r

unfoldable pub remember : Job → M
remember (caption sc) = Caption.keep_op (scene_id sc) (scene_a sc) (scene_b sc) (scene_extra sc)
remember (notice r) = Router.keep2 (notice_id r) (notice_a r) (notice_b r)

-- Where a thread stands.
pub data Pc : Type 0 where
  idle : Pc  -- in no caption
  waiting : Job → Pc  -- before `evi_lock` returns
  entered : Job → Pc  -- before `need`
  sending : List HalCall → Job → Pc  -- with these calls still to make, and `keep` after them
  leaving : Pc  -- before `evi_unlock`

-- Between the return of `evi_lock` and `evi_unlock`.
abbrev pub inside : Pc → Bool
inside idle = false
inside (waiting _) = false
inside _ = true

-- One step of one thread, with the job that takes the lock in it, if any.
pub data Move (l : Lib) : Pc → Lib → Pc → List Job → Type 0 where
  call : (j : Job) → Move l idle l (waiting j) []
  lock : {j : Job} {l' : Lib} → evi_lock l ≡ some l' → Move l (waiting j) l' (entered j) (j ∷ [])
  skip : {j : Job} → (ask j l).1 ≡ false → Move l (entered j) (ask j l).0 leaving []
  draw :
      {j : Job} → (ask j l).1 ≡ true → Move l (entered j) (ask j l).0 (sending (job_frame j) j) []
  send :
      {c : HalCall} {cs : List HalCall} {j : Job}
      → Move l (sending (c ∷ cs) j) (record l { calls = l.calls ++ (c ∷ []) }) (sending cs j) []
  keep : {j : Job} {l' : Lib} → remember j l ≡ some l' → Move l (sending [] j) l' leaving []
  unlock : {l' : Lib} → evi_unlock l ≡ some l' → Move l leaving l' idle []

-- An index from `n` on names no thread, and stays idle.
pub record System : Type 0 where
  pub lib : Lib
  pub pc : ℕ → Pc

pub data Step (n : ℕ) (s : System) : System → List Job → Type 0 where
  pick :
      (i : ℕ) {l : Lib} {p : Pc} {js : List Job}
      → i < n
      → Move s.lib (s.pc i) l p js
      → Step n s (record { lib = l; pc = update s.pc i p }) js

abbrev pub at_rest : Lib → System
at_rest l = record { lib = l; pc = λ _. Pc.idle }

-- Steps one after another, with the jobs that take the lock in them, in order.
pub data Run (n : ℕ) (o : System) : System → List Job → Type 0 where
  start : Run n o o []
  later : {s t : System} {js ks : List Job} → Run n o s js → Step n s t ks → Run n o t (js ++ ks)

-- The states that `n` threads can bring about from the library as it is loaded, with the jobs that
-- have taken the lock, in the order in which they took it.
abbrev pub Reach : ℕ → System → List Job → Type 0
Reach n = Run n (at_rest loaded)
