-- ===== src/Libevi/Threads/Progress.antt =====
-- That the threads of Threads.antt do not block one another for good: who holds the lock of
-- package/libevi/src/evi_mutex.c can always go on and give it back.
use mathlib.Core.Path.{subst}
use python2c.Base.{
  ℕ, ◌<◌, ◌≡◌, ◌≢◌, refl, sym, ap, ◌∙◌, true, false, List, [], ◌∷◌, ◌++◌, append_assoc, append-nil,
  some, Bool-cases, inl, inr,
}
use python2c.Base.Family.{update, update-same, update-other}
use python2c.Libevi.Hal.{HalCall}
use python2c.Libevi.Screen.{Lib, loaded, evi_unlock, evi_lock-free}
use python2c.Libevi.Caption
use python2c.Libevi.Router
use python2c.Libevi.Threads.Serial.{reach-Inv, free, held, threads_serial}
use python2c.Libevi.Threads.{
  Job, run_jobs, ask, remember, Pc, idle, waiting, entered, sending, leaving, inside, Move, System,
  pick, Run, start, later, Reach,
}

pub run_then :
    {n : ℕ} {a b c : System} {js ks : List Job} → Run n a b js → Run n b c ks → Run n a c (js ++ ks)
run_then {n} {a} {b} {c} {js} r start = subst (Run n a b) (sym (append-nil js)) r
run_then {n} {a} {b} {c} {js} r (later {js = ks} {ks = ms} q st) =
    subst (Run n a c) (append_assoc js ks ms) (later (run_then r q) st)

-- Thread `i` comes back to `idle` with the lock free, and no other moves.
abbrev Returns : ℕ → System → ℕ → List Job → Type 0
Returns n s i js =
    (t : System) × Run n s t js
    × (t.pc i ≡ idle)
    × (t.lib.locked ≡ false)
    × ((k : ℕ) → k ≢ i → t.pc k ≡ s.pc k)

one_step :
    {n : ℕ} (s : System) (i : ℕ) {l' : Lib} {p p' : Pc} {ks js : List Job}
    → i < n
    → s.pc i ≡ p
    → Move s.lib p l' p' ks
    → Returns n (record { lib = l'; pc = update s.pc i p' }) i js
    → Returns n s i (ks ++ js)
one_step {n} s i {l'} {p} {p'} {ks} h e m (t, r, back, f, others) = (
  t,
  run_then (later start (pick i h (subst (λ q. Move s.lib q l' p' ks) (sym e) m))) r,
  back,
  f,
  λ k ne. others k ne ∙ update-other s.pc i k p' ne,
)

from_leaving : {n : ℕ} (s : System) (i : ℕ) → i < n → s.pc i ≡ leaving → Returns n s i []
unfolding evi_unlock
from_leaving s i h e =
    one_step s i h e (Move.unlock refl) (_, start, update-same s.pc i idle, refl, λ k ne. refl)

pub remember-some : (j : Job) (l : Lib) → (l' : Lib) × (remember j l ≡ some l')
unfolding remember Caption.keep_op Router.keep2
remember-some (Job.caption sc) l = (_, refl)
remember-some (Job.notice r) l = (_, refl)

from_sending :
    {n : ℕ} (cs : List HalCall) (j : Job) (s : System) (i : ℕ)
    → i < n
    → s.pc i ≡ sending cs j
    → Returns n s i []
from_sending [] j s i h e =
    one_step s i h e (Move.keep (remember-some j s.lib).1)
      (from_leaving _ i h (update-same s.pc i leaving))
from_sending (c ∷ cs) j s i h e =
    one_step s i h e Move.send (from_sending cs j _ i h (update-same s.pc i _))

from_inside :
    {n : ℕ} (p : Pc) (s : System) (i : ℕ) → i < n → s.pc i ≡ p → inside p ≡ true → Returns n s i []
from_inside idle s i h e t = cc t
from_inside (waiting j) s i h e t = cc t
from_inside (entered j) s i h e t = elim (Bool-cases (ask j s.lib).1) [
  | inl d ↦ one_step s i h e (Move.draw d) (from_sending _ j _ i h (update-same s.pc i _))
  | inr d ↦ one_step s i h e (Move.skip d) (from_leaving _ i h (update-same s.pc i leaving))
]
from_inside (sending cs j) s i h e t = from_sending cs j s i h e
from_inside leaving s i h e t = from_leaving s i h e

from_waiting :
    {n : ℕ} (j : Job) (s : System) (i : ℕ)
    → i < n
    → s.pc i ≡ waiting j
    → s.lib.locked ≡ false
    → Returns n s i (j ∷ [])
from_waiting j s i h e f =
    one_step s i h e (Move.lock (evi_lock-free s.lib f))
      (from_inside (entered j) _ i h (update-same s.pc i (entered j)) refl)

-- The lock comes free, threads outside stay where they are, and the one inside is back.
abbrev Drained : ℕ → System → Type 0
Drained n s =
    (t : System) × Run n s t []
    × (t.lib.locked ≡ false)
    × ((k : ℕ) → inside (s.pc k) ≡ false → t.pc k ≡ s.pc k)
    × ((k : ℕ) → inside (s.pc k) ≡ true → t.pc k ≡ idle)

drained : {n : ℕ} {s : System} {js : List Job} → Reach n s js → Drained n s
drained {n} {s} r = elim (reach-Inv r) [
  | free f out _ ↦ (s, start, f, λ k _. refl, λ k t. cc (t, out k))
  | held o h _ t only _ ↦
      let (u, runs, back, f, others) = from_inside (s.pc o) s o h refl t in
      (
        u,
        runs,
        f,
        λ k away. others k (λ e. cc (t, away, ap (λ m. inside (s.pc m)) e)),
        λ k own. ap u.pc (only k own) ∙ back,
      )
]

-- The caption whose lock a thread waits for.
abbrev pub pending : Pc → List Job
pending (waiting j) = j ∷ []
pending _ = []

from_free :
    {n : ℕ} (p : Pc) (s : System) (i : ℕ)
    → i < n
    → s.pc i ≡ p
    → Drained n s
    → (t : System) × Run n s t (pending p) × (t.pc i ≡ idle) × (t.lib.locked ≡ false)
from_free idle s i h e (u, runs, f, away, own) = (u, runs, away i (ap inside e) ∙ e, f)
from_free (waiting j) s i h e (u, runs, f, away, own) =
    let (t, more, back, g, _) = from_waiting j u i h (away i (ap inside e) ∙ e) f in
    (t, run_then runs more, back, g)
from_free (entered j) s i h e (u, runs, f, away, own) = (u, runs, own i (ap inside e), f)
from_free (sending cs j) s i h e (u, runs, f, away, own) = (u, runs, own i (ap inside e), f)
from_free leaving s i h e (u, runs, f, away, own) = (u, runs, own i (ap inside e), f)

-- From every state that `n` threads can bring about, whatever one of them is doing, there are
-- steps after which that thread is in no caption and the lock is free. In them no
-- caption takes the lock but the one that the thread waits for, if any, and they leave the
-- library as all captions that took the lock do one after another, that one last.
pub call_returns :
    {n : ℕ} {s : System} {js : List Job} (i : ℕ)
    → Reach n s js
    → i < n
    → (t : System) × Run n s t (pending (s.pc i))
      × (t.pc i ≡ idle)
      × (t.lib.locked ≡ false)
      × (run_jobs (js ++ pending (s.pc i)) loaded ≡ some t.lib)
call_returns {n} {s} i r h =
    let (t, runs, back, f) = from_free (s.pc i) s i h refl (drained r) in
    (t, runs, back, f, threads_serial (run_then r runs) f)
