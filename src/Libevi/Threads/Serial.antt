-- ===== src/Libevi/Threads/Serial.antt =====
-- What the lock of package/libevi/src/evi_mutex.c gives to the threads of Threads.antt.
use python2c.Base.{
  ℕ, ◌<◌, ◌≡◌, ◌≢◌, refl, sym, ap, ◌∙◌, true, false, List, ◌++◌, some, Bool-cases, inl, inr,
}
use python2c.Base.Family.{update, update-same, update-other}
use python2c.Libevi.Screen.{Lib, loaded}
use python2c.Libevi.Threads.Rest.{
  finish, finish-move, move-inside, move-outside, evi_lock-some, run_jobs-nil, run_jobs-taken,
  update-inside, not_inside,
}
use python2c.Libevi.Threads.{
  Job, run_jobs, Pc, inside, Move, System, Step, pick, Reach, start, later,
}

-- With the lock free nobody is inside, and the library is as the captions have left it one after
-- another; with the lock held one thread is inside, and has the rest of the last one to do.
pub data Inv (n : ℕ) (s : System) (js : List Job) : Type 0 where
  free :
      s.lib.locked ≡ false
      → ((k : ℕ) → inside (s.pc k) ≡ false)
      → run_jobs js loaded ≡ some s.lib
      → Inv n s js
  held :
      (i : ℕ)
      → i < n
      → s.lib.locked ≡ true
      → inside (s.pc i) ≡ true
      → ((k : ℕ) → inside (s.pc k) ≡ true → k ≡ i)
      → run_jobs js loaded ≡ finish (s.pc i) s.lib
      → Inv n s js

module _ {n : ℕ} (s : System) (js : List Job) {ks : List Job} {l' : Lib} {p : Pc} (i : ℕ)
    (h : i < n) (m : Move s.lib (s.pc i) l' p ks) where
  -- A step of a thread while the lock is free.
  pick-free :
      s.lib.locked ≡ false
      → ((k : ℕ) → inside (s.pc k) ≡ false)
      → run_jobs js loaded ≡ some s.lib
      → Inv n (record { lib = l'; pc = update s.pc i p }) (js ++ ks)
  pick-free f out r = elim (move-outside m (out i)) [
    | inl (e, same, o) ↦
        free (ap (λ (t : Lib). t.locked) same ∙ f)
          (λ k. not_inside (update s.pc i p k) (λ t. elim (update-inside s.pc i k p t) [
            | inl (_, hp) ↦ cc (hp, o)
            | inr (_, hk) ↦ cc (hk, out k)
          ]))
          (run_jobs-nil js e r ∙ ap (λ (t : Lib). some t) (sym same))
    | inr (j, e, took, at) ↦
        held i h (evi_lock-some s.lib took).1 (ap inside (update-same s.pc i p ∙ at))
          (λ k t. elim (update-inside s.pc i k p t) [
            | inl (eq, _) ↦ eq
            | inr (_, hk) ↦ cc (hk, out k)
          ])
          (ap (λ ks. run_jobs (js ++ ks) loaded) e
            ∙ run_jobs-taken js j r took
            ∙ ap (λ q. finish q l') (sym (update-same s.pc i p ∙ at)))
  ]

  -- A step while thread `o` holds it: of `o` itself, or of another.
  pick-own :
      s.lib.locked ≡ true
      → inside (s.pc i) ≡ true
      → ((k : ℕ) → inside (s.pc k) ≡ true → k ≡ i)
      → run_jobs js loaded ≡ finish (s.pc i) s.lib
      → Inv n (record { lib = l'; pc = update s.pc i p }) (js ++ ks)
  pick-own f at only r =
      let (e, fin) = finish-move m at in
      elim (move-inside m at) [
        | inl (in', lk) ↦
            held i h (lk ∙ f) (ap inside (update-same s.pc i p) ∙ in')
              (λ k t. elim (update-inside s.pc i k p t) [
                | inl (eq, _) ↦ eq
                | inr (_, hk) ↦ only k hk
              ])
              (run_jobs-nil js e (r ∙ fin) ∙ ap (λ q. finish q l') (sym (update-same s.pc i p)))
        | inr (stops, unlocked) ↦
            free unlocked
              (λ k. not_inside (update s.pc i p k) (λ t. elim (update-inside s.pc i k p t) [
                | inl (_, hp) ↦ cc (hp, ap inside stops)
                | inr (ne, hk) ↦ absurd (ne (only k hk))
              ]))
              (run_jobs-nil js e (r ∙ fin) ∙ ap (λ q. finish q l') stops)
      ]

  pick-other :
      (o : ℕ)
      → o < n
      → s.lib.locked ≡ true
      → inside (s.pc o) ≡ true
      → inside (s.pc i) ≡ false
      → ((k : ℕ) → inside (s.pc k) ≡ true → k ≡ o)
      → run_jobs js loaded ≡ finish (s.pc o) s.lib
      → Inv n (record { lib = l'; pc = update s.pc i p }) (js ++ ks)
  pick-other o ho f at away only r = elim (move-outside m away) [
    | inl (e, same, out) ↦
        let kept = update-other s.pc i o p (λ t. cc (at, away, ap (λ k. inside (s.pc k)) t)) in
        held o ho (ap (λ (t : Lib). t.locked) same ∙ f) (ap inside kept ∙ at)
          (λ k t. elim (update-inside s.pc i k p t) [
            | inl (_, hp) ↦ cc (hp, out)
            | inr (_, hk) ↦ only k hk
          ])
          (run_jobs-nil js e r ∙ ap (finish (s.pc o)) (sym same) ∙ ap (λ q. finish q l') (sym kept))
    | inr (j, e, took, t) ↦ cc (f, (evi_lock-some s.lib took).0)
  ]

pick-held :
    {n : ℕ} {s t : System} (js : List Job) {ks : List Job} (o : ℕ)
    → o < n
    → s.lib.locked ≡ true
    → inside (s.pc o) ≡ true
    → ((k : ℕ) → inside (s.pc k) ≡ true → k ≡ o)
    → run_jobs js loaded ≡ finish (s.pc o) s.lib
    → Step n s t ks
    → Inv n t (js ++ ks)
pick-held {n} {s} {t} js o ho f at only r (pick i h m) = elim (Bool-cases (inside (s.pc i))) [
  | inl own ↦
      pick-own s js i h m f own (λ k hk. only k hk ∙ sym (only i own))
        (r ∙ ap (λ k. finish (s.pc k) s.lib) (sym (only i own)))
  | inr away ↦ pick-other s js i h m o ho f at away only r
]

pub pick-Inv :
    {n : ℕ} {s t : System} {js ks : List Job} → Inv n s js → Step n s t ks → Inv n t (js ++ ks)
pick-Inv {n} {s} {t} {js} (free f out r) (pick i h m) = pick-free s js i h m f out r
pick-Inv {n} {s} {t} {js} (held o ho f at only r) st = pick-held js o ho f at only r st

pub reach-Inv : {n : ℕ} {s : System} {js : List Job} → Reach n s js → Inv n s js
unfolding run_jobs
reach-Inv start = free refl (λ k. refl) refl
reach-Inv (later r st) = pick-Inv (reach-Inv r) st

-- In every state that `n` threads can bring about, any captions called in any order: while the
-- lock is free, the caches, the lock and the calls made to the display are what the captions
-- that took the lock leave when they run one after another, in the order in which they took it.
pub threads_serial :
    {n : ℕ} {s : System} {js : List Job}
    → Reach n s js
    → s.lib.locked ≡ false
    → run_jobs js loaded ≡ some s.lib
threads_serial {n} {s} r f = elim (reach-Inv r) [ free _ _ e ↦ e | held _ _ t _ _ _ ↦ cc (f, t) ]

-- In every state that `n` threads can bring about, while one thread is between the lock and the
-- unlock, the lock is held, and every other thread is outside.
pub one_inside :
    {n : ℕ} {s : System} {js : List Job} (i : ℕ)
    → Reach n s js
    → inside (s.pc i) ≡ true
    → (s.lib.locked ≡ true) × ((k : ℕ) → k ≢ i → inside (s.pc k) ≡ false)
one_inside {n} {s} i r hi = elim (reach-Inv r) [
  | free _ out _ ↦ cc (hi, out i)
  | held o _ t _ only _ ↦ (t, λ k ne. not_inside (s.pc k) (λ hk. ne (only k hk ∙ sym (only i hi))))
]
