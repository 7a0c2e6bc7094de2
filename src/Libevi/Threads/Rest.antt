-- ===== src/Libevi/Threads/Rest.antt =====
-- Single steps of the threads of Threads.antt: what is left to do of a caption of
-- package/libevi/src/evi_caption.c or evi_charge_router.c once its thread has the lock.
use python2c.Base.{
  ℕ, ◌≡◌, refl, sym, ap, ◌∙◌, Bool, true, false, List, [], ◌∷◌, ◌++◌, append_assoc, append-nil,
  Option, some, ◌==◌, Bool-cases, Option-cases, inl, inr, ◌⊎◌, ◌≢◌, ==_iff,
}
use mathlib.Core.Option.{some-injective}
use python2c.Base.Family.{update}
use python2c.Libevi.Hal.{HalCall}
use python2c.Libevi.Screen.{
  Lib, M, ◌>>◌, done, hal, loaded, evi_lock, evi_unlock, evi_lock-free, evi_lock-held, >>-some,
}
use python2c.Libevi.Caption
use python2c.Libevi.Router
use python2c.Libevi.Caption.Cache.{
  Scene, show-caption, drawing, scene_id, scene_a, scene_b, scene_extra,
}
use python2c.Libevi.Router.Stale.{
  Notice, notify-route, notice_drawing, notice_id, notice_a, notice_b,
}
use python2c.Libevi.Threads.{
  Job, job, run_jobs, ask, job_frame, remember, Pc, idle, entered, sending, leaving, inside, Move,
}

-- What a thread that stands there has still to do before it is idle again, from the lock on.
abbrev draw_rest : Job → List HalCall → M
draw_rest j cs = hal cs >> remember j >> evi_unlock

abbrev after_ask : Job → Bool → M
after_ask j true = draw_rest j (job_frame j)
after_ask j false = evi_unlock

abbrev pub finish : Pc → M
finish (entered j) = λ l. after_ask j (ask j l).1 (ask j l).0
finish (sending cs j) = draw_rest j cs
finish leaving = evi_unlock
finish _ = done

caption-finish :
    (sc : Scene) (l : Lib) (b : Bool)
    → Caption.draw_if b (scene_id sc) (scene_a sc) (scene_b sc) (scene_extra sc) (drawing sc) l
      ≡ after_ask (Job.caption sc) b l
unfolding Caption.draw_if remember
caption-finish sc l true = refl
caption-finish sc l false = refl

notice-finish :
    (r : Notice) (l : Lib) (b : Bool)
    → Router.draw_if b (notice_id r) (notice_a r) (notice_b r) (notice_drawing r) l
      ≡ after_ask (Job.notice r) b l
unfolding Router.draw_if remember
notice-finish r l true = refl
notice-finish r l false = refl

-- A caption is the lock and then what is left of it once inside.
job-finish : (j : Job) (l : Lib) → job j l ≡ (evi_lock >> finish (entered j)) l
unfolding job Caption.caption Caption.asked Router.route Router.asked ask
job-finish (Job.caption sc) l =
    ap (λ (m : M). m l) (show-caption sc) ∙ elim (Option-cases (evi_lock l)) [
      | inl e ↦ rw (e, ◌>>◌)
      | inr (l', e) ↦ rw (e, ◌>>◌) (caption-finish sc _ _)
    ]
job-finish (Job.notice r) l =
    ap (λ (m : M). m l) (notify-route r) ∙ elim (Option-cases (evi_lock l)) [
      | inl e ↦ rw (e, ◌>>◌)
      | inr (l', e) ↦ rw (e, ◌>>◌) (notice-finish r _ _)
    ]

-- A step inside leaves the rest of the caption to do.
pub finish-move :
    {l l' : Lib} {p p' : Pc} {js : List Job}
    → Move l p l' p' js
    → inside p ≡ true
    → (js ≡ []) × (finish p l ≡ finish p' l')
finish-move (Move.call j) h = (refl, refl)
finish-move (Move.lock e) h = cc h
finish-move {l} (Move.skip {j} e) h = (refl, ap (λ b. after_ask j b (ask j l).0) e)
finish-move {l} (Move.draw {j} e) h = (refl, ap (λ b. after_ask j b (ask j l).0) e)
finish-move {l} (Move.send {c} {cs} {j}) h = (
  refl,
  ap (λ (t : List HalCall). (remember j >> evi_unlock) (record l { calls = t }))
      (sym (append_assoc l.calls (c ∷ []) cs)),
)
finish-move {l} (Move.keep {j} {l'} e) h = (
  refl,
  ap (λ (t : List HalCall). (remember j >> evi_unlock) (record l { calls = t }))
        (append-nil l.calls)
      ∙ >>-some (remember j) evi_unlock l e,
)
finish-move (Move.unlock e) h = (refl, e)

ask-locked : (j : Job) (l : Lib) → (ask j l).0.locked ≡ l.locked
unfolding ask
ask-locked (Job.caption sc) l = refl
ask-locked (Job.notice r) l = refl

remember-locked : (j : Job) (l : Lib) {l' : Lib} → remember j l ≡ some l' → l'.locked ≡ l.locked
unfolding remember Caption.keep_op Router.keep2
remember-locked (Job.caption sc) l e = ap (λ (t : Lib). t.locked) (sym (some-injective _ _ e))
remember-locked (Job.notice r) l e = ap (λ (t : Lib). t.locked) (sym (some-injective _ _ e))

-- A step inside keeps the lock, or is the unlock.
pub move-inside :
    {l l' : Lib} {p p' : Pc} {js : List Job}
    → Move l p l' p' js
    → inside p ≡ true
    → ((inside p' ≡ true) × (l'.locked ≡ l.locked)) ⊎ ((p' ≡ idle) × (l'.locked ≡ false))
unfolding evi_unlock
move-inside (Move.call j) h = cc h
move-inside (Move.lock e) h = cc h
move-inside {l} (Move.skip {j} e) h = inl (refl, ask-locked j l)
move-inside {l} (Move.draw {j} e) h = inl (refl, ask-locked j l)
move-inside Move.send h = inl (refl, refl)
move-inside {l} (Move.keep {j} e) h = inl (refl, remember-locked j l e)
move-inside (Move.unlock e) h = inr (refl, ap (λ (t : Lib). t.locked) (sym (some-injective _ _ e)))

-- A step outside is a call, or takes the lock.
pub move-outside :
    {l l' : Lib} {p p' : Pc} {js : List Job}
    → Move l p l' p' js
    → inside p ≡ false
    → ((js ≡ []) × (l' ≡ l) × (inside p' ≡ false))
      ⊎ ((j : Job) × (js ≡ j ∷ []) × (evi_lock l ≡ some l') × (p' ≡ entered j))
move-outside (Move.call j) h = inl (refl, refl, refl)
move-outside (Move.lock {j} e) h = inr (j, refl, e, refl)
move-outside (Move.skip e) h = cc h
move-outside (Move.draw e) h = cc h
move-outside Move.send h = cc h
move-outside (Move.keep e) h = cc h
move-outside (Move.unlock e) h = cc h

pub evi_lock-some :
    (l : Lib) {l' : Lib} → evi_lock l ≡ some l' → (l.locked ≡ false) × (l'.locked ≡ true)
evi_lock-some l e = elim (Bool-cases l.locked) [
  | inl held ↦ cc (e, evi_lock-held l held)
  | inr free ↦
      (free, ap (λ (t : Lib). t.locked) (some-injective _ _ (sym e ∙ evi_lock-free l free)))
]

run_jobs-last :
    (js : List Job) (j : Job) (l : Lib) → run_jobs (js ++ (j ∷ [])) l ≡ (run_jobs js >> job j) l
unfolding run_jobs
run_jobs-last [] j l = elim (Option-cases (job j l)) [
  | inl e ↦ rw (e, ◌>>◌)
  | inr (l', e) ↦ rw (e, ◌>>◌)
]
run_jobs-last (k ∷ js) j l = elim (Option-cases (job k l)) [
  | inl e ↦ rw (e, ◌>>◌)
  | inr (l', e) ↦ rw (e, ◌>>◌) (run_jobs-last js j l')
]

pub run_jobs-nil :
    (js : List Job) {ks : List Job} {o : Option Lib}
    → ks ≡ []
    → run_jobs js loaded ≡ o
    → run_jobs (js ++ ks) loaded ≡ o
run_jobs-nil js e r = rw (e, append-nil) r

pub run_jobs-taken :
    (js : List Job) (j : Job) {l l' : Lib}
    → run_jobs js loaded ≡ some l
    → evi_lock l ≡ some l'
    → run_jobs (js ++ (j ∷ [])) loaded ≡ finish (entered j) l'
run_jobs-taken js j {l} r e =
    run_jobs-last js j loaded
    ∙ >>-some (run_jobs js) (job j) loaded r
    ∙ job-finish j l
    ∙ >>-some evi_lock (finish (entered j)) l e

pub update-inside :
    (f : ℕ → Pc) (i k : ℕ) (p : Pc)
    → inside (update f i p k) ≡ true
    → ((k ≡ i) × (inside p ≡ true)) ⊎ ((k ≢ i) × (inside (f k) ≡ true))
update-inside f i k p h = elim (Bool-cases (k == i)) [
  | inl e ↦ inl ((==_iff k i).0 e, ap inside (sym (rw e refl)) ∙ h)
  | inr e ↦ inr (λ t. cc (e, (==_iff k i).1 t), ap inside (sym (rw e refl)) ∙ h)
]

pub not_inside : (p : Pc) → ¬ (inside p ≡ true) → inside p ≡ false
not_inside p h = elim (Bool-cases (inside p)) [ inl e ↦ absurd (h e) | inr e ↦ e ]
