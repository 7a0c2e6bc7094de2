-- ===== src/Libevi/Threads/Schedule.antt =====
-- Runs of the threads of Threads.antt by evaluation, for captions of
-- package/libevi/src/evi_caption.c and evi_charge_router.c: each turn names a thread, and the
-- caption that it calls if it is in none.
use python2c.Base.{
  ℕ, ◌<◌, ltb, arith, ◌≡◌, refl, List, [], ◌∷◌, Option, none, some, Bool, ◌⊎◌, inl, inr, true,
  false,
}
use python2c.Libevi.Screen.{Lib, loaded, evi_lock, evi_unlock}
use python2c.Libevi.Threads.{
  Job, ask, Pc, idle, waiting, entered, sending, leaving, Move, System, at_rest, pick, start, later,
  Reach,
}
use python2c.Libevi.Threads.Progress.{remember-some}

pub ltb_lt : (i n : ℕ) → ltb i n ≡ true → i < n
ltb_lt i n h = ground arith

unfoldable pub known : (b : Bool) → (b ≡ true) ⊎ (b ≡ false)
known true = inl refl
known false = inr refl

unfoldable pub given : (o : Option Lib) → (o ≡ none) ⊎ ((l : Lib) × (o ≡ some l))
given none = inl refl
given (some l) = inr (l, refl)

abbrev Next : Lib → Pc → Type 0
Next l p = (l' : Lib) × (p' : Pc) × (js : List Job) × Move l p l' p' js

-- The move of a thread; a thread that waits for a lock that is held has none.
unfoldable pub next_move : (l : Lib) (p : Pc) → Job → Option (Next l p)
unfolding evi_unlock known given
next_move l idle j = some (l, waiting j, [], Move.call j)
next_move l (waiting k) j = elim (given (evi_lock l)) [
  | inl _ ↦ none
  | inr (l', e) ↦ some (l', entered k, k ∷ [], Move.lock e)
]
next_move l (entered k) j = elim (known (ask k l).1) [
  | inl e ↦ some (_, _, [], Move.draw e)
  | inr e ↦ some (_, _, [], Move.skip e)
]
next_move l (sending (c ∷ cs) k) j = some (_, _, [], Move.send)
next_move l (sending [] k) j = some (_, _, [], Move.keep (remember-some k l).1)
next_move l leaving j = some (_, _, [], Move.unlock refl)

pub record Ran (n : ℕ) : Type 0 where
  pub last : System
  pub jobs : List Job
  pub reach : Reach n last jobs

unfoldable pub turn : {n : ℕ} → ℕ → Job → Ran n → Ran n
unfolding next_move known
turn {n} i j r = elim (known (ltb i n)) [
  | inl h ↦ elim (next_move r.last.lib (r.last.pc i) j) [
    | none ↦ r
    | some (l', p', js, m) ↦ record {
      last = _;
      jobs = _;
      reach = later r.reach (pick i (ltb_lt i n h) m);
    }
  ]
  | inr _ ↦ r
]

unfoldable pub turns : {n : ℕ} → List (ℕ × Job) → Ran n → Ran n
unfolding turn
turns [] r = r
turns ((i, j) ∷ ts) r = turns ts (turn i j r)

abbrev pub unstarted : (n : ℕ) → Ran n
unstarted n = record { last = at_rest loaded; jobs = []; reach = start }
