-- ===== src/Lcdclient/Threads/Sessions.antt =====
-- What the mutex of package/evi-lcdclient/src/evi_lcd.c gives to the threads that call the library.
use mathlib.Core.Path.{subst}
use python2c.Base.{
  ℕ, ◌≡◌, ◌≢◌, ◌⊎◌, refl, sym, ap, ◌∙◌, Bool, true, false, List, [], ◌∷◌, ◌++◌, append_assoc,
  append-nil, Bytes, All, All-append, Bool-cases, inl, inr, arith, ◌==◌, ==_iff,
}
use python2c.Base.Family.{update, update-same, update-other}
use python2c.Lcdclient.{Event, lock}
use python2c.Lcdclient.Threads.{
  Pc, idle, running, IsAct, Move, call, take_lock, give_lock, act, return, System, Step, pick,
  Reach, start, later, Rest, last, then_act, IsSession, send_cmd-Rest,
}

-- Where a thread is that does not have the mutex.
data Away (sock_path : Bytes) : Pc → Type 0 where
  at_idle : Away sock_path idle
  done : Away sock_path (running [])
  ready : {es : List Event} → IsSession sock_path es → Away sock_path (running es)

head_of : Event → List Event → Event
head_of d [] = d
head_of d (e ∷ es) = e

tail_of : List Event → List Event
tail_of [] = []
tail_of (e ∷ es) = es

-- All events of some calls.
abbrev pub all_events : List (List Event) → List Event
all_events [] = []
all_events (es ∷ js) = es ++ all_events js

all_events-last :
    (js : List (List Event)) (es : List Event) → all_events (js ++ (es ∷ [])) ≡ all_events js ++ es
all_events-last [] es = append-nil es
all_events-last (fs ∷ js) es =
    ap (λ r. fs ++ r) (all_events-last js es) ∙ sym (append_assoc fs (all_events js) es)

module _ (sock_path : Bytes) where
  session-lock :
      {es : List Event} → IsSession sock_path es → (fs : List Event) × (es ≡ lock ∷ fs) × Rest fs
  session-lock (peer, cmd, e) =
      let (fs, begins, rest) = send_cmd-Rest peer sock_path cmd in (fs, e ∙ begins, rest)

  session-act : {e : Event} {es : List Event} → IsSession sock_path (e ∷ es) → e ≡ lock
  unfolding head_of
  session-act {e} s = ap (head_of lock) (session-lock s).1

  session-tail : {es : List Event} → IsSession sock_path (lock ∷ es) → Rest es
  unfolding tail_of
  session-tail s = let (fs, e, rest) = session-lock s in subst Rest (sym (ap tail_of e)) rest

  away-move :
      {held held' : Bool} {trace trace' : List Event} {p p' : Pc} {js : List (List Event)}
      → Move sock_path held trace p held' trace' p' js
      → Away sock_path p
      → ((js ≡ []) × (held' ≡ held) × (trace' ≡ trace) × Away sock_path p')
        ⊎ ((es : List Event) × (js ≡ (lock ∷ es) ∷ [])
            × IsSession sock_path (lock ∷ es)
            × (held ≡ false)
            × (held' ≡ true)
            × (trace' ≡ trace ++ (lock ∷ []))
            × (p' ≡ running es)
            × Rest es)
  away-move (call peer cmd) a = inl (refl, refl, refl, ready (peer, cmd, refl))
  away-move (take_lock {es} h) (ready s) = inr (es, refl, s, h, refl, refl, refl, session-tail s)
  away-move give_lock (ready s) = cc (session-act s)
  away-move (act a) (ready s) = absurd (subst IsAct (session-act s) a)
  away-move return done = inl (refl, refl, refl, at_idle)
  away-move return (ready s) = inl (refl, refl, refl, at_idle)

  Rest-move :
      {held held' : Bool} {trace trace' : List Event} {es : List Event} {p' : Pc}
      {js : List (List Event)}
      → Move sock_path held trace (running es) held' trace' p' js
      → Rest es
      → (js ≡ [])
        × (((fs : List Event) × (held' ≡ held)
              × (trace' ++ fs ≡ trace ++ es)
              × (p' ≡ running fs)
              × Rest fs)
            ⊎ ((held' ≡ false) × (trace' ≡ trace ++ es) × (p' ≡ running [])))
  Rest-move (take_lock h) (then_act a r) = absurd a
  Rest-move give_lock last = (refl, inr (refl, refl, refl))
  Rest-move give_lock (then_act a r) = absurd a
  Rest-move (act a) last = absurd a
  Rest-move return r = elim r [ ]
  Rest-move {trace = trace} (act {e} {es} a) (then_act b r) =
      (refl, inl (es, refl, append_assoc trace (e ∷ []) es, refl, r))

  -- With the mutex free, all that was done are whole calls; with it held, what its holder has still
  -- to do makes it so.
  data Inv (n : ℕ) (s : System) (js : List (List Event)) : Type 0 where
    free :
        s.held ≡ false
        → ((k : ℕ) → Away sock_path (s.pc k))
        → s.trace ≡ all_events js
        → All (IsSession sock_path) js
        → Inv n s js
    busy :
        (i : ℕ) (es : List Event)
        → s.held ≡ true
        → s.pc i ≡ running es
        → Rest es
        → ((k : ℕ) → k ≢ i → Away sock_path (s.pc k))
        → s.trace ++ es ≡ all_events js
        → All (IsSession sock_path) js
        → Inv n s js

  update-Away :
      (f : ℕ → Pc) (i k : ℕ) (p : Pc)
      → Away sock_path p
      → (k ≢ i → Away sock_path (f k))
      → Away sock_path (update f i p k)
  update-Away f i k p a other = elim (Bool-cases (k == i)) [
    | inl e ↦
        subst (Away sock_path) (sym (ap (update f i p) ((==_iff k i).0 e) ∙ update-same f i p)) a
    | inr e ↦ let ne = differ e in subst (Away sock_path) (sym (update-other f i k p ne)) (other ne)
  ]
    where
      differ : {k i : ℕ} → (k == i) ≡ false → k ≢ i
      differ {k} {i} e t = ground (arith, e, t)

  -- The calls that have taken the mutex, when a step takes it for none or for one.
  none_more :
      (js : List (List Event)) {ks : List (List Event)}
      → ks ≡ []
      → all_events js ≡ all_events (js ++ ks)
  none_more js e = ap all_events (sym (append-nil js)) ∙ ap (λ q. all_events (js ++ q)) (sym e)

  one_more :
      (js : List (List Event)) {ks : List (List Event)} (es : List Event)
      → ks ≡ es ∷ []
      → all_events js ++ es ≡ all_events (js ++ ks)
  one_more js es e = sym (all_events-last js es) ∙ ap (λ q. all_events (js ++ q)) (sym e)

  still_whole :
      (js : List (List Event)) {ks : List (List Event)}
      → ks ≡ []
      → All (IsSession sock_path) js
      → All (IsSession sock_path) (js ++ ks)
  still_whole js {ks} e h =
      All-append (IsSession sock_path) js ks h (subst (All (IsSession sock_path)) (sym e) tt)

  module _ {n : ℕ} (s : System) (js : List (List Event)) {ks : List (List Event)} {held' : Bool}
      {trace' : List Event} {p : Pc} (i : ℕ)
      (m : Move sock_path s.held s.trace (s.pc i) held' trace' p ks) where
    pick-free :
        s.held ≡ false
        → ((k : ℕ) → Away sock_path (s.pc k))
        → s.trace ≡ all_events js
        → All (IsSession sock_path) js
        → Inv n (record { held = held'; trace = trace'; pc = update s.pc i p }) (js ++ ks)
    pick-free f away t whole = elim (away-move m (away i)) [
      | inl (e, h, u, a) ↦
          free (h ∙ f) (λ k. update-Away s.pc i k p a (λ _. away k)) (u ∙ t ∙ none_more js e)
            (still_whole js e whole)
      | inr (es, e, session, was, h, u, q, rest) ↦
          busy i es h (update-same s.pc i p ∙ q) rest
            (λ k ne. subst (Away sock_path) (sym (update-other s.pc i k p ne)) (away k))
            (ap (λ x. x ++ es) u
              ∙ append_assoc s.trace (lock ∷ []) es
              ∙ ap (λ x. x ++ (lock ∷ es)) t
              ∙ one_more js (lock ∷ es) e)
            (All-append (IsSession sock_path) js ks whole
              (subst (All (IsSession sock_path)) (sym e) (session, tt)))
    ]

    pick-own :
        (es : List Event)
        → s.held ≡ true
        → s.pc i ≡ running es
        → Rest es
        → ((k : ℕ) → k ≢ i → Away sock_path (s.pc k))
        → s.trace ++ es ≡ all_events js
        → All (IsSession sock_path) js
        → Inv n (record { held = held'; trace = trace'; pc = update s.pc i p }) (js ++ ks)
    pick-own es f at rest others t whole =
        let (e, next) =
          Rest-move (subst (λ q. Move sock_path s.held s.trace q held' trace' p ks) at m) rest in
        elim next [
          | inl (fs, h, u, q, rest') ↦
              busy i fs (h ∙ f) (update-same s.pc i p ∙ q) rest'
                (λ k ne. subst (Away sock_path) (sym (update-other s.pc i k p ne)) (others k ne))
                (u ∙ t ∙ none_more js e) (still_whole js e whole)
          | inr (h, u, q) ↦
              free h (λ k. update-Away s.pc i k p (subst (Away sock_path) (sym q) done) (others k))
                (u ∙ t ∙ none_more js e) (still_whole js e whole)
        ]

    pick-other :
        (o : ℕ) (es : List Event)
        → i ≢ o
        → s.held ≡ true
        → s.pc o ≡ running es
        → Rest es
        → ((k : ℕ) → k ≢ o → Away sock_path (s.pc k))
        → s.trace ++ es ≡ all_events js
        → All (IsSession sock_path) js
        → Inv n (record { held = held'; trace = trace'; pc = update s.pc i p }) (js ++ ks)
    pick-other o es ne f at rest others t whole = elim (away-move m (others i ne)) [
      | inl (e, h, u, a) ↦
          busy o es (h ∙ f) (update-other s.pc i o p (λ q. ne (sym q)) ∙ at) rest
            (λ k no. update-Away s.pc i k p a (λ _. others k no))
            (ap (λ x. x ++ es) u ∙ t ∙ none_more js e) (still_whole js e whole)
      | inr (fs, e, session, was, h, u, q, r) ↦ cc (f, was)
    ]

  pick-Inv :
      {n : ℕ} (s : System) {t : System} (js : List (List Event)) {ks : List (List Event)}
      → Inv n s js
      → Step sock_path n s t ks
      → Inv n t (js ++ ks)
  pick-Inv {n} s js (free f away t whole) (pick i h m) = pick-free s js i m f away t whole
  pick-Inv {n} s js (busy o es f at rest others t whole) (pick i h m) = elim (Bool-cases (i == o)) [
    | inl e ↦
        let q = (==_iff i o).0 e in
        pick-own s js i m es f (ap s.pc q ∙ at) rest (λ k ne. others k (λ u. ne (u ∙ sym q))) t
          whole
    | inr e ↦ pick-other s js i m o es (λ q. cc (e, (==_iff i o).1 q)) f at rest others t whole
  ]

  reach-Inv : {n : ℕ} {s : System} {js : List (List Event)} → Reach sock_path n s js → Inv n s js
  reach-Inv start = free refl (λ k. at_idle) refl tt
  reach-Inv (later {s} {t} {js} r st) = pick-Inv s js (reach-Inv r) st

  -- In every state that `n` threads can bring about, by any calls of send_cmd at any time over one
  -- path, whatever the system answers: while the mutex is free, what the threads have done on the sockets is made
  -- of whole calls of send_cmd, one after another, those that took the mutex, in that order.
  pub threads_sessions :
      {n : ℕ} {s : System} {js : List (List Event)}
      → Reach sock_path n s js
      → s.held ≡ false
      → (s.trace ≡ all_events js) × All (IsSession sock_path) js
  threads_sessions {n} {s} r f = elim (reach-Inv r) [
    | free _ _ t whole ↦ (t, whole)
    | busy _ _ h _ _ _ _ _ ↦ cc (f, h)
  ]
