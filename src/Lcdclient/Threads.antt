-- ===== src/Lcdclient/Threads.antt =====
-- Threads of one program that call package/evi-lcdclient/src/evi_lcd.c at the same time, with its
-- mutex `g_mu`. A step of a thread is one event of its call of send_cmd; what the system answers to
-- a call is a Peer of its own. No thread changes the path of the socket meanwhile.
pub mod Sessions
use python2c.Base.{
  ℕ, ◌<◌, ◌≡◌, ◌≢◌, ◌⊎◌, refl, sym, ap, ◌∙◌, Bool, true, false, List, [], ◌∷◌, ◌++◌, append_assoc,
  append-nil, Bytes, All, All-append, take, Bool-cases, inl, inr, arith, if◌then◌else◌, ◌==◌,
  ==_iff,
}
use python2c.Base.Family.{update, update-same, update-other}
use python2c.Lcdclient
use python2c.Lcdclient.{Peer, Event, lock, unlock, opened, closed, connect, sent}

-- A thread is in no call, or has these events of its call still to make.
pub data Pc : Type 0 where
  idle : Pc
  running : List Event → Pc

-- An event that does not touch the mutex.
abbrev pub IsAct : Event → Type 0
IsAct lock = ⊥
IsAct unlock = ⊥
IsAct _ = Unit

-- A step, with the call that takes the mutex in it, as the list of its events.
pub data Move (sock_path : Bytes) (held : Bool) (trace : List Event)
    : Pc → Bool → List Event → Pc → List (List Event) → Type 0 where
  call :
      (peer : Peer) (cmd : Bytes)
      → Move sock_path held trace idle held trace
          (running (Lcdclient.send_cmd peer sock_path cmd).0)
          []
  take_lock :
      {es : List Event}
      → held ≡ false
      → Move sock_path held trace
          (running (lock ∷ es))
          true
          (trace ++ (lock ∷ []))
          (running es)
          ((lock ∷ es) ∷ [])
  give_lock :
      {es : List Event}
      → Move sock_path held trace
          (running (unlock ∷ es))
          false
          (trace ++ (unlock ∷ []))
          (running es)
          []
  act :
      {e : Event} {es : List Event}
      → IsAct e
      → Move sock_path held trace (running (e ∷ es)) held (trace ++ (e ∷ [])) (running es) []
  return : Move sock_path held trace (running []) held trace idle []

-- The mutex, what all threads have done, and what each is at; an index from `n` on names no thread.
pub record System : Type 0 where
  pub held : Bool
  pub trace : List Event
  pub pc : ℕ → Pc

pub data Step (sock_path : Bytes) (n : ℕ) (s : System) : System → List (List Event) → Type 0 where
  pick :
      (i : ℕ) {held : Bool} {trace : List Event} {p : Pc} {js : List (List Event)}
      → i < n
      → Move sock_path s.held s.trace (s.pc i) held trace p js
      → Step sock_path n s (record { held = held; trace = trace; pc = update s.pc i p }) js

abbrev pub at_rest : System
at_rest = record { held = false; trace = []; pc = λ _. Pc.idle }

-- With the calls that have taken the mutex, in order.
pub data Reach (sock_path : Bytes) (n : ℕ) : System → List (List Event) → Type 0 where
  start : Reach sock_path n at_rest []
  later :
      {s t : System} {js ks : List (List Event)}
      → Reach sock_path n s js
      → Step sock_path n s t ks
      → Reach sock_path n t (js ++ ks)

-- What is left of a call that has the mutex: acts, and the unlock as the last.
pub data Rest : List Event → Type 0 where
  last : Rest (unlock ∷ [])
  then_act : {e : Event} {es : List Event} → IsAct e → Rest es → Rest (e ∷ es)

-- A call of send_cmd, on every path.
abbrev pub IsSession : Bytes → List Event → Type 0
IsSession sock_path es =
    (peer : Peer) × (cmd : Bytes) × (es ≡ (Lcdclient.send_cmd peer sock_path cmd).0)

pub send_cmd-Rest :
    (peer : Peer) (sock_path cmd : Bytes)
    → (es : List Event) × ((Lcdclient.send_cmd peer sock_path cmd).0 ≡ lock ∷ es) × Rest es
unfolding Lcdclient.send_cmd
send_cmd-Rest peer sock_path cmd = elim (Bool-cases peer.socket_ok) [
  | inr no_socket ↦ rw no_socket (_, refl, last)
  | inl socket ↦ elim (Bool-cases (peer.connect_ok (take 107 sock_path))) [
    | inr refused ↦ rw (socket, refused) (_, refl, then_act tt (then_act tt (then_act tt last)))
    | inl accepted ↦
        rw (socket, accepted) (_, refl, then_act tt (then_act tt (then_act tt (then_act tt last))))
  ]
]
