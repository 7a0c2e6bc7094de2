-- ===== src/Lcdsvc/Daemon/Protocol.antt =====
-- What a client's bytes make the daemon do: bytes only, for the display on the configured pins.
use python2c.Base.{
  ℕ, zero, suc, ◌%◌, ◌<◌, refl, Bool, true, false, List, [], ◌∷◌, ◌++◌, All, All-append, All-drop,
  arith, Option, none, some, Bytes, until_zero, if◌then◌else◌, ◌==◌, drop, codes, starts_with,
}
use python2c.Base.Scan.{scan_hex}
use python2c.Lcdsvc.Service
use python2c.Lcdsvc.Service.{
  LcdPins, Action, hw_init, clear, home, write_instr, set_ddram, write_text, reply, cut_line,
  hex_command,
}
use python2c.Lcdsvc.Service.Lines.{flat}
use python2c.Lcdsvc.Hw.Run.{IsFor}

abbrev pub AreBytes : Bytes → Type 0
AreBytes = All (λ c. c < 256)

until_zero-AreBytes : (s : Bytes) → AreBytes s → AreBytes (until_zero s)
unfolding until_zero
until_zero-AreBytes [] h = tt
until_zero-AreBytes (c ∷ cs) h = ground (arith, until_zero-AreBytes cs h.1)

All-if {ℓ κ} :
    {A : Type ℓ} (P : A → Type κ) (t : Bool) (xs ys : List A)
    → All P xs
    → All P ys
    → All P (if t then xs else ys)
All-if P true xs ys h k = h
All-if P false xs ys h k = k

-- Both parts of a line cut off are bytes.
abbrev BothAreBytes : Option (Bytes × Bytes) → Type 0
BothAreBytes none = Unit
BothAreBytes (some (line, more)) = AreBytes line × AreBytes more

cut_one :
    (nl : Bool) (c : ℕ) (cs : Bytes) (rest : Option (Bytes × Bytes))
    → AreBytes (c ∷ cs)
    → BothAreBytes rest
    → BothAreBytes (
        if nl then some ([], cs) else elim rest as (λ _. Option (Bytes × Bytes)) [
          | none ↦ none
          | some (line, more) ↦ some (c ∷ line, more)
        ])
cut_one true c cs rest h k = (tt, h.1)
cut_one false c cs none h k = tt
cut_one false c cs (some (line, more)) h k = ((h.0, k.0), k.1)

cut_line-AreBytes : (p : Bytes) → AreBytes p → BothAreBytes (cut_line p)
unfolding cut_line
cut_line-AreBytes [] h = tt
cut_line-AreBytes (c ∷ cs) h = cut_one (c == b'\n') c cs (cut_line cs) h (cut_line-AreBytes cs h.1)

module _ (uci : Bytes → Option Bytes) where
  abbrev pub pins : LcdPins
  pins = Service.load_pins_from_uci uci

  hex_command-IsFor :
      (act : ℕ → Action) (s : Bytes)
      → ((v : ℕ) → v < 256 → IsFor pins (act v))
      → All (IsFor pins) (hex_command act s)
  unfolding hex_command Service.parse_hex
  hex_command-IsFor act s h = only (scan_hex s)
    where
      only :
          (o : Option ℕ)
          → All
              (IsFor pins)
              (elim (elim o as (λ _. Option ℕ) [ none ↦ none | some v ↦ some (v % 256) ])
                as (λ _. List Action) [
                  | none ↦ reply (codes "ERR badhex\n") ∷ []
                  | some v ↦ act v ∷ Service.ok_reply ∷ []
                ])
      only none = (tt, tt)
      only (some v) = (h (v % 256) (omega arith), (tt, tt))

  dispatch-IsFor : (line : Bytes) → AreBytes line → All (IsFor pins) (Service.dispatch uci line)
  unfolding Service.dispatch
  dispatch-IsFor line h =
      All-if _ (starts_with line (codes "INIT")) _ _ (refl, (tt, tt))
        (All-if _ (starts_with line (codes "CLEAR")) _ _ (tt, (tt, tt))
          (All-if _ (starts_with line (codes "HOME")) _ _ (tt, (tt, tt))
            (All-if _ (starts_with line (codes "INSTR ")) _ _
              (hex_command-IsFor write_instr (drop 6 line) (λ v lt. lt))
              (All-if _ (starts_with line (codes "PUT ")) _ _ (All-drop _ 4 line h, (tt, tt))
                (All-if _ (starts_with line (codes "DDRAM ")) _ _
                  (hex_command-IsFor set_ddram (drop 6 line) (λ v lt. lt)) (tt, tt))))))

  line_loop-IsFor : (f : ℕ) (p : Bytes) → AreBytes p → All (IsFor pins) (Service.line_loop uci f p)
  unfolding Service.line_loop
  line_loop-IsFor zero p h = tt
  line_loop-IsFor (suc f) p h = rounds (line_loop-IsFor f) (cut_line p) (cut_line-AreBytes p h)
    where
      rounds :
          ((more : Bytes) → AreBytes more → All (IsFor pins) (Service.line_loop uci f more))
          → (o : Option (Bytes × Bytes)) → BothAreBytes o
          → All (IsFor pins) (elim o as (λ _. List Action) [
            | none ↦ []
            | some (line, more) ↦ Service.dispatch uci line ++ Service.line_loop uci f more
          ])
      rounds later none k = tt
      rounds later (some (line, more)) k =
          All-append _ _ _ (dispatch-IsFor line k.0) (later more k.1)

  handle_client-IsFor :
      (chunks : List Bytes)
      → All AreBytes chunks
      → All (IsFor pins) (Service.handle_client uci chunks)
  unfolding Service.handle_client Service.handle_chunk
  handle_client-IsFor [] h = tt
  handle_client-IsFor ([] ∷ chunks) h = tt
  handle_client-IsFor ((c ∷ cs) ∷ chunks) h =
      All-append _ _ _ (line_loop-IsFor _ _ (until_zero-AreBytes (c ∷ cs) h.0))
        (handle_client-IsFor chunks h.1)

  -- What a round of the loop makes the daemon do.
  abbrev pub round_actions : Option (List Bytes) → List Action
  round_actions none = []
  round_actions (some chunks) = Service.handle_client uci chunks

  abbrev pub RoundsAreBytes : List (Option (List Bytes)) → Type 0
  RoundsAreBytes [] = Unit
  RoundsAreBytes (none ∷ rounds) = RoundsAreBytes rounds
  RoundsAreBytes (some chunks ∷ rounds) = All AreBytes chunks × RoundsAreBytes rounds

  pub rounds-IsFor :
      (rounds : List (Option (List Bytes)))
      → RoundsAreBytes rounds
      → All (IsFor pins) (flat round_actions rounds)
  rounds-IsFor [] h = tt
  rounds-IsFor (none ∷ rounds) h = rounds-IsFor rounds h
  rounds-IsFor (some chunks ∷ rounds) h =
      All-append _ _ _ (handle_client-IsFor chunks h.0) (rounds-IsFor rounds h.1)
