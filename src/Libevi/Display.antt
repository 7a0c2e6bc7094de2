-- ===== src/Libevi/Display.antt =====
-- The captions of package/libevi/src/evi_caption.c on the display itself, through the driver of
-- evi_hal_mt7688_gpio.c.
use Prim.Native.String.{String}
use python2c.Base.{
  ℕ, ◌<◌, ◌≡◌, refl, sym, ap, ◌∙◌, inl, inr, false, List, [], ◌∷◌, ◌++◌, append_assoc, append-nil,
  Option, none, some, Bytes, IsByte, codes, arith, Bool-cases, All, All-append,
}
use mathlib.Core.Option.{some-injective}
use python2c.Libevi.Hal
use python2c.Libevi.Hal.{HalCall}
use python2c.Libevi.Hal.Bus.{Bus, watch, split_bytes, init_nibbles}
use python2c.Libevi.Hal.Traffic.{meanings, HasBytes, fresh, from_power_up, split_bytes-append}
use python2c.Libevi.Screen.{Lib, loaded, begin, >>-some}
use python2c.Libevi.Caption
use python2c.Libevi.Caption.Cache.{
  Scene, initial, system_loading, info1, info2, info3, info4, standby, show, drawing, frame,
  scene_a, scene_b, scene_hit, shown, show_old, show_new,
}
use python2c.Libevi.Caption.Latest.{run, IsShort, last_scene, run_latest}

abbrev TextBytes : Option Bytes → Type 0
TextBytes none = Unit
TextBytes (some s) = All IsByte s

-- The texts of a caption are byte strings.
abbrev pub SceneBytes : Scene → Type 0
SceneBytes sc = TextBytes (scene_a sc) × TextBytes (scene_b sc)

letters-HasBytes : (s : Option Bytes) → TextBytes s → HasBytes (Caption.letters s)
letters-HasBytes none h = tt
letters-HasBytes (some s) h = h

pub begin-HasBytes : All HasBytes begin
unfolding begin
begin-HasBytes = omega arith

info_calls-HasBytes :
    (s : String) (p : ℕ) (t : String) (q : ℕ) (x y : Option Bytes)
    → All IsByte (codes s)
    → All IsByte (codes t)
    → p < 256
    → q < 256
    → TextBytes x
    → TextBytes y
    → All HasBytes (Caption.info_calls s p t q x y)
unfolding Caption.info_calls
info_calls-HasBytes s p t q x y hs ht hp hq hx hy = (
  omega arith,
  (hs, (hp, (letters-HasBytes x hx, (omega arith, (ht, (hq, (letters-HasBytes y hy, tt))))))),
)

drawing-HasBytes : (sc : Scene) → SceneBytes sc → All HasBytes (drawing sc)
unfolding drawing Caption.initial_calls Caption.system_loading_calls Caption.standby_calls
drawing-HasBytes initial h = omega arith
drawing-HasBytes system_loading h = omega arith
drawing-HasBytes (info1 m s) h =
    info_calls-HasBytes _ _ _ _ m s (omega arith) (omega arith) (omega arith) (omega arith) h.0 h.1
drawing-HasBytes (info2 m s) h =
    info_calls-HasBytes _ _ _ _ m s (omega arith) (omega arith) (omega arith) (omega arith) h.0 h.1
drawing-HasBytes (info3 m s) h =
    info_calls-HasBytes _ _ _ _ m s (omega arith) (omega arith) (omega arith) (omega arith) h.0 h.1
drawing-HasBytes (info4 m s) h =
    info_calls-HasBytes _ _ _ _ m s (omega arith) (omega arith) (omega arith) (omega arith) h.0 h.1
drawing-HasBytes (standby d) h = ground arith

pub frame-HasBytes : (sc : Scene) → SceneBytes sc → All HasBytes (frame sc)
frame-HasBytes sc h = All-append HasBytes begin (drawing sc) begin-HasBytes (drawing-HasBytes sc h)

-- The calls that a run adds to the display have byte arguments.
run-HasBytes :
    (scs : List Scene) (l : Lib)
    → l.locked ≡ false
    → All SceneBytes scs
    → {l' : Lib} → run scs l ≡ some l'
    → (more : List HalCall) × (l'.calls ≡ l.calls ++ more) × All HasBytes more
unfolding run
run-HasBytes [] l free h {l'} e =
    ([], ap (λ (t : Lib). t.calls) (sym (some-injective l l' e)) ∙ sym (append-nil l.calls), tt)
run-HasBytes (sc ∷ scs) l free h e = elim (Bool-cases (scene_hit sc l)) [
  | inl old ↦
      run-HasBytes scs l free h.1 (sym (>>-some (show sc) (run scs) l (show_old sc l free old)) ∙ e)
  | inr new ↦
      let (more, adds, bytes) =
        run-HasBytes scs (shown sc l) refl h.1
          (sym (>>-some (show sc) (run scs) l (show_new sc l free new)) ∙ e) in
      (
        frame sc ++ more,
        adds ∙ append_assoc l.calls (frame sc) more,
        All-append HasBytes (frame sc) more (frame-HasBytes sc h.0) bytes,
      )
]

pub meanings-append : (xs ys : List HalCall) → meanings (xs ++ ys) ≡ meanings xs ++ meanings ys
meanings-append [] ys = refl
meanings-append (x ∷ xs) ys = rw (meanings-append xs ys, append_assoc)

-- The calls of a run start with the first call of `begin`.
run_calls_of :
    (sc : Scene) (scs : List Scene) {l' : Lib}
    → All SceneBytes (sc ∷ scs)
    → run (sc ∷ scs) loaded ≡ some l'
    → (cs : List HalCall) × (l'.calls ≡ Hal.HalCall.write_instr 0x38 ∷ cs)
      × All HasBytes (Hal.HalCall.write_instr 0x38 ∷ cs)
unfolding begin run
run_calls_of sc scs h e =
    let (more, adds, bytes) =
      run-HasBytes scs (shown sc loaded) refl h.1
        (sym (>>-some (show sc) (run scs) loaded (show_new sc loaded refl refl)) ∙ e) in
    (_, adds, All-append HasBytes (frame sc) more (frame-HasBytes sc h.0) bytes)

pub display_latest :
    (sc : Scene) (scs : List Scene) (b : Bus)
    → All IsShort (sc ∷ scs)
    → All SceneBytes (sc ∷ scs)
    → b.taken ≡ []
    → (l' : Lib) × (run (sc ∷ scs) loaded ≡ some l')
      × ((earlier : List (ℕ × ℕ)) × ((watch (Hal.run_calls l'.calls fresh).ops b).taken
            ≡ init_nibbles ++ (earlier ++ split_bytes (meanings (frame (last_scene sc scs))))))
display_latest sc scs b short bytes e =
    let (l', runs, free, (before, last)) = run_latest sc scs loaded refl refl short in
    let (cs, head, ok) = run_calls_of sc scs bytes runs in
    let sent = ap meanings (sym head ∙ last) ∙ meanings-append before (frame (last_scene sc scs)) in
    (
      l',
      runs,
      (
        split_bytes (meanings before),
        rw head (from_power_up (Hal.HalCall.write_instr 0x38) cs b refl e)
            ∙ ap (λ ns. init_nibbles ++ ns)
                (ap split_bytes sent ∙ split_bytes-append (meanings before) _),
      ),
    )
