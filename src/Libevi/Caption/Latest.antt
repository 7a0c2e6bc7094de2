-- ===== src/Libevi/Caption/Latest.antt =====
-- Sequences of captions of package/libevi/src/evi_caption.c: what stands last on the display.
use Prim.Native.String.{String}
use python2c.Base.{
  ℕ, ◌≤◌, ◌≡◌, refl, sym, ap, ◌∙◌, inl, inr, true, false, List, [], ◌∷◌, ◌++◌, Option, none, some,
  Bytes, str_eq_iff, length, take-eq_of_le, arith, if◌then◌else◌, ◌==◌, Bool-cases, ℤ, ==ℤ_iff, All,
  ==_iff,
}
use python2c.Libevi.Hal.{HalCall}
use python2c.Libevi.Screen.{Lib, ◌>>◌, done, streq, store, begin, >>-some}
use python2c.Libevi.Caption
use python2c.Libevi.Caption.Cache.{
  Scene, initial, system_loading, info1, info2, info3, info4, standby, show, drawing, frame,
  scene_id, scene_a, scene_b, scene_extra, scene_hit, shown, show_old, show_new, hit,
}

unfoldable pub run : List Scene → Lib → Option Lib
run [] = done
run (sc ∷ scs) = show sc >> run scs

-- What a text shows: a null pointer is shown as no text.
abbrev plain : Option Bytes → Bytes
plain none = []
plain (some s) = s

-- The drawing by the key of the cache.
abbrev key_drawing : ℕ → Bytes → Bytes → ℤ → List HalCall
key_drawing id x y e =
    if id == 1
    then Caption.initial_calls
    else if id == 2
    then Caption.system_loading_calls
    else if id == 3
    then Caption.info_calls "MCU Ver:" 5 "SoC Ver:" 17 (some x) (some y)
    else if id == 4
    then Caption.info_calls "SN:" 2 "Prod. Name:" 18 (some x) (some y)
    else if id == 5
    then Caption.info_calls "Meter Ver:" 6 "Max Current:" 19 (some x) (some y)
    else if id == 6
    then Caption.info_calls "Meter 2 Ver:" 7 "Max Current:" 19 (some x) (some y)
    else Caption.standby_calls e

info_calls-plain :
    (s : String) (p : ℕ) (t : String) (q : ℕ) (x y : Option Bytes)
    → Caption.info_calls s p t q x y ≡ Caption.info_calls s p t q (some (plain x)) (some (plain y))
unfolding Caption.info_calls
info_calls-plain s p t q none none = refl
info_calls-plain s p t q none (some y) = refl
info_calls-plain s p t q (some x) none = refl
info_calls-plain s p t q (some x) (some y) = refl

drawing-key :
    (sc : Scene)
    → drawing sc
      ≡ key_drawing (scene_id sc) (plain (scene_a sc)) (plain (scene_b sc)) (scene_extra sc)
unfolding drawing
drawing-key initial = refl
drawing-key system_loading = refl
drawing-key (info1 m s) = info_calls-plain _ _ _ _ m s
drawing-key (info2 m s) = info_calls-plain _ _ _ _ m s
drawing-key (info3 m s) = info_calls-plain _ _ _ _ m s
drawing-key (info4 m s) = info_calls-plain _ _ _ _ m s
drawing-key (standby d) = refl

-- No longer than what the cache holds.
abbrev pub IsShort : Scene → Type 0
IsShort sc = (length (plain (scene_a sc)) ≤ 47) × (length (plain (scene_b sc)) ≤ 47)

-- The cache holds the key of a caption whose frame is the last on the display.
pub record Tracks (sc : Scene) (l : Lib) : Type 0 where
  pub free : l.locked ≡ false
  pub id_kept : l.ui.id ≡ scene_id sc
  pub extra_kept : l.ui.extra ≡ scene_extra sc
  pub a_kept : l.ui.a ≡ plain (scene_a sc)
  pub b_kept : l.ui.b ≡ plain (scene_b sc)
  pub before : List HalCall
  pub last_frame : l.calls ≡ before ++ frame sc

store-plain : (s : Option Bytes) → length (plain s) ≤ 47 → store s ≡ plain s
unfolding store
store-plain none h = refl
store-plain (some s) h = take-eq_of_le 47 s h

shown-Tracks : (sc : Scene) (l : Lib) → IsShort sc → Tracks sc (shown sc l)
shown-Tracks sc l h = record {
  free = refl;
  id_kept = refl;
  extra_kept = refl;
  a_kept = store-plain (scene_a sc) h.0;
  b_kept = store-plain (scene_b sc) h.1;
  before = l.calls;
  last_frame = refl;
}

streq-plain : (s : Option Bytes) (x : Bytes) → streq s (some x) ≡ true → plain s ≡ x
unfolding streq
streq-plain none x h = cc
streq-plain (some s) x h = (str_eq_iff s x).0 h

hit-key :
    (sc : Scene) (l : Lib)
    → scene_hit sc l ≡ true
    → (l.ui.inited ≡ true)
      × (l.ui.id ≡ scene_id sc)
      × (plain (scene_a sc) ≡ l.ui.a)
      × (plain (scene_b sc) ≡ l.ui.b)
      × (l.ui.extra ≡ scene_extra sc)
hit-key sc l h = ground (
  arith,
  streq-plain (scene_a sc) l.ui.a,
  streq-plain (scene_b sc) l.ui.b,
  ==_iff l.ui.id (scene_id sc),
  ==ℤ_iff l.ui.extra (scene_extra sc),
)

-- A hit means that the frame that stands last is the one asked for.
hit-drawing :
    (old sc : Scene) (l : Lib) → Tracks old l → scene_hit sc l ≡ true → frame sc ≡ frame old
hit-drawing old sc l t h =
    let key = hit-key sc l h in
    ap (λ cs. begin ++ cs)
      (drawing-key sc
        ∙ cc (key.1, key.2, key.3, key.4, t.id_kept, t.a_kept, t.b_kept, t.extra_kept)
        ∙ sym (drawing-key old))

hit-Tracks : (old sc : Scene) (l : Lib) → Tracks old l → scene_hit sc l ≡ true → Tracks sc l
hit-Tracks old sc l t h =
    let key = hit-key sc l h in
    record {
      free = t.free;
      id_kept = key.1;
      extra_kept = key.4;
      a_kept = sym key.2;
      b_kept = sym key.3;
      before = t.before;
      last_frame = t.last_frame ∙ ap (λ cs. t.before ++ cs) (sym (hit-drawing old sc l t h));
    }

show-Tracks :
    (old sc : Scene) (l : Lib)
    → Tracks old l
    → IsShort sc
    → (l' : Lib) × (show sc l ≡ some l') × Tracks sc l'
show-Tracks old sc l t short = elim (Bool-cases (scene_hit sc l)) [
  | inl hit ↦ (l, show_old sc l t.free hit, hit-Tracks old sc l t hit)
  | inr miss ↦ (shown sc l, show_new sc l t.free miss, shown-Tracks sc l short)
]

abbrev pub last_scene : Scene → List Scene → Scene
last_scene sc [] = sc
last_scene sc (x ∷ xs) = last_scene x xs

run-Tracks :
    (old : Scene) (scs : List Scene) (l : Lib)
    → Tracks old l
    → All IsShort scs
    → (l' : Lib) × (run scs l ≡ some l') × Tracks (last_scene old scs) l'
unfolding run
run-Tracks old [] l t h = (l, refl, t)
run-Tracks old (sc ∷ scs) l t h =
    let (l', shows, t') = show-Tracks old sc l t h.0 in
    let (l'', runs, t'') = run-Tracks sc scs l' t' h.1 in
    (l'', >>-some (show sc) (run scs) l shows ∙ runs, t'')

first_miss : (sc : Scene) (l : Lib) → l.ui.inited ≡ false → scene_hit sc l ≡ false
first_miss sc l h = ground arith

-- Any sequence of captions of evi_caption.c with texts of at most 47 bytes, null pointers included,
-- from a state with the lock free in which none has run: all calls return, the lock is
-- free again, and what was sent to the display ends with the frame of the last caption, whether or
-- not that call drew it.
pub run_latest :
    (sc : Scene) (scs : List Scene) (l : Lib)
    → l.locked ≡ false
    → l.ui.inited ≡ false
    → All IsShort (sc ∷ scs)
    → (l' : Lib) × (run (sc ∷ scs) l ≡ some l')
      × (l'.locked ≡ false)
      × ((before : List HalCall) × (l'.calls ≡ before ++ frame (last_scene sc scs)))
unfolding run
run_latest sc scs l free start h =
    let (l', runs, t) = run-Tracks sc scs (shown sc l) (shown-Tracks sc l h.0) h.1 in
    (
      l',
      >>-some (show sc) (run scs) l (show_new sc l free (first_miss sc l start)) ∙ runs,
      t.free,
      (t.before, t.last_frame),
    )
