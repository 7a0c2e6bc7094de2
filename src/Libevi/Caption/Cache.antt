-- ===== src/Libevi/Caption/Cache.antt =====
-- What the cache of package/libevi/src/evi_caption.c does to a sequence of captions.
use python2c.Base.{
  ℕ, ◌≤◌, ◌≡◌, refl, sym, ap, ◌∙◌, ◌⊎◌, inl, inr, Bool, true, false, ◌&&◌, List, ◌++◌, Option, none,
  some, Bytes, str_eq_refl, length, take-eq_of_le, arith, if◌then◌else◌, ◌==◌, Bool-cases, ℤ, pos,
  ◌==ℤ◌, ==ℤ_iff,
}
use python2c.Libevi.Hal.{HalCall}
use python2c.Libevi.Screen.{
  Ui, Lib, M, ◌>>◌, streq, store, begin, evi_unlock, evi_lock-free, evi_lock-held, >>-some,
}
use python2c.Libevi.Caption

-- The functions of evi_caption.c that draw, as values.
pub data Scene : Type 0 where
  initial system_loading : Scene
  info1 info2 info3 info4 : Option Bytes → Option Bytes → Scene
  standby : ℤ → Scene

unfoldable pub show : Scene → M
show initial = Caption.evi_caption_initial
show system_loading = Caption.evi_caption_system_loading
show (info1 m s) = Caption.evi_caption_info1 m s
show (info2 sn pn) = Caption.evi_caption_info2 sn pn
show (info3 mv mc) = Caption.evi_caption_info3 mv mc
show (info4 m2 c2) = Caption.evi_caption_info4 m2 c2
show (standby d) = Caption.evi_caption_standby d

-- What a caption puts on the display when it draws.
unfoldable pub drawing : Scene → List HalCall
drawing initial = Caption.initial_calls
drawing system_loading = Caption.system_loading_calls
drawing (info1 m s) = Caption.info_calls "MCU Ver:" 5 "SoC Ver:" 17 m s
drawing (info2 sn pn) = Caption.info_calls "SN:" 2 "Prod. Name:" 18 sn pn
drawing (info3 mv mc) = Caption.info_calls "Meter Ver:" 6 "Max Current:" 19 mv mc
drawing (info4 m2 c2) = Caption.info_calls "Meter 2 Ver:" 7 "Max Current:" 19 m2 c2
drawing (standby d) = Caption.standby_calls d

abbrev pub frame : Scene → List HalCall
frame sc = begin ++ drawing sc

abbrev pub scene_id : Scene → ℕ
scene_id initial = Caption.scn_initial
scene_id system_loading = Caption.scn_sysload
scene_id (info1 m s) = Caption.scn_info1
scene_id (info2 m s) = Caption.scn_info2
scene_id (info3 m s) = Caption.scn_info3
scene_id (info4 m s) = Caption.scn_info4
scene_id (standby d) = Caption.scn_standby

abbrev pub scene_a : Scene → Option Bytes
scene_a (info1 m s) = m
scene_a (info2 m s) = m
scene_a (info3 m s) = m
scene_a (info4 m s) = m
scene_a _ = none

abbrev pub scene_b : Scene → Option Bytes
scene_b (info1 m s) = s
scene_b (info2 m s) = s
scene_b (info3 m s) = s
scene_b (info4 m s) = s
scene_b _ = none

abbrev pub scene_extra : Scene → ℤ
scene_extra (standby d) = d
scene_extra _ = pos 0

pub show-caption :
    (sc : Scene)
    → show sc
      ≡ Caption.caption (scene_id sc) (scene_a sc) (scene_b sc) (scene_extra sc) (drawing sc)
unfolding show drawing Caption.evi_caption_initial Caption.evi_caption_system_loading
    Caption.evi_caption_info1 Caption.evi_caption_info2 Caption.evi_caption_info3
    Caption.evi_caption_info4 Caption.evi_caption_standby
show-caption initial = refl
show-caption system_loading = refl
show-caption (info1 m s) = refl
show-caption (info2 m s) = refl
show-caption (info3 m s) = refl
show-caption (info4 m s) = refl
show-caption (standby d) = refl

-- The state after a caption that drew.
abbrev pub drawn : ℕ → Option Bytes → Option Bytes → ℤ → List HalCall → Lib → Lib
drawn id a b e cs l = record l {
  ui = record { id = id; inited = true; extra = e; a = store a; b = store b };
  locked = false;
  calls = l.calls ++ (begin ++ cs);
}

-- The test of the cache.
abbrev pub hit : ℕ → Option Bytes → Option Bytes → ℤ → Ui → Bool
hit id a b e ui =
    ui.inited && ui.id == id && streq a (some ui.a) && streq b (some ui.b) && (ui.extra ==ℤ e)

asked_lem :
    (id : ℕ) (a b : Option Bytes) (e : ℤ) (cs : List HalCall) (l : Lib)
    → Caption.asked id a b e cs l
      ≡ some (if hit id a b e l.ui then record l { locked = false } else drawn id a b e cs l)
unfolding Caption.asked Caption.need Caption.draw_if Caption.keep_op Caption.keep evi_unlock
asked_lem id a b e cs l = ground arith

-- Both branches of a caption that finds the lock free.
pub caption_lem :
    (id : ℕ) (a b : Option Bytes) (e : ℤ) (cs : List HalCall) (l : Lib)
    → l.locked ≡ false
    → Caption.caption id a b e cs l ≡ some (if hit id a b e l.ui then l else drawn id a b e cs l)
unfolding Caption.caption
caption_lem id a b e cs l free =
    rw (evi_lock-free l free, ◌>>◌)
      (asked_lem id a b e cs (record l { locked = true })
        ∙ ap
            (λ f. some (if hit id a b e l.ui then record l { locked = f } else drawn id a b e cs l))
            (sym free))

-- A caption that is called with the lock held does not return.
pub caption_locked :
    (id : ℕ) (a b : Option Bytes) (e : ℤ) (cs : List HalCall) (l : Lib)
    → l.locked ≡ true
    → Caption.caption id a b e cs l ≡ none
unfolding Caption.caption
caption_locked id a b e cs l held = rw (evi_lock-held l held, ◌>>◌)

abbrev pub shown : Scene → Lib → Lib
shown sc = drawn (scene_id sc) (scene_a sc) (scene_b sc) (scene_extra sc) (drawing sc)

abbrev pub scene_hit : Scene → Lib → Bool
scene_hit sc l = hit (scene_id sc) (scene_a sc) (scene_b sc) (scene_extra sc) l.ui

pub show_lem :
    (sc : Scene) (l : Lib)
    → l.locked ≡ false
    → show sc l ≡ some (if scene_hit sc l then l else shown sc l)
show_lem sc l free = ap (λ (f : M). f l) (show-caption sc) ∙ caption_lem _ _ _ _ (drawing sc) l free

-- A text that the cache can hold: no null pointer, and shorter than its array of 48 bytes.
abbrev pub Fits : Option Bytes → Type 0
Fits none = ⊥
Fits (some s) = length s ≤ 47

streq-store : (s : Option Bytes) → Fits s → streq s (some (store s)) ≡ true
unfolding streq store
streq-store none h = absurd h
streq-store (some s) h = rw (take-eq_of_le 47 s h) (str_eq_refl s)

==_refl : (n : ℕ) → (n == n) ≡ true
==_refl n = ground arith

==ℤ_refl : (e : ℤ) → (e ==ℤ e) ≡ true
==ℤ_refl e = (==ℤ_iff e e).1 refl

pub shown-hit :
    (sc : Scene) (l : Lib)
    → Fits (scene_a sc)
    → Fits (scene_b sc)
    → scene_hit sc (shown sc l) ≡ true
shown-hit sc l ha hb = rw (==_refl, streq-store _ ha, streq-store _ hb, ==ℤ_refl)

pub show_old :
    (sc : Scene) (l : Lib) → l.locked ≡ false → scene_hit sc l ≡ true → show sc l ≡ some l
show_old sc l free old = show_lem sc l free ∙ ap (λ t. some (if t then l else shown sc l)) old

pub show_new :
    (sc : Scene) (l : Lib)
    → l.locked ≡ false
    → scene_hit sc l ≡ false
    → show sc l ≡ some (shown sc l)
show_new sc l free new = show_lem sc l free ∙ ap (λ t. some (if t then l else shown sc l)) new

-- With the lock free and both texts strings of at most 47 bytes, to show a caption twice is to
-- show it once.
pub show_twice :
    (sc : Scene) (l : Lib)
    → l.locked ≡ false
    → Fits (scene_a sc)
    → Fits (scene_b sc)
    → (show sc >> show sc) l ≡ show sc l
show_twice sc l free ha hb = elim (Bool-cases (scene_hit sc l)) [
  | inl old ↦ >>-some (show sc) (show sc) l (show_old sc l free old)
  | inr new ↦
      >>-some (show sc) (show sc) l (show_new sc l free new)
      ∙ show_old sc (shown sc l) refl (shown-hit sc l ha hb)
      ∙ sym (show_new sc l free new)
]

streq-none : (s : Bytes) → streq none (some s) ≡ false
unfolding streq
streq-none s = refl

hit-none :
    (sc : Scene) (l : Lib) → (scene_a sc ≡ none) ⊎ (scene_b sc ≡ none) → scene_hit sc l ≡ false
unfolding streq
hit-none sc l h = ground arith

-- With the lock free, a caption one of whose texts is a null pointer, as both are for the initial
-- screen, the loading screen and the standby screen, draws its whole frame whatever the cache
-- holds.
pub show_null :
    (sc : Scene) (l : Lib)
    → l.locked ≡ false
    → (scene_a sc ≡ none) ⊎ (scene_b sc ≡ none)
    → (l' : Lib) × (show sc l ≡ some l') × (l'.calls ≡ l.calls ++ frame sc)
show_null sc l free h = (shown sc l, show_new sc l free (hit-none sc l h), refl)
