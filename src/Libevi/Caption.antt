-- ===== src/Libevi/Caption.antt =====
-- package/libevi/src/evi_caption.c: the captions with the cache `ui`. Each locks, asks `need`
-- whether the screen must be drawn, draws it, keeps its key and unlocks.
pub mod Cache
pub mod Latest
use python2c.Base.{
  ℕ, Bool, true, false, not, ◌||◌, List, [], ◌∷◌, ◌++◌, Option, none, some, Bytes, codes,
  if◌then◌else◌, ◌==◌, ℤ, pos, ◌==ℤ◌, is_pos,
}
use Prim.Native.String.{String}
use python2c.Libevi.Hal.{HalCall, write_letters, write_graphic, delay_us, move_ddram}
use python2c.Libevi.Screen.{Ui, Lib, M, ◌>>◌, evi_lock, evi_unlock, hal, streq, store, begin}

abbrev pub scn_initial : ℕ
scn_initial = 1

abbrev pub scn_sysload : ℕ
scn_sysload = 2

abbrev pub scn_info1 : ℕ
scn_info1 = 3

abbrev pub scn_info2 : ℕ
scn_info2 = 4

abbrev pub scn_info3 : ℕ
scn_info3 = 5

abbrev pub scn_info4 : ℕ
scn_info4 = 6

abbrev pub scn_standby : ℕ
scn_standby = 7

-- The first call ever sets `inited` and draws.
unfoldable pub need : ℕ → Option Bytes → Option Bytes → ℤ → Ui → Ui × Bool
unfolding streq
need id a b e ui =
    if not ui.inited
    then (record ui { inited = true }, true)
    else if not (ui.id == id)
    then (ui, true)
    else if not (streq a (some ui.a))
    then (ui, true)
    else if not (streq b (some ui.b))
    then (ui, true)
    else if not (ui.extra ==ℤ e)
    then (ui, true)
    else (ui, false)

unfoldable pub keep : ℕ → Option Bytes → Option Bytes → ℤ → Ui → Ui
unfolding store
keep id a b e ui = record ui { id = id; extra = e; a = store a; b = store b }

unfoldable pub keep_op : ℕ → Option Bytes → Option Bytes → ℤ → Lib → Option Lib
unfolding keep
keep_op id a b e l = some (record l { ui = keep id a b e l.ui })

-- `if(!need(…)){ evi_unlock(); return; } begin(); …; keep(…); evi_unlock();` after `need`.
unfoldable pub draw_if :
    Bool → ℕ → Option Bytes → Option Bytes → ℤ → List HalCall → Lib → Option Lib
unfolding keep_op evi_unlock begin
draw_if false id a b e cs = evi_unlock
draw_if true id a b e cs = hal (begin ++ cs) >> keep_op id a b e >> evi_unlock

unfoldable pub asked : ℕ → Option Bytes → Option Bytes → ℤ → List HalCall → Lib → Option Lib
unfolding need draw_if
asked id a b e cs l =
    let (ui, draw) = need id a b e l.ui in draw_if draw id a b e cs (record l { ui = ui })

unfoldable pub caption : ℕ → Option Bytes → Option Bytes → ℤ → List HalCall → Lib → Option Lib
unfolding evi_lock asked
caption id a b e cs = evi_lock >> asked id a b e cs

abbrev pub big5 : ℕ → ℕ → List HalCall → List HalCall
big5 hi lo cs = write_graphic hi ∷ write_graphic lo ∷ delay_us 72 ∷ cs

abbrev pub letters : Option Bytes → HalCall
letters s = write_letters (some (elim s [ none ↦ [] | some t ↦ t ]))

unfoldable pub initial_calls : List HalCall
initial_calls =
    move_ddram 0
    ∷ write_letters (some (codes " Charger Initialization"))
    ∷ move_ddram 15
    ∷ big5 0xA5 0x52
        (big5 0xB9 0x71 (big5 0xBE 0xB9 (big5 0xAA 0xEC (big5 0xA9 0x6C (big5 0xA4 0xC6 [])))))

unfoldable pub evi_caption_initial : M
unfolding caption initial_calls
evi_caption_initial = caption scn_initial none none (pos 0) initial_calls

unfoldable pub system_loading_calls : List HalCall
system_loading_calls =
    move_ddram 2
    ∷ write_letters (some (codes "System Loading..."))
    ∷ move_ddram 15
    ∷ big5 0xA8 0x74 (big5 0xB2 0xCE (big5 0xB8 0xFC (big5 0xA4 0x4A (big5 0xA4 0xA4 []))))

unfoldable pub evi_caption_system_loading : M
unfolding caption system_loading_calls
evi_caption_system_loading = caption scn_sysload none none (pos 0) system_loading_calls

-- Two labels with a text each, at four addresses: the body of `evi_caption_info1` to `info4`.
unfoldable pub info_calls : String → ℕ → String → ℕ → Option Bytes → Option Bytes → List HalCall
info_calls first p second q x y =
    move_ddram 0
    ∷ write_letters (some (codes first))
    ∷ move_ddram p
    ∷ letters x
    ∷ move_ddram 12
    ∷ write_letters (some (codes second))
    ∷ move_ddram q
    ∷ letters y
    ∷ []

unfoldable pub evi_caption_info1 : Option Bytes → Option Bytes → M
unfolding caption info_calls
evi_caption_info1 m s = caption scn_info1 m s (pos 0) (info_calls "MCU Ver:" 5 "SoC Ver:" 17 m s)

unfoldable pub evi_caption_info2 : Option Bytes → Option Bytes → M
unfolding caption info_calls
evi_caption_info2 sn pn =
    caption scn_info2 sn pn (pos 0) (info_calls "SN:" 2 "Prod. Name:" 18 sn pn)

unfoldable pub evi_caption_info3 : Option Bytes → Option Bytes → M
unfolding caption info_calls
evi_caption_info3 mv mc =
    caption scn_info3 mv mc (pos 0) (info_calls "Meter Ver:" 6 "Max Current:" 19 mv mc)

unfoldable pub evi_caption_info4 : Option Bytes → Option Bytes → M
unfolding caption info_calls
evi_caption_info4 m2 c2 =
    caption scn_info4 m2 c2 (pos 0) (info_calls "Meter 2 Ver:" 7 "Max Current:" 19 m2 c2)

unfoldable pub standby_calls : ℤ → List HalCall
standby_calls d =
    move_ddram 2
    ∷ write_letters (some (codes " Charger Standby"))
    ∷ move_ddram 15
    ∷ big5 0xA5 0x52 (
        big5 0xB9 0x71 (
          big5 0xBE 0xB9 (
            big5 0xAB 0xDD (
              big5 0xBE 0xF7 (
                big5 0xA4 0xA4 (
                  if is_pos d then big5 0xA1 0x56 (big5 0xA9 0xB5 (big5 0xAE 0xC9 [])) else []))))))

unfoldable pub evi_caption_standby : ℤ → M
unfolding caption standby_calls
evi_caption_standby d = caption scn_standby none none d (standby_calls d)
