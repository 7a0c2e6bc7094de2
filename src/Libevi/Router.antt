-- ===== src/Libevi/Router.antt =====
-- package/libevi/src/evi_charge_router.c: the captions with the cache `u2`.
pub mod Stale
use python2c.Base.{
  ℕ, ◌%◌, ◌+◌, Bool, true, false, not, List, ◌++◌, Option, none, some, Bytes, if◌then◌else◌, ◌==◌,
  ℤ, pos, negsuc,
}
use python2c.Libevi.Hal.{HalCall}
use python2c.Libevi.Charge
use python2c.Libevi.Screen.{Ui2, Lib, M, ◌>>◌, evi_lock, evi_unlock, hal, streq, store, begin}

abbrev pub scn_prep : ℕ
scn_prep = 100

abbrev pub scn_auth_zh : ℕ
scn_auth_zh = 101

abbrev pub scn_auth_en : ℕ
scn_auth_en = 102

abbrev pub scn_plugin_zh : ℕ
scn_plugin_zh = 103

abbrev pub scn_plugin_en : ℕ
scn_plugin_en = 104

abbrev pub scn_srv_conn : ℕ
scn_srv_conn = 105

abbrev pub scn_srv_fail : ℕ
scn_srv_fail = 106

abbrev pub scn_srv_lost : ℕ
scn_srv_lost = 107

abbrev pub scn_mval : ℕ
scn_mval = 108

abbrev pub scn_done : ℕ
scn_done = 109

unfoldable pub need2 : ℕ → Option Bytes → Option Bytes → Ui2 → Bool
unfolding streq
need2 id a b u2 =
    if not (u2.id == id)
    then true
    else if not (streq a (some u2.a))
    then true
    else if not (streq b (some u2.b))
    then true
    else false

unfoldable pub keep2 : ℕ → Option Bytes → Option Bytes → Lib → Option Lib
unfolding store
keep2 id a b l = some (record l { u2 = record { id = id; a = store a; b = store b } })

unfoldable pub draw_if : Bool → ℕ → Option Bytes → Option Bytes → List HalCall → Lib → Option Lib
unfolding keep2 evi_unlock begin
draw_if false id a b cs = evi_unlock
draw_if true id a b cs = hal (begin ++ cs) >> keep2 id a b >> evi_unlock

unfoldable pub asked : ℕ → Option Bytes → Option Bytes → List HalCall → Lib → Option Lib
unfolding need2 draw_if
asked id a b cs l = draw_if (need2 id a b l.u2) id a b cs l

unfoldable pub route : ℕ → Option Bytes → Option Bytes → List HalCall → Lib → Option Lib
unfolding evi_lock asked
route id a b cs = evi_lock >> asked id a b cs

unfoldable pub evi_caption_preparing : M
unfolding route Charge.evi_charge_preparing
evi_caption_preparing = route scn_prep none none Charge.evi_charge_preparing

-- `(s % 2) == 0`, where C's remainder of a negative number is -1 or 0.
unfoldable pub is_even : ℤ → Bool
is_even (pos n) = n % 2 == 0
is_even (negsuc n) = (n + 1) % 2 == 0

unfoldable pub evi_caption_auth_waiting : ℤ → M
unfolding route is_even Charge.evi_charge_auth_wait_char Charge.evi_charge_auth_wait_eng
evi_caption_auth_waiting s =
    let id = if is_even s then scn_auth_zh else scn_auth_en in
    route id none none (
      if id == scn_auth_zh
      then Charge.evi_charge_auth_wait_char
      else Charge.evi_charge_auth_wait_eng)

unfoldable pub evi_caption_plug_in_waiting : ℤ → M
unfolding route is_even Charge.evi_charge_plugin_wait_char Charge.evi_charge_plugin_wait_eng
evi_caption_plug_in_waiting s =
    let id = if is_even s then scn_plugin_zh else scn_plugin_en in
    route id none none (
      if id == scn_plugin_zh
      then Charge.evi_charge_plugin_wait_char
      else Charge.evi_charge_plugin_wait_eng)

unfoldable pub evi_caption_server_conn : M
unfolding route Charge.evi_charge_server_conn
evi_caption_server_conn = route scn_srv_conn none none Charge.evi_charge_server_conn

unfoldable pub evi_caption_server_conn_failed : M
unfolding route Charge.evi_charge_server_conn_failed
evi_caption_server_conn_failed = route scn_srv_fail none none Charge.evi_charge_server_conn_failed

unfoldable pub evi_caption_server_conn_lost : M
unfolding route Charge.evi_charge_server_conn_lost
evi_caption_server_conn_lost = route scn_srv_lost none none Charge.evi_charge_server_conn_lost

unfoldable pub evi_caption_get_m_value : Option Bytes → Option Bytes → M
unfolding route Charge.evi_charge_get_mvalue
evi_caption_get_m_value a b = route scn_mval a b Charge.evi_charge_get_mvalue

unfoldable pub evi_caption_disp_complete : Option Bytes → Option Bytes → M
unfolding route Charge.evi_charge_disp_complete
evi_caption_disp_complete a b = route scn_done a b Charge.evi_charge_disp_complete
