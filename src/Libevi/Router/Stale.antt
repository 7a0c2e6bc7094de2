-- ===== src/Libevi/Router/Stale.antt =====
-- The captions of package/libevi/src/evi_charge_router.c, and how their cache `u2` and the cache
-- `ui` of evi_caption.c, which know nothing of each other, act on one display.
use python2c.Base.{
  ℕ, ◌≡◌, refl, sym, ap, ◌∙◌, ◌⊎◌, inl, inr, Bool, true, false, ◌&&◌, List, ◌++◌, Option, none,
  some, Bytes, arith, if◌then◌else◌, ◌==◌, Bool-cases, ℤ,
}
use python2c.Libevi.Hal.{HalCall}
use python2c.Libevi.Charge
use python2c.Libevi.Screen.{Lib, M, ◌>>◌, streq, store, begin, evi_unlock, evi_lock-free, >>-some}
use python2c.Libevi.Caption.Cache.{
  Scene, show, frame, scene_a, scene_b, scene_hit, shown, shown-hit, show_old, show_new, Fits,
}
use python2c.Libevi.Router

-- The functions of evi_charge_router.c that draw, as values.
pub data Notice : Type 0 where
  preparing server_conn server_conn_failed server_conn_lost : Notice
  auth_waiting plug_in_waiting : ℤ → Notice
  get_m_value disp_complete : Option Bytes → Option Bytes → Notice

unfoldable pub notify : Notice → M
notify preparing = Router.evi_caption_preparing
notify server_conn = Router.evi_caption_server_conn
notify server_conn_failed = Router.evi_caption_server_conn_failed
notify server_conn_lost = Router.evi_caption_server_conn_lost
notify (auth_waiting s) = Router.evi_caption_auth_waiting s
notify (plug_in_waiting s) = Router.evi_caption_plug_in_waiting s
notify (get_m_value a b) = Router.evi_caption_get_m_value a b
notify (disp_complete a b) = Router.evi_caption_disp_complete a b

-- What a caption puts on the display when it draws; the waiting ones by the parity of the second.
unfoldable pub notice_drawing : Notice → List HalCall
notice_drawing preparing = Charge.evi_charge_preparing
notice_drawing server_conn = Charge.evi_charge_server_conn
notice_drawing server_conn_failed = Charge.evi_charge_server_conn_failed
notice_drawing server_conn_lost = Charge.evi_charge_server_conn_lost
notice_drawing (auth_waiting s) =
    if Router.is_even s then Charge.evi_charge_auth_wait_char else Charge.evi_charge_auth_wait_eng
notice_drawing (plug_in_waiting s) =
    if Router.is_even s
    then Charge.evi_charge_plugin_wait_char
    else Charge.evi_charge_plugin_wait_eng
notice_drawing (get_m_value a b) = Charge.evi_charge_get_mvalue
notice_drawing (disp_complete a b) = Charge.evi_charge_disp_complete

abbrev pub notice_id : Notice → ℕ
notice_id preparing = Router.scn_prep
notice_id server_conn = Router.scn_srv_conn
notice_id server_conn_failed = Router.scn_srv_fail
notice_id server_conn_lost = Router.scn_srv_lost
notice_id (auth_waiting s) = if Router.is_even s then Router.scn_auth_zh else Router.scn_auth_en
notice_id (plug_in_waiting s) =
    if Router.is_even s then Router.scn_plugin_zh else Router.scn_plugin_en
notice_id (get_m_value a b) = Router.scn_mval
notice_id (disp_complete a b) = Router.scn_done

abbrev pub notice_a : Notice → Option Bytes
notice_a (get_m_value a b) = a
notice_a (disp_complete a b) = a
notice_a _ = none

abbrev pub notice_b : Notice → Option Bytes
notice_b (get_m_value a b) = b
notice_b (disp_complete a b) = b
notice_b _ = none

pub notify-route :
    (r : Notice)
    → notify r ≡ Router.route (notice_id r) (notice_a r) (notice_b r) (notice_drawing r)
unfolding notify notice_drawing Router.evi_caption_preparing Router.evi_caption_server_conn
    Router.evi_caption_server_conn_failed Router.evi_caption_server_conn_lost
    Router.evi_caption_auth_waiting Router.evi_caption_plug_in_waiting
    Router.evi_caption_get_m_value Router.evi_caption_disp_complete
notify-route preparing = refl
notify-route server_conn = refl
notify-route server_conn_failed = refl
notify-route server_conn_lost = refl
notify-route (auth_waiting s) = elim (Bool-cases (Router.is_even s)) [ inl e ↦ rw e | inr e ↦ rw e ]
notify-route (plug_in_waiting s) = elim (Bool-cases (Router.is_even s)) [
  | inl e ↦ rw e
  | inr e ↦ rw e
]
notify-route (get_m_value a b) = refl
notify-route (disp_complete a b) = refl

abbrev pub hit2 : Notice → Lib → Bool
hit2 r l =
    l.u2.id == notice_id r && streq (notice_a r) (some l.u2.a) && streq (notice_b r) (some l.u2.b)

abbrev pub notified : Notice → Lib → Lib
notified r l = record l {
  u2 = record { id = notice_id r; a = store (notice_a r); b = store (notice_b r) };
  locked = false;
  calls = l.calls ++ (begin ++ notice_drawing r);
}

asked_lem :
    (id : ℕ) (a b : Option Bytes) (cs : List HalCall) (l : Lib)
    → Router.asked id a b cs l
      ≡ some (
          if l.u2.id == id && streq a (some l.u2.a) && streq b (some l.u2.b)
          then record l { locked = false }
          else record l {
            u2 = record { id = id; a = store a; b = store b };
            locked = false;
            calls = l.calls ++ (begin ++ cs);
          })
unfolding Router.asked Router.need2 Router.draw_if Router.keep2 evi_unlock
asked_lem id a b cs l = ground arith

pub notify_lem :
    (r : Notice) (l : Lib)
    → l.locked ≡ false
    → notify r l ≡ some (if hit2 r l then l else notified r l)
unfolding Router.route
notify_lem r l free =
    ap (λ (f : M). f l) (notify-route r)
    ∙ rw (evi_lock-free l free, ◌>>◌)
        (asked_lem (notice_id r) (notice_a r) (notice_b r) (notice_drawing r)
            (record l { locked = true })
          ∙ ap (λ f. some (if hit2 r l then record l { locked = f } else notified r l)) (sym free))

-- With the lock free, each caption of evi_charge_router.c returns with the lock free and leaves
-- the other cache alone; it adds to the display either nothing or its whole frame.
pub notify_frame :
    (r : Notice) (l : Lib)
    → l.locked ≡ false
    → (l' : Lib) × (notify r l ≡ some l')
      × (l'.locked ≡ false)
      × (l'.ui ≡ l.ui)
      × ((l'.calls ≡ l.calls) ⊎ (l'.calls ≡ l.calls ++ (begin ++ notice_drawing r)))
notify_frame r l free = elim (Bool-cases (hit2 r l)) [
  | inl old ↦ (
    l,
    notify_lem r l free ∙ ap (λ t. some (if t then l else notified r l)) old,
    free,
    refl,
    inl refl,
  )
  | inr new ↦ (
    notified r l,
    notify_lem r l free ∙ ap (λ t. some (if t then l else notified r l)) new,
    refl,
    refl,
    inr refl,
  )
]

hit2-none : (r : Notice) (l : Lib) → notice_a r ≡ none → hit2 r l ≡ false
unfolding streq
hit2-none r l h = ground arith

-- The captions with no text always draw.
pub notify_null :
    (r : Notice) (l : Lib) → l.locked ≡ false → notice_a r ≡ none → notify r l ≡ some (notified r l)
notify_null r l free h =
    notify_lem r l free ∙ ap (λ t. some (if t then l else notified r l)) (hit2-none r l h)

-- With the lock free: after a caption of evi_caption.c whose two texts are strings of at most 47
-- bytes, and one of evi_charge_router.c with a null first text, the first caption again returns
-- and draws nothing: the frame that stands last on the display is still the router's.
pub stale_after_notice :
    (sc : Scene) (r : Notice) (l : Lib)
    → l.locked ≡ false
    → Fits (scene_a sc)
    → Fits (scene_b sc)
    → notice_a r ≡ none
    → (l' : Lib) × ((show sc >> (notify r >> show sc)) l ≡ some l')
      × ((before : List HalCall) × (l'.calls ≡ before ++ (begin ++ notice_drawing r)))
stale_after_notice sc r l free ha hb h = elim (Bool-cases (scene_hit sc l)) [
  | inl old ↦ (
    notified r l,
    >>-some (show sc) (notify r >> show sc) l (show_old sc l free old)
        ∙ >>-some (notify r) (show sc) l (notify_null r l free h)
        ∙ show_old sc (notified r l) refl old,
    (l.calls, refl),
  )
  | inr new ↦ (
    notified r (shown sc l),
    >>-some (show sc) (notify r >> show sc) l (show_new sc l free new)
        ∙ >>-some (notify r) (show sc) (shown sc l) (notify_null r (shown sc l) refl h)
        ∙ show_old sc (notified r (shown sc l)) refl (shown-hit sc l ha hb),
    (l.calls ++ frame sc, refl),
  )
]
