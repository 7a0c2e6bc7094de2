-- ===== src/Libevi/Screen.antt =====
-- What the captions of package/libevi/src share: the two caches of evi_caption.c (`ui`) and
-- evi_charge_router.c (`u2`), the lock of evi_mutex.c, and the calls made of evi_hal.h. The lock
-- is a plain mutex: to take it a second time does not return, and the model gives `none`.
use python2c.Base.{
  ◌≡◌, arith, ℕ, Bool, true, false, List, [], ◌∷◌, ◌++◌, Option, none, some, Bytes, str_eq, take,
  ◌≡◌, arith, if◌then◌else◌, ℤ, pos,
}
use python2c.Libevi.Hal.{HalCall, write_instr, delay_us}

-- `ui` of evi_caption.c; the two arrays of 48 bytes as the strings that they hold.
pub record Ui : Type 0 where
  pub id : ℕ
  pub inited : Bool
  pub extra : ℤ
  pub a : Bytes
  pub b : Bytes

-- `u2` of evi_charge_router.c.
pub record Ui2 : Type 0 where
  pub id : ℕ
  pub a : Bytes
  pub b : Bytes

pub record Lib : Type 0 where
  pub ui : Ui
  pub u2 : Ui2
  pub locked : Bool
  pub calls : List HalCall

-- The state of the library as it is loaded.
abbrev pub loaded : Lib
loaded = record {
  ui = record { id = 0; inited = false; extra = pos 0; a = []; b = [] };
  u2 = record { id = 0; a = []; b = [] };
  locked = false;
  calls = [];
}

abbrev pub M : Type 0
M = Lib → Option Lib

infixl 5 ◌>>◌
abbrev pub ◌>>◌ : (Lib → Option Lib) → (Lib → Option Lib) → Lib → Option Lib
◌>>◌ m k l = elim (m l) [ none ↦ none | some l' ↦ k l' ]

abbrev pub done : M
done l = some l

unfoldable pub evi_lock : Lib → Option Lib
evi_lock l = if l.locked then none else some (record l { locked = true })

unfoldable pub evi_unlock : Lib → Option Lib
evi_unlock l = some (record l { locked = false })

abbrev pub hal : List HalCall → Lib → Option Lib
hal cs l = some (record l { calls = l.calls ++ cs })

-- `streq` of evi_caption.c, and `eq` of evi_charge_router.c, on pointers that may be null.
unfoldable pub streq : Option Bytes → Option Bytes → Bool
streq none none = true
streq (some x) (some y) = str_eq x y
streq _ _ = false

-- `x[0] = 0; if(s){ strncpy(x, s, 47); x[47] = 0; }` for an array of 48 bytes.
unfoldable pub store : Option Bytes → Bytes
store none = []
store (some s) = take 47 s

-- `begin`, the same in both files.
unfoldable pub begin : List HalCall
begin =
    write_instr 0x38
    ∷ delay_us 72
    ∷ write_instr 0x01
    ∷ delay_us 1600
    ∷ write_instr 0x0C
    ∷ delay_us 72
    ∷ []

pub evi_lock-free : (l : Lib) → l.locked ≡ false → evi_lock l ≡ some (record l { locked = true })
unfolding evi_lock
evi_lock-free l h = ground arith

pub evi_lock-held : (l : Lib) → l.locked ≡ true → evi_lock l ≡ none
unfolding evi_lock
evi_lock-held l h = ground arith

pub >>-some : (m k : Lib → Option Lib) (l : Lib) {l' : Lib} → m l ≡ some l' → (m >> k) l ≡ k l'
>>-some m k l e = rw (e, ◌>>◌)
