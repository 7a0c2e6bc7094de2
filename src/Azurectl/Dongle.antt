-- ===== src/Azurectl/Dongle.antt =====
-- package/evi-azurectl/src/usb_dongle.c: switching a port of the USB relay board.
pub mod Reading
pub mod Setting
use Prim.Native.Nat.{bit_xor}
use python2c.Base.{
  ℕ, zero, suc, ◌+◌, ◌-◌, ◌%◌, Bool, true, false, ◌&&◌, ◌||◌, List, [], ◌∷◌, ◌++◌, Option, none,
  some, Bytes, codes, str_eq, length, take, if◌then◌else◌, ◌==◌, ltb, leb, ℤ, pos, negsuc,
}

-- What the system gives: the paths that `glob` finds, `none` if it fails, whether one opens, what
-- `write` returns for the bytes written, and what the `read` of each round returns for the count
-- asked for; `none` is a return of -1.
pub record Board : Type 0 where
  pub glob : Option (List Bytes)
  pub opens : Bytes → Bool
  pub write : Bytes → Option ℕ
  pub read : ℕ → ℕ → Option Bytes

pub data BoardEvent : Type 0 where
  opened : BoardEvent
  flushed_both flushed_input : BoardEvent
  written : Bytes → BoardEvent
  slept : ℕ → BoardEvent
  closed : BoardEvent

-- What is in `path`, of `len` bytes; `none` is a return of -1.
unfoldable pub find_tty_usb : Option (List Bytes) → ℕ → Option Bytes
find_tty_usb none len = none
find_tty_usb (some []) len = none
find_tty_usb (some (first ∷ others)) len = some (take (len - 1) first)

-- `NORMAL_CLOSE[port-1]`
unfoldable pub normal_close : ℕ → ℕ
normal_close port = if port == 1 then 0 else 1

abbrev pub need_min : ℕ
need_min = 40

abbrev pub resp_size : ℕ
resp_size = 128

unfoldable pub newlines : Bytes → ℕ
newlines [] = 0
newlines (c ∷ cs) = let n = newlines cs in if c == b'\n' then suc n else n

-- What a round does after its `read`: with the bytes so far and the lines counted, go on or stop.
pub data Round : Type 0 where
  stop : Bytes → Round
  again : Bytes → ℕ → Round

unfoldable pub round : Option Bytes → Bytes → ℕ → Round
unfolding newlines
round none resp lines = if leb need_min (length resp) then stop resp else again resp lines
round (some []) resp lines = if leb need_min (length resp) then stop resp else again resp lines
round (some (b ∷ bs)) resp lines =
    let total = resp ++ (b ∷ bs) in
    let lines' = lines + newlines (b ∷ bs) in
    if leb need_min (length total) && leb 4 lines'
    then stop total
    else if leb resp_size (length total)
    then stop total
    else again total lines'

-- The loop, with the rounds left: `resp[0..total)` at its end.
unfoldable pub read_loop : (ℕ → ℕ → Option Bytes) → ℕ → ℕ → Bytes → ℕ → Bytes
unfolding round
read_loop read zero tries resp lines = resp
read_loop read (suc left) tries resp lines =
    elim (round (read tries (resp_size - length resp)) resp lines) [
      | stop total ↦ total
      | again total lines' ↦ read_loop read left (suc tries) total lines'
    ]

-- The setting, with its checksum.
unfoldable pub set_message : Bytes → ℕ → Bytes
unfolding normal_close
set_message act port =
    let real = bit_xor (if str_eq act (codes "On") then 1 else 0) (normal_close port) in
    0xA0 ∷ port ∷ real ∷ ((0xA0 + port + real) % 256) ∷ []

-- `serial_write(...) == n`
unfoldable pub took : Option ℕ → ℕ → Bool
took none n = false
took (some m) n = m == n

-- From the query on, with the setting sent.
unfoldable pub query : Board → List BoardEvent → ℤ × List BoardEvent
query board done =
    if took (board.write (0xFF ∷ [])) 1
    then (
      if leb need_min (length (read_loop board.read 20 0 [] 0)) then pos 0 else negsuc 4,
      done ++ (slept 500000 ∷ written (0xFF ∷ []) ∷ flushed_input ∷ closed ∷ []),
    )
    else (negsuc 3, done ++ (slept 500000 ∷ written (0xFF ∷ []) ∷ closed ∷ []))

-- With the board open.
unfoldable pub set_and_query : Board → Bytes → ℕ → ℤ × List BoardEvent
set_and_query board act port =
    let msg = set_message act port in
    if took (board.write msg) 4
    then query board (opened ∷ flushed_both ∷ written msg ∷ [])
    else (negsuc 2, opened ∷ flushed_both ∷ written msg ∷ closed ∷ [])

-- Callers pass an `act` that is no null pointer. The sleeps between the reads are not recorded.
unfoldable pub usb_set_port : Board → Bytes → ℕ → ℤ × List BoardEvent
unfolding find_tty_usb
usb_set_port board act port =
    if ltb port 1 || ltb 4 port then (negsuc 9, []) else elim (find_tty_usb board.glob 64) [
      | none ↦ (negsuc 0, [])
      | some dev ↦ if board.opens dev then set_and_query board act port else (negsuc 1, [])
    ]
