-- ===== src/Azurectl/Modbus.antt =====
-- package/evi-azurectl/src/modbus_rtu.c: reading holding registers over a serial line.
pub mod Crc
pub mod Reply
pub mod Accept
pub mod Sound
pub mod Arrival
use Prim.Native.Nat.{bit_xor}
use python2c.Base.{
  ℕ, zero, suc, ◌+◌, ◌*◌, ◌/◌, ◌%◌, Bool, true, false, not, ◌||◌, List, [], ◌∷◌, ◌++◌, Option, none,
  some, Bytes, take, drop, length, if◌then◌else◌, ◌==◌, ltb, ℤ, pos, negsuc,
}

-- One round of `crc = (crc & 1) ? ((crc >> 1) ^ 0xA001) : (crc >> 1)`.
unfoldable pub crc_round : ℕ → ℕ
crc_round crc = if crc % 2 == 1 then bit_xor (crc / 2) 0xA001 else crc / 2

unfoldable pub crc_rounds : ℕ → ℕ → ℕ
crc_rounds zero crc = crc
crc_rounds (suc n) crc = crc_rounds n (crc_round crc)

-- One byte: `crc ^= data[i]`, and eight rounds.
unfoldable pub crc_byte : ℕ → ℕ → ℕ
crc_byte crc b = crc_rounds 8 (bit_xor crc b)

unfoldable pub crc_loop : ℕ → Bytes → ℕ
crc_loop crc [] = crc
crc_loop crc (b ∷ bs) = crc_loop (crc_byte crc b) bs

unfoldable pub crc16 : Bytes → ℕ
crc16 bytes = crc_loop 0xFFFF bytes

-- What the system gives for one request: whether the line opens, what `write` returns for the bytes
-- written, and what the first and the second `read` return, each for the count asked for;
-- `none` is a return of -1.
pub record SerialLine : Type 0 where
  pub opens : Bool
  pub write : Bytes → Option ℕ
  pub read_hdr : ℕ → Option Bytes
  pub read_body : ℕ → Option Bytes

pub data SerialEvent : Type 0 where
  opened : SerialEvent
  flushed : SerialEvent
  written : Bytes → SerialEvent
  slept : ℕ → SerialEvent
  read_asked : ℕ → SerialEvent
  closed : SerialEvent

-- The return code, `out` with `*outn` where it is set, and what was done with the line.
pub record Outcome : Type 0 where
  pub code : ℤ
  pub out : Option (Bytes × ℕ)
  pub events : List SerialEvent

-- `req` with its checksum; `addr` and `count` are uint16_t.
unfoldable pub request : ℕ → ℕ → ℕ → Bytes
request id addr count =
    let body : Bytes =
      id ∷ 0x03 ∷ (addr / 256) ∷ (addr % 256) ∷ (count / 256) ∷ (count % 256) ∷ [] in
    body ++ ((crc16 body % 256) ∷ (crc16 body / 256) ∷ [])

-- `out[n] | (out[n + 1] << 8)` behind the first `n` bytes.
unfoldable pub crc_received : Bytes → ℕ
crc_received (lo ∷ hi ∷ rest) = lo + hi * 256
crc_received _ = 0

-- From the checksum on: `hdr` and the `bytecnt + 2` bytes of `out` are read.
unfoldable pub check_crc : Bytes → ℕ → Bytes → List SerialEvent → Outcome
check_crc hdr bytecnt out done =
    if crc_loop (crc_loop 0xFFFF hdr) (take bytecnt out) == crc_received (drop bytecnt out)
    then record { code = pos 0; out = some (out, bytecnt); events = done ++ (closed ∷ []) }
    else record { code = negsuc 7; out = none; events = done ++ (closed ∷ []) }

abbrev pub fail : ℤ → List SerialEvent → Outcome
fail code done = record { code = code; out = none; events = done ++ (closed ∷ []) }

-- From the second `read` on.
unfoldable pub read_rest : SerialLine → Bytes → ℕ → List SerialEvent → Outcome
read_rest port hdr bytecnt done = elim (port.read_body (bytecnt + 2)) [
  | none ↦ fail (negsuc 5) (done ++ (read_asked (bytecnt + 2) ∷ []))
  | some out ↦
      if length out == bytecnt + 2
      then check_crc hdr bytecnt out (done ++ (read_asked (bytecnt + 2) ∷ []))
      else fail (negsuc 5) (done ++ (read_asked (bytecnt + 2) ∷ []))
]

-- The tests on the three bytes of the header.
unfoldable pub check_hdr : SerialLine → ℕ → ℕ → Bytes → List SerialEvent → Outcome
check_hdr port id outcap (h0 ∷ h1 ∷ h2 ∷ []) done =
    if not (h0 == id) || not (h1 == 0x03)
    then fail (negsuc 3) done
    else if ltb outcap (h2 + 2)
    then fail (negsuc 4) done
    else read_rest port (h0 ∷ h1 ∷ h2 ∷ []) h2 done
check_hdr port id outcap _ done = fail (negsuc 2) done

-- What was done before each of the two early returns, and before the header is looked at.
abbrev pub asked : Bytes → List SerialEvent
asked req = opened ∷ flushed ∷ written req ∷ []

abbrev pub waited : Bytes → List SerialEvent
waited req = opened ∷ flushed ∷ written req ∷ slept 12000 ∷ read_asked 3 ∷ []

-- From the first `read` on.
unfoldable pub read_hdr : SerialLine → ℕ → ℕ → Bytes → Outcome
read_hdr port id outcap req = elim (port.read_hdr 3) [
  | none ↦ fail (negsuc 2) (waited req)
  | some hdr ↦ check_hdr port id outcap hdr (waited req)
]

-- From `serial_write` on, with the line open.
unfoldable pub send_request : SerialLine → ℕ → ℕ → Bytes → Outcome
send_request port id outcap req = elim (port.write req) [
  | none ↦ fail (negsuc 1) (asked req)
  | some n ↦ if n == 8 then read_hdr port id outcap req else fail (negsuc 1) (asked req)
]

unfoldable pub mb_read_holding_regs : SerialLine → ℕ → ℕ → ℕ → ℕ → Outcome
mb_read_holding_regs port id addr count outcap =
    if port.opens
    then send_request port id outcap (request id addr count)
    else record { code = negsuc 0; out = none; events = [] }
