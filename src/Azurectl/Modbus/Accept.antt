-- ===== src/Azurectl/Modbus/Accept.antt =====
-- Which replies package/evi-azurectl/src/modbus_rtu.c accepts.
use python2c.Base.{
  ℕ, zero, suc, ◌+◌, ◌/◌, ◌%◌, ◌≤◌, ◌≡◌, sym, ap, ◌∙◌, true, List, [], ◌∷◌, ◌++◌, some, Bytes,
  arith, ◌==◌, length, length-append, take, drop, take-eq_of_le, take-append_of_le, pos,
}
use python2c.Azurectl.Modbus
use python2c.Azurectl.Modbus.{SerialLine, SerialEvent, Outcome, crc16, crc_loop, crc_received}
use python2c.Azurectl.Modbus.Crc.{crc_loop-append}

abbrev pub tail_of : ℕ → Bytes
tail_of c = (c % 256) ∷ (c / 256) ∷ []

pub crc_two : (hdr data' : Bytes) → crc_loop (crc_loop 0xFFFF hdr) data' ≡ crc16 (hdr ++ data')
unfolding crc16
crc_two hdr data' = sym (crc_loop-append 0xFFFF hdr data')

take-front : (xs ys : Bytes) (n : ℕ) → length xs ≡ n → take n (xs ++ ys) ≡ xs
take-front xs ys n h = take-append_of_le n xs ys (omega arith) ∙ take-eq_of_le n xs (omega arith)

drop-front : (xs ys : Bytes) (n : ℕ) → length xs ≡ n → drop n (xs ++ ys) ≡ ys
drop-front [] ys n h = rw (← h)
drop-front (x ∷ xs) ys zero h = absurd (omega arith)
drop-front (x ∷ xs) ys (suc n) h = drop-front xs ys n (omega arith)

received-tail : (c : ℕ) → crc_received (tail_of c) ≡ c
unfolding crc_received
received-tail c = omega arith

==_self : (n : ℕ) → (n == n) ≡ true
==_self n = ground arith

abbrev accepted : Bytes → ℕ → List SerialEvent → Outcome
accepted out n done = record {
  code = pos 0;
  out = some (out, n);
  events = done ++ (Modbus.SerialEvent.closed ∷ []);
}

check_crc-frame :
    (hdr payload : Bytes) (n : ℕ) (done : List SerialEvent)
    → length payload ≡ n
    → Modbus.check_crc hdr n (payload ++ tail_of (crc16 (hdr ++ payload))) done
      ≡ accepted (payload ++ tail_of (crc16 (hdr ++ payload))) n done
unfolding Modbus.check_crc
check_crc-frame hdr payload n done len = rw (
  take-front payload (tail_of (crc16 (hdr ++ payload))) n len,
  drop-front payload (tail_of (crc16 (hdr ++ payload))) n len,
  crc_two,
  received-tail,
  ==_self,
)

-- A body of the length asked for goes on to the checksum.
pub read_rest-whole :
    (port : SerialLine) (hdr out : Bytes) (n : ℕ) (done : List SerialEvent)
    → port.read_body (n + 2) ≡ some out
    → length out ≡ n + 2
    → Modbus.read_rest port hdr n done
      ≡ Modbus.check_crc hdr n out (done ++ (Modbus.SerialEvent.read_asked (n + 2) ∷ []))
unfolding Modbus.read_rest
read_rest-whole port hdr out n done body len = rw (body, Modbus.read_rest, len, ==_self)

check_hdr-ours :
    (port : SerialLine) (id n outcap : ℕ) (done : List SerialEvent)
    → n + 2 ≤ outcap
    → Modbus.check_hdr port id outcap (id ∷ 0x03 ∷ n ∷ []) done
      ≡ Modbus.read_rest port (id ∷ 0x03 ∷ n ∷ []) n done
unfolding Modbus.check_hdr
check_hdr-ours port id n outcap done room = ground arith

pub read_hdr-some :
    (port : SerialLine) (id outcap : ℕ) (req hdr : Bytes)
    → port.read_hdr 3 ≡ some hdr
    → Modbus.read_hdr port id outcap req ≡ Modbus.check_hdr port id outcap hdr (Modbus.waited req)
unfolding Modbus.read_hdr
read_hdr-some port id outcap req hdr e = rw (e, Modbus.read_hdr)

pub send_request-whole :
    (port : SerialLine) (id outcap : ℕ) (req : Bytes)
    → port.write req ≡ some 8
    → Modbus.send_request port id outcap req ≡ Modbus.read_hdr port id outcap req
unfolding Modbus.send_request
send_request-whole port id outcap req e = rw (e, Modbus.send_request)

opened-request :
    (port : SerialLine) (id addr count outcap : ℕ)
    → port.opens ≡ true
    → Modbus.mb_read_holding_regs port id addr count outcap
      ≡ Modbus.send_request port id outcap (Modbus.request id addr count)
unfolding Modbus.mb_read_holding_regs
opened-request port id addr count outcap e = ground arith

-- A slave that answers with the frame of the data asked for, and its checksum, is believed: the
-- line open, the request written whole, both reads complete and room in the buffer, the call
-- returns 0 with the data.
pub mb_read-frame :
    (port : SerialLine) (id addr count outcap n : ℕ) (payload : Bytes)
    → port.opens ≡ true
    → port.write (Modbus.request id addr count) ≡ some 8
    → port.read_hdr 3 ≡ some (id ∷ 0x03 ∷ n ∷ [])
    → length payload ≡ n
    → n + 2 ≤ outcap
    → port.read_body (n + 2) ≡ some (payload ++ tail_of (crc16 ((id ∷ 0x03 ∷ n ∷ []) ++ payload)))
    → ((Modbus.mb_read_holding_regs port id addr count outcap).code ≡ pos 0)
      × ((Modbus.mb_read_holding_regs port id addr count outcap).out
          ≡ some (payload ++ tail_of (crc16 ((id ∷ 0x03 ∷ n ∷ []) ++ payload)), n))
mb_read-frame port id addr count outcap n payload opens writes hdr len room body =
    let done = Modbus.waited (Modbus.request id addr count) in
    let all =
      opened-request port id addr count outcap opens
      ∙ send_request-whole port id outcap _ writes
      ∙ read_hdr-some port id outcap _ _ hdr
      ∙ check_hdr-ours port id n outcap done room
      ∙ read_rest-whole port (id ∷ 0x03 ∷ n ∷ []) _ n done body
          (omega (arith, length-append payload (tail_of (crc16 ((id ∷ 0x03 ∷ n ∷ []) ++ payload)))))
      ∙ check_crc-frame (id ∷ 0x03 ∷ n ∷ []) payload n _ len in
    (ap (λ (o : Outcome). o.code) all, ap (λ (o : Outcome). o.out) all)
