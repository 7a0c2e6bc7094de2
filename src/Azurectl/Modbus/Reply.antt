-- ===== src/Azurectl/Modbus/Reply.antt =====
-- The replies that package/evi-azurectl/src/modbus_rtu.c takes, and the line it leaves.
use python2c.Base.{
  ℕ, ◌+◌, Bool, true, false, not, ◌||◌, List, [], ◌∷◌, ◌++◌, Bytes, All, if◌then◌else◌, ◌==◌, ltb,
  length, take, drop, Bool-cases, inl, inr, Option-cases,
}
use python2c.Azurectl.Modbus
use python2c.Azurectl.Modbus.{
  SerialLine, SerialEvent, opened, flushed, written, slept, read_asked, closed, Outcome, crc16,
  crc_loop, crc_received,
}

-- The line was not opened, or it was opened first and closed last, with neither in between.
abbrev Inner : SerialEvent → Type 0
Inner opened = ⊥
Inner closed = ⊥
Inner _ = Unit

pub data IsClosed : List SerialEvent → Type 0 where
  untouched : IsClosed []
  used : (es : List SerialEvent) → All Inner es → IsClosed (opened ∷ (es ++ (closed ∷ [])))

check_crc-IsClosed :
    (hdr out : Bytes) (n : ℕ) (es : List SerialEvent)
    → All Inner es
    → IsClosed (Modbus.check_crc hdr n out (opened ∷ es)).events
unfolding Modbus.check_crc
check_crc-IsClosed hdr out n es h =
    elim (Bool-cases (crc_loop (crc_loop 0xFFFF hdr) (take n out) == crc_received (drop n out))) [
      | inl good ↦ rw good (used es h)
      | inr bad ↦ rw bad (used es h)
    ]

Inner-read : (es : List SerialEvent) (n : ℕ) → All Inner es → All Inner (es ++ (read_asked n ∷ []))
Inner-read [] n h = (tt, tt)
Inner-read (e ∷ es) n h = (h.0, Inner-read es n h.1)

read_rest-IsClosed :
    (port : SerialLine) (hdr : Bytes) (n : ℕ) (es : List SerialEvent)
    → All Inner es
    → IsClosed (Modbus.read_rest port hdr n (opened ∷ es)).events
unfolding Modbus.read_rest
read_rest-IsClosed port hdr n es h = elim (Option-cases (port.read_body (n + 2))) [
  | inl failed ↦ rw (failed, Modbus.read_rest) (used _ (Inner-read es (n + 2) h))
  | inr (out, e) ↦ elim (Bool-cases (length out == n + 2)) [
    | inl whole ↦
        rw (e, Modbus.read_rest, whole) (check_crc-IsClosed hdr out n _ (Inner-read es (n + 2) h))
    | inr short ↦ rw (e, Modbus.read_rest, short) (used _ (Inner-read es (n + 2) h))
  ]
]

check_hdr-IsClosed :
    (port : SerialLine) (id outcap : ℕ) (hdr : Bytes) (es : List SerialEvent)
    → All Inner es
    → IsClosed (Modbus.check_hdr port id outcap hdr (opened ∷ es)).events
unfolding Modbus.check_hdr
check_hdr-IsClosed port id outcap (h0 ∷ h1 ∷ h2 ∷ []) es h =
    elim (Bool-cases (not (h0 == id) || not (h1 == 0x03))) [
      | inl other ↦ rw other (used es h)
      | inr ours ↦ elim (Bool-cases (ltb outcap (h2 + 2))) [
        | inl long ↦ rw (ours, long) (used es h)
        | inr fits ↦ rw (ours, fits) (read_rest-IsClosed port (h0 ∷ h1 ∷ h2 ∷ []) h2 es h)
      ]
    ]
check_hdr-IsClosed port id outcap [] es h = used es h
check_hdr-IsClosed port id outcap (h0 ∷ []) es h = used es h
check_hdr-IsClosed port id outcap (h0 ∷ h1 ∷ []) es h = used es h
check_hdr-IsClosed port id outcap (h0 ∷ h1 ∷ h2 ∷ x ∷ rest) es h = used es h

read_hdr-IsClosed :
    (port : SerialLine) (id outcap : ℕ) (req : Bytes)
    → IsClosed (Modbus.read_hdr port id outcap req).events
unfolding Modbus.read_hdr
read_hdr-IsClosed port id outcap req = elim (Option-cases (port.read_hdr 3)) [
  | inl silent ↦ rw (silent, Modbus.read_hdr) (used waiting (tt, (tt, (tt, (tt, tt)))))
  | inr (hdr, e) ↦
      rw (e, Modbus.read_hdr)
        (check_hdr-IsClosed port id outcap hdr waiting (tt, (tt, (tt, (tt, tt)))))
]
  where
    waiting : List SerialEvent
    waiting = flushed ∷ written req ∷ slept 12000 ∷ read_asked 3 ∷ []

send_request-IsClosed :
    (port : SerialLine) (id outcap : ℕ) (req : Bytes)
    → IsClosed (Modbus.send_request port id outcap req).events
unfolding Modbus.send_request
send_request-IsClosed port id outcap req = elim (Option-cases (port.write req)) [
  | inl failed ↦ rw (failed, Modbus.send_request) (used sending (tt, (tt, tt)))
  | inr (n, e) ↦ elim (Bool-cases (n == 8)) [
    | inr short ↦ rw (e, Modbus.send_request, short) (used sending (tt, (tt, tt)))
    | inl whole ↦ rw (e, Modbus.send_request, whole) (read_hdr-IsClosed port id outcap req)
  ]
]
  where
    sending : List SerialEvent
    sending = flushed ∷ written req ∷ []

either-IsClosed :
    (b : Bool) (x y : Outcome)
    → IsClosed x.events
    → IsClosed y.events
    → IsClosed (if b then x else y).events
either-IsClosed true x y h k = h
either-IsClosed false x y h k = k

-- On every path, errors included, a request leaves the line as it was found: never opened, or
-- opened first and closed last, once each.
pub mb_read-IsClosed :
    (port : SerialLine) (id addr count outcap : ℕ)
    → IsClosed (Modbus.mb_read_holding_regs port id addr count outcap).events
unfolding Modbus.mb_read_holding_regs
mb_read-IsClosed port id addr count outcap =
    either-IsClosed port.opens _ _
      (send_request-IsClosed port id outcap (Modbus.request id addr count)) untouched
