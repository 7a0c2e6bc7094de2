-- ===== src/Azurectl/Modbus/Arrival.antt =====
-- Replies that reach package/evi-azurectl/src/modbus_rtu.c in pieces, over a line as
-- serial_posix.c sets it: VMIN is 0, and a read returns what has arrived, not all that was asked
-- for.
use python2c.Base.{
  ℕ, ◌+◌, ◌≤◌, ◌≡◌, ◌↔◌, refl, sym, ap, ◌∙◌, true, [], ◌∷◌, ◌++◌, append-nil, some, Bytes, arith,
  length, length-append, length-take, take, drop, take-eq_of_le, take-append_of_le,
  drop-append_of_le, pos,
}
use mathlib.Core.Option.{some-injective}
use python2c.Azurectl.Modbus
use python2c.Azurectl.Modbus.{SerialLine, crc16}
use python2c.Azurectl.Modbus.Accept.{tail_of, mb_read-frame}
use python2c.Azurectl.Modbus.Sound.{mb_read-FrameRead}

-- `first` has arrived when the first read returns, and `later` besides when the second does.
pub record Arrives (port : SerialLine) (first later : Bytes) : Type 0 where
  pub hdr_read : (n : ℕ) → port.read_hdr n ≡ some (take n first)
  pub body_read : (n : ℕ) → port.read_body n ≡ some (take n (drop 3 first ++ later))

abbrev pub body_of : ℕ → Bytes → Bytes
body_of id payload = payload ++ tail_of (crc16 ((id ∷ 0x03 ∷ length payload ∷ []) ++ payload))

-- The frame with which a slave answers.
abbrev pub frame_of : ℕ → Bytes → Bytes
frame_of id payload = id ∷ 0x03 ∷ length payload ∷ body_of id payload

length-body_of : (id : ℕ) (payload : Bytes) → length (body_of id payload) ≡ length payload + 2
length-body_of id payload =
    length-append payload (tail_of (crc16 ((id ∷ 0x03 ∷ length payload ∷ []) ++ payload)))

nil_of_length : (xs : Bytes) → length xs ≡ 0 → xs ≡ []
nil_of_length [] h = refl
nil_of_length (x ∷ xs) h = absurd (omega arith)

module _ (id : ℕ) (payload first later late : Bytes)
    (sent : first ++ (later ++ late) ≡ frame_of id payload) where
  header_in_first : 3 ≤ length first → take 3 first ≡ id ∷ 0x03 ∷ length payload ∷ []
  header_in_first h = sym (take-append_of_le 3 first (later ++ late) h) ∙ ap (take 3) sent

  body_behind : 3 ≤ length first → drop 3 first ++ (later ++ late) ≡ body_of id payload
  body_behind h = sym (drop-append_of_le 3 first (later ++ late) h) ∙ ap (drop 3) sent

  read_whole :
      late ≡ []
      → 3 ≤ length first
      → take (length payload + 2) (drop 3 first ++ later) ≡ body_of id payload
  read_whole none_late h =
      let behind : drop 3 first ++ later ≡ body_of id payload =
        ap (λ r. drop 3 first ++ r) (sym (append-nil later) ∙ ap (λ r. later ++ r) (sym none_late))
        ∙ body_behind h in
      ap (take (length payload + 2)) behind
      ∙ take-eq_of_le (length payload + 2) (body_of id payload)
          (omega (arith, length-body_of id payload))

  nothing_late :
      (n : ℕ)
      → n ≡ length payload
      → 3 ≤ length first
      → length (take (n + 2) (drop 3 first ++ later)) ≡ n + 2
      → late ≡ []
  nothing_late n same h whole = nil_of_length late (
      omega (
        arith,
        length-take (n + 2) (drop 3 first ++ later),
        length-append (drop 3 first) later,
        length-append (drop 3 first) (later ++ late),
        length-append later late,
        ap length (body_behind h),
        length-body_of id payload,
      ))

  module _ (port : SerialLine) (addr count outcap : ℕ) (arrives : Arrives port first later) where
    -- A slave answers with the frame of its data. The line opens, the request is written whole, and
    -- the buffer has room: the call returns 0 exactly if the three bytes of the header have arrived
    -- at its first read and all others at its second.
    pub mb_read-Arrives_iff :
        port.opens ≡ true
        → port.write (Modbus.request id addr count) ≡ some 8
        → length payload + 2 ≤ outcap
        → ((Modbus.mb_read_holding_regs port id addr count outcap).code ≡ pos 0)
          ↔ ((3 ≤ length first) × (late ≡ []))
    mb_read-Arrives_iff opens writes room = (
      λ e.
          let (_, _, (hdr, reads, f)) = mb_read-FrameRead port id addr count outcap e in
          let three : take 3 first ≡ id ∷ 0x03 ∷ f.n ∷ [] =
            some-injective _ _ (sym (arrives.hdr_read 3) ∙ reads) ∙ f.header in
          let h : 3 ≤ length first = omega (arith, ap length three, length-take 3 first) in
          let same : f.n ≡ length payload = cc (three, header_in_first h) in
          let body : take (f.n + 2) (drop 3 first ++ later) ≡ f.body =
            some-injective _ _ (sym (arrives.body_read (f.n + 2)) ∙ f.body_read) in
          (h, nothing_late f.n same h (ap length body ∙ f.whole)),
      λ (h, none_late).
          (mb_read-frame port id addr count outcap (length payload) payload opens writes
            (arrives.hdr_read 3 ∙ ap some (header_in_first h)) refl room
            (arrives.body_read (length payload + 2) ∙ ap some (read_whole none_late h))).0,
    )
