-- ===== src/Azurectl/Modbus/Sound.antt =====
-- What package/evi-azurectl/src/modbus_rtu.c has read when it returns 0.
use python2c.Base.{
  ℕ, ◌+◌, ◌/◌, ◌%◌, ◌≤◌, ◌≡◌, sym, ap, ◌∙◌, true, false, List, [], ◌∷◌, ◌++◌, none, some, Bytes,
  IsByte, All, All-take, All-drop, arith, ◌==◌, ==_iff, length, length-drop, take, drop,
  take-append-drop, pos, negsuc, Bool-cases, inl, inr, Option-cases,
}
use mathlib.Core.Path.{subst}
use python2c.Azurectl.Modbus
use python2c.Azurectl.Modbus.{SerialLine, SerialEvent, Outcome, crc16, crc_loop, crc_received}
use python2c.Azurectl.Modbus.Crc.{crc_loop-append, crc_loop-IsU16, own_checksum}
use python2c.Azurectl.Modbus.Accept.{read_rest-whole, read_hdr-some, send_request-whole, crc_two}

-- A call that returned 0: its two reads, the room they had, and what they sum to.
abbrev BodyRead : SerialLine → Bytes → ℕ → Outcome → Type 0
BodyRead port hdr n o =
    (body : Bytes) × (port.read_body (n + 2) ≡ some body)
    × (length body ≡ n + 2)
    × (o.out ≡ some (body, n))
    × (crc_loop (crc_loop 0xFFFF hdr) (take n body) ≡ crc_received (drop n body))

check_crc-code :
    (hdr : Bytes) (n : ℕ) (out : Bytes) (done : List SerialEvent)
    → (Modbus.check_crc hdr n out done).code ≡ pos 0
    → ((Modbus.check_crc hdr n out done).out ≡ some (out, n))
      × (crc_loop (crc_loop 0xFFFF hdr) (take n out) ≡ crc_received (drop n out))
unfolding Modbus.check_crc
check_crc-code hdr n out done e =
    ground (arith, ==_iff (crc_loop (crc_loop 0xFFFF hdr) (take n out)) (crc_received (drop n out)))

read_rest-none :
    (port : SerialLine) (hdr : Bytes) (n : ℕ) (done : List SerialEvent)
    → port.read_body (n + 2) ≡ none
    → (Modbus.read_rest port hdr n done).code ≡ negsuc 5
unfolding Modbus.read_rest
read_rest-none port hdr n done e = rw (e, Modbus.read_rest)

read_rest-short :
    (port : SerialLine) (hdr out : Bytes) (n : ℕ) (done : List SerialEvent)
    → port.read_body (n + 2) ≡ some out
    → (length out == n + 2) ≡ false
    → (Modbus.read_rest port hdr n done).code ≡ negsuc 5
unfolding Modbus.read_rest
read_rest-short port hdr out n done e short = rw (e, Modbus.read_rest, short)

read_rest-code :
    (port : SerialLine) (hdr : Bytes) (n : ℕ) (done : List SerialEvent)
    → (Modbus.read_rest port hdr n done).code ≡ pos 0
    → BodyRead port hdr n (Modbus.read_rest port hdr n done)
read_rest-code port hdr n done e = elim (Option-cases (port.read_body (n + 2))) [
  | inl failed ↦ cc (read_rest-none port hdr n done failed)
  | inr (out, body) ↦ elim (Bool-cases (length out == n + 2)) [
    | inr short ↦ cc (read_rest-short port hdr out n done body short)
    | inl len ↦
        let whole = (==_iff (length out) (n + 2)).0 len in
        let rest = read_rest-whole port hdr out n done body whole in
        let checked = check_crc-code hdr n out _ (ap (λ (o : Outcome). o.code) (sym rest) ∙ e) in
        (out, body, whole, ap (λ (o : Outcome). o.out) rest ∙ checked.0, checked.1)
  ]
]

check_hdr-three :
    (port : SerialLine) (id outcap h0 h1 h2 : ℕ) (done : List SerialEvent)
    → (Modbus.check_hdr port id outcap (h0 ∷ h1 ∷ h2 ∷ []) done).code ≡ pos 0
    → (h0 ≡ id)
      × (h1 ≡ 0x03)
      × (h2 + 2 ≤ outcap)
      × (Modbus.check_hdr port id outcap (h0 ∷ h1 ∷ h2 ∷ []) done
          ≡ Modbus.read_rest port (h0 ∷ h1 ∷ h2 ∷ []) h2 done)
unfolding Modbus.check_hdr
check_hdr-three port id outcap h0 h1 h2 done e = ground arith

-- The header and the body that a call has read.
pub record FrameRead (port : SerialLine) (id outcap : ℕ) (hdr : Bytes) (o : Outcome) : Type 0 where
  pub n : ℕ
  pub body : Bytes
  pub header : hdr ≡ id ∷ 0x03 ∷ n ∷ []
  pub body_read : port.read_body (n + 2) ≡ some body
  pub whole : length body ≡ n + 2
  pub room : n + 2 ≤ outcap
  pub result : o.out ≡ some (body, n)
  pub sums : crc_loop (crc_loop 0xFFFF hdr) (take n body) ≡ crc_received (drop n body)

check_hdr-code :
    (port : SerialLine) (id outcap : ℕ) (hdr : Bytes) (done : List SerialEvent)
    → (Modbus.check_hdr port id outcap hdr done).code ≡ pos 0
    → FrameRead port id outcap hdr (Modbus.check_hdr port id outcap hdr done)
check_hdr-code port id outcap [] done e = unfold Modbus.check_hdr in cc e
check_hdr-code port id outcap (h0 ∷ []) done e = unfold Modbus.check_hdr in cc e
check_hdr-code port id outcap (h0 ∷ h1 ∷ []) done e = unfold Modbus.check_hdr in cc e
check_hdr-code port id outcap (h0 ∷ h1 ∷ h2 ∷ x ∷ rest) done e = unfold Modbus.check_hdr in cc e
check_hdr-code port id outcap (h0 ∷ h1 ∷ h2 ∷ []) done e =
    let (i0, i1, fits, rest) = check_hdr-three port id outcap h0 h1 h2 done e in
    let (body, reads, len, out, sums) =
      read_rest-code port (h0 ∷ h1 ∷ h2 ∷ []) h2 done
        (ap (λ (o : Outcome). o.code) (sym rest) ∙ e) in
    record {
      n = h2;
      body = body;
      header = cc (i0, i1);
      body_read = reads;
      whole = len;
      room = fits;
      result = ap (λ (o : Outcome). o.out) rest ∙ out;
      sums = sums;
    }

two_bytes :
    (c : ℕ) (bs : Bytes)
    → length bs ≡ 2
    → All IsByte bs
    → c ≡ crc_received bs
    → bs ≡ (c % 256) ∷ (c / 256) ∷ []
unfolding crc_received
two_bytes c (lo ∷ hi ∷ []) len h e = ground arith
two_bytes c [] len h e = absurd (omega arith)
two_bytes c (lo ∷ []) len h e = absurd (omega arith)
two_bytes c (lo ∷ hi ∷ x ∷ rest) len h e = absurd (omega arith)

-- A body whose last two bytes are the checksum of what stands before them leaves the sum 0.
frame_residue :
    (hdr body : Bytes) (n : ℕ)
    → length body ≡ n + 2
    → All IsByte hdr
    → All IsByte body
    → crc_loop (crc_loop 0xFFFF hdr) (take n body) ≡ crc_received (drop n body)
    → crc16 (hdr ++ body) ≡ 0
frame_residue hdr body n len bh bb e =
    let sum = crc_loop (crc_loop 0xFFFF hdr) (take n body) in
    let fits =
      crc_loop-IsU16 (crc_loop 0xFFFF hdr) (take n body)
        (crc_loop-IsU16 0xFFFF hdr (omega arith) bh) (All-take IsByte n body bb) in
    let tail =
      two_bytes sum (drop n body) (length-drop n body ∙ omega arith) (All-drop IsByte n body bb)
        e in
    sym (crc_two hdr body)
    ∙ ap (crc_loop (crc_loop 0xFFFF hdr)) (sym (take-append-drop n body))
    ∙ crc_loop-append (crc_loop 0xFFFF hdr) (take n body) (drop n body)
    ∙ ap (crc_loop sum) tail
    ∙ own_checksum sum fits

read_hdr-none :
    (port : SerialLine) (id outcap : ℕ) (req : Bytes)
    → port.read_hdr 3 ≡ none
    → (Modbus.read_hdr port id outcap req).code ≡ negsuc 2
unfolding Modbus.read_hdr
read_hdr-none port id outcap req e = rw (e, Modbus.read_hdr)

send_request-fails :
    (port : SerialLine) (id outcap : ℕ) (req : Bytes)
    → port.write req ≡ none
    → (Modbus.send_request port id outcap req).code ≡ negsuc 1
unfolding Modbus.send_request
send_request-fails port id outcap req e = rw (e, Modbus.send_request)

send_request-short :
    (port : SerialLine) (id outcap : ℕ) (req : Bytes) (n : ℕ)
    → port.write req ≡ some n
    → (n == 8) ≡ false
    → (Modbus.send_request port id outcap req).code ≡ negsuc 1
unfolding Modbus.send_request
send_request-short port id outcap req n e short = rw (e, Modbus.send_request, short)

read_hdr-code :
    (port : SerialLine) (id outcap : ℕ) (req : Bytes)
    → (Modbus.read_hdr port id outcap req).code ≡ pos 0
    → (hdr : Bytes) × (port.read_hdr 3 ≡ some hdr)
      × FrameRead port id outcap hdr (Modbus.read_hdr port id outcap req)
read_hdr-code port id outcap req e = elim (Option-cases (port.read_hdr 3)) [
  | inl silent ↦ cc (read_hdr-none port id outcap req silent)
  | inr (hdr, reads) ↦
      let rest = read_hdr-some port id outcap req hdr reads in
      (
        hdr,
        reads,
        subst (FrameRead port id outcap hdr) (sym rest)
            (check_hdr-code port id outcap hdr _ (ap (λ (o : Outcome). o.code) (sym rest) ∙ e)),
      )
]

send_request-code :
    (port : SerialLine) (id outcap : ℕ) (req : Bytes)
    → (Modbus.send_request port id outcap req).code ≡ pos 0
    → (port.write req ≡ some 8)
      × (Modbus.send_request port id outcap req ≡ Modbus.read_hdr port id outcap req)
unfolding Modbus.send_request
send_request-code port id outcap req e = elim (Option-cases (port.write req)) [
  | inl failed ↦ cc (send_request-fails port id outcap req failed)
  | inr (n, writes) ↦ elim (Bool-cases (n == 8)) [
    | inr short ↦ cc (send_request-short port id outcap req n writes short)
    | inl all ↦
        let written = writes ∙ ap some ((==_iff n 8).0 all) in
        (written, send_request-whole port id outcap req written)
  ]
]

mb_read-code :
    (port : SerialLine) (id addr count outcap : ℕ)
    → (Modbus.mb_read_holding_regs port id addr count outcap).code ≡ pos 0
    → (port.opens ≡ true)
      × (Modbus.mb_read_holding_regs port id addr count outcap
          ≡ Modbus.send_request port id outcap (Modbus.request id addr count))
unfolding Modbus.mb_read_holding_regs
mb_read-code port id addr count outcap e = ground arith

-- Everything a call that returned 0 has done.
pub mb_read-FrameRead :
    (port : SerialLine) (id addr count outcap : ℕ)
    → (Modbus.mb_read_holding_regs port id addr count outcap).code ≡ pos 0
    → (port.opens ≡ true)
      × (port.write (Modbus.request id addr count) ≡ some 8)
      × ((hdr : Bytes) × (port.read_hdr 3 ≡ some hdr)
          × FrameRead port id outcap hdr (Modbus.mb_read_holding_regs port id addr count outcap))
mb_read-FrameRead port id addr count outcap e =
    let (opens, sent) = mb_read-code port id addr count outcap e in
    let req = Modbus.request id addr count in
    let (wrote, asked) =
      send_request-code port id outcap req (ap (λ (o : Outcome). o.code) (sym sent) ∙ e) in
    let whole = sent ∙ asked in
    let (hdr, reads, f) =
      read_hdr-code port id outcap req (ap (λ (o : Outcome). o.code) (sym whole) ∙ e) in
    (opens, wrote, (hdr, reads, subst (FrameRead port id outcap hdr) (sym whole) f))

-- Where the line gives bytes, a call that returned 0 opened it and wrote the request whole; it read
-- a header of the slave asked and function 3, and after it a body of exactly the announced length
-- and two bytes more, for which the buffer had room; that body is its output, and the header and
-- the body together have checksum 0.
pub mb_read_sound :
    (port : SerialLine) (id addr count outcap : ℕ)
    → ((hdr : Bytes) → port.read_hdr 3 ≡ some hdr → All IsByte hdr)
    → ((k : ℕ) (bs : Bytes) → port.read_body k ≡ some bs → All IsByte bs)
    → (Modbus.mb_read_holding_regs port id addr count outcap).code ≡ pos 0
    → (port.opens ≡ true)
      × (port.write (Modbus.request id addr count) ≡ some 8)
      × ((n : ℕ) × (body : Bytes) × (port.read_hdr 3 ≡ some (id ∷ 0x03 ∷ n ∷ []))
          × (port.read_body (n + 2) ≡ some body)
          × (length body ≡ n + 2)
          × (n + 2 ≤ outcap)
          × ((Modbus.mb_read_holding_regs port id addr count outcap).out ≡ some (body, n))
          × (crc16 ((id ∷ 0x03 ∷ n ∷ []) ++ body) ≡ 0))
mb_read_sound port id addr count outcap bh bb e =
    let (opens, wrote, (hdr, reads, f)) = mb_read-FrameRead port id addr count outcap e in
    let sum =
      frame_residue hdr f.body f.n f.whole (bh hdr reads) (bb (f.n + 2) f.body f.body_read)
        f.sums in
    (
      opens,
      wrote,
      (
        f.n,
        f.body,
        reads ∙ ap some f.header,
        f.body_read,
        f.whole,
        f.room,
        f.result,
        ap (λ (h : Bytes). crc16 (h ++ f.body)) (sym f.header) ∙ sum,
      ),
    )
