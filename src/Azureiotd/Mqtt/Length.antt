-- ===== src/Azureiotd/Mqtt/Length.antt =====
-- The length fields of the MQTT packets, read by the other side.
use Prim.Native.Nat.{bit_or}
use python2c.Base.{
  ℕ, zero, suc, ◌+◌, ◌-◌, ◌*◌, ◌/◌, ◌%◌, ◌^◌, ◌<◌, ◌≤◌, ◌≡◌, ◌↔◌, refl, ap, true, false, [], ◌∷◌,
  ◌++◌, Option, none, some, Bytes, drop, length, if◌then◌else◌, ◌==◌, ==_iff, ltb, arith,
  Bool-cases, inl, inr,
}
use python2c.Base.Bits.{all_below, all_below→pass}
use python2c.Azureiotd.Mqtt.{remaining, connect_packet, connect_body}

-- MQTT's Remaining Length, as its section 2.2.3 reads it: seven bits a byte, the lowest first, with
-- the top bit set on all but the last; the length, and the bytes behind it.
unfoldable pub read_length : ℕ → Bytes → Option (ℕ × Bytes)
read_length zero s = none
read_length (suc f) [] = none
read_length (suc f) (b ∷ bs) =
    let rest = read_length f bs in
    if ltb b 128
    then some (b, bs)
    else elim rest [ none ↦ none | some (n, more) ↦ some (b - 128 + 128 * n, more) ]

top_table : all_below 128 (λ d. bit_or d 0x80 == d + 128) ≡ true
unfolding all_below
top_table = refl

top_bit : (d : ℕ) → d < 128 → bit_or d 0x80 ≡ d + 128
top_bit d h = (==_iff _ _).0 (all_below→pass 128 _ d top_table h)

some_round : (f n : ℕ) → n < 128 ^ f → 1 ≤ n → 1 ≤ f
some_round zero n h l = absurd (omega arith)
some_round (suc f) n h l = omega arith

-- The Remaining Length of a PUBLISH is read back: for a number below 128 ^ f, f at least 1, and
-- whatever follows it, a reader of f bytes finds the number in what the loop writes in f rounds,
-- and stops right before what follows.
pub read-remaining :
    (f val : ℕ) (body : Bytes)
    → val < 128 ^ f
    → 1 ≤ f
    → read_length f (remaining f val ++ body) ≡ some (val, body)
unfolding read_length remaining
read-remaining zero val body h l = absurd (omega arith)
read-remaining (suc f) val body h l = elim (Bool-cases (ltb 0 (val / 128))) [
  | inl more ↦
      rw
        (
          more,
          top_bit (val % 128) (omega arith),
          above (val % 128),
          read-remaining f (val / 128) body smaller
              (some_round f (val / 128) smaller (ground arith)),
        )
        (ap (λ n. some (n, body)) (omega (arith, top_bit (val % 128) (omega arith))))
  | inr last ↦ rw (last, below (val % 128) (omega arith)) (ap (λ n. some (n, body)) (ground arith))
]
  where
    smaller : val / 128 < 128 ^ f
    smaller = omega (arith, h)

    above : (d : ℕ) → ltb (d + 128) 128 ≡ false
    above d = ground arith

    below : (d : ℕ) → d < 128 → ltb d 128 ≡ true
    below d b = ground arith

-- CONNECT writes its Remaining Length in one byte: a reader finds it and the body behind it just
-- when the body is shorter than 128 bytes.
pub connect_packet-length_iff :
    (host device_id : Bytes) (keepalive : ℕ)
    → (read_length 4 (drop 1 (connect_packet host device_id keepalive))
        ≡ some
            (length (connect_body host device_id keepalive), connect_body host device_id keepalive))
      ↔ (length (connect_body host device_id keepalive) < 128)
unfolding connect_packet read_length
connect_packet-length_iff host device_id keepalive = ground arith
